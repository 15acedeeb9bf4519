-- ===== src/Base/Word.antt =====
-- Machine words: `unsigned long` has 64 bits and `u32`, `unsigned int` have 32, with wrap-around.
use Prim.Native.Nat.{ℕ, ◌+◌, ◌-◌, ◌*◌, ◌%◌, ◌^◌}

abbrev pub ulong_mod : ℕ
ulong_mod = 2 ^ 64

abbrev pub u32_mod : ℕ
u32_mod = 2 ^ 32

abbrev pub add64 : ℕ → ℕ → ℕ
add64 a b = (a + b) % ulong_mod

abbrev pub sub64 : ℕ → ℕ → ℕ
sub64 a b = (a + ulong_mod - b) % ulong_mod

abbrev pub mul64 : ℕ → ℕ → ℕ
mul64 a b = (a * b) % ulong_mod

abbrev pub to_u32 : ℕ → ℕ
to_u32 a = a % u32_mod
