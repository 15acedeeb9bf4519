-- ===== src/Kernel/Bitmap.antt =====
-- The bitmap functions of Linux (linux/bitmap.h), which kgpu/src/kernelSpace/main.c calls and which
-- this repository does not hold. A bitmap is a function from bit numbers to bits; the laws are the
-- documented behaviour of the functions.
pub mod FirstFit
use kgpu_fga.Base.{ℕ, ◌+◌, ◌≤◌, ◌<◌, ◌≡◌, Bool, true, false, ◌&&◌, ◌||◌, not, leb, ltb}

abbrev pub Bits : Type 0
Bits = ℕ → Bool

-- Whether the bit `j` is one of the `nr` bits from `start`.
abbrev pub inside : ℕ → ℕ → ℕ → Bool
inside start nr j = leb start j && ltb j (start + nr)

abbrev pub IsClear : Bits → ℕ → ℕ → Type 0
IsClear bm start nr = (j : ℕ) → start ≤ j → j < start + nr → bm j ≡ false

pub record LinuxBitmap : Type 0 where
  -- (map, start, nr)
  pub bitmap_set : Bits → ℕ → ℕ → Bits
  pub bitmap_clear : Bits → ℕ → ℕ → Bits
  -- (map, nbits)
  pub bitmap_zero : Bits → ℕ → Bits
  -- (map, size, start, nr, align_mask)
  pub bitmap_find_next_zero_area : Bits → ℕ → ℕ → ℕ → ℕ → ℕ
  pub set_bit :
      (bm : Bits) (start nr j : ℕ) → bitmap_set bm start nr j ≡ (inside start nr j || bm j)
  pub clear_bit :
      (bm : Bits) (start nr j : ℕ) → bitmap_clear bm start nr j ≡ (not (inside start nr j) && bm j)
  pub zero_bit : (bm : Bits) (nbits j : ℕ) → j < nbits → bitmap_zero bm nbits j ≡ false
  -- A result below the size begins an area that fits and is clear.
  pub find_fits :
      (bm : Bits) (size start nr mask : ℕ)
      → bitmap_find_next_zero_area bm size start nr mask < size
      → bitmap_find_next_zero_area bm size start nr mask + nr ≤ size
  pub find_clear :
      (bm : Bits) (size start nr mask : ℕ)
      → bitmap_find_next_zero_area bm size start nr mask < size
      → IsClear bm (bitmap_find_next_zero_area bm size start nr mask) nr
  -- The first such area is found, where none has to be aligned.
  pub find_first :
      (bm : Bits) (size start nr i : ℕ)
      → 0 < nr
      → start ≤ i
      → i + nr ≤ size
      → IsClear bm i nr
      → bitmap_find_next_zero_area bm size start nr 0 ≤ i
