-- ===== src/Kernel/Bitmap/FirstFit.antt =====
-- Functions that meet the laws of Kernel/Bitmap: a search from the start for the first clear area.
-- They serve the examples, where the driver passes no alignment.
use kgpu_fga.Base.{
  ℕ, zero, suc, ◌+◌, ◌≤◌, ◌<◌, ◌≡◌, refl, inl, inr, Bool, true, false, ◌&&◌, ◌||◌, not, arith, leb,
  ltb, if◌then◌else◌, Bool-cases,
}
use kgpu_fga.Kernel.Bitmap.{Bits, inside, IsClear, LinuxBitmap}

unfoldable pub all_clear : Bits → ℕ → ℕ → Bool
all_clear bm i zero = true
all_clear bm i (suc n) = not (bm i) && all_clear bm (suc i) n

unfoldable pub search_from : Bits → ℕ → ℕ → ℕ → ℕ → ℕ
search_from bm size nr i zero = size
search_from bm size nr i (suc f) =
    let rest = search_from bm size nr (suc i) f in
    if ltb size (i + nr) then size else if all_clear bm i nr then i else rest

pub all_clear-IsClear : (bm : Bits) (i n : ℕ) → all_clear bm i n ≡ true → IsClear bm i n
unfolding all_clear
all_clear-IsClear bm i zero e j l u = absurd (omega arith)
all_clear-IsClear bm i (suc n) e j l u = elim (Bool-cases (leb j i)) [
  | inl h ↦ let s : j ≡ i = ground arith in rw s (ground arith)
  | inr h ↦ all_clear-IsClear bm (suc i) n (ground arith) j (ground arith) (omega arith)
]

pub IsClear-all_clear : (bm : Bits) (i n : ℕ) → IsClear bm i n → all_clear bm i n ≡ true
unfolding all_clear
IsClear-all_clear bm i zero c = refl
IsClear-all_clear bm i (suc n) c =
    ground (arith, c i, IsClear-all_clear bm (suc i) n (λ j l u. c j (omega arith) (omega arith)))

module _ (bm : Bits) (size nr : ℕ) where
  pub search_fits :
      (i f : ℕ) → search_from bm size nr i f < size → search_from bm size nr i f + nr ≤ size
  unfolding search_from
  search_fits i zero h = absurd (omega arith)
  search_fits i (suc f) h = ground (arith, search_fits (suc i) f)

  pub search_clear :
      (i f : ℕ)
      → search_from bm size nr i f < size
      → all_clear bm (search_from bm size nr i f) nr ≡ true
  unfolding search_from
  search_clear i zero h = absurd (omega arith)
  search_clear i (suc f) h = ground (arith, search_clear (suc i) f)

  pub search_first :
      (i f k : ℕ)
      → i ≤ k
      → k < i + f
      → k + nr ≤ size
      → all_clear bm k nr ≡ true
      → search_from bm size nr i f ≤ k
  unfolding search_from
  search_first i zero k l u h c = absurd (omega arith)
  search_first i (suc f) k l u h c = elim (Bool-cases (leb k i)) [
    | inl e ↦ let s : k ≡ i = ground arith in rw (← s) (ground arith)
    | inr e ↦ ground (arith, search_first (suc i) f k (ground arith) (omega arith) h c)
  ]

pub zero_bit_lem : (bm : Bits) (nbits j : ℕ) → j < nbits → (not (ltb j nbits) && bm j) ≡ false
zero_bit_lem bm nbits j h = ground arith

-- The search runs over at most `size + 1` places.
abbrev pub first_fit : LinuxBitmap
first_fit = record {
  bitmap_set = λ bm start nr j. inside start nr j || bm j;
  bitmap_clear = λ bm start nr j. not (inside start nr j) && bm j;
  bitmap_zero = λ bm nbits j. not (ltb j nbits) && bm j;
  bitmap_find_next_zero_area = λ bm size start nr mask. search_from bm size nr start (suc size);
  set_bit = λ bm start nr j. refl;
  clear_bit = λ bm start nr j. refl;
  zero_bit = λ bm nbits j h. zero_bit_lem bm nbits j h;
  find_fits = λ bm size start nr mask. search_fits bm size nr start (suc size);
  find_clear = λ bm size start nr mask h.
      all_clear-IsClear bm _ nr (search_clear bm size nr start (suc size) h);
  find_first = λ bm size start nr i pos l h c.
      search_first bm size nr start (suc size) i l (omega arith) h (IsClear-all_clear bm i nr c);
}
