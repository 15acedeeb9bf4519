-- ===== src/Cuda/Ranges.antt =====
-- __merge_2ranges and __merge_ranges of kgpu/src/gpuSpace/cudaOperations.cu on the two arrays of addresses
-- and sizes, with the writes through their pointers, and the ranges of Gpu/Ranges as their description.
use kgpu_fga.Base.{
  ℕ, zero, suc, ◌≤◌, ◌≡◌, refl, arith, if◌then◌else◌, ltb, leb, ◌==◌, update, add64, sub64,
  Bool-cases, Option-cases, inl, inr, Option, none, some,
}
use Prim.Native.Nat.{max}
use kgpu_fga.Gpu.Ranges.{Range, Three, round_down, round_up, merge_two, merge_three}
use kgpu_fga.Gpu.Ranges

-- The arrays ad and sz.
pub record Arrays : Type 0 where
  pub ad : ℕ → ℕ
  pub sz : ℕ → ℕ

-- What is written through `e` and `s` where the result is 1, and none where it is 0.
unfoldable pub merge_2ranges : (r1 s1 r2 s2 : ℕ) → Option (ℕ × ℕ)
merge_2ranges r1 s1 r2 s2 =
    if ltb r1 r2
    then if leb r2 (add64 r1 s1)
      then some (r1, sub64 (max (add64 r1 s1) (add64 r2 s2)) r1)
      else none
    else if r1 == r2
    then some (r1, max s1 s2)
    else if leb r1 (add64 r2 s2)
    then some (r2, sub64 (max (add64 r1 s1) (add64 r2 s2)) r2)
    else none

abbrev pub store : Arrays → ℕ → ℕ → ℕ → Arrays
store t k e s = record { ad = update t.ad k e; sz = update t.sz k s }

-- A call on the entries `i` and `j` with the pointers to the entry `k`.
unfoldable pub merge_at : Arrays → (i j k : ℕ) → Option Arrays
unfolding merge_2ranges
merge_at t i j k = elim (merge_2ranges (t.ad i) (t.sz i) (t.ad j) (t.sz j)) [
  | none ↦ none
  | some (e, s) ↦ some (store t k e s)
]

-- The loop over the first `n` entries.
unfoldable pub round_ranges : Arrays → ℕ → Arrays
round_ranges t zero = t
round_ranges t (suc n) =
    let t' = round_ranges t n in store t' n (round_down (t'.ad n)) (round_up (t'.sz n))

-- case 3 of the switch
unfoldable pub merge_three_at : Arrays → Arrays × ℕ
unfolding merge_at
merge_three_at t = elim (merge_at t 0 1 0) [
  | some u ↦ elim (merge_at u 0 2 0) [ some v ↦ (v, 1) | none ↦ (store u 1 (u.ad 2) (u.sz 2), 2) ]
  | none ↦ elim (merge_at t 0 2 0) [
    | some u ↦ elim (merge_at u 0 1 0) [ some v ↦ (v, 1) | none ↦ (u, 2) ]
    | none ↦ elim (merge_at t 2 1 1) [
      | some u ↦ elim (merge_at u 0 1 0) [ some v ↦ (v, 1) | none ↦ (u, 2) ]
      | none ↦ (t, 3)
    ]
  ]
]

-- The arrays afterwards, and the result.
unfoldable pub merge_ranges : Arrays → ℕ → Arrays × ℕ
unfolding round_ranges merge_three_at
merge_ranges t n =
    let t' = round_ranges t n in
    if n == 0
    then (t', 0)
    else if n == 1
    then (t', 1)
    else if n == 2
    then elim (merge_at t' 0 1 0) [ some u ↦ (u, 1) | none ↦ (t', 2) ]
    else if n == 3
    then merge_three_at t'
    else (t', 0)

abbrev pub range : Arrays → ℕ → Range
range t i = record { ad = t.ad i; sz = t.sz i }

-- The first three entries.
abbrev pub three : Arrays → Three
three t = record { r0 = range t 0; r1 = range t 1; r2 = range t 2 }

abbrev as_pair : Option Range → Option (ℕ × ℕ)
as_pair none = none
as_pair (some r) = some (r.ad, r.sz)

merge_2ranges_lem :
    (a b : Range) → merge_2ranges a.ad a.sz b.ad b.sz ≡ as_pair (Ranges.merge_2ranges a b)
unfolding merge_2ranges Ranges.merge_2ranges
merge_2ranges_lem a b = elim (Bool-cases (ltb a.ad b.ad)) [
  | inl e ↦ elim (Bool-cases (leb b.ad (add64 a.ad a.sz))) [
    | inl f ↦ rw (e, f) refl
    | inr f ↦ rw (e, f) refl
  ]
  | inr e ↦ elim (Bool-cases (a.ad == b.ad)) [
    | inl f ↦ rw (e, f) refl
    | inr f ↦ elim (Bool-cases (leb a.ad (add64 b.ad b.sz))) [
      | inl g ↦ rw (e, f, g) refl
      | inr g ↦ rw (e, f, g) refl
    ]
  ]
]

module _ (t : Arrays) (i j k : ℕ) where
  at_lem : merge_at t i j k ≡ elim (Ranges.merge_2ranges (range t i) (range t j)) [
    | none ↦ none
    | some r ↦ some (store t k r.ad r.sz)
  ]
  unfolding merge_at
  at_lem = elim (Option-cases (Ranges.merge_2ranges (range t i) (range t j))) [
    | inl e ↦ rw (merge_at, merge_2ranges_lem (range t i) (range t j), e) refl
    | inr (r, e) ↦ rw (merge_at, merge_2ranges_lem (range t i) (range t j), e) refl
  ]

-- The three ranges and the count of a result.
abbrev pub threes : Arrays × ℕ → Three × ℕ
threes (t, n) = (three t, n)

two_lem :
    (t : Arrays)
    → threes (elim (merge_at t 0 1 0) [ some u ↦ (u, 1) | none ↦ (t, 2) ]) ≡ merge_two (three t)
unfolding merge_two
two_lem t = elim (Option-cases (Ranges.merge_2ranges (range t 0) (range t 1))) [
  | inl e ↦ rw (merge_two, at_lem t 0 1 0, e) refl
  | inr (r, e) ↦ rw (merge_two, at_lem t 0 1 0, e) refl
]

three_lem : (t : Arrays) → threes (merge_three_at t) ≡ merge_three (three t)
unfolding merge_three_at merge_three
three_lem t = elim (Option-cases (Ranges.merge_2ranges (range t 0) (range t 1))) [
  | inr (r, e) ↦
      let u : Arrays = store t 0 r.ad r.sz in
      elim (Option-cases (Ranges.merge_2ranges r (range t 2))) [
        | inl f ↦ rw (merge_three_at, merge_three, at_lem t 0 1 0, e, at_lem u 0 2 0, f) refl
        | inr (s, f) ↦ rw (merge_three_at, merge_three, at_lem t 0 1 0, e, at_lem u 0 2 0, f) refl
      ]
  | inl e ↦ elim (Option-cases (Ranges.merge_2ranges (range t 0) (range t 2))) [
    | inr (r, f) ↦
        let u : Arrays = store t 0 r.ad r.sz in
        elim (Option-cases (Ranges.merge_2ranges r (range t 1))) [
          | inl g ↦
              rw
                (
                  merge_three_at,
                  merge_three,
                  at_lem t 0 1 0,
                  e,
                  at_lem t 0 2 0,
                  f,
                  at_lem u 0 1 0,
                  g,
                )
                refl
          | inr (s, g) ↦
              rw
                (
                  merge_three_at,
                  merge_three,
                  at_lem t 0 1 0,
                  e,
                  at_lem t 0 2 0,
                  f,
                  at_lem u 0 1 0,
                  g,
                )
                refl
        ]
    | inl f ↦ elim (Option-cases (Ranges.merge_2ranges (range t 2) (range t 1))) [
      | inl g ↦
          rw (merge_three_at, merge_three, at_lem t 0 1 0, e, at_lem t 0 2 0, f, at_lem t 2 1 1, g)
            refl
      | inr (r, g) ↦
          let u : Arrays = store t 1 r.ad r.sz in
          elim (Option-cases (Ranges.merge_2ranges (range t 0) r)) [
            | inl k ↦
                rw
                  (
                    merge_three_at,
                    merge_three,
                    at_lem t 0 1 0,
                    e,
                    at_lem t 0 2 0,
                    f,
                    at_lem t 2 1 1,
                    g,
                    at_lem u 0 1 0,
                    k,
                  )
                  refl
            | inr (s, k) ↦
                rw
                  (
                    merge_three_at,
                    merge_three,
                    at_lem t 0 1 0,
                    e,
                    at_lem t 0 2 0,
                    f,
                    at_lem t 2 1 1,
                    g,
                    at_lem u 0 1 0,
                    k,
                  )
                  refl
          ]
    ]
  ]
]

-- On the arrays of addresses and sizes, for up to three entries, __merge_ranges of the CUDA file
-- with its writes through pointers leaves in the first three entries, and returns, what the merging
-- of three ranges of the OpenCL file gives.
pub merge_ranges_lem :
    (t : Arrays) (n : ℕ) → n ≤ 3 → threes (merge_ranges t n) ≡ Ranges.merge_ranges (three t) n
unfolding merge_ranges round_ranges Ranges.merge_ranges
merge_ranges_lem t zero h = refl
merge_ranges_lem t (suc zero) h = refl
merge_ranges_lem t (suc (suc zero)) h = two_lem (round_ranges t 2)
merge_ranges_lem t (suc (suc (suc zero))) h = three_lem (round_ranges t 3)
merge_ranges_lem t (suc (suc (suc (suc n)))) h = absurd (omega (arith, h))
