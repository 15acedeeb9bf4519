-- ===== src/Gpu/Ranges/Paged.antt =====
-- The ranges of whole pages that __merge_ranges of kgpu/src/gpuSpace/openCLOperations.c makes.
use kgpu_fga.Base.{
  ℕ, ◌%◌, ◌<◌, ◌≡◌, ◌⊎◌, inl, inr, arith, Bool-cases, ulong_mod, ◌==◌, add64, sub64, some,
  Option-cases, List, [], ◌∷◌,
}
use Prim.Native.Nat.{max}
use kgpu_fga.Config.{page_size}
use kgpu_fga.Gpu.Ranges.{
  Range, Three, round_down, round_up, rounded, merge_2ranges, merge_two, merge_three, merge_ranges,
}

abbrev pub IsPaged : Range → Type 0
IsPaged r = (r.ad % page_size ≡ 0) × (r.sz % page_size ≡ 0) × (r.sz < ulong_mod)

pub rounded-IsPaged : (r : Range) → IsPaged (rounded r)
unfolding round_down round_up
rounded-IsPaged r = (omega arith, omega arith, omega arith)

pub round_up-IsPaged : (r : Range) → IsPaged r → round_up r.sz ≡ r.sz
unfolding round_up
round_up-IsPaged r (p, q, b) = omega arith

add_paged : (x y : ℕ) → x % page_size ≡ 0 → y % page_size ≡ 0 → add64 x y % page_size ≡ 0
add_paged x y p q = omega arith

sub_paged : (x y : ℕ) → x % page_size ≡ 0 → y % page_size ≡ 0 → sub64 x y % page_size ≡ 0
sub_paged x y p q = omega arith

max_paged : (x y : ℕ) → x % page_size ≡ 0 → y % page_size ≡ 0 → max x y % page_size ≡ 0
max_paged x y p q = omega arith

-- From the first of the ranges to the end of both.
joined-IsPaged :
    (a b : Range) (x : ℕ)
    → IsPaged a
    → IsPaged b
    → x % page_size ≡ 0
    → IsPaged (record { ad = x; sz = sub64 (max (add64 a.ad a.sz) (add64 b.ad b.sz)) x })
joined-IsPaged a b x p q e = (
  e,
  sub_paged _ x (max_paged _ _ (add_paged a.ad a.sz p.0 p.1) (add_paged b.ad b.sz q.0 q.1)) e,
  omega arith,
)

merge_2ranges-IsPaged :
    (a b r : Range) → IsPaged a → IsPaged b → merge_2ranges a b ≡ some r → IsPaged r
unfolding merge_2ranges
merge_2ranges-IsPaged a b r p q e =
    ground (arith, joined-IsPaged a b a.ad p q p.0, joined-IsPaged a b b.ad p q q.0)

abbrev pub AllPaged : List Range → Type 0
AllPaged [] = Unit
AllPaged (r ∷ l) = IsPaged r × AllPaged l

-- The ranges that are in use are paged.
abbrev pub ThreePaged : Three × ℕ → Type 0
ThreePaged (t, n) = ((n ≡ 0) ⊎ IsPaged t.r0) × ((n < 2) ⊎ IsPaged t.r1) × ((n < 3) ⊎ IsPaged t.r2)

merge_two-ThreePaged : (t : Three) → IsPaged t.r0 → IsPaged t.r1 → ThreePaged (merge_two t)
unfolding merge_two
merge_two-ThreePaged t p q = elim (Option-cases (merge_2ranges t.r0 t.r1)) [
  | inl e ↦ rw (merge_two, e) (inr p, inr q, inl (omega arith))
  | inr (r, e) ↦
      rw (merge_two, e)
        (inr (merge_2ranges-IsPaged t.r0 t.r1 r p q e), inl (omega arith), inl (omega arith))
]

merge_three-ThreePaged :
    (t : Three) → IsPaged t.r0 → IsPaged t.r1 → IsPaged t.r2 → ThreePaged (merge_three t)
unfolding merge_three
merge_three-ThreePaged t p q s = elim (Option-cases (merge_2ranges t.r0 t.r1)) [
  | inr (a, e) ↦
      let p' = merge_2ranges-IsPaged t.r0 t.r1 a p q e in
      elim (Option-cases (merge_2ranges a t.r2)) [
        | inr (b, f) ↦
            rw (merge_three, e, f) (inr (merge_2ranges-IsPaged a t.r2 b p' s f), inr q, inr s)
        | inl f ↦ rw (merge_three, e, f) (inr p', inr s, inr s)
      ]
  | inl e ↦ elim (Option-cases (merge_2ranges t.r0 t.r2)) [
    | inr (a, f) ↦
        let p' = merge_2ranges-IsPaged t.r0 t.r2 a p s f in
        elim (Option-cases (merge_2ranges a t.r1)) [
          | inr (b, g) ↦
              rw (merge_three, e, f, g) (inr (merge_2ranges-IsPaged a t.r1 b p' q g), inr q, inr s)
          | inl g ↦ rw (merge_three, e, f, g) (inr p', inr q, inr s)
        ]
    | inl f ↦ elim (Option-cases (merge_2ranges t.r2 t.r1)) [
      | inr (a, g) ↦
          let q' = merge_2ranges-IsPaged t.r2 t.r1 a s q g in
          elim (Option-cases (merge_2ranges t.r0 a)) [
            | inr (b, h) ↦
                rw (merge_three, e, f, g, h)
                  (inr (merge_2ranges-IsPaged t.r0 a b p q' h), inr q', inr s)
            | inl h ↦ rw (merge_three, e, f, g, h) (inr p, inr q', inr s)
          ]
      | inl g ↦ rw (merge_three, e, f, g) (inr p, inr q, inr s)
    ]
  ]
]

pub merge_ranges-ThreePaged : (t : Three) (n : ℕ) → ThreePaged (merge_ranges t n)
unfolding merge_ranges
merge_ranges-ThreePaged t n = elim (Bool-cases (n == 1)) [
  | inl e ↦ rw (merge_ranges, e) (inr (rounded-IsPaged t.r0), inl (omega arith), inl (omega arith))
  | inr e ↦ elim (Bool-cases (n == 2)) [
    | inl f ↦
        rw (merge_ranges, e, f)
          (merge_two-ThreePaged _ (rounded-IsPaged t.r0) (rounded-IsPaged t.r1))
    | inr f ↦ elim (Bool-cases (n == 3)) [
      | inl g ↦
          rw (merge_ranges, e, f, g)
            (merge_three-ThreePaged _ (rounded-IsPaged t.r0) (rounded-IsPaged t.r1)
              (rounded-IsPaged t.r2))
      | inr g ↦ rw (merge_ranges, e, f, g) (inl (omega arith), inl (omega arith), inl (omega arith))
    ]
  ]
]
