-- ===== src/Gpu/Ranges/Merge.antt =====
-- What merging the ranges of kgpu/src/gpuSpace/openCLOperations.c keeps.
use Prim.Native.Nat.{max}
use kgpu_fga.Base.{
  ℕ, ◌+◌, ◌-◌, ◌≤◌, ◌<◌, ◌≡◌, ◌⊎◌, ◌↔◌, inl, inr, refl, arith, add64, ulong_mod, none, some, ltb,
  leb, ◌==◌, Bool-cases,
}
use kgpu_fga.Gpu.Ranges.{Range, Three, merge_2ranges, merge_two, merge_three}

-- The address `x` lies in the range.
abbrev pub In : ℕ → Range → Type 0
In x r = (r.ad ≤ x) × (x < r.ad + r.sz)

-- The range ends within the address space.
abbrev pub Fits : Range → Type 0
Fits r = r.ad + r.sz < ulong_mod

-- The ranges neither meet nor touch.
abbrev pub Apart : Range → Range → Type 0
Apart a b = (a.ad + a.sz < b.ad) ⊎ (b.ad + b.sz < a.ad)

-- `r` covers what `a` and `b` cover.
pub record Union (a b r : Range) : Type 0 where
  pub covers : (x : ℕ) → In x r ↔ (In x a ⊎ In x b)
  pub fits : Fits r

-- On two ranges that end within the address space, __merge_2ranges fails exactly if they neither
-- meet nor touch, and otherwise gives a range that ends within the address space and covers exactly
-- what the two cover.
pub merge_2ranges_cases :
    (a b : Range)
    → Fits a
    → Fits b
    → ((merge_2ranges a b ≡ none) × Apart a b)
      ⊎ ((r : Range) × (merge_2ranges a b ≡ some r) × Union a b r)
unfolding merge_2ranges
merge_2ranges_cases a b f g = elim (Bool-cases (ltb a.ad b.ad)) [
  | inl e ↦ elim (Bool-cases (leb b.ad (add64 a.ad a.sz))) [
    | inl h ↦ inr (
      record { ad = a.ad; sz = max (a.ad + a.sz) (b.ad + b.sz) - a.ad },
      rw (e, h) (ground arith),
      record { covers = λ x. (λ i. ground arith, λ i. ground arith); fits = omega arith },
    )
    | inr h ↦ inl (rw (e, h) refl, inl (ground arith))
  ]
  | inr e ↦ elim (Bool-cases (a.ad == b.ad)) [
    | inl k ↦ inr (
      record { ad = a.ad; sz = max a.sz b.sz },
      rw (e, k) refl,
      record { covers = λ x. (λ i. ground arith, λ i. ground arith); fits = ground arith },
    )
    | inr k ↦ elim (Bool-cases (leb a.ad (add64 b.ad b.sz))) [
      | inl h ↦ inr (
        record { ad = b.ad; sz = max (a.ad + a.sz) (b.ad + b.sz) - b.ad },
        rw (e, k, h) (ground arith),
        record { covers = λ x. (λ i. ground arith, λ i. ground arith); fits = ground arith },
      )
      | inr h ↦ inl (rw (e, k, h) refl, inr (ground arith))
    ]
  ]
]

-- One, two or three ranges, apart from each other, that cover what `P` holds of.
abbrev pub Covers : (ℕ → Type 0) → Three × ℕ → Type 0
Covers P (t, n) =
    ((n ≡ 1) × ((x : ℕ) → In x t.r0 ↔ P x))
    ⊎ ((n ≡ 2) × ((x : ℕ) → (In x t.r0 ⊎ In x t.r1) ↔ P x) × Apart t.r0 t.r1)
    ⊎ ((n ≡ 3)
        × ((x : ℕ) → (In x t.r0 ⊎ In x t.r1 ⊎ In x t.r2) ↔ P x)
        × Apart t.r0 t.r1
        × Apart t.r0 t.r2
        × Apart t.r1 t.r2)

abbrev pub InTwo : Three → ℕ → Type 0
InTwo t x = In x t.r0 ⊎ In x t.r1

abbrev pub InThree : Three → ℕ → Type 0
InThree t x = In x t.r0 ⊎ In x t.r1 ⊎ In x t.r2

-- Two of three ranges are merged, and the result with the third.
merged_both :
    {a b c r s : Range}
    → Union a b r
    → Union r c s
    → (P : ℕ → Type 0) → ((x : ℕ) → ((In x a ⊎ In x b) ⊎ In x c) ↔ P x)
    → (x : ℕ) → In x s ↔ P x
merged_both u w P perm x = (
  λ i. (perm x).0 (elim ((w.covers x).0 i) [ inl j ↦ inl ((u.covers x).0 j) | inr j ↦ inr j ]),
  λ i. (w.covers x).1 (elim ((perm x).1 i) [ inl j ↦ inl ((u.covers x).1 j) | inr j ↦ inr j ]),
)

-- Two of three ranges are merged, and the third stays.
merged_one :
    {a b r : Range} (c : Range)
    → Union a b r
    → (P : ℕ → Type 0) → ((x : ℕ) → ((In x a ⊎ In x b) ⊎ In x c) ↔ P x)
    → (x : ℕ) → (In x r ⊎ In x c) ↔ P x
merged_one c u P perm x = (
  λ i. (perm x).0 (elim i [ inl j ↦ inl ((u.covers x).0 j) | inr j ↦ inr j ]),
  λ i. elim ((perm x).1 i) [ inl j ↦ inl ((u.covers x).1 j) | inr j ↦ inr j ],
)

Union-swap : {a b r : Range} → Union a b r → Union b a r
Union-swap u = record {
  covers = λ x. (
    λ i. elim ((u.covers x).0 i) [ inl j ↦ inr j | inr j ↦ inl j ],
    λ i. (u.covers x).1 (elim i [ inl j ↦ inr j | inr j ↦ inl j ]),
  );
  fits = u.fits;
}

module _ (t : Three) (f₀ : Fits t.r0) (f₁ : Fits t.r1) where
  pub merge_two-Covers : Covers (InTwo t) (merge_two t)
  unfolding merge_two
  merge_two-Covers = elim (merge_2ranges_cases t.r0 t.r1 f₀ f₁) [
    | inl (e, apart) ↦ rw (e, merge_two) (inr (inl (refl, λ x. (λ i. i, λ i. i), apart)))
    | inr (r, e, u) ↦ rw (e, merge_two) (inl (refl, u.covers))
  ]

  module _ (f₂ : Fits t.r2) where
    pub merge_three-Covers : Covers (InThree t) (merge_three t)
    unfolding merge_three
    merge_three-Covers = elim (merge_2ranges_cases t.r0 t.r1 f₀ f₁) [
      | inr (a, e, u) ↦ elim (merge_2ranges_cases a t.r2 u.fits f₂) [
        | inr (b, f, w) ↦ rw (e, f, merge_three) (inl (refl, merged_both u w (InThree t) order₁))
        | inl (f, apart) ↦
            rw (e, f, merge_three) (inr (inl (refl, merged_one t.r2 u (InThree t) order₁, apart)))
      ]
      | inl (e, apart₁) ↦ elim (merge_2ranges_cases t.r0 t.r2 f₀ f₂) [
        | inr (a, f, u) ↦ elim (merge_2ranges_cases a t.r1 u.fits f₁) [
          | inr (b, g, w) ↦
              rw (e, f, g, merge_three) (inl (refl, merged_both u w (InThree t) order₂))
          | inl (g, apart) ↦
              rw (e, f, g, merge_three)
                (inr (inl (refl, merged_one t.r1 u (InThree t) order₂, apart)))
        ]
        | inl (f, apart₂) ↦ elim (merge_2ranges_cases t.r2 t.r1 f₂ f₁) [
          | inr (a, g, u) ↦ elim (merge_2ranges_cases t.r0 a f₀ u.fits) [
            | inr (b, h, w) ↦
                rw (e, f, g, h, merge_three)
                  (inl (refl, merged_both u (Union-swap w) (InThree t) order₃))
            | inl (h, apart) ↦
                rw (e, f, g, h, merge_three)
                  (inr (inl (refl, swapped a (merged_one t.r0 u (InThree t) order₃), apart)))
          ]
          | inl (g, apart₃) ↦
              rw (e, f, g, merge_three)
                (inr (
                  inr (
                    refl,
                    λ x. (λ i. i, λ i. i),
                    apart₁,
                    apart₂,
                    elim apart₃ [ inl k ↦ inr k | inr k ↦ inl k ],
                  )))
        ]
      ]
    ]
      where
        order₁ : (x : ℕ) → ((In x t.r0 ⊎ In x t.r1) ⊎ In x t.r2) ↔ InThree t x
        order₁ x = (
          elim [ inl (inl i) ↦ inl i | inl (inr i) ↦ inr (inl i) | inr i ↦ inr (inr i) ],
          elim [ inl i ↦ inl (inl i) | inr (inl i) ↦ inl (inr i) | inr (inr i) ↦ inr i ],
        )

        order₂ : (x : ℕ) → ((In x t.r0 ⊎ In x t.r2) ⊎ In x t.r1) ↔ InThree t x
        order₂ x = (
          elim [ inl (inl i) ↦ inl i | inl (inr i) ↦ inr (inr i) | inr i ↦ inr (inl i) ],
          elim [ inl i ↦ inl (inl i) | inr (inl i) ↦ inr i | inr (inr i) ↦ inl (inr i) ],
        )

        order₃ : (x : ℕ) → ((In x t.r2 ⊎ In x t.r1) ⊎ In x t.r0) ↔ InThree t x
        order₃ x = (
          elim [ inl (inl i) ↦ inr (inr i) | inl (inr i) ↦ inr (inl i) | inr i ↦ inl i ],
          elim [ inl i ↦ inr i | inr (inl i) ↦ inl (inr i) | inr (inr i) ↦ inl (inl i) ],
        )

        swapped :
            (a : Range)
            → ((x : ℕ) → (In x a ⊎ In x t.r0) ↔ InThree t x)
            → (x : ℕ) → (In x t.r0 ⊎ In x a) ↔ InThree t x
        swapped a k x = (
          λ i. (k x).0 (elim i [ inl j ↦ inr j | inr j ↦ inl j ]),
          λ i. elim ((k x).1 i) [ inl j ↦ inr j | inr j ↦ inl j ],
        )
