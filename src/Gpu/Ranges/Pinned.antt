-- ===== src/Gpu/Ranges/Pinned.antt =====
-- What __merge_ranges of kgpu/src/gpuSpace/openCLOperations.c makes of the ranges of a request: the
-- rounding to pages, then the merging.
use kgpu_fga.Base.{ℕ, ◌+◌, ◌-◌, ◌%◌, ◌<◌, ◌↔◌, inl, refl, arith, ulong_mod}
use kgpu_fga.Config.{page_size}
use kgpu_fga.Gpu.Ranges.{Range, Three, round_down, round_up, rounded, merge_ranges}
use kgpu_fga.Gpu.Ranges.Merge.{
  In, Fits, Covers, InTwo, InThree, merge_two-Covers, merge_three-Covers,
}

abbrev pub all_rounded : Three → Three
all_rounded t = record { r0 = rounded t.r0; r1 = rounded t.r1; r2 = rounded t.r2 }

-- If the three rounded ranges end within the address space, __merge_ranges makes of the first one,
-- two or three ranges as many or fewer that neither meet nor touch and cover exactly the addresses
-- of the rounded ranges.
pub merge_ranges-Covers :
    (t : Three)
    → Fits (rounded t.r0)
    → Fits (rounded t.r1)
    → Fits (rounded t.r2)
    → Covers (λ x. In x (rounded t.r0)) (merge_ranges t 1)
      × Covers (InTwo (all_rounded t)) (merge_ranges t 2)
      × Covers (InThree (all_rounded t)) (merge_ranges t 3)
unfolding merge_ranges
merge_ranges-Covers t f₀ f₁ f₂ = (
  inl (refl, λ x. (λ i. i, λ i. i)),
  merge_two-Covers (record t { r0 = rounded t.r0; r1 = rounded t.r1 }) f₀ f₁,
  merge_three-Covers (all_rounded t) f₀ f₁ f₂,
)

-- A range that is not empty and ends more than a page below the end of the address space is covered
-- by its rounded range exactly if the offset of its address in its page and the offset of its
-- size's last byte in a page are together less than a page.
pub rounded_covers :
    (r : Range)
    → 0 < r.sz
    → r.ad + r.sz + page_size < ulong_mod
    → ((x : ℕ) → In x r → In x (rounded r))
      ↔ (r.ad % page_size + (r.sz - 1) % page_size < page_size)
unfolding round_down round_up
rounded_covers r p f = (
  λ h. ground (arith, h (r.ad + r.sz - 1) (omega arith, omega arith)),
  λ h x i. (omega (arith, i), omega (arith, i)),
)
