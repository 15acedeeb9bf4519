-- ===== src/Gpu/Ranges.antt =====
-- The ranges of host memory that kgpu/src/gpuSpace/openCLOperations.c pins for a request:
-- round_down and round_up (kgpu/include/dataType.h), __merge_2ranges and __merge_ranges (the CUDA
-- file has the same code). The arrays of three addresses and sizes are three ranges.
pub mod Merge
pub mod Paged
pub mod Pinned
use kgpu_fga.Base.{
  ℕ, ◌+◌, ◌-◌, ◌*◌, ◌%◌, ◌≤◌, ◌<◌, ◌≡◌, Bool, if◌then◌else◌, ltb, leb, ◌==◌, add64, sub64,
  ulong_mod, Option, none, some,
}
use Prim.Native.Nat.{max}
use kgpu_fga.Config.{page_size}

pub record Range : Type 0 where
  pub ad : ℕ
  pub sz : ℕ

pub record Three : Type 0 where
  pub r0 : Range
  pub r1 : Range
  pub r2 : Range

-- x & ~(PAGE_SIZE - 1), and ((x - 1) | (PAGE_SIZE - 1)) + 1, on `unsigned long`.
unfoldable pub round_down : ℕ → ℕ
round_down x = x - x % page_size

unfoldable pub round_up : ℕ → ℕ
round_up x = let y = sub64 x 1 in add64 (y - y % page_size + (page_size - 1)) 1

unfoldable pub merge_2ranges : Range → Range → Option Range
merge_2ranges a b =
    if ltb a.ad b.ad
    then if leb b.ad (add64 a.ad a.sz)
      then some (record { ad = a.ad; sz = sub64 (max (add64 a.ad a.sz) (add64 b.ad b.sz)) a.ad })
      else none
    else if a.ad == b.ad
    then some (record { ad = a.ad; sz = max a.sz b.sz })
    else if leb a.ad (add64 b.ad b.sz)
    then some (record { ad = b.ad; sz = sub64 (max (add64 a.ad a.sz) (add64 b.ad b.sz)) b.ad })
    else none

abbrev pub rounded : Range → Range
rounded r = record { ad = round_down r.ad; sz = round_up r.sz }

-- case 2 of the switch
unfoldable pub merge_two : Three → Three × ℕ
merge_two t = elim (merge_2ranges t.r0 t.r1) [ some a ↦ (record t { r0 = a }, 1) | none ↦ (t, 2) ]

-- case 3 of the switch
unfoldable pub merge_three : Three → Three × ℕ
merge_three t = elim (merge_2ranges t.r0 t.r1) [
  | some a ↦ elim (merge_2ranges a t.r2) [
    | some b ↦ (record t { r0 = b }, 1)
    | none ↦ (record t { r0 = a; r1 = t.r2 }, 2)
  ]
  | none ↦ elim (merge_2ranges t.r0 t.r2) [
    | some a ↦ elim (merge_2ranges a t.r1) [
      | some b ↦ (record t { r0 = b }, 1)
      | none ↦ (record t { r0 = a }, 2)
    ]
    | none ↦ elim (merge_2ranges t.r2 t.r1) [
      | some a ↦ elim (merge_2ranges t.r0 a) [
        | some b ↦ (record t { r0 = b; r1 = a }, 1)
        | none ↦ (record t { r1 = a }, 2)
      ]
      | none ↦ (t, 3)
    ]
  ]
]

-- The arrays afterwards, and the number of ranges in them.
unfoldable pub merge_ranges : Three → ℕ → Three × ℕ
unfolding merge_two merge_three
merge_ranges t n =
    let one = record t { r0 = rounded t.r0 } in
    let two = record one { r1 = rounded t.r1 } in
    let three = record two { r2 = rounded t.r2 } in
    if n == 1
    then (one, 1)
    else if n == 2
    then merge_two two
    else if n == 3
    then merge_three three
    else (t, 0)
