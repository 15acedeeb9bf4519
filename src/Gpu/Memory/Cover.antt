-- ===== src/Gpu/Memory/Cover.antt =====
-- The addresses that gpu_alloc_device_mem pins.
use kgpu_fga.Base.{
  ℕ, ◌≡◌, ◌⊎◌, ◌↔◌, inl, inr, refl, sym, arith, Bool, true, false, ◌&&◌, not, subst, if◌then◌else◌,
  List, [], ◌∷◌,
}
use kgpu_fga.Gpu.Ranges.{Range, Three, merge_ranges, rounded, round_up, round_down}
use kgpu_fga.Gpu.Ranges.Merge.{In, Fits, Apart, Covers}
use kgpu_fga.Gpu.Ranges.Pinned.{merge_ranges-Covers}
use kgpu_fga.Gpu.Memory.{
  DeviceRequest, Hosts, within, no_pins, push_pin, alloc_pins, ranges_of, merged,
}
use kgpu_fga.Gpu.Memory.Pins.{if_not}

abbrev pub in_range : DeviceRequest → Range
in_range q = rounded (record { ad = q.hin; sz = q.insize })

abbrev pub out_range : DeviceRequest → Range
out_range q = rounded (record { ad = q.hout; sz = q.outsize })

abbrev pub data_range : DeviceRequest → Range
data_range q = rounded (record { ad = q.hdata; sz = q.datasize })

-- An address of the rounded range of a buffer that is pinned: the input and the output if they are
-- not in hostbuf, the data if it is in the user-mapped area and not in hostbuf.
abbrev pub ToPin : Hosts → DeviceRequest → ℕ → Type 0
ToPin hosts q x =
    ((within hosts.hostbuf q.hin ≡ false) × In x (in_range q))
    ⊎ ((within hosts.hostbuf q.hout ≡ false) × In x (out_range q))
    ⊎ ((within hosts.hostbuf q.hdata ≡ false)
        × (within hosts.hostvma q.hdata ≡ true)
        × In x (data_range q))

abbrev pub InSome : ℕ → List Range → Type 0
InSome x [] = ⊥
InSome x (r ∷ []) = In x r
InSome x (r ∷ s ∷ l) = In x r ⊎ InSome x (s ∷ l)

abbrev AllApart : Range → List Range → Type 0
AllApart r [] = Unit
AllApart r (s ∷ l) = Apart r s × AllApart r l

abbrev pub PairwiseApart : List Range → Type 0
PairwiseApart [] = Unit
PairwiseApart (r ∷ l) = AllApart r l × PairwiseApart l

-- The list covers what `P` holds of, with ranges that neither meet nor touch.
abbrev pub ListCovers : (ℕ → Type 0) → List Range → Type 0
ListCovers P l = ((x : ℕ) → InSome x l ↔ P x) × PairwiseApart l

Covers-list : (P : ℕ → Type 0) (p : Three × ℕ) → Covers P p → ListCovers P (ranges_of p)
unfolding ranges_of
Covers-list P (t, n) c = elim c [
  | inl (e, k) ↦ rw e (k, (tt, tt))
  | inr d ↦ elim d [
    | inl (e, k, apart) ↦ rw e (k, ((apart, tt), (tt, tt)))
    | inr (e, k, a₁, a₂, a₃) ↦ rw e (k, ((a₁, (a₂, tt)), ((a₃, tt), (tt, tt))))
  ]
]

ListCovers-same :
    (P Q : ℕ → Type 0) (l : List Range) → ((x : ℕ) → P x ↔ Q x) → ListCovers P l → ListCovers Q l
ListCovers-same P Q l same (k, apart) =
    (λ x. (λ i. (same x).0 ((k x).0 i), λ i. (k x).1 ((same x).1 i)), apart)

-- The arrays with the ranges that are wanted.
pins_of : Bool → Bool → Bool → Range → Range → Range → Three × ℕ
unfolding push_pin
pins_of b c d r s t =
    let p = if b then push_pin no_pins r.ad r.sz else no_pins in
    let p' = if c then push_pin p s.ad s.sz else p in if d then push_pin p' t.ad t.sz else p'

abbrev Wanted : Bool → Bool → Bool → Range → Range → Range → ℕ → Type 0
Wanted b c d r s t x =
    ((b ≡ true) × In x (rounded r))
    ⊎ ((c ≡ true) × In x (rounded s))
    ⊎ ((d ≡ true) × In x (rounded t))

none-Fits : Fits (rounded (record { ad = 0; sz = 0 }))
unfolding round_down round_up
none-Fits = omega arith

one_pin : (a : Range) → ListCovers (λ x. In x (rounded a)) (merged (push_pin no_pins a.ad a.sz))
unfolding push_pin merge_ranges ranges_of
one_pin a = (λ x. (λ i. i, λ i. i), (tt, tt))

abbrev OneOfTwo : Range → Range → ℕ → Type 0
OneOfTwo a b x = In x (rounded a) ⊎ In x (rounded b)

two_pins :
    (a b : Range)
    → Fits (rounded a)
    → Fits (rounded b)
    → ListCovers (OneOfTwo a b) (merged (push_pin (push_pin no_pins a.ad a.sz) b.ad b.sz))
unfolding push_pin
two_pins a b f g =
    let t : Three = record { r0 = a; r1 = b; r2 = record { ad = 0; sz = 0 } } in
    Covers-list (OneOfTwo a b) (merge_ranges t 2) (merge_ranges-Covers t f g none-Fits).1

abbrev OneOfThree : Range → Range → Range → ℕ → Type 0
OneOfThree a b c x = In x (rounded a) ⊎ In x (rounded b) ⊎ In x (rounded c)

three_pins :
    (a b c : Range)
    → Fits (rounded a)
    → Fits (rounded b)
    → Fits (rounded c)
    → ListCovers
        (OneOfThree a b c)
        (merged (push_pin (push_pin (push_pin no_pins a.ad a.sz) b.ad b.sz) c.ad c.sz))
unfolding push_pin
three_pins a b c f g h =
    let t : Three = record { r0 = a; r1 = b; r2 = c } in
    Covers-list (OneOfThree a b c) (merge_ranges t 3) (merge_ranges-Covers t f g h).2

pins_of-ListCovers :
    (b c d : Bool) (r s t : Range)
    → Fits (rounded r)
    → Fits (rounded s)
    → Fits (rounded t)
    → ListCovers (Wanted b c d r s t) (merged (pins_of b c d r s t))
unfolding pins_of merge_ranges ranges_of
pins_of-ListCovers false false false r s t f g h = (λ x. ground arith, tt)
pins_of-ListCovers true false false r s t f g h =
    ListCovers-same (λ x. In x (rounded r)) _ (merged (pins_of true false false r s t))
      (λ x. ground arith) (one_pin r)
pins_of-ListCovers false true false r s t f g h =
    ListCovers-same (λ x. In x (rounded s)) _ (merged (pins_of false true false r s t))
      (λ x. ground arith) (one_pin s)
pins_of-ListCovers false false true r s t f g h =
    ListCovers-same (λ x. In x (rounded t)) _ (merged (pins_of false false true r s t))
      (λ x. ground arith) (one_pin t)
pins_of-ListCovers true true false r s t f g h =
    ListCovers-same (OneOfTwo r s) _ _ (λ x. ground arith) (two_pins r s f g)
pins_of-ListCovers true false true r s t f g h =
    ListCovers-same (OneOfTwo r t) _ _ (λ x. ground arith) (two_pins r t f h)
pins_of-ListCovers false true true r s t f g h =
    ListCovers-same (OneOfTwo s t) _ _ (λ x. ground arith) (two_pins s t g h)
pins_of-ListCovers true true true r s t f g h =
    ListCovers-same (OneOfThree r s t) _ _ (λ x. ground arith) (three_pins r s t f g h)

if_and_not :
    {A : Type 0} (b c : Bool) (x y : A)
    → (if not b && c then x else y) ≡ (if b then y else if c then x else y)
if_and_not false c x y = refl
if_and_not true c x y = refl

module _ (hosts : Hosts) (q : DeviceRequest) where
  abbrev in_pin : Range
  in_pin = record { ad = q.hin; sz = q.insize }

  abbrev out_pin : Range
  out_pin = record { ad = q.hout; sz = q.outsize }

  abbrev data_pin : Range
  data_pin = record { ad = q.hdata; sz = q.datasize }

  abbrev data_wanted : Bool
  data_wanted = not (within hosts.hostbuf q.hdata) && within hosts.hostvma q.hdata

  alloc_pins-pins_of :
      alloc_pins hosts q
      ≡ pins_of
          (not (within hosts.hostbuf q.hin))
          (not (within hosts.hostbuf q.hout))
          data_wanted
          in_pin
          out_pin
          data_pin
  unfolding alloc_pins pins_of
  alloc_pins-pins_of =
      let r = if within hosts.hostbuf q.hin then no_pins else push_pin no_pins q.hin q.insize in
      let p = if_not (within hosts.hostbuf q.hin) (push_pin no_pins q.hin q.insize) no_pins in
      let p' = if_not (within hosts.hostbuf q.hout) (push_pin r q.hout q.outsize) r in
      rw (alloc_pins, pins_of, p, p')
        (sym (if_and_not (within hosts.hostbuf q.hdata) (within hosts.hostvma q.hdata) _ _))

  -- The merged ranges neither meet nor touch, and cover the addresses that are to be pinned, if the
  -- rounded ranges end within the address space.
  pub alloc_pins-ListCovers :
      Fits (in_range q)
      → Fits (out_range q)
      → Fits (data_range q)
      → ListCovers (ToPin hosts q) (merged (alloc_pins hosts q))
  alloc_pins-ListCovers f g h =
      ListCovers-same _ (ToPin hosts q) (merged (alloc_pins hosts q)) (λ x. ground arith)
        (subst
          (λ p.
            ListCovers
              (Wanted (not (within hosts.hostbuf q.hin)) (not (within hosts.hostbuf q.hout))
                data_wanted in_pin out_pin data_pin)
              (merged p))
          (sym alloc_pins-pins_of)
          (pins_of-ListCovers (not (within hosts.hostbuf q.hin)) (not (within hosts.hostbuf q.hout))
            data_wanted in_pin out_pin data_pin f g h))
