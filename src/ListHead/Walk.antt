-- ===== src/ListHead/Walk.antt =====
-- The loops over rings of kgpu/include/list.h.
use kgpu_fga.Base.{
  ℕ, zero, suc, ◌+◌, ◌<◌, ◌≡◌, ◌↔◌, refl, arith, List, [], ◌∷◌, true, false, some, length, ap, ◌∙◌,
}
use kgpu_fga.ListHead.{Links, list_empty, list_for_each, size_loop, list_size}
use kgpu_fga.Base.{has}
use kgpu_fga.ListHead.Ring.{Chain, IsRing}

module _ (h : Links) (head : ℕ) where
  for_each_lem :
      (a : ℕ) (l : List ℕ) (fuel : ℕ)
      → Chain h a l head
      → has head l ≡ false
      → length l < fuel
      → list_for_each h head fuel (h.next a) ≡ some l
  unfolding list_for_each
  for_each_lem a l zero c d f = absurd (omega (arith, f))
  for_each_lem a [] (suc fuel) c d f = ground (arith, c.0)
  for_each_lem a (x ∷ l) (suc fuel) c d f =
      ground (arith, c.0, for_each_lem x l fuel c.2 (ground arith) (omega (arith, f)))

  size_lem :
      (a : ℕ) (l : List ℕ) (fuel s : ℕ)
      → Chain h a l head
      → has head l ≡ false
      → length l < fuel
      → size_loop h head fuel (h.next a) s ≡ some (s + length l)
  unfolding size_loop
  size_lem a l zero s c d f = absurd (omega (arith, f))
  size_lem a [] (suc fuel) s c d f = ground (arith, c.0)
  size_lem a (x ∷ l) (suc fuel) s c d f =
      ground (arith, c.0, size_lem x l fuel (s + 1) c.2 (ground arith) (omega (arith, f)))

  empty_lem :
      (l : List ℕ)
      → Chain h head l head
      → has head l ≡ false
      → (list_empty h head ≡ true) ↔ (l ≡ [])
  unfolding list_empty
  empty_lem [] c d = (λ e. refl, λ e. ground (arith, c.0))
  empty_lem (x ∷ l) c d = (λ e. ground (arith, c.0), λ e. cc)

-- On a ring with some entries and with more fuel than entries, list_for_each ends and visits the
-- entries in their order, list_size ends and counts them, and list_empty holds exactly if there are
-- none.
pub walk_lem :
    (h : Links) (head : ℕ) (l : List ℕ) (fuel : ℕ)
    → IsRing h head l
    → length l < fuel
    → (list_for_each h head fuel (h.next head) ≡ some l)
      × (list_size h head fuel ≡ some (length l))
      × ((list_empty h head ≡ true) ↔ (l ≡ []))
unfolding list_size
walk_lem h head l fuel r f =
    let zero_add : 0 + length l ≡ length l = omega arith in
    (
      for_each_lem h head head l fuel r.chain r.distinct.0 f,
      size_lem h head head l fuel 0 r.chain r.distinct.0 f ∙ ap some zero_add,
      empty_lem h head l r.chain r.distinct.0,
    )
