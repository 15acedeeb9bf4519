-- ===== src/ListHead/Ops.antt =====
-- The operations of kgpu/include/list.h on rings.
use kgpu_fga.Base.{ℕ, ◌≡◌, ◌≢◌, refl, arith, List, [], ◌∷◌, ◌++◌, append-nil, true, false, subst}
use kgpu_fga.ListHead.{
  Links, set_prev, set_next, init_list_head, insert_between, list_add, list_add_tail, join_around,
  list_del,
}
use kgpu_fga.Base.{
  has, Distinct, has-append, Distinct-append-left, Distinct-append-right, Distinct-push,
  Distinct-drop, Distinct-apart,
}
use kgpu_fga.ListHead.Ring.{
  Chain, IsRing, Chain-append, Chain-split, last-has, Chain-frame, Chain-retarget,
}

-- INIT_LIST_HEAD makes an empty ring.
pub init-IsRing : (h : Links) (list : ℕ) → IsRing (init_list_head h list) list []
unfolding init_list_head set_prev set_next
init-IsRing h list = record { chain = (ground arith, ground arith); distinct = (refl, tt) }

module _ {h : Links} {head : ℕ} {l : List ℕ} (r : IsRing h head l) (new : ℕ)
    (fresh : has new (head ∷ l) ≡ false) where
  -- list_add_tail adds an entry at the end of a ring.
  pub add_tail-IsRing : IsRing (list_add_tail h new head) head (l ++ new ∷ [])
  unfolding list_add_tail insert_between set_prev set_next
  add_tail-IsRing = record {
    chain =
        Chain-append (list_add_tail h new head) head head new l []
          (Chain-retarget h (list_add_tail h new head) head head new l r.distinct r.chain
            (λ q i d. ground arith) (λ q i. ground (arith, r.distinct.0))
            (ground (arith, last-has h head head l r.chain))
            (ground (arith, last-has h head head l r.chain)))
          (ground (arith, last-has h head head l r.chain), ground arith);
    distinct = Distinct-push (head ∷ l) new r.distinct fresh;
  }

-- list_add adds an entry at the front of a ring.
pub add-IsRing :
    (h : Links) (head : ℕ) (l : List ℕ)
    → IsRing h head l
    → (new : ℕ) → has new (head ∷ l) ≡ false
    → IsRing (list_add h new head) head (new ∷ l)
unfolding list_add insert_between set_prev set_next
add-IsRing h head [] r new fresh = record {
  chain = (ground arith, ground arith, (ground (arith, r.chain), ground (arith, r.chain)));
  distinct = (ground arith, (ground arith, tt));
}
add-IsRing h head (x ∷ l) r new fresh = record {
  chain = (
    ground arith,
    ground arith,
    (
      ground (arith, r.chain.0),
      ground (arith, r.chain.0),
      Chain-frame h (list_add h new head) x head l r.chain.2 (λ q i. ground (arith, r.distinct.0))
          (λ q i. ground (arith, r.distinct, r.chain.0, has-append q l (head ∷ []))),
    ),
  );
  distinct = (ground (arith, r.distinct.0), (ground (arith, r.distinct.0), r.distinct.1));
}

-- The nodes before and after an entry.
module _ {h : Links} {head : ℕ} (x : ℕ) (xs ys : List ℕ) (r : IsRing h head (xs ++ x ∷ ys)) where
  abbrev pub deleted : Links
  deleted = list_del h x

  rest-Distinct : Distinct (head ∷ xs ++ ys) × (has x (head ∷ xs ++ ys) ≡ false)
  rest-Distinct = Distinct-drop (head ∷ xs) ys x r.distinct

  parts : Chain h head xs x × Chain h x ys head
  parts = Chain-split h head head x xs ys r.chain

  before : has (h.prev x) (head ∷ xs) ≡ true
  before = last-has h head x xs parts.0

  left-Distinct : Distinct (head ∷ xs)
  left-Distinct = Distinct-append-left (head ∷ xs) ys rest-Distinct.0

  -- The chain before the entry, led on to the node after it.
  retargeted : has (h.next x) xs ≡ false → h.next x ≢ x → Chain deleted head xs (h.next x)
  unfolding list_del join_around set_prev set_next
  retargeted out d =
      Chain-retarget h deleted head x (h.next x) xs left-Distinct parts.0
        (λ q i e. ground (arith, rest-Distinct.1, has-append x xs ys))
        (λ q i. ground (arith, rest-Distinct.1, has-append x xs ys))
        (ground (arith, before, rest-Distinct.1, has-append x xs ys))
        (ground (arith, before, rest-Distinct.1, has-append x xs ys))

-- list_del takes an entry off a ring.
pub del-IsRing :
    (h : Links) (head x : ℕ) (xs ys : List ℕ)
    → IsRing h head (xs ++ x ∷ ys)
    → IsRing (list_del h x) head (xs ++ ys)
unfolding list_del join_around set_prev set_next
del-IsRing h head x xs [] r =
    let (d, out) = rest-Distinct x xs [] r in
    let n : h.next x ≡ head = (parts x xs [] r).1.0 in
    rw append-nil (record {
      chain =
          subst (Chain (list_del h x) head xs) n
            (retargeted x xs [] r (rw n (ground (arith, left-Distinct x xs [] r))) (ground arith));
      distinct = left-Distinct x xs [] r;
    })
del-IsRing h head x xs (y ∷ ys) r =
    let (d, out) = rest-Distinct x xs (y ∷ ys) r in
    let k = (parts x xs (y ∷ ys) r).1 in
    let e : h.next x ≡ y = k.0 in
    let left : has y (head ∷ xs) ≡ false =
      ground (arith, Distinct-apart y (head ∷ xs) (y ∷ ys) d) in
    let right = Distinct-append-right (head ∷ xs) (y ∷ ys) d in
    record {
      chain =
          Chain-append (list_del h x) head head y xs ys
            (subst (Chain (list_del h x) head xs) e (
              retargeted x xs (y ∷ ys) r (rw e (ground arith))
                (ground (arith, has-append x xs (y ∷ ys)))))
            (Chain-frame h (list_del h x) y head ys k.2
              (λ q i. ground (
                arith,
                has-append x xs (y ∷ ys),
                Distinct-apart q (head ∷ xs) (y ∷ ys) d,
                before x xs (y ∷ ys) r,
              ))
              (λ q i.
                ground (arith, right, has-append x xs (y ∷ ys), has-append q ys (head ∷ []), i)));
      distinct = d;
    }
