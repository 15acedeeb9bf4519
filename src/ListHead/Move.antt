-- ===== src/ListHead/Move.antt =====
-- list_del and list_add_tail of kgpu/include/list.h in a row, as kgpu/src/userSpace/helper.c calls them.
use kgpu_fga.Base.{ℕ, ◌≡◌, arith, List, [], ◌∷◌, ◌++◌, true, false, ◌||◌}
use kgpu_fga.ListHead.{
  Links, set_prev, set_next, insert_between, list_add_tail, join_around, list_del,
}
use kgpu_fga.Base.{has, has-append, Distinct-drop}
use kgpu_fga.ListHead.Ring.{Chain, IsRing, Chain-split, Chain-frame, last-has}
use kgpu_fga.ListHead.Ops.{add_tail-IsRing, del-IsRing}

-- `h'` and `h` have the same links at `q`.
abbrev Same : Links → Links → ℕ → Type 0
Same h h' q = (h'.next q ≡ h.next q) × (h'.prev q ≡ h.prev q)

IsRing-frame :
    (h h' : Links) (head : ℕ) (l : List ℕ)
    → IsRing h head l
    → ((q : ℕ) → has q (head ∷ l) ≡ true → Same h h' q)
    → IsRing h' head l
IsRing-frame h h' head l r same = record {
  chain =
      Chain-frame h h' head head l r.chain (λ q i. (same q i).0)
        (λ q i. (same q (ground (arith, has-append q l (head ∷ [])))).1);
  distinct = r.distinct;
}

-- The node after an entry.
first-has : (h : Links) (x b : ℕ) (l : List ℕ) → Chain h x l b → has (h.next x) (b ∷ l) ≡ true
first-has h x b [] c = ground (arith, c.0)
first-has h x b (y ∷ l) c = ground (arith, c.0)

module _ (h : Links) (head x : ℕ) (xs ys : List ℕ) (r : IsRing h head (xs ++ x ∷ ys)) where
  del_frame : (q : ℕ) → has q (head ∷ xs ++ x ∷ ys) ≡ false → Same h (list_del h x) q
  unfolding list_del join_around set_prev set_next
  del_frame q out =
      let c = Chain-split h head head x xs ys r.chain in
      let before = last-has h head x xs c.0 in
      let behind = first-has h x head ys c.1 in
      (
        ground (arith, before, has-append q xs (x ∷ ys)),
        ground (arith, behind, has-append q xs (x ∷ ys)),
      )

module _ (h : Links) (new head : ℕ) (l : List ℕ) (r : IsRing h head l) where
  add_frame : (q : ℕ) → has q (new ∷ head ∷ l) ≡ false → Same h (list_add_tail h new head) q
  unfolding list_add_tail insert_between set_prev set_next
  add_frame q out =
      let last = last-has h head head l r.chain in (ground (arith, last), ground (arith, last))

-- For three lists without common nodes, list_del of an entry of the first and list_add_tail at the
-- second leave the first without the entry, the second with the entry at its end, and the third as
-- it was, each as a ring in both directions.
pub move-IsRing :
    (h : Links) (a x b c : ℕ) (xs ys l m : List ℕ)
    → IsRing h a (xs ++ x ∷ ys)
    → IsRing h b l
    → IsRing h c m
    → ((q : ℕ) → has q (a ∷ xs ++ x ∷ ys) ≡ true → has q (b ∷ l) ≡ false)
    → ((q : ℕ) → has q (c ∷ m) ≡ true → (has q (a ∷ xs ++ x ∷ ys) || has q (b ∷ l)) ≡ false)
    → let h' = list_add_tail (list_del h x) x b in
      IsRing h' a (xs ++ ys) × IsRing h' b (l ++ x ∷ []) × IsRing h' c m
move-IsRing h a x b c xs ys l m ra rb rc apart others =
    let h₁ = list_del h x in
    let gone = (Distinct-drop (a ∷ xs) ys x ra.distinct).1 in
    let ra₁ = del-IsRing h a x xs ys ra in
    let out : (q : ℕ) → has q (b ∷ l) ≡ true → has q (a ∷ xs ++ x ∷ ys) ≡ false =
      λ q i. ground (arith, apart q, i) in
    let rb₁ = IsRing-frame h h₁ b l rb (λ q i. del_frame h a x xs ys ra q (out q i)) in
    let rc₁ =
      IsRing-frame h h₁ c m rc (λ q i. del_frame h a x xs ys ra q (ground (arith, others q i))) in
    (
      IsRing-frame h₁ (list_add_tail h₁ x b) a (xs ++ ys) ra₁ (λ q i.
          add_frame h₁ x b l rb₁ q
            (ground (arith, gone, apart q, has-append q xs ys, has-append q xs (x ∷ ys), i))),
      add_tail-IsRing rb₁ x (apart x (ground (arith, has-append x xs (x ∷ ys)))),
      IsRing-frame h₁ (list_add_tail h₁ x b) c m rc₁
          (λ q i. add_frame h₁ x b l rb₁ q (ground (arith, others q i, has-append q xs (x ∷ ys)))),
    )
