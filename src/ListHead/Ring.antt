-- ===== src/ListHead/Ring.antt =====
-- The rings of kgpu/include/list.h as lists.
use kgpu_fga.Base.{ℕ, ◌≡◌, ◌≢◌, arith, List, [], ◌∷◌, ◌++◌, true}
use kgpu_fga.Base.{has, Distinct}
use kgpu_fga.ListHead.{Links}

-- From `a` the links lead through `l` to `b`, and back.
abbrev pub Chain : Links → ℕ → List ℕ → ℕ → Type 0
Chain h a [] b = (h.next a ≡ b) × (h.prev b ≡ a)
Chain h a (x ∷ l) b = (h.next a ≡ x) × (h.prev x ≡ a) × Chain h x l b

-- The list at `head` has the entries `l`, each once.
pub record IsRing (h : Links) (head : ℕ) (l : List ℕ) : Type 0 where
  pub chain : Chain h head l head
  pub distinct : Distinct (head ∷ l)

module _ (h : Links) where
  pub Chain-append :
      (a b x : ℕ) (xs ys : List ℕ) → Chain h a xs x → Chain h x ys b → Chain h a (xs ++ x ∷ ys) b
  Chain-append a b x [] ys c d = (c.0, c.1, d)
  Chain-append a b x (z ∷ xs) ys c d = (c.0, c.1, Chain-append z b x xs ys c.2 d)

  pub Chain-split :
      (a b x : ℕ) (xs ys : List ℕ) → Chain h a (xs ++ x ∷ ys) b → Chain h a xs x × Chain h x ys b
  Chain-split a b x [] ys c = ((c.0, c.1), c.2)
  Chain-split a b x (z ∷ xs) ys c = let (d, e) = Chain-split z b x xs ys c.2 in ((c.0, c.1, d), e)

  -- The last node before the end.
  pub last-has : (a b : ℕ) (l : List ℕ) → Chain h a l b → has (h.prev b) (a ∷ l) ≡ true
  last-has a b [] c = ground arith
  last-has a b (x ∷ l) c = ground (arith, last-has x b l c.2)

module _ (h h' : Links) where
  -- A chain survives a change elsewhere.
  pub Chain-frame :
      (a b : ℕ) (l : List ℕ)
      → Chain h a l b
      → ((q : ℕ) → has q (a ∷ l) ≡ true → h'.next q ≡ h.next q)
      → ((q : ℕ) → has q (l ++ b ∷ []) ≡ true → h'.prev q ≡ h.prev q)
      → Chain h' a l b
  Chain-frame a b [] c n p = (ground (arith, n a), ground (arith, p b))
  Chain-frame a b (x ∷ l) c n p = (
    ground (arith, n a),
    ground (arith, p x),
    Chain-frame x b l c.2 (λ q i. n q (ground arith)) (λ q i. p q (ground arith)),
  )

  -- The last link of a chain is led to another end.
  pub Chain-retarget :
      (a b c : ℕ) (l : List ℕ)
      → Distinct (a ∷ l)
      → Chain h a l b
      → ((q : ℕ) → has q (a ∷ l) ≡ true → q ≢ h.prev b → h'.next q ≡ h.next q)
      → ((q : ℕ) → has q l ≡ true → h'.prev q ≡ h.prev q)
      → h'.next (h.prev b) ≡ c
      → h'.prev c ≡ h.prev b
      → Chain h' a l c
  Chain-retarget a b c [] d k n p e f = (ground (arith, k.1), ground (arith, k.1))
  Chain-retarget a b c (x ∷ l) d k n p e f = (
    ground (arith, n a, last-has h x b l k.2, d.0),
    ground (arith, p x),
    Chain-retarget x b c l d.1 k.2 (λ q i. n q (ground arith)) (λ q i. p q (ground arith)) e f,
  )
