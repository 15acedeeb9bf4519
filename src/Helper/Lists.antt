-- ===== src/Helper/Lists.antt =====
-- How often an address stands in a list of kgpu/src/userSpace/helper.c.
use kgpu_fga.Base.{ℕ, ◌+◌, ◌-◌, ◌≡◌, arith, ◌==◌, if◌then◌else◌, List, [], ◌∷◌, ◌++◌}
use kgpu_fga.Helper.{erase}

unfoldable pub count : ℕ → List ℕ → ℕ
count p [] = 0
count p (q ∷ l) = (if p == q then 1 else 0) + count p l

pub count-append : (p : ℕ) (xs ys : List ℕ) → count p (xs ++ ys) ≡ count p xs + count p ys
unfolding count
count-append p [] ys = omega arith
count-append p (x ∷ xs) ys = ground (arith, count-append p xs ys)

-- A list with one more element at its end.
pub count-push :
    (p q : ℕ) (xs : List ℕ) → count p (xs ++ q ∷ []) ≡ count p xs + (if p == q then 1 else 0)
unfolding count
count-push p q xs = ground (arith, count-append p xs (q ∷ []))

pub count-erase :
    (p q : ℕ) (l : List ℕ) → count p (erase q l) ≡ count p l - (if p == q then 1 else 0)
unfolding count erase
count-erase p q [] = ground arith
count-erase p q (x ∷ l) = ground (arith, count-erase p q l)
