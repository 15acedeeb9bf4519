-- ===== src/Base/Members.antt =====
-- Membership in a list of numbers, and lists without repetition.
use Prim.Native.Nat.{ℕ}
use mathlib.Core.Path.{◌≡◌, refl}
use mathlib.Core.Bool.{Bool, true, false, ◌||◌}
use mathlib.Core.List.{List, [], ◌∷◌, ◌++◌}
use native.Mathlib.Omega.{arith}
use kgpu_fga.Base.Tests.{◌==◌}

abbrev pub has : ℕ → List ℕ → Bool
has q [] = false
has q (x ∷ l) = (q == x) || has q l

abbrev pub Distinct : List ℕ → Type 0
Distinct [] = Unit
Distinct (x ∷ l) = (has x l ≡ false) × Distinct l

pub has-append : (q : ℕ) (xs ys : List ℕ) → has q (xs ++ ys) ≡ (has q xs || has q ys)
has-append q [] ys = refl
has-append q (x ∷ xs) ys = ground (arith, has-append q xs ys)

pub Distinct-append-left : (xs ys : List ℕ) → Distinct (xs ++ ys) → Distinct xs
Distinct-append-left [] ys d = tt
Distinct-append-left (x ∷ xs) ys d =
    (ground (arith, has-append x xs ys, d.0), Distinct-append-left xs ys d.1)

pub Distinct-push : (xs : List ℕ) (y : ℕ) → Distinct xs → has y xs ≡ false → Distinct (xs ++ y ∷ [])
Distinct-push [] y d f = (refl, tt)
Distinct-push (x ∷ xs) y d f =
    (ground (arith, has-append x xs (y ∷ []), d.0), Distinct-push xs y d.1 (ground arith))

-- Without one entry.
pub Distinct-drop :
    (xs ys : List ℕ) (x : ℕ)
    → Distinct (xs ++ x ∷ ys)
    → Distinct (xs ++ ys) × (has x (xs ++ ys) ≡ false)
Distinct-drop [] ys x d = (d.1, d.0)
Distinct-drop (z ∷ xs) ys x d =
    let (e, f) = Distinct-drop xs ys x d.1 in
    (
      (ground (arith, has-append z xs ys, has-append z xs (x ∷ ys), d.0), e),
      ground (arith, has-append z xs (x ∷ ys), d.0, f),
    )

pub Distinct-apart :
    (q : ℕ) (xs ys : List ℕ) → Distinct (xs ++ ys) → has q xs ≡ true → has q ys ≡ false
Distinct-apart q [] ys d e = ground arith
Distinct-apart q (x ∷ xs) ys d e =
    ground (arith, has-append x xs ys, d.0, Distinct-apart q xs ys d.1)

pub Distinct-append-right : (xs ys : List ℕ) → Distinct (xs ++ ys) → Distinct ys
Distinct-append-right [] ys d = d
Distinct-append-right (x ∷ xs) ys d = Distinct-append-right xs ys d.1
