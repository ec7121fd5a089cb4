-- ===== src/Prelude/Contains.antt =====
-- Membership in a list of numbers, as a test.
use Prim.Native.Nat.{ℕ}
use mathlib.Core.Path.{◌≡◌, refl}
use mathlib.Core.Bool.{Bool, true, false, ◌||◌}
use mathlib.Core.List.{List, [], ◌∷◌, ◌++◌, map}
use native.Mathlib.Omega.{arith}
use racoherence.Prelude.Tests.{◌==◌}

abbrev pub contains : List ℕ → ℕ → Bool
contains [] a = false
contains (x ∷ xs) a = x == a || contains xs a

pub contains-append :
    (xs ys : List ℕ) (a : ℕ) → contains (xs ++ ys) a ≡ (contains xs a || contains ys a)
contains-append [] ys a = refl
contains-append (x ∷ xs) ys a = ground (arith, contains-append xs ys a)

-- The image of a member is a member of the image.
pub contains-map :
    (f : ℕ → ℕ) (xs : List ℕ) (a : ℕ) → contains xs a ≡ true → contains (map f xs) (f a) ≡ true
contains-map f [] a h = h
contains-map f (x ∷ xs) a h = ground (arith, contains-map f xs a)
