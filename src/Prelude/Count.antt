-- ===== src/Prelude/Count.antt =====
-- How often a number stands in a list, and the values of a function over a range of positions.
use Prim.Native.Nat.{ℕ, zero, suc, ◌+◌, ◌≤◌, ◌<◌}
use mathlib.Core.Bool.{true}
use mathlib.Core.Path.{◌≡◌, refl, ap, ap₂, ◌∙◌}
use mathlib.Core.List.{List, [], ◌∷◌, ◌++◌}
use native.Mathlib.Omega.{arith}
use native.Mathlib.Decide.{ℕ_discrete}
use racoherence.Prelude.Contains.{contains}
use racoherence.Prelude.Tests.{◌==◌, if◌then◌else◌}
use racoherence.Prelude.Lists.{length}

abbrev pub count : ℕ → List ℕ → ℕ
count a [] = 0
count a (x ∷ xs) = (if x == a then 1 else 0) + count a xs

-- Occurrences add up.
pub count-append : (x : ℕ) (l r : List ℕ) → count x (l ++ r) ≡ count x l + count x r
count-append x (y ∷ l) r = omega (arith, count-append x l r)
count-append x [] r = omega arith

-- `f p ∷ f (p + 1) ∷ …`, `n` values.
abbrev pub values {ℓ} : {A : Type ℓ} → (ℕ → A) → ℕ → ℕ → List A
values f p zero = []
values f p (suc n) = f p ∷ values f (p + 1) n

pub length-values {ℓ} : {A : Type ℓ} (f : ℕ → A) (p n : ℕ) → length (values f p n) ≡ n
length-values f p zero = refl
length-values f p (suc n) = ap suc (length-values f (p + 1) n)

pub values-append {ℓ} :
    {A : Type ℓ} (f : ℕ → A) (p n m q : ℕ)
    → p + n ≡ q
    → values f p (n + m) ≡ values f p n ++ values f q m
values-append f p zero m q h =
    let e : p ≡ q = omega arith in let e' : 0 + m ≡ m = omega arith in rw (e, e')
values-append f p (suc n) m q h =
    let e : suc n + m ≡ suc (n + m) = omega arith in
    rw e (ap (λ l. f p ∷ l) (values-append f (p + 1) n m q (omega arith)))

-- Two functions that agree on the range, the one read `k` places further on.
pub values_shift {ℓ} :
    {A : Type ℓ} (f g : ℕ → A) (p k n q : ℕ)
    → q ≡ p + k
    → ((i : ℕ) → p ≤ i → i < p + n → f (i + k) ≡ g i)
    → values f q n ≡ values g p n
values_shift f g p k zero q e h = refl
values_shift f g p k (suc n) q e h =
    ap₂ ◌∷◌ (ap f e ∙ h p (omega arith) (omega arith)) (
      values_shift f g (p + 1) k n (q + 1) (omega arith) (λ i a b. h i (omega arith) (omega arith)))

-- A value of the range occurs in it.
pub count-values : (f : ℕ → ℕ) (p n i : ℕ) → p ≤ i → i < p + n → 1 ≤ count (f i) (values f p n)
count-values f p zero i a b = absurd (omega arith)
count-values f p (suc n) i a b = elim (ℕ_discrete p i) [
  | yes e ↦ rw e (ground arith)
  | no e ↦ ground (arith, count-values f (p + 1) n i (omega arith) (omega arith))
]

pub contains-values :
    (f : ℕ → ℕ) (p n i : ℕ) → p ≤ i → i < p + n → contains (values f p n) (f i) ≡ true
contains-values f p zero i a b = absurd (omega arith)
contains-values f p (suc n) i a b = elim (ℕ_discrete p i) [
  | yes e ↦ rw e (ground arith)
  | no e ↦ ground (arith, contains-values f (p + 1) n i (omega arith) (omega arith))
]

-- One more value at the end of the range.
pub values_snoc {ℓ} :
    {A : Type ℓ} (f : ℕ → A) (p n q : ℕ) → p + n ≡ q → values f p (suc n) ≡ values f p n ++ f q ∷ []
values_snoc f p zero q h = let e : p ≡ q = omega arith in rw e
values_snoc f p (suc n) q h = ap (λ l. f p ∷ l) (values_snoc f (p + 1) n q (omega arith))

pub count_mem : (a : ℕ) (xs ys : List ℕ) → 1 ≤ count a (xs ++ a ∷ ys)
count_mem a [] ys = ground arith
count_mem a (x ∷ xs) ys = ground (arith, count_mem a xs ys)
