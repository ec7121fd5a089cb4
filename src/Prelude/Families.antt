-- ===== src/Prelude/Families.antt =====
-- Arrays of fixed size as functions of the index, written at one place.
use Prim.Native.Nat.{ℕ, zero, suc, ◌+◌, ◌*◌, ◌≤◌, ◌<◌}
use mathlib.Core.Path.{◌≡◌, refl, sym, subst}
use mathlib.Core.Logic.{◌≢◌, ◌⊎◌, inl, inr}
use native.Mathlib.Decide.{dec_lt, ℕ_discrete}
use native.Mathlib.Omega.{arith}
use racoherence.Prelude.Tests.{◌==◌, if◌then◌else◌}

abbrev pub update {ℓ} : {A : Type ℓ} → (ℕ → A) → ℕ → A → ℕ → A
update f i a j = if i == j then a else f j

pub update_self {ℓ} : {A : Type ℓ} (f : ℕ → A) (i : ℕ) (a : A) → update f i a i ≡ a
update_self f i a = ground arith

pub update_ne {ℓ} : {A : Type ℓ} (f : ℕ → A) (i j : ℕ) (a : A) → i ≢ j → update f i a j ≡ f j
update_ne f i j a h = ground arith

-- The sum of a weight over the first members of a family.
module _ {ℓ} {A : Type ℓ} (weight : A → ℕ) where
  unfoldable pub sum : (ℕ → A) → ℕ → ℕ
  sum f zero = 0
  sum f (suc k) = weight (f k) + sum f k

  pub sum_le : (c : ℕ) → ((a : A) → weight a ≤ c) → (f : ℕ → A) (k : ℕ) → sum f k ≤ c * k
  unfolding sum
  sum_le c each f zero = omega arith
  sum_le c each f (suc k) = ground (arith, each (f k), sum_le c each f k)

  sum_beyond : (f : ℕ → A) (i : ℕ) (a : A) (k : ℕ) → k ≤ i → sum (update f i a) k ≡ sum f k
  unfolding sum
  sum_beyond f i a zero h = refl
  sum_beyond f i a (suc k) h = ground (arith, sum_beyond f i a k (omega arith))

  pub sum-update :
      (f : ℕ → A) (i : ℕ) (a : A) (k : ℕ)
      → i < k
      → sum (update f i a) k + weight (f i) ≡ sum f k + weight a
  unfolding sum
  sum-update f i a zero h = absurd (omega arith)
  sum-update f i a (suc k) h = elim (dec_lt i k) [
    | yes below ↦ ground (arith, sum-update f i a k below)
    | no last ↦ ground (arith, sum_beyond f i a k (omega arith))
  ]

  pub weight_le-sum : (f : ℕ → A) (i k : ℕ) → i < k → weight (f i) ≤ sum f k
  unfolding sum
  weight_le-sum f i zero h = absurd (omega arith)
  weight_le-sum f i (suc k) h = elim (dec_lt i k) [
    | yes below ↦ omega (arith, weight_le-sum f i k below)
    | no last ↦ ground arith
  ]

  pub sum-eq-zero : (f : ℕ → A) (k : ℕ) → ((i : ℕ) → i < k → weight (f i) ≡ 0) → sum f k ≡ 0
  unfolding sum
  sum-eq-zero f zero h = refl
  sum-eq-zero f (suc k) h =
      omega (arith, h k (omega arith), sum-eq-zero f k (λ i l. h i (omega arith)))

  -- Weights of at most one: a member without weight leaves room.
  pub sum_room :
      ((a : A) → weight a ≤ 1) → (f : ℕ → A) (i k : ℕ) → i < k → weight (f i) ≡ 0 → sum f k < k
  unfolding sum
  sum_room small f i zero h none_there = absurd (omega arith)
  sum_room small f i (suc k) h none_there = elim (dec_lt i k) [
    | yes below ↦ omega (arith, small (f k), sum_room small f i k below none_there)
    | no last ↦
        let here : weight (f k) ≡ 0 = ground arith in omega (arith, here, sum_le 1 small f k)
  ]

  -- Weights of one each.
  pub sum_ones : (f : ℕ → A) (k : ℕ) → ((i : ℕ) → i < k → weight (f i) ≡ 1) → sum f k ≡ k
  unfolding sum
  sum_ones f zero h = refl
  sum_ones f (suc k) h = omega (arith, h k (omega arith), sum_ones f k (λ i l. h i (omega arith)))

-- Below a bound one thing holds somewhere, or the other everywhere.
pub somewhere_or_everywhere {ℓ κ} :
    (P : ℕ → Type ℓ) (Q : ℕ → Type κ) (n : ℕ)
    → ((i : ℕ) → i < n → P i ⊎ Q i)
    → ((i : ℕ) × (i < n) × P i) ⊎ ((i : ℕ) → i < n → Q i)
somewhere_or_everywhere P Q zero h = inr (λ i l. absurd (omega arith))
somewhere_or_everywhere P Q (suc n) h = elim (h n (omega arith)) [
  | inl p ↦ inl (n, omega arith, p)
  | inr q ↦ elim (somewhere_or_everywhere P Q n (λ i l. h i (omega arith))) [
    | inl (i, l, p) ↦ inl (i, omega arith, p)
    | inr all ↦
        inr
          (λ i l. elim (ℕ_discrete i n) [ yes e ↦ subst Q (sym e) q | no d ↦ all i (omega arith) ])
  ]
]
