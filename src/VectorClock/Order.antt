-- ===== src/VectorClock/Order.antt =====
-- The comparisons of vector clocks are a partial order and its strict part, and `merge` is its least
-- upper bound.
use racoherence.Prelude.{
  ℕ, zero, suc, ◌+◌, ◌≤◌, ◌<◌, ◌≡◌, refl, ap, true, not, ◌&&◌, [], ◌∷◌, arith, length,
}
use racoherence.Config.{u32_mod}
use racoherence.VectorClock.{VectorClock, tick, merge, strictly, lt, le, entry}

pub le_refl : (a : VectorClock) → le a a ≡ true
unfolding le
le_refl [] = refl
le_refl (x ∷ a) = ground (arith, le_refl a)

-- Two clocks of one length that are each `<=` the other are equal.
pub le_antisymm : (a b : VectorClock) → length a ≡ length b → le a b ≡ true → le b a ≡ true → a ≡ b
unfolding le
le_antisymm [] [] n p q = refl
le_antisymm [] (y ∷ b) n p q = absurd (omega arith)
le_antisymm (x ∷ a) [] n p q = absurd (omega arith)
le_antisymm (x ∷ a) (y ∷ b) n p q = ground (arith, le_antisymm a b)

pub le_trans :
    (a b c : VectorClock)
    → length a ≡ length b
    → length b ≡ length c
    → le a b ≡ true
    → le b c ≡ true
    → le a c ≡ true
unfolding le
le_trans [] b c n m p q = refl
le_trans (x ∷ a) [] c n m p q = absurd (omega arith)
le_trans (x ∷ a) (y ∷ b) [] n m p q = refl
le_trans (x ∷ a) (y ∷ b) (z ∷ c) n m p q = ground (arith, le_trans a b c)

-- Entry by entry.
pub entry-le :
    (a b : VectorClock) (i : ℕ) → length a ≡ length b → le a b ≡ true → entry a i ≤ entry b i
unfolding le
entry-le [] [] i n p = omega arith
entry-le [] (y ∷ b) i n p = absurd (omega arith)
entry-le (x ∷ a) [] i n p = absurd (omega arith)
entry-le (x ∷ a) (y ∷ b) zero n p = ground arith
entry-le (x ∷ a) (y ∷ b) (suc i) n p = ground (arith, entry-le a b i)

pub length-merge : (a b : VectorClock) → length (merge a b) ≡ length a
unfolding merge
length-merge [] b = refl
length-merge (x ∷ a) [] = refl
length-merge (x ∷ a) (y ∷ b) = ap suc (length-merge a b)

-- An entry of `merge` is at least that of either argument.
pub entry-merge :
    (a b : VectorClock) (i : ℕ)
    → length a ≡ length b
    → (entry a i ≤ entry (merge a b) i) × (entry b i ≤ entry (merge a b) i)
unfolding merge
entry-merge [] [] i n = omega arith
entry-merge [] (y ∷ b) i n = absurd (omega arith)
entry-merge (x ∷ a) [] i n = absurd (omega arith)
entry-merge (x ∷ a) (y ∷ b) zero n = ground arith
entry-merge (x ∷ a) (y ∷ b) (suc i) n = entry-merge a b i (omega arith)

le-merge_left : (a b : VectorClock) → length a ≡ length b → le a (merge a b) ≡ true
unfolding le merge
le-merge_left [] b n = refl
le-merge_left (x ∷ a) [] n = absurd (omega arith)
le-merge_left (x ∷ a) (y ∷ b) n = ground (arith, le-merge_left a b)

le-merge_right : (a b : VectorClock) → length a ≡ length b → le b (merge a b) ≡ true
unfolding le merge
le-merge_right [] [] n = refl
le-merge_right [] (y ∷ b) n = absurd (omega arith)
le-merge_right (x ∷ a) [] n = absurd (omega arith)
le-merge_right (x ∷ a) (y ∷ b) n = ground (arith, le-merge_right a b)

merge-le :
    (a b c : VectorClock)
    → length a ≡ length b
    → length b ≡ length c
    → le (merge a b) c ≡ (le a c && le b c)
unfolding le merge
merge-le [] [] c n m = refl
merge-le [] (y ∷ b) c n m = absurd (omega arith)
merge-le (x ∷ a) [] c n m = absurd (omega arith)
merge-le (x ∷ a) (y ∷ b) [] n m = absurd (omega arith)
merge-le (x ∷ a) (y ∷ b) (z ∷ c) n m = ground (arith, merge-le a b c)

-- For clocks of one length, `merge` is the least upper bound of its arguments: it is above both, and
-- it is below a clock exactly when both arguments are.
pub merge_lub :
    (a b c : VectorClock)
    → length a ≡ length b
    → length b ≡ length c
    → (le a (merge a b) ≡ true)
      × (le b (merge a b) ≡ true)
      × (le (merge a b) c ≡ (le a c && le b c))
merge_lub a b c n m = (le-merge_left a b n, le-merge_right a b n, merge-le a b c n m)

strictly-true : (a b : VectorClock) → length a ≡ length b → strictly true a b ≡ le a b
unfolding strictly le
strictly-true [] b n = refl
strictly-true (x ∷ a) [] n = refl
strictly-true (x ∷ a) (y ∷ b) n = ground (arith, strictly-true a b)

-- `operator<` is the strict part of `operator<=`, for clocks of one length: `a < b` exactly when
-- `a <= b` and not `b <= a`.
lt-eq-le : (a b : VectorClock) → length a ≡ length b → lt a b ≡ (le a b && not (le b a))
unfolding lt strictly le
lt-eq-le [] [] n = refl
lt-eq-le [] (y ∷ b) n = absurd (omega arith)
lt-eq-le (x ∷ a) [] n = absurd (omega arith)
lt-eq-le (x ∷ a) (y ∷ b) n = ground (arith, lt-eq-le a b, strictly-true a b)

-- A tick below the largest `unsigned` moves the clock strictly up.
lt-tick :
    (a : VectorClock) (i : ℕ) → i < length a → entry a i + 1 < u32_mod → lt a (tick a i) ≡ true
unfolding lt tick strictly
lt-tick [] i h k = absurd (omega arith)
lt-tick (x ∷ a) zero h k = ground (arith, strictly-true a a, le_refl a)
lt-tick (x ∷ a) (suc i) h k = ground (arith, lt-tick a i)
