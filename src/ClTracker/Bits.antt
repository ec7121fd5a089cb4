-- ===== src/ClTracker/Bits.antt =====
-- The bit operations on a leaf of the tracker set, test and clear one line.
use racoherence.Prelude.{
  ℕ, zero, suc, ◌-◌, ◌*◌, ◌/◌, ◌^◌, ◌≤◌, ◌<◌, ◌≡◌, refl, ap, ◌∙◌, false, not, ◌&&◌, ◌||◌, bit_or,
  bit_and, ◌==◌, arith, if◌then◌else◌,
}
use native.Mathlib.Nat.{pow-suc, one-le-pow, pow-le-pow_right}
use racoherence.Prelude.Bits.{
  test_bit, test_bit-le, test_bit-bit_or, test_bit-bit_and, bit_and_low, test_bit-zero,
}
use racoherence.Config.{u64_mod}
use racoherence.ClTracker.{leaf_mark_dirty, leaf_is_dirty, leaf_clear_dirty}

bit_and-zero : (n a : ℕ) → a ≤ n → bit_and a 0 ≡ 0
bit_and-zero zero a h = let e : a ≡ 0 = omega arith in rw e refl
bit_and-zero (suc n) a h = omega (arith, bit_and_low a 0, bit_and-zero n (a / 2) (omega arith))

bit_and-pow : (p m : ℕ) → bit_and m (2 ^ p) ≡ (if test_bit m p == 1 then 2 ^ p else 0)
bit_and-pow zero m = ground (arith, bit_and_low m 1, bit_and-zero (m / 2) (m / 2) (omega arith))
bit_and-pow (suc p) m =
    let half : 2 ^ suc p / 2 ≡ 2 ^ p = omega (arith, pow-suc 2 p) in
    let low : bit_and m (2 ^ suc p) ≡ bit_and (m / 2) (2 ^ p) * 2 =
      bit_and_low m (2 ^ suc p) ∙ omega (arith, pow-suc 2 p, ap (λ x. bit_and (m / 2) x) half) in
    ground (arith, low, bit_and-pow p (m / 2), pow-suc 2 p)

pub test_bit-pow : (p q : ℕ) → test_bit (2 ^ p) q ≡ (if p == q then 1 else 0)
test_bit-pow zero zero = refl
test_bit-pow zero (suc q) = ground (arith, test_bit-zero q)
test_bit-pow (suc p) zero = ground (arith, pow-suc 2 p)
test_bit-pow (suc p) (suc q) =
    let half : 2 ^ suc p / 2 ≡ 2 ^ p = omega (arith, pow-suc 2 p) in
    ap (λ x. test_bit x q) half ∙ ground (arith, test_bit-pow p q)

-- The complement on `w` bits.
pub test_bit_not : (w x q : ℕ) → x < 2 ^ w → q < w → test_bit (2 ^ w - 1 - x) q ≡ 1 - test_bit x q
test_bit_not zero x q h k = absurd (omega arith)
test_bit_not (suc w) x zero h k = omega (arith, pow-suc 2 w)
test_bit_not (suc w) x (suc q) h k =
    let half : (2 ^ suc w - 1 - x) / 2 ≡ 2 ^ w - 1 - x / 2 = omega (arith, pow-suc 2 w) in
    ap (λ y. test_bit y q) half
    ∙ test_bit_not w (x / 2) q (omega (arith, pow-suc 2 w)) (omega arith)

pub leaf_is_dirty_lem : (m l : ℕ) → leaf_is_dirty m l ≡ (test_bit m l == 1)
unfolding leaf_is_dirty
leaf_is_dirty_lem m l = ground (arith, bit_and-pow l m, one-le-pow l 2)

-- After a line is set, it is dirty and the others are as they were.
pub leaf_mark_dirty_lem :
    (m l k : ℕ) → leaf_is_dirty (leaf_mark_dirty m l) k ≡ (l == k || leaf_is_dirty m k)
unfolding leaf_mark_dirty
leaf_mark_dirty_lem m l k =
    rw (leaf_is_dirty_lem (bit_or m (2 ^ l)) k, leaf_is_dirty_lem m k)
      (ground (arith, test_bit-bit_or k m (2 ^ l), test_bit-pow l k, test_bit-le m k))

pow_below : (l w : ℕ) → l < w → 2 ^ l < 2 ^ w
pow_below l w h = omega (
  arith,
  pow-suc 2 l,
  one-le-pow l 2,
  pow-le-pow_right {n = 2} (omega arith) {i = suc l} {j = w} (omega arith),
)

-- After a line is cleared, it is not dirty and the others are as they were.
pub leaf_clear_dirty_lem :
    (m l k : ℕ)
    → l < 64
    → k < 64
    → leaf_is_dirty (leaf_clear_dirty m l) k ≡ (not (l == k) && leaf_is_dirty m k)
unfolding leaf_clear_dirty
leaf_clear_dirty_lem m l k a b =
    rw (leaf_is_dirty_lem (bit_and m (u64_mod - 1 - 2 ^ l)) k, leaf_is_dirty_lem m k)
      (ground (
        arith,
        test_bit-bit_and k m (u64_mod - 1 - 2 ^ l),
        test_bit_not 64 (2 ^ l) k (pow_below l 64 a) b,
        test_bit-pow l k,
        test_bit-le m k,
      ))

pub leaf_empty : (k : ℕ) → leaf_is_dirty 0 k ≡ false
leaf_empty k = rw (leaf_is_dirty_lem 0 k, test_bit-zero k) refl
