-- ===== src/Prelude/Bits.antt =====
-- The bits of a machine word. `test_bit x i` is bit `i` of `x`; the bitwise operations of the source
-- are the native ones, and the laws below say what they do to one bit.
use Prim.Native.Nat.{ℕ, zero, suc, ◌+◌, ◌-◌, ◌*◌, ◌/◌, ◌%◌, ◌^◌, ◌≤◌, ◌<◌, min, max}
use Prim.Native.Nat.{bit_and, bit_or, bit_xor, bitwise, digits, differ}
use Prim.Native.Nat.{bit_and-bitwise, bit_or-bitwise, bit_xor-bitwise}
use racoherence.Prelude.Tests.{◌==◌, if◌then◌else◌}
use mathlib.Core.Path.{◌≡◌, refl, ap, ◌∙◌, sym}
use mathlib.Core.Logic.{◌≢◌}
use native.Mathlib.Omega.{arith}
use native.Mathlib.Decide.{ℕ_discrete}
use native.Mathlib.Nat.{
  mul_assoc, le_refl, pow-suc, one-le-pow, div-div-eq-div-mul, mul_comm, div-add-mod,
}

-- The recursion on binary digits does not depend on its fuel.
module _ (z : ℕ → ℕ) (f : ℕ → ℕ → ℕ) where
  digits_enough : (n m a b : ℕ) → a ≤ n → a ≤ m → digits z f n a b ≡ digits z f m a b
  digits_enough zero zero a b p q = refl
  digits_enough zero (suc m) zero b p q = refl
  digits_enough zero (suc m) (suc a) b p q = absurd (omega arith)
  digits_enough (suc n) zero zero b p q = refl
  digits_enough (suc n) zero (suc a) b p q = absurd (omega arith)
  digits_enough (suc n) (suc m) zero b p q = refl
  digits_enough (suc n) (suc m) (suc a) b p q =
      rw (digits_enough n m (suc a / 2) (b / 2) (omega arith) (omega arith))

  bitwise_pos :
      (a b : ℕ)
      → bitwise z f (suc a) b ≡ bitwise z f (suc a / 2) (b / 2) * 2 + f (suc a % 2) (b % 2)
  bitwise_pos a b =
      omega (arith, digits_enough a (suc a / 2) (suc a / 2) (b / 2) (omega arith) (le_refl _))

pub bit_or_low : (a b : ℕ) → bit_or a b ≡ bit_or (a / 2) (b / 2) * 2 + max (a % 2) (b % 2)
bit_or_low zero b = simp bit_or-bitwise (omega arith)
bit_or_low (suc a) b = simp bit_or-bitwise (bitwise_pos (λ y. y) max a b)

pub bit_and_low : (a b : ℕ) → bit_and a b ≡ bit_and (a / 2) (b / 2) * 2 + min (a % 2) (b % 2)
bit_and_low zero b = simp bit_and-bitwise (omega arith)
bit_and_low (suc a) b = simp bit_and-bitwise (bitwise_pos (λ y. 0) min a b)

-- Bit `i` of `x`, 0 or 1.
abbrev pub test_bit : ℕ → ℕ → ℕ
test_bit x zero = x % 2
test_bit x (suc i) = test_bit (x / 2) i

pub test_bit-le : (x i : ℕ) → test_bit x i ≤ 1
test_bit-le x zero = omega arith
test_bit-le x (suc i) = test_bit-le (x / 2) i

pub test_bit-bit_or : (i a b : ℕ) → test_bit (bit_or a b) i ≡ max (test_bit a i) (test_bit b i)
test_bit-bit_or zero a b = omega (arith, bit_or_low a b)
test_bit-bit_or (suc i) a b =
    let e : bit_or a b / 2 ≡ bit_or (a / 2) (b / 2) = omega (arith, bit_or_low a b) in
    rw e (test_bit-bit_or i (a / 2) (b / 2))

pub test_bit-bit_and : (i a b : ℕ) → test_bit (bit_and a b) i ≡ min (test_bit a i) (test_bit b i)
test_bit-bit_and zero a b = omega (arith, bit_and_low a b)
test_bit-bit_and (suc i) a b =
    let e : bit_and a b / 2 ≡ bit_and (a / 2) (b / 2) = omega (arith, bit_and_low a b) in
    rw e (test_bit-bit_and i (a / 2) (b / 2))

pub test_bit-zero : (i : ℕ) → test_bit 0 i ≡ 0
test_bit-zero zero = refl
test_bit-zero (suc i) = test_bit-zero i

half_shl : (x k : ℕ) → x * 2 ^ suc k / 2 ≡ x * 2 ^ k
half_shl x k = omega (arith, ap (λ (t : ℕ). x * t) (pow-suc 2 k))

-- `x << k` has the bits of `x`, `k` places up, and zeros below.
pub test_bit-shl : (k x i : ℕ) → test_bit (x * 2 ^ k) (k + i) ≡ test_bit x i
test_bit-shl zero x i =
    let e : x * 1 ≡ x = omega arith in let e' : 0 + i ≡ i = omega arith in rw (e, e')
test_bit-shl (suc k) x i =
    let e : suc k + i ≡ suc (k + i) = omega arith in
    rw e (ap (λ t. test_bit t (k + i)) (half_shl x k) ∙ test_bit-shl k x i)

pub test_bit-shl_below : (k x i : ℕ) → i < k → test_bit (x * 2 ^ k) i ≡ 0
test_bit-shl_below zero x i h = elim h [ ]
test_bit-shl_below (suc k) x zero h = omega (arith, ap (λ (t : ℕ). x * t) (pow-suc 2 k))
test_bit-shl_below (suc k) x (suc i) h =
    ap (λ t. test_bit t i) (half_shl x k) ∙ test_bit-shl_below k x i (omega arith)

-- `x >> k`.
pub test_bit-shr : (k x i : ℕ) → test_bit (x / 2 ^ k) i ≡ test_bit x (k + i)
test_bit-shr zero x i =
    let e : x / 1 ≡ x = omega arith in let e' : 0 + i ≡ i = omega arith in rw (e, e')
test_bit-shr (suc k) x i =
    let e : suc k + i ≡ suc (k + i) = omega arith in
    let e' : x / 2 ^ suc k ≡ x / 2 / 2 ^ k =
      rw (pow-suc 2 k, mul_comm (2 ^ k) 2) (sym (div-div-eq-div-mul x 2 (2 ^ k))) in
    rw (e, e') (test_bit-shr k (x / 2) i)

-- A mask of `k` ones.
pub test_bit-ones : (k i : ℕ) → i < k → test_bit (2 ^ k - 1) i ≡ 1
test_bit-ones zero i h = elim h [ ]
test_bit-ones (suc k) zero h = omega (arith, pow-suc 2 k, one-le-pow k 2)
test_bit-ones (suc k) (suc i) h =
    let e : (2 ^ suc k - 1) / 2 ≡ 2 ^ k - 1 = omega (arith, pow-suc 2 k, one-le-pow k 2) in
    rw e (test_bit-ones k i (omega arith))

-- A word below `2 ^ k` has no bit from `k` on.
pub test_bit_small : (k x i : ℕ) → x < 2 ^ k → k ≤ i → test_bit x i ≡ 0
test_bit_small zero x i h q = let e : x ≡ 0 = omega arith in rw e (test_bit-zero i)
test_bit_small (suc k) x zero h q = absurd (omega arith)
test_bit_small (suc k) x (suc i) h q =
    test_bit_small k (x / 2) i (omega (arith, pow-suc 2 k)) (omega arith)

pub bit_or-zero : (a : ℕ) → bit_or a 0 ≡ a
bit_or-zero a = fuelled a a (le_refl a)
  where
    fuelled : (n a : ℕ) → a ≤ n → bit_or a 0 ≡ a
    fuelled zero a h = let e : a ≡ 0 = omega arith in rw e
    fuelled (suc n) zero h = refl
    fuelled (suc n) (suc a) h =
        omega (arith, bit_or_low (suc a) 0, fuelled n (suc a / 2) (omega arith))

-- Fields that do not overlap: `r | (q << k)` is a sum when `r` fits `k` bits.
pub bit_or_fields : (k q r : ℕ) → r < 2 ^ k → bit_or r (q * 2 ^ k) ≡ r + q * 2 ^ k
bit_or_fields zero q r h =
    let e : r ≡ 0 = omega arith in
    let e' : bit_or 0 (q * 1) ≡ q * 1 = bit_or-bitwise 0 (q * 1) in rw e (omega (arith, e'))
bit_or_fields (suc k) q r h = omega (
  arith,
  bit_or_low r (q * 2 ^ suc k),
  ap (λ (t : ℕ). bit_or (r / 2) t) (half_shl q k),
  half_shl q k,
  ap (λ (t : ℕ). q * t) (pow-suc 2 k),
  bit_or_fields k q (r / 2) (omega (arith, pow-suc 2 k)),
)

pub bit_xor_low : (a b : ℕ) → bit_xor a b ≡ bit_xor (a / 2) (b / 2) * 2 + differ (a % 2) (b % 2)
bit_xor_low zero b = simp bit_xor-bitwise (omega arith)
bit_xor_low (suc a) b = simp bit_xor-bitwise (bitwise_pos (λ y. y) differ a b)

differ-zero : (x : ℕ) → x < 2 → differ x 0 ≡ x
differ-zero zero h = refl
differ-zero (suc zero) h = refl
differ-zero (suc (suc x)) h = absurd (omega arith)

bit_xor-zero : (n a : ℕ) → a ≤ n → bit_xor a 0 ≡ a
bit_xor-zero zero a h = let e : a ≡ 0 = omega arith in rw e
bit_xor-zero (suc n) zero h = refl
bit_xor-zero (suc n) (suc a) h = omega (
  arith,
  bit_xor_low (suc a) 0,
  bit_xor-zero n (suc a / 2) (omega arith),
  differ-zero (suc a % 2) (omega arith),
)

bit_and_complement : (w y : ℕ) → y < 2 ^ w → bit_and y (2 ^ w - 1 - y) ≡ 0
bit_and_complement zero y h = let e : y ≡ 0 = omega arith in rw e
bit_and_complement (suc w) y h =
    let e : (2 ^ suc w - 1 - y) / 2 ≡ 2 ^ w - 1 - y / 2 = omega (arith, pow-suc 2 w) in
    ground (
      arith,
      pow-suc 2 w,
      bit_and_low y (2 ^ suc w - 1 - y),
      ap (λ (t : ℕ). bit_and (y / 2) t) e,
      bit_and_complement w (y / 2) (omega (arith, pow-suc 2 w)),
    )

even_low : (x : ℕ) → x % 2 ≢ 1 → x % 2 ≡ 0
even_low x h = omega arith

-- `x` without its lowest set bit, by recursion on its binary digits.
abbrev pub clear_lowest : ℕ → ℕ → ℕ
clear_lowest zero x = 0
clear_lowest (suc w) x = if x % 2 == 1 then x - 1 else clear_lowest w (x / 2) * 2

-- `x ^= x & -x` clears the lowest set bit of a nonzero word of `w` bits.
pub bit_xor-low_bit :
    (w x : ℕ) → 0 < x → x < 2 ^ w → bit_xor x (bit_and x (2 ^ w - x)) ≡ clear_lowest w x
bit_xor-low_bit zero x p h = absurd (omega arith)
bit_xor-low_bit (suc w) x p h = elim (ℕ_discrete (x % 2) 1) [
  | yes odd ↦
      let half : (2 ^ suc w - x) / 2 ≡ 2 ^ w - 1 - x / 2 = omega (arith, pow-suc 2 w) in
      let low : bit_and x (2 ^ suc w - x) ≡ 1 = omega (
        arith,
        pow-suc 2 w,
        bit_and_low x (2 ^ suc w - x),
        ap (λ (t : ℕ). bit_and (x / 2) t) half,
        bit_and_complement w (x / 2) (omega (arith, pow-suc 2 w)),
      ) in
      rw low (
        ground
          (arith, bit_xor_low x 1, bit_xor-zero (x / 2) (x / 2), ap (λ (t : ℕ). differ t 1) odd))
  | no even ↦
      let half : (2 ^ suc w - x) / 2 ≡ 2 ^ w - x / 2 = omega (arith, pow-suc 2 w) in
      let low : bit_and x (2 ^ suc w - x) ≡ bit_and (x / 2) (2 ^ w - x / 2) * 2 = omega (
        arith,
        pow-suc 2 w,
        bit_and_low x (2 ^ suc w - x),
        ap (λ (t : ℕ). bit_and (x / 2) t) half,
      ) in
      let same : bit_and x (2 ^ suc w - x) / 2 ≡ bit_and (x / 2) (2 ^ w - x / 2) =
        omega (arith, low) in
      let zero_bits : differ (x % 2) (bit_and x (2 ^ suc w - x) % 2) ≡ 0 =
        rw (even_low x even, even_low (bit_and x (2 ^ suc w - x)) (omega (arith, low))) in
      ground (
        arith,
        bit_xor_low x (bit_and x (2 ^ suc w - x)),
        ap (λ (t : ℕ). bit_xor (x / 2) t) same,
        zero_bits,
        bit_xor-low_bit w (x / 2) (omega arith) (omega (arith, pow-suc 2 w)),
      )
]

pub div_pow : (v k : ℕ) → v / 2 ^ suc k ≡ v / 2 / 2 ^ k
div_pow v k = rw (pow-suc 2 k, mul_comm (2 ^ k) 2) (sym (div-div-eq-div-mul v 2 (2 ^ k)))

pub mod_pow : (v k : ℕ) → v % 2 ^ suc k ≡ v / 2 % 2 ^ k * 2 + v % 2
mod_pow v k = omega (
  arith,
  div-add-mod v (2 ^ suc k),
  div-add-mod (v / 2) (2 ^ k),
  ap (λ (t : ℕ). t * (v / 2 / 2 ^ k)) (pow-suc 2 k),
  ap (λ (t : ℕ). 2 ^ suc k * t) (div_pow v k),
)

-- `|` into a field above the `k` lowest bits leaves those alone and works on the quotient.
pub bit_or_high : (k v m : ℕ) → bit_or v (m * 2 ^ k) ≡ v % 2 ^ k + bit_or (v / 2 ^ k) m * 2 ^ k
bit_or_high zero v m =
    let e : m * 1 ≡ m = omega arith in let e' : v / 1 ≡ v = omega arith in rw (e, e') (omega arith)
bit_or_high (suc k) v m = omega (
  arith,
  bit_or_low v (m * 2 ^ suc k),
  half_shl m k,
  ap (λ (t : ℕ). bit_or (v / 2) t) (half_shl m k),
  ap (λ (t : ℕ). m * t) (pow-suc 2 k),
  bit_or_high k (v / 2) m,
  mod_pow v k,
  ap (λ (t : ℕ). bit_or t m) (div_pow v k),
  ap (λ (t : ℕ). bit_or (v / 2 ^ suc k) m * t) (pow-suc 2 k),
  ap (λ (t : ℕ). bit_or t m * 2 ^ k) (div_pow v k),
)

le-bit_or_fuel : (n a b : ℕ) → a ≤ n → a ≤ bit_or a b
le-bit_or_fuel n zero b h = omega arith
le-bit_or_fuel zero (suc a) b h = absurd (omega arith)
le-bit_or_fuel (suc n) (suc a) b h =
    omega (arith, bit_or_low (suc a) b, le-bit_or_fuel n (suc a / 2) (b / 2) (omega arith))

pub le-bit_or : (a b : ℕ) → a ≤ bit_or a b
le-bit_or a b = le-bit_or_fuel a a b (le_refl a)

pub bit_or-div : (k a b : ℕ) → bit_or a b / 2 ^ k ≡ bit_or (a / 2 ^ k) (b / 2 ^ k)
bit_or-div zero a b =
    let e : a / 1 ≡ a = omega arith in let e' : b / 1 ≡ b = omega arith in rw (e, e') (omega arith)
bit_or-div (suc k) a b =
    let half : bit_or a b / 2 ≡ bit_or (a / 2) (b / 2) = omega (arith, bit_or_low a b) in
    rw (div_pow (bit_or a b) k, div_pow a k, div_pow b k, half) (bit_or-div k (a / 2) (b / 2))

bit_and-le_fuel : (n a b : ℕ) → a ≤ n → bit_and a b ≤ b
bit_and-le_fuel n zero b h = omega (arith, bit_and-bitwise zero b)
bit_and-le_fuel zero (suc a) b h = absurd (omega arith)
bit_and-le_fuel (suc n) (suc a) b h =
    omega (arith, bit_and_low (suc a) b, bit_and-le_fuel n (suc a / 2) (b / 2) (omega arith))

pub bit_and-le : (a b : ℕ) → bit_and a b ≤ b
bit_and-le a b = bit_and-le_fuel a a b (le_refl a)

-- `x & (2 ^ k - 1)` is the remainder.
pub bit_and_mask : (k x : ℕ) → bit_and x (2 ^ k - 1) ≡ x % 2 ^ k
bit_and_mask zero x = omega (arith, bit_and-le x 0)
bit_and_mask (suc k) x =
    let half : (2 ^ suc k - 1) / 2 ≡ 2 ^ k - 1 = omega (arith, pow-suc 2 k) in
    let odd : (2 ^ suc k - 1) % 2 ≡ 1 = omega (arith, pow-suc 2 k, one-le-pow k 2) in
    bit_and_low x (2 ^ suc k - 1)
    ∙ rw (half, odd, bit_and_mask k (x / 2), mod_pow x k) (omega arith)

pub pow_add : (n k : ℕ) → 2 ^ (n + k) ≡ 2 ^ n * 2 ^ k
pow_add n zero = ap (λ (t : ℕ). 2 ^ t) {x = n + 0} {y = n} (omega arith) ∙ omega arith
pow_add n (suc k) =
    ap (λ (t : ℕ). 2 ^ t) {x = n + suc k} {y = suc (n + k)} (omega arith)
    ∙ pow-suc 2 (n + k)
    ∙ ap (λ (t : ℕ). t * 2) (pow_add n k)
    ∙ mul_assoc (2 ^ n) (2 ^ k) 2
    ∙ ap (λ (t : ℕ). 2 ^ n * t) (sym (pow-suc 2 k))
