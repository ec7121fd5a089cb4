-- ===== src/ClGroup/Ranges.antt =====
-- The two iterations over a group of cache lines, LengthCLRange and MaskCLRange.
use racoherence.Prelude.{
  ℕ, zero, suc, ◌+◌, ◌-◌, ◌*◌, ◌/◌, ◌%◌, ◌^◌, ◌≤◌, ◌<◌, ◌≡◌, ap, ◌∙◌, refl, true, false, arith,
  ◌==◌, if◌then◌else◌, List, [], ◌∷◌, map, some, length, ℕ_discrete, contains,
}
use racoherence.Prelude.Bits.{clear_lowest, bit_xor-low_bit, test_bit, test_bit-zero}
use native.Mathlib.Nat.{pow-suc}
use racoherence.Config.{u64_mod, virtual_cl_shift}
use racoherence.ClGroup.{
  range_for, length_deref, length_next, mask_deref, mask_next, iter_ne, ctz, ctz_from, mask_range,
  length_range, get_ptr, get_length, group_len_max, shl64, group_shift,
}

-- The addresses of `n` groups from the `i`-th after `ptr`.
pub groups_from : ℕ → ℕ → ℕ → List ℕ
groups_from ptr i zero = []
groups_from ptr i (suc n) = (ptr + i * 2 ^ group_shift) ∷ groups_from ptr (i + 1) n

pub contains-groups_from :
    (ptr i n k : ℕ)
    → k < n
    → contains (groups_from ptr i n) (ptr + (i + k) * 2 ^ group_shift) ≡ true
unfolding groups_from
contains-groups_from ptr i zero k h = absurd (omega arith)
contains-groups_from ptr i (suc n) zero h = ground arith
contains-groups_from ptr i (suc n) (suc k) h =
    let e : ptr + (i + suc k) * 2 ^ group_shift ≡ ptr + (i + 1 + k) * 2 ^ group_shift =
      omega arith in
    rw e (ground (arith, contains-groups_from ptr (i + 1) n k))

length_loop :
    (fuel ptr i n len : ℕ)
    → i + n ≡ len
    → n < fuel
    → len ≤ group_len_max
    → ptr < 2 ^ 48
    → range_for length_deref length_next fuel
        (record { ptr = ptr; state = i })
        (record { ptr = ptr; state = len })
      ≡ some (groups_from ptr i n)
unfolding range_for groups_from length_deref length_next
length_loop zero ptr i n len e f h b = absurd (omega arith)
length_loop (suc fuel) ptr i zero len e f h b = ground arith
length_loop (suc fuel) ptr i (suc n) len e f h b =
    let wrap : (i + 1) % u64_mod ≡ i + 1 = omega arith in
    rw wrap (ground (arith, length_loop fuel ptr (i + 1) n len))

-- LengthCLRange visits the groups from the group's own address on, one for each unit of its length,
-- in order.
pub length_range_lem :
    (cg : ℕ) → length_range cg ≡ some (groups_from (get_ptr cg) 0 (get_length cg))
unfolding length_range get_length get_ptr
length_range_lem cg =
    length_loop (group_len_max + 1) (get_ptr cg) 0 (get_length cg) (get_length cg) (omega arith)
      (omega arith) (omega arith) (omega arith)

-- The places of the set bits among the `w` lowest of `x`, counted from `i`.
set_bits_from : ℕ → ℕ → ℕ → List ℕ
set_bits_from zero x i = []
set_bits_from (suc w) x i =
    if x % 2 == 1 then i ∷ set_bits_from w (x / 2) (i + 1) else set_bits_from w (x / 2) (i + 1)

pub set_bits : ℕ → List ℕ
unfolding set_bits_from
set_bits x = set_bits_from 64 x 0

set_bits_from-lowest :
    (w x i : ℕ)
    → 0 < x
    → x < 2 ^ w
    → set_bits_from w x i ≡ ctz_from w x i ∷ set_bits_from w (clear_lowest w x) i
unfolding set_bits_from ctz_from
set_bits_from-lowest zero x i p h = absurd (omega arith)
set_bits_from-lowest (suc w) x i p h = elim (ℕ_discrete (x % 2) 1) [
  | yes odd ↦
      let half : (x - 1) / 2 ≡ x / 2 = omega arith in
      ground (arith, half, ap (λ (t : ℕ). set_bits_from w t (i + 1)) half)
  | no even ↦
      let half : clear_lowest w (x / 2) * 2 / 2 ≡ clear_lowest w (x / 2) = omega arith in
      ground (
        arith,
        ap (λ (t : ℕ). set_bits_from w t (i + 1)) half,
        set_bits_from-lowest w (x / 2) (i + 1) (omega arith) (omega (arith, pow-suc 2 w)),
      )
]

length-set_bits_from : (w x i : ℕ) → length (set_bits_from w x i) ≤ w
unfolding set_bits_from
length-set_bits_from zero x i = omega arith
length-set_bits_from (suc w) x i = ground (arith, length-set_bits_from w (x / 2) (i + 1))

set_bits_from-above : (w x i j : ℕ) → j < i → contains (set_bits_from w x i) j ≡ false
unfolding set_bits_from
set_bits_from-above zero x i j h = refl
set_bits_from-above (suc w) x i j h = ground (arith, set_bits_from-above w (x / 2) (i + 1) j)

contains-set_bits_from :
    (w x i j : ℕ) → x < 2 ^ w → contains (set_bits_from w x i) (i + j) ≡ (test_bit x j == 1)
unfolding set_bits_from
contains-set_bits_from zero x i j h = let e : x ≡ 0 = omega arith in rw (e, test_bit-zero)
contains-set_bits_from (suc w) x i zero h =
    ground (arith, set_bits_from-above w (x / 2) (i + 1) (i + 0))
contains-set_bits_from (suc w) x i (suc j) h =
    let shift : i + suc j ≡ (i + 1) + j = omega arith in
    rw shift
      (ground (arith, contains-set_bits_from w (x / 2) (i + 1) j (omega (arith, pow-suc 2 w))))

-- The places listed are those of the bits that are set.
pub contains-set_bits : (x j : ℕ) → x < u64_mod → contains (set_bits x) j ≡ (test_bit x j == 1)
unfolding set_bits
contains-set_bits x j h =
    let e : j ≡ 0 + j = omega arith in
    ap (contains (set_bits_from 64 x 0)) e ∙ contains-set_bits_from 64 x 0 j h

pub set_bits-zero : set_bits 0 ≡ []
unfolding set_bits
set_bits-zero = refl

pub set_bits_lowest :
    (x : ℕ) → 0 < x → x < u64_mod → set_bits x ≡ ctz x ∷ set_bits (clear_lowest 64 x)
unfolding set_bits ctz
set_bits_lowest x p h = set_bits_from-lowest 64 x 0 p h

pub length-set_bits : (x : ℕ) → length (set_bits x) ≤ 64
unfolding set_bits
length-set_bits x = length-set_bits_from 64 x 0

abbrev mask_addr : ℕ → ℕ → ℕ
mask_addr ptr p = (ptr + shl64 p virtual_cl_shift) % u64_mod

mask_next-clears :
    (ptr m : ℕ)
    → 0 < m
    → m < u64_mod
    → mask_next (record { ptr = ptr; state = m }) ≡ record { ptr = ptr; state = clear_lowest 64 m }
unfolding mask_next
mask_next-clears ptr m p h =
    let wrap : (u64_mod - m) % u64_mod ≡ 2 ^ 64 - m = omega arith in
    rw (wrap, bit_xor-low_bit 64 m p h)

pub clear_lowest-le : (w x : ℕ) → clear_lowest w x ≤ x
clear_lowest-le zero x = omega arith
clear_lowest-le (suc w) x = ground (arith, clear_lowest-le w (x / 2))

iter_ne-more :
    (ptr m : ℕ)
    → iter_ne (record { ptr = ptr; state = suc m }) (record { ptr = ptr; state = 0 }) ≡ true
iter_ne-more ptr m = ground arith

mask_loop :
    (fuel ptr m : ℕ)
    → m < u64_mod
    → length (set_bits m) < fuel
    → range_for mask_deref mask_next fuel
        (record { ptr = ptr; state = m })
        (record { ptr = ptr; state = 0 })
      ≡ some (map (mask_addr ptr) (set_bits m))
unfolding range_for mask_deref
mask_loop zero ptr m h f = absurd (omega arith)
mask_loop (suc fuel) ptr zero h f = ground (arith, set_bits-zero)
mask_loop (suc fuel) ptr (suc m) h f =
    let lowest : set_bits (suc m) ≡ ctz (suc m) ∷ set_bits (clear_lowest 64 (suc m)) =
      set_bits_lowest (suc m) (omega arith) h in
    let fits : length (set_bits (clear_lowest 64 (suc m))) < fuel =
      omega (arith, ap (λ l. length l) lowest) in
    rw (
      mask_next-clears ptr (suc m) (omega arith) h,
      lowest,
      mask_loop fuel ptr (clear_lowest 64 (suc m)) (omega (arith, clear_lowest-le 64 (suc m))) fits,
      iter_ne-more ptr m,
    )

-- MaskCLRange visits exactly the lines whose bit is set in the mask, each once and in order of
-- address, for every mask of 64 bits.
pub mask_range_lem :
    (ptr mask : ℕ)
    → mask < u64_mod
    → mask_range ptr mask
      ≡ some (map (λ p. (ptr + shl64 p virtual_cl_shift) % u64_mod) (set_bits mask))
unfolding mask_range
mask_range_lem ptr mask h = mask_loop 65 ptr mask h (omega (arith, length-set_bits mask))
