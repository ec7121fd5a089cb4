-- ===== src/ClTracker/Ranges.antt =====
-- CacheLineTracker::invalidate_range_if_dirty: the bits of a leaf that it clears, and the lines that it
-- invalidates.
use racoherence.Prelude.{
  ℕ, zero, suc, ◌+◌, ◌-◌, ◌*◌, ◌/◌, ◌%◌, ◌^◌, ◌≤◌, ◌<◌, ◌≡◌, ap, ◌∙◌, refl, true, false, arith,
  ◌==◌, if◌then◌else◌, List, [], ◌∷◌, map, some, length, ℕ_discrete, contains, bit_and, ltb, leb,
  ◌&&◌, not, Bool, Bool-cases, inl, inr, ==_iff,
}
use mathlib.Core.Path.{subst}
use racoherence.Prelude.Bits.{
  clear_lowest, bit_and_low, test_bit, test_bit-bit_and, test_bit-shl, test_bit-shl_below,
  test_bit-ones, test_bit_small, bit_and-le, test_bit-le, mod_pow,
}
use native.Mathlib.Nat.{pow-suc, one-le-pow, pow-le-pow_right}
use racoherence.Config.{u64_mod, virtual_cl_shift, virtual_cl_size}
use racoherence.ClGroup.{ctz, shl64}
use racoherence.ClGroup.Ranges.{set_bits, set_bits_lowest, set_bits-zero, clear_lowest-le}
use racoherence.CacheInfo.{invalidate}
use racoherence.CacheInfo.Process.{drops}
use racoherence.ClTracker.{
  flush_bits, range_mask, next_leaf, leaf_entries, leaf_shift, leaf_is_dirty, clear_dirty_with_mask,
}
use racoherence.ClTracker.Bits.{leaf_is_dirty_lem, test_bit_not}

-- `x & (x - 1)`
bit_and-pred : (w x : ℕ) → 0 < x → x < 2 ^ w → bit_and x (x - 1) ≡ clear_lowest w x
bit_and-pred zero x p h = absurd (omega arith)
bit_and-pred (suc w) x p h = elim (ℕ_discrete (x % 2) 1) [
  | yes odd ↦
      let half : (x - 1) / 2 ≡ x / 2 = omega arith in
      ground (arith, bit_and_low x (x - 1), ap (λ y. bit_and (x / 2) y) half, bit_and-self (x / 2))
  | no even ↦
      let half : (x - 1) / 2 ≡ x / 2 - 1 = omega arith in
      ground (
        arith,
        bit_and_low x (x - 1),
        ap (λ y. bit_and (x / 2) y) half,
        bit_and-pred w (x / 2) (omega arith) (omega (arith, pow-suc 2 w)),
      )
]
  where
    bit_and-self : (a : ℕ) → bit_and a a ≡ a
    bit_and-self a = fuelled a a (omega arith)
      where
        fuelled : (n a : ℕ) → a ≤ n → bit_and a a ≡ a
        fuelled zero a h = omega (arith, bit_and-le a a)
        fuelled (suc n) a h = omega (arith, bit_and_low a a, fuelled n (a / 2) (omega arith))

-- The line of a leaf, at the address that is invalidated.
abbrev pub line_va : ℕ → ℕ → ℕ
line_va addr p = (addr / 2 ^ leaf_shift * 2 ^ leaf_shift + p * virtual_cl_size) % u64_mod

not_zero : (m : ℕ) → (suc m == 0) ≡ false
not_zero m = ground arith

pub flush_bits_lem :
    (fuel addr bits : ℕ)
    → bits < u64_mod
    → length (set_bits bits) < fuel
    → flush_bits fuel addr bits ≡ some (map (λ p. invalidate (line_va addr p)) (set_bits bits))
unfolding flush_bits
flush_bits_lem zero addr bits h f = absurd (omega arith)
flush_bits_lem (suc fuel) addr zero h f = rw set_bits-zero refl
flush_bits_lem (suc fuel) addr (suc m) h f =
    let lowest : set_bits (suc m) ≡ ctz (suc m) ∷ set_bits (clear_lowest 64 (suc m)) =
      set_bits_lowest (suc m) (omega arith) h in
    let fits : length (set_bits (clear_lowest 64 (suc m))) < fuel =
      omega (arith, ap (λ l. length l) lowest) in
    let next : bit_and (suc m) (suc m - 1) ≡ clear_lowest 64 (suc m) =
      bit_and-pred 64 (suc m) (omega arith) h in
    rw
      (
        next,
        not_zero m,
        lowest,
        flush_bits_lem fuel addr (clear_lowest 64 (suc m))
            (omega (arith, clear_lowest-le 64 (suc m))) fits,
      )
      refl

-- The lines of a leaf from `s` up to `e`.
abbrev pub between : ℕ → ℕ → ℕ → Bool
between s e k = leb s k && ltb k e

test_bit_mod : (w y k : ℕ) → k < w → test_bit (y % 2 ^ w) k ≡ test_bit y k
test_bit_mod zero y k h = absurd (omega arith)
test_bit_mod (suc w) y zero h = omega (arith, mod_pow y w)
test_bit_mod (suc w) y (suc k) h =
    let half : y % 2 ^ suc w / 2 ≡ y / 2 % 2 ^ w = omega (arith, mod_pow y w) in
    ap (λ x. test_bit x k) half ∙ test_bit_mod w (y / 2) k (omega arith)

-- The ones from place `s` on.
tail_bit : (s k : ℕ) → k < 64 → test_bit (shl64 (u64_mod - 1) s) k ≡ (if leb s k then 1 else 0)
tail_bit s k b = test_bit_mod 64 ((u64_mod - 1) * 2 ^ s) k b ∙ shifted
  where
    shifted : test_bit ((u64_mod - 1) * 2 ^ s) k ≡ (if leb s k then 1 else 0)
    shifted = elim (Bool-cases (leb s k)) [
      | inl e ↦
          let le : s ≤ k = ground (arith, e) in
          let there : s + (k - s) ≡ k = omega arith in
          rw e (
            subst (λ i. test_bit ((u64_mod - 1) * 2 ^ s) i ≡ 1) there
              (test_bit-shl s (u64_mod - 1) (k - s) ∙ test_bit-ones 64 (k - s) (omega arith)))
      | inr e ↦ rw e (test_bit-shl_below s (u64_mod - 1) k (ground (arith, e)))
    ]

ones_bit : (e k : ℕ) → test_bit (2 ^ e - 1) k ≡ (if ltb k e then 1 else 0)
ones_bit e k = elim (Bool-cases (ltb k e)) [
  | inl h ↦ rw h (test_bit-ones e k (ground (arith, h)))
  | inr h ↦
      rw h (test_bit_small e (2 ^ e - 1) k (omega (arith, one-le-pow e 2)) (ground (arith, h)))
]

middle_bit :
    (s e k : ℕ)
    → s < 64
    → k < 64
    → test_bit (bit_and (2 ^ e - 1) (u64_mod - 1 - (2 ^ s - 1))) k
      ≡ (if between s e k then 1 else 0)
middle_bit s e k a c =
    let fits : 2 ^ s - 1 < 2 ^ 64 =
      omega (arith, pow-le-pow_right {n = 2} (omega arith) {i = s} {j = 63} (omega arith)) in
    ground (
      arith,
      test_bit-bit_and k (2 ^ e - 1) (u64_mod - 1 - (2 ^ s - 1)),
      test_bit_not 64 (2 ^ s - 1) k fits c,
      ones_bit e k,
      ones_bit s k,
    )

-- The lines of the mask of a range in the leaf of `addr`: those from `addr` on, below that of `end`.
pub range_mask-bit :
    (addr end k : ℕ)
    → addr < end
    → end < 2 ^ 63
    → k < 64
    → let l = addr / 2 ^ leaf_shift * leaf_entries + k in
      test_bit (range_mask addr end) k
      ≡ (if between (addr / 2 ^ virtual_cl_shift) (end / 2 ^ virtual_cl_shift) l then 1 else 0)
unfolding range_mask
range_mask-bit addr end k order word small =
    let s = addr / 2 ^ virtual_cl_shift % leaf_entries in
    let e = end / 2 ^ virtual_cl_shift % leaf_entries in
    let next : next_leaf addr ≡ (addr / 2 ^ leaf_shift + 1) * 2 ^ leaf_shift = omega arith in
    elim (Bool-cases (ltb end (next_leaf addr))) [
      | inl h ↦
          let inside : end < (addr / 2 ^ leaf_shift + 1) * 2 ^ leaf_shift =
            ground (arith, h, next) in
          let low : (e == leaf_entries) ≡ false = ground arith in
          rw (h, low) (ground (arith, middle_bit s e k (omega arith) small))
      | inr h ↦
          let beyond : (addr / 2 ^ leaf_shift + 1) * 2 ^ leaf_shift ≤ end =
            ground (arith, h, next) in
          rw h (ground (arith, tail_bit s k small))
    ]

-- What is left in a leaf.
pub clear_mask-bit :
    (dirty mask k : ℕ)
    → mask < u64_mod
    → k < 64
    → leaf_is_dirty (clear_dirty_with_mask dirty mask).1 k
      ≡ (not (test_bit mask k == 1) && leaf_is_dirty dirty k)
clear_mask-bit dirty mask k m b =
    rw (leaf_is_dirty_lem (bit_and dirty (u64_mod - 1 - mask)) k, leaf_is_dirty_lem dirty k)
      (ground (
        arith,
        test_bit-bit_and k dirty (u64_mod - 1 - mask),
        test_bit_not 64 mask k m b,
        test_bit-le dirty k,
        test_bit-le mask k,
      ))

pub range_mask_small : (addr end : ℕ) → range_mask addr end < u64_mod
unfolding range_mask
range_mask_small addr end =
    let s = addr / 2 ^ virtual_cl_shift % leaf_entries in
    let e = end / 2 ^ virtual_cl_shift % leaf_entries in
    elim (Bool-cases (ltb end (next_leaf addr))) [
      | inl h ↦
          let low : (e == leaf_entries) ≡ false = ground arith in
          rw (h, low) (omega (arith, bit_and-le (2 ^ e - 1) (u64_mod - 1 - (2 ^ s - 1))))
      | inr h ↦ rw h (omega arith)
    ]

-- The lines flushed are those of the bits.
pub drops-map :
    (addr p : ℕ) (ps : List ℕ)
    → contains ps p ≡ true
    → drops (map (λ q. invalidate (line_va addr q)) ps) (line_va addr p) ≡ true
drops-map addr p [] h = absurd (cc h)
drops-map addr p (q ∷ ps) h = elim (Bool-cases (q == p)) [
  | inl e ↦ ground (arith, ap (line_va addr) ((==_iff q p).0 e))
  | inr e ↦ ground (arith, drops-map addr p ps (rw e at h))
]
