-- ===== src/ClTracker/RangeLoop.antt =====
-- CacheLineTracker::invalidate_range_if_dirty, a leaf of the tracker at a time.
use racoherence.Prelude.{
  ℕ, zero, suc, ◌+◌, ◌*◌, ◌/◌, ◌^◌, ◌≤◌, ◌<◌, ◌≡◌, refl, Bool, false, not, ◌||◌, arith, ◌==◌, [],
  ◌++◌, Option, none, some, bit_and, leb, Bool-cases, inl, inr,
}
use racoherence.Prelude.Bits.{bit_and-le}
use racoherence.Config.{virtual_cl_size, u64_mod}
use racoherence.ClGroup.Ranges.{length-set_bits}
use racoherence.ClTracker.{
  Tracker, split_va, find_leaf, leaf_shift, next_leaf, range_mask, range_leaves,
  invalidate_range_if_dirty,
}
use racoherence.ClTracker.Ranges.{flush_bits_lem, range_mask_small}
use racoherence.ClTracker.RangeLeaf.{
  block, Result, RangeInvalidated, nothing_left, next_is, no_leaf, after, lines, a_leaf,
}

-- One round, where the rest of the loop does what it is to do.
one_round :
    (fuel addr end : ℕ) (any : Bool) (t : Tracker)
    → ((found_one : Bool) (t' : Tracker)
        → (r : Result) × (range_leaves fuel (next_leaf addr) end found_one t' ≡ some r)
          × RangeInvalidated t' (next_leaf addr) end found_one r)
    → addr < end
    → end < 2 ^ 63
    → block addr ≡ block end
    → leb end addr ≡ false
    → (o : Option ℕ) → find_leaf t (split_va addr).l1 (split_va addr).l2 ≡ o
    → (r : Result) × (range_leaves (suc fuel) addr end any t ≡ some r)
      × RangeInvalidated t addr end any r
unfolding range_leaves
one_round fuel addr end any t again order word one e none f =
    let (r, runs, ok) = again any t in
    (r, rw (e, f) runs, no_leaf t addr end order word one any r f ok)
one_round fuel addr end any t again order word one e (some dirty) f =
    let bits = bit_and dirty (range_mask addr end) in
    let small : bits < u64_mod =
      omega (arith, bit_and-le dirty (range_mask addr end), range_mask_small addr end) in
    let (r, runs, ok) = again (any || not (bits == 0)) (after t addr end order word one dirty f) in
    (
      (r.0, lines t addr end order word one dirty f ++ r.1, r.2),
      rw (e, f, flush_bits_lem 65 addr bits small (omega (arith, length-set_bits bits)), runs) refl,
      a_leaf t addr end order word one dirty f any r ok,
    )

range_leaves_lem :
    (fuel addr end : ℕ) (any : Bool) (t : Tracker)
    → end / 2 ^ leaf_shift + 2 ≤ addr / 2 ^ leaf_shift + fuel
    → addr / 2 ^ leaf_shift ≤ end / 2 ^ leaf_shift + 1
    → end < 2 ^ 63
    → (addr < end → block addr ≡ block end)
    → (r : Result) × (range_leaves fuel addr end any t ≡ some r) × RangeInvalidated t addr end any r
unfolding range_leaves
range_leaves_lem zero addr end any t enough near word one = absurd (omega arith)
range_leaves_lem (suc fuel) addr end any t enough near word one = elim (Bool-cases (leb end addr)) [
  | inl e ↦ ((any, [], t), rw e refl, nothing_left t addr end any (ground (arith, e)))
  | inr e ↦
      let order : addr < end = ground (arith, e) in
      let n = next_is t addr end order word (one order) in
      one_round fuel addr end any t
        (λ found_one t'.
          range_leaves_lem fuel (next_leaf addr) end found_one t' (omega (arith, n))
            (omega (arith, n)) word (λ h. omega (arith, n, one order)))
        order word (one order) e (find_leaf t (split_va addr).l1 (split_va addr).l2) refl
]

-- For addresses in one block of the 2 ^ 39 bytes that the tracker tells apart, below 2 ^ 63, and with
-- fuel for the leaves of the range, CacheLineTracker::invalidate_range_if_dirty comes to its end. Each
-- line from that of `begin` on, below that of `end`, is clean afterwards, the other lines of the block
-- are as they were, and if one of the former was dirty, it is invalidated, and the function returns
-- true.
pub invalidate_range_if_dirty_lem :
    (fuel : ℕ) (t : Tracker) (begin end : ℕ)
    → begin ≤ end
    → end < 2 ^ 63
    → block begin ≡ block end
    → end / 2 ^ leaf_shift + 2 ≤ begin / 2 ^ leaf_shift + fuel
    → (r : Result) × (invalidate_range_if_dirty fuel t begin end ≡ some r)
      × RangeInvalidated t (begin / virtual_cl_size * virtual_cl_size) end false r
unfolding invalidate_range_if_dirty
invalidate_range_if_dirty_lem fuel t begin end order word one enough =
    range_leaves_lem fuel (begin / virtual_cl_size * virtual_cl_size) end false t (omega arith)
      (omega arith) word (λ h. omega (arith, one))
