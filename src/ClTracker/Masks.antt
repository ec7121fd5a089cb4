-- ===== src/ClTracker/Masks.antt =====
-- CacheLineTracker::mark_dirty with a mask.
use racoherence.Prelude.{ℕ, ◌≡◌, ap, sym, ◌∙◌, ◌&&◌, ◌||◌, bit_or, arith, Bool-cases, inl, inr}
use racoherence.Prelude.Bits.{test_bit-bit_or, test_bit-le}
use racoherence.ClTracker.{
  Tracker, split_va, is_dirty, mark_mask, mark_dirty_with_mask, get_or_create_leaf, or_new_leaf,
  find_leaf, leaf_is_dirty, put_leaf,
}
use racoherence.ClTracker.Bits.{leaf_is_dirty_lem}
use racoherence.ClTracker.Lines.{same_leaf, is_dirty-put_leaf, same_leaf-says, leaf_says-new}

leaf_is_dirty-bit_or :
    (m mask k : ℕ) → leaf_is_dirty (bit_or m mask) k ≡ (leaf_is_dirty mask k || leaf_is_dirty m k)
leaf_is_dirty-bit_or m mask k =
    rw (leaf_is_dirty_lem (bit_or m mask) k, leaf_is_dirty_lem m k, leaf_is_dirty_lem mask k)
      (ground (arith, test_bit-bit_or k m mask, test_bit-le m k, test_bit-le mask k))

-- CacheLineTracker::mark_dirty with a mask, of any tracker and address: afterwards the lines that are
-- dirty are those that were, and those of the mask in the leaf of the address.
pub is_dirty-mark_mask :
    (t : Tracker) (va mask wa : ℕ)
    → is_dirty (mark_mask t va mask) wa
      ≡ (same_leaf va wa && leaf_is_dirty mask (split_va wa).line || is_dirty t wa)
unfolding mark_mask get_or_create_leaf
is_dirty-mark_mask t va mask wa =
    let d = or_new_leaf (find_leaf t (split_va va).l1 (split_va va).l2) in
    let first = is_dirty-put_leaf t va wa d in
    let second =
      is_dirty-put_leaf (put_leaf t (split_va va).l1 (split_va va).l2 d) va wa
        (mark_dirty_with_mask d mask).1 in
    elim (Bool-cases (same_leaf va wa)) [
      | inl e ↦
          rw e at second
          ∙ leaf_is_dirty-bit_or d mask (split_va wa).line
          ∙ ap (λ b. leaf_is_dirty mask (split_va wa).line || b)
              (leaf_says-new (find_leaf t (split_va va).l1 (split_va va).l2) (split_va wa).line
                ∙ same_leaf-says t va wa e)
          ∙ ap (λ b. b && leaf_is_dirty mask (split_va wa).line || is_dirty t wa) (sym e)
      | inr e ↦
          rw e at second
          ∙ rw e at first
          ∙ ap (λ b. b && leaf_is_dirty mask (split_va wa).line || is_dirty t wa) (sym e)
    ]
