-- ===== src/ClTracker/RangeLeaf.antt =====
-- CacheLineTracker::invalidate_range_if_dirty: what it does to one leaf of the tracker.
use racoherence.Prelude.{
  ℕ, ◌+◌, ◌*◌, ◌/◌, ◌^◌, ◌≤◌, ◌<◌, ◌≡◌, ap, ◌∙◌, sym, refl, Bool, true, false, not, ◌&&◌, ◌||◌,
  arith, ◌==◌, if◌then◌else◌, List, [], ◌++◌, map, none, some, bit_and, Bool-cases, inl, inr,
  ==_iff,
}
use racoherence.Prelude.Bits.{test_bit, test_bit-bit_and, test_bit-zero, bit_and-le}
use racoherence.Config.{virtual_cl_shift, virtual_cl_size, u64_mod}
use racoherence.ClGroup.Ranges.{set_bits, contains-set_bits}
use racoherence.CacheInfo.{Flush, invalidate}
use racoherence.CacheInfo.Process.{drops, drops-append}
use racoherence.ClTracker.{
  Tracker, split_va, find_leaf, put_leaf, is_dirty, leaf_is_dirty, leaf_shift, leaf_entries,
  l1_bits, l2_bits, next_leaf, range_mask, clear_dirty_with_mask,
}
use racoherence.ClTracker.Bits.{leaf_is_dirty_lem}
use racoherence.ClTracker.Lines.{
  same_leaf_at, other_leaf, is_dirty-put_leaf, same_leaf-says, leaf_says,
}
use racoherence.ClTracker.Ranges.{
  between, line_va, range_mask-bit, range_mask_small, clear_mask-bit, drops-map,
}

-- The bits of an address that the tracker does not look at.
abbrev pub block : ℕ → ℕ
block va = va / 2 ^ (leaf_shift + l2_bits + l1_bits)

abbrev pub in_range : ℕ → ℕ → ℕ → Bool
in_range addr end wa =
    between (addr / 2 ^ virtual_cl_shift) (end / 2 ^ virtual_cl_shift) (wa / 2 ^ virtual_cl_shift)

abbrev pub Result : Type 0
Result = Bool × List Flush × Tracker

-- What the loop gives from `addr` on, when it found a line before or not.
pub record RangeInvalidated (t : Tracker) (addr end : ℕ) (any : Bool) (r : Result) : Type 0 where
  pub found : any ≡ true → r.0 ≡ true
  pub left :
      (wa : ℕ)
      → block wa ≡ block end
      → is_dirty r.2 wa ≡ (not (in_range addr end wa) && is_dirty t wa)
  pub issued :
      (wa : ℕ)
      → block wa ≡ block end
      → in_range addr end wa ≡ true
      → is_dirty t wa ≡ true
      → (drops r.1 (wa / virtual_cl_size * virtual_cl_size) ≡ true) × (r.0 ≡ true)

or_true : (b : Bool) → (b || true) ≡ true
or_true true = refl
or_true false = refl

pub nothing_left :
    (t : Tracker) (addr end : ℕ) (any : Bool)
    → end ≤ addr
    → RangeInvalidated t addr end any (any, [], t)
nothing_left t addr end any h = record {
  found = λ f. f;
  left = λ wa b. rw (outside wa) refl;
  issued = λ wa b i d. absurd (cc (i, outside wa));
}
  where
    outside : (wa : ℕ) → in_range addr end wa ≡ false
    outside wa = ground arith

module _ (t : Tracker) (addr end : ℕ) (order : addr < end) (word : end < 2 ^ 63)
    (one : block addr ≡ block end) where
  abbrev here : ℕ → Bool
  here wa = addr / 2 ^ leaf_shift == wa / 2 ^ leaf_shift

  pub next_is : next_leaf addr ≡ (addr / 2 ^ leaf_shift + 1) * 2 ^ leaf_shift
  next_is = omega arith

  -- In the leaf, the rest of the range has no line; outside it has the same lines.
  rest_here : (wa : ℕ) → here wa ≡ true → in_range (next_leaf addr) end wa ≡ false
  rest_here wa h = ground (arith, h, next_is)

  rest_other : (wa : ℕ) → here wa ≡ false → in_range (next_leaf addr) end wa ≡ in_range addr end wa
  rest_other wa h = ground (arith, h, next_is)

  -- The leaf is not there.
  pub no_leaf :
      (any : Bool) (r : Result)
      → find_leaf t (split_va addr).l1 (split_va addr).l2 ≡ none
      → RangeInvalidated t (next_leaf addr) end any r
      → RangeInvalidated t addr end any r
  unfolding leaf_says
  no_leaf any r f rest = record {
    found = rest.found;
    left = λ wa b. elim (Bool-cases (here wa)) [
      | inl h ↦ rest.left wa b ∙ rw (clean wa h) (ground arith)
      | inr h ↦ rest.left wa b ∙ ap (λ x. not x && is_dirty t wa) (rest_other wa h)
    ];
    issued = λ wa b i d. elim (Bool-cases (here wa)) [
      | inl h ↦ absurd (cc (d, clean wa h))
      | inr h ↦ rest.issued wa b (rest_other wa h ∙ i) d
    ];
  }
    where
      clean : (wa : ℕ) → here wa ≡ true → is_dirty t wa ≡ false
      clean wa h =
          sym (
            same_leaf-says t addr wa
              (same_leaf_at addr wa ((==_iff (addr / 2 ^ 12) (wa / 2 ^ 12)).0 h)))
          ∙ ap (λ o. leaf_says o (split_va wa).line) f

  module _ (dirty : ℕ) (f : find_leaf t (split_va addr).l1 (split_va addr).l2 ≡ some dirty) where
    abbrev mask : ℕ
    mask = range_mask addr end

    abbrev pub after : Tracker
    after = put_leaf t (split_va addr).l1 (split_va addr).l2 (clear_dirty_with_mask dirty mask).1

    abbrev pub lines : List Flush
    lines = map (λ p. invalidate (line_va addr p)) (set_bits (bit_and dirty mask))

    says : (wa : ℕ) → here wa ≡ true → is_dirty t wa ≡ leaf_is_dirty dirty (split_va wa).line
    unfolding leaf_says
    says wa h =
        sym (
          same_leaf-says t addr wa
            (same_leaf_at addr wa ((==_iff (addr / 2 ^ 12) (wa / 2 ^ 12)).0 h)))
        ∙ ap (λ o. leaf_says o (split_va wa).line) f

    in_mask :
        (wa : ℕ)
        → here wa ≡ true
        → test_bit mask (split_va wa).line ≡ (if in_range addr end wa then 1 else 0)
    in_mask wa h =
        let at : addr / 2 ^ leaf_shift * leaf_entries + (split_va wa).line
            ≡ wa / 2 ^ virtual_cl_shift =
          ground (arith, h) in
        range_mask-bit addr end (split_va wa).line order word (omega arith)
        ∙ ap
            (λ l.
              if between (addr / 2 ^ virtual_cl_shift) (end / 2 ^ virtual_cl_shift) l then 1 else 0)
            at

    after-here :
        (wa : ℕ)
        → here wa ≡ true
        → is_dirty after wa ≡ (not (in_range addr end wa) && is_dirty t wa)
    after-here wa h =
        let leaf = same_leaf_at addr wa ((==_iff (addr / 2 ^ 12) (wa / 2 ^ 12)).0 h) in
        rw leaf at (is_dirty-put_leaf t addr wa (clear_dirty_with_mask dirty mask).1)
        ∙ clear_mask-bit dirty mask (split_va wa).line (range_mask_small addr end) (omega arith)
        ∙ rw (in_mask wa h, says wa h) (ground arith)

    after_other :
        (wa : ℕ) → block wa ≡ block end → here wa ≡ false → is_dirty after wa ≡ is_dirty t wa
    after_other wa b h =
        rw (other_leaf addr wa (one ∙ sym b) h) at
          (is_dirty-put_leaf t addr wa (clear_dirty_with_mask dirty mask).1)

    -- A dirty line of the range in the leaf is flushed.
    flushed :
        (wa : ℕ)
        → here wa ≡ true
        → in_range addr end wa ≡ true
        → is_dirty t wa ≡ true
        → (drops lines (wa / virtual_cl_size * virtual_cl_size) ≡ true)
          × ((bit_and dirty mask == 0) ≡ false)
    flushed wa h i d = (
      ap (drops lines) at
          ∙ drops-map addr (split_va wa).line (set_bits bits)
              (contains-set_bits bits (split_va wa).line small ∙ ground (arith, set)),
      elim (Bool-cases (bits == 0)) [
        | inl e ↦
            let none_set : test_bit bits (split_va wa).line ≡ 0 =
              ap (λ x. test_bit x (split_va wa).line) ((==_iff bits 0).0 e)
              ∙ test_bit-zero (split_va wa).line in
            absurd (omega (arith, none_set, set))
        | inr e ↦ e
      ],
    )
      where
        bits : ℕ
        bits = bit_and dirty mask

        small : bits < u64_mod
        small = omega (arith, bit_and-le dirty mask, range_mask_small addr end)

        set : test_bit bits (split_va wa).line ≡ 1
        set =
            let low : test_bit mask (split_va wa).line ≡ 1 = in_mask wa h ∙ rw i refl in
            let old : (test_bit dirty (split_va wa).line == 1) ≡ true =
              sym (leaf_is_dirty_lem dirty (split_va wa).line) ∙ sym (says wa h) ∙ d in
            test_bit-bit_and (split_va wa).line dirty mask ∙ ground (arith, low, old)

        at : wa / virtual_cl_size * virtual_cl_size ≡ line_va addr (split_va wa).line
        at =
            let same : addr / 2 ^ 12 ≡ wa / 2 ^ 12 = (==_iff (addr / 2 ^ 12) (wa / 2 ^ 12)).0 h in
            omega arith

    pub a_leaf :
        (any : Bool) (r : Result)
        → RangeInvalidated after (next_leaf addr) end (any || not (bit_and dirty mask == 0)) r
        → RangeInvalidated t addr end any (r.0, lines ++ r.1, r.2)
    a_leaf any r rest = record {
      found = λ e. rest.found (rw e refl);
      left = λ wa b. elim (Bool-cases (here wa)) [
        | inl h ↦ rest.left wa b ∙ rw (rest_here wa h) refl ∙ after-here wa h
        | inr h ↦
            rest.left wa b
            ∙ ap (λ x. not x && is_dirty after wa) (rest_other wa h)
            ∙ ap (λ x. not (in_range addr end wa) && x) (after_other wa b h)
      ];
      issued = λ wa b i d. elim (Bool-cases (here wa)) [
        | inl h ↦
            let (now, some_set) = flushed wa h i d in
            (
              drops-append lines r.1 (wa / virtual_cl_size * virtual_cl_size) ∙ rw now refl,
              rest.found (rw some_set (or_true any)),
            )
        | inr h ↦
            let (later, yes_) = rest.issued wa b (rest_other wa h ∙ i) (after_other wa b h ∙ d) in
            (
              drops-append lines r.1 (wa / virtual_cl_size * virtual_cl_size)
                  ∙ rw later (or_true (drops lines (wa / virtual_cl_size * virtual_cl_size))),
              yes_,
            )
      ];
    }
