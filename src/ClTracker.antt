-- ===== src/ClTracker.antt =====
-- include/clTracker.hpp: which lines a node has to invalidate before it reads them, a table of two
-- levels over 64-bit leaves. A pointer that may be null is an Option, and the arrays are functions;
-- a call is made whole, so that the compare-exchange of a new table succeeds. `~x` on 64 bits is
-- `2 ^ 64 - 1 - x`.
pub mod Bits
pub mod Lines
pub mod Masks
pub mod Ranges
pub mod RangeLeaf
pub mod RangeLoop
use racoherence.Prelude.{
  ℕ, zero, suc, ◌+◌, ◌-◌, ◌*◌, ◌/◌, ◌%◌, ◌^◌, Bool, true, false, not, ◌||◌, Option, none, some,
  List, [], ◌∷◌, ◌++◌, bit_or, bit_and, ltb, leb, ◌==◌, if◌then◌else◌, update,
}
use racoherence.Config.{u64_mod, virtual_cl_shift, virtual_cl_size}
use racoherence.ClGroup.{ctz, shl64}
use racoherence.CacheInfo.{Flush, invalidate}

abbrev pub leaf_bits : ℕ
leaf_bits = 6

abbrev pub l1_bits : ℕ
l1_bits = 19

abbrev pub l2_bits : ℕ
l2_bits = 8

abbrev pub leaf_entries : ℕ
leaf_entries = 2 ^ leaf_bits

-- CacheLineTableLeaf is its `dirty_mask`; the functions on a mask give the old one as well.
abbrev pub mark_dirty_with_mask : ℕ → ℕ → ℕ × ℕ
mark_dirty_with_mask dirty mask = (dirty, bit_or dirty mask)

unfoldable pub leaf_mark_dirty : ℕ → ℕ → ℕ
leaf_mark_dirty dirty line = bit_or dirty (2 ^ line)

unfoldable pub leaf_is_dirty : ℕ → ℕ → Bool
leaf_is_dirty dirty line = not (bit_and dirty (2 ^ line) == 0)

abbrev pub clear_dirty_with_mask : ℕ → ℕ → ℕ × ℕ
clear_dirty_with_mask dirty mask = (dirty, bit_and dirty (u64_mod - 1 - mask))

unfoldable pub leaf_clear_dirty : ℕ → ℕ → ℕ
leaf_clear_dirty dirty line = bit_and dirty (u64_mod - 1 - 2 ^ line)

-- CacheLineTracker: `l1`, a table of CacheLineTableL2, which is a table of leaves.
abbrev pub TableL2 : Type 0
TableL2 = ℕ → Option ℕ

abbrev pub Tracker : Type 0
Tracker = ℕ → Option TableL2

pub record SplitVa : Type 0 where
  pub l1 : ℕ
  pub l2 : ℕ
  pub line : ℕ

abbrev pub split_va : ℕ → SplitVa
split_va va = record {
  line = va / 2 ^ virtual_cl_shift % leaf_entries;
  l2 = va / 2 ^ (virtual_cl_shift + leaf_bits) % 2 ^ l2_bits;
  l1 = va / 2 ^ (virtual_cl_shift + leaf_bits + l2_bits) % 2 ^ l1_bits;
}

-- The two loads of a lookup.
unfoldable pub find_leaf : Tracker → ℕ → ℕ → Option ℕ
find_leaf t l1_idx l2_idx = elim (t l1_idx) [ none ↦ none | some l2 ↦ l2 l2_idx ]

abbrev pub or_new_l2 : Option TableL2 → TableL2
or_new_l2 none = λ i. none
or_new_l2 (some l2) = l2

abbrev pub or_new_leaf : Option ℕ → ℕ
or_new_leaf none = 0
or_new_leaf (some dirty) = dirty

-- A store to a leaf, in a table that is there or is created.
unfoldable pub put_leaf : Tracker → ℕ → ℕ → ℕ → Tracker
put_leaf t l1_idx l2_idx dirty =
    update t l1_idx (some (update (or_new_l2 (t l1_idx)) l2_idx (some dirty)))

-- The leaf, and the tracker that has it.
unfoldable pub get_or_create_leaf : Tracker → ℕ → ℕ → ℕ × Tracker
get_or_create_leaf t l1_idx l2_idx =
    let dirty = or_new_leaf (find_leaf t l1_idx l2_idx) in (dirty, put_leaf t l1_idx l2_idx dirty)

unfoldable pub mark_dirty : Tracker → ℕ → Tracker
mark_dirty t va =
    let s = split_va va in
    let (dirty, t') = get_or_create_leaf t s.l1 s.l2 in
    put_leaf t' s.l1 s.l2 (leaf_mark_dirty dirty s.line)

-- `mark_dirty(va, mask)`
unfoldable pub mark_mask : Tracker → ℕ → ℕ → Tracker
mark_mask t va mask =
    let s = split_va va in
    let (dirty, t') = get_or_create_leaf t s.l1 s.l2 in
    put_leaf t' s.l1 s.l2 (mark_dirty_with_mask dirty mask).1

unfoldable pub is_dirty : Tracker → ℕ → Bool
is_dirty t va =
    let s = split_va va in
    elim (find_leaf t s.l1 s.l2) [ none ↦ false | some dirty ↦ leaf_is_dirty dirty s.line ]

unfoldable pub clear_dirty : Tracker → ℕ → Tracker
clear_dirty t va =
    let s = split_va va in
    elim (find_leaf t s.l1 s.l2) [
      | none ↦ t
      | some dirty ↦ put_leaf t s.l1 s.l2 (leaf_clear_dirty dirty s.line)
    ]

-- What is returned, the instructions issued, and the tracker.
unfoldable pub invalidate_if_dirty : Tracker → ℕ → Bool × List Flush × Tracker
invalidate_if_dirty t va =
    let s = split_va va in
    elim (find_leaf t s.l1 s.l2) [
      | none ↦ (false, [], t)
      | some dirty ↦
          if leaf_is_dirty dirty s.line
          then (true, invalidate va ∷ [], put_leaf t s.l1 s.l2 (leaf_clear_dirty dirty s.line))
          else (false, [], t)
    ]

abbrev pub leaf_shift : ℕ
leaf_shift = virtual_cl_shift + leaf_bits

-- `((addr >> leaf_shift) + 1) << leaf_shift`
abbrev pub next_leaf : ℕ → ℕ
next_leaf addr = shl64 (addr / 2 ^ leaf_shift + 1) leaf_shift

-- The mask of the lines of a leaf that the range has; `end` is that of the whole range.
unfoldable pub range_mask : ℕ → ℕ → ℕ
range_mask addr end =
    let start_line = addr / 2 ^ virtual_cl_shift % leaf_entries in
    let end_line =
      if ltb end (next_leaf addr) then end / 2 ^ leaf_bits % leaf_entries else leaf_entries in
    if end_line == leaf_entries
    then shl64 (u64_mod - 1) start_line
    else bit_and (2 ^ end_line - 1) (u64_mod - 1 - (2 ^ start_line - 1))

-- `while (bits)`, on fuel for the 64 bits.
pub flush_bits : ℕ → ℕ → ℕ → Option (List Flush)
flush_bits zero addr bits = none
flush_bits (suc fuel) addr bits =
    let rest = flush_bits fuel addr (bit_and bits (bits - 1)) in
    if bits == 0 then some [] else elim rest [
      | none ↦ none
      | some fs ↦ some (
          invalidate
            ((addr / 2 ^ leaf_shift * 2 ^ leaf_shift + ctz bits * virtual_cl_size) % u64_mod)
          ∷ fs)
    ]

-- `while (addr < end)`, on fuel for the leaves of the range.
range_leaves : ℕ → ℕ → ℕ → Bool → Tracker → Option (Bool × List Flush × Tracker)
unfolding flush_bits
range_leaves zero addr end any_dirty t = none
range_leaves (suc fuel) addr end any_dirty t =
    let s = split_va addr in
    if leb end addr then some (any_dirty, [], t) else elim (find_leaf t s.l1 s.l2) [
      | none ↦ range_leaves fuel (next_leaf addr) end any_dirty t
      | some dirty ↦
          let mask = range_mask addr end in
          let (prev, left) = clear_dirty_with_mask dirty mask in
          let was_dirty = bit_and prev mask in
          elim (flush_bits 65 addr was_dirty) [
            | none ↦ none
            | some fs ↦
                elim (range_leaves fuel (next_leaf addr) end (any_dirty || not (was_dirty == 0))
                  (put_leaf t s.l1 s.l2 left)) [
                    | none ↦ none
                    | some (any, rest, t') ↦ some (any, fs ++ rest, t')
                  ]
          ]
    ]

pub invalidate_range_if_dirty : ℕ → Tracker → ℕ → ℕ → Option (Bool × List Flush × Tracker)
unfolding range_leaves
invalidate_range_if_dirty fuel t begin end =
    range_leaves fuel (begin / virtual_cl_size * virtual_cl_size) end false t
