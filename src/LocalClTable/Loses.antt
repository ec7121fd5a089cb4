-- ===== src/LocalClTable/Loses.antt =====
-- What LocalCLTable::insert_mask adds and no more, and the lines that range_insert leaves out.
use racoherence.Prelude.{
  ℕ, suc, ◌+◌, ◌-◌, ◌*◌, ◌/◌, ◌%◌, ◌^◌, ◌≤◌, ◌<◌, ◌≡◌, ◌≢◌, refl, ◌∙◌, sym, true, false, some,
  arith, bit_and, bit_or, ◌==◌, inl, inr, Bool-cases, ◌⊎◌, update, dec_lt, if◌then◌else◌,
}
use mathlib.Core.Path.{subst}
use native.Mathlib.Nat.{pow-suc, one-le-pow}
use racoherence.Prelude.Bits.{
  test_bit, test_bit-zero, test_bit-shl_below, test_bit_small, test_bit-bit_and, bit_and-le,
}
use racoherence.Config.{u64_mod, local_cl_table_size}
use racoherence.ClGroup.{
  is_length_based, get_index, get_mask16, shl64, full_mask, group_size, group_index_shift,
}
use racoherence.LocalClTable.{
  Table, LocalClTable, RangeResult, insert_mask, insert_groups, insert_aligned, insert_end,
  range_insert,
}
use racoherence.LocalClTable.Covers.{covers, Covered, covers-mark_only}
use racoherence.LocalClTable.Home.{IsValid, slot_value}
use racoherence.LocalClTable.Insert.{Hit, insert_mask-Hit, insert_mask_lem, pow_small}

-- An index with no mask has no line.
covers_none : (g cl : ℕ) → g < 2 ^ group_index_shift → covers g cl ≡ false
unfolding covers is_length_based get_index get_mask16
covers_none g cl small =
    let no_mask : g / 2 ^ 38 ≡ 0 = omega arith in
    let short : g / 2 ^ 63 ≡ 0 = omega arith in
    ground (arith, test_bit-zero (cl % group_size), no_mask, short)

-- The lines of the mask in the group.
abbrev pub Among : ℕ → ℕ → ℕ → Type 0
Among g mask cl = (cl / group_size ≡ g) × (test_bit mask (cl % group_size) ≡ 1)

slot_only :
    (t : Table) (g mask slot cl : ℕ)
    → t slot < 2 ^ 63
    → slot < local_cl_table_size
    → slot_value t g slot % 2 ^ group_index_shift ≡ g
    → g < 2 ^ group_index_shift
    → mask < 2 ^ 16
    → covers (bit_or (slot_value t g slot) (shl64 mask group_index_shift)) cl ≡ true
    → Covered t cl ⊎ Among g mask cl
unfolding get_index
slot_only t g mask slot cl word inside same small few c =
    elim (covers-mark_only (slot_value t g slot) mask cl (ground arith) few c) [
      | inr (index, bit) ↦ inr (sym index ∙ same, bit)
      | inl old ↦ elim (Bool-cases (t slot == 0)) [
        | inl e ↦ cc (rw e at old, covers_none g cl small)
        | inr e ↦ inl (slot, inside, rw e at old)
      ]
    ]

adds_only :
    (t t' : Table) (g mask cl : ℕ)
    → ((j : ℕ) → t j < 2 ^ 63)
    → g < 2 ^ group_index_shift
    → mask < 2 ^ 16
    → Hit t g mask t'
    → Covered t' cl
    → Covered t cl ⊎ Among g mask cl
adds_only t t' g mask cl words small few h (j, inside, c) =
    let word = bit_or (slot_value t g h.slot) (shl64 mask group_index_shift) in
    let c' : covers (update t h.slot word j) cl ≡ true =
      subst (λ u. covers (u j) cl ≡ true) h.written c in
    elim (Bool-cases (h.slot == j)) [
      | inl e ↦
          slot_only t g mask h.slot cl (words h.slot) h.inside h.same_group small few (rw e at c')
      | inr e ↦ inl (j, inside, rw e at c')
    ]

-- `insert_mask` on a table of mask-based entries covers no line but those of the table and of the mask.
insert_mask_only :
    (t : Table) (g mask cl : ℕ)
    → IsValid t
    → ((j : ℕ) → t j < 2 ^ 63)
    → g < 2 ^ group_index_shift
    → mask < 2 ^ 16
    → Covered (insert_mask t g mask).1 cl
    → Covered t cl ⊎ Among g mask cl
insert_mask_only t g mask cl valid words small few c = elim (Bool-cases (insert_mask t g mask).0) [
  | inl e ↦ inl (subst (λ u. Covered u cl) ((insert_mask_lem t g mask valid small few).1 e) c)
  | inr e ↦
      adds_only t (insert_mask t g mask).1 g mask cl words small few (insert_mask-Hit t g mask e) c
]

test_bit_pow_ne : (i k : ℕ) → k ≢ i → test_bit (2 ^ i) k ≡ 0
test_bit_pow_ne i k n = elim (dec_lt k i) [
  | yes below ↦
      let one : 1 * 2 ^ i ≡ 2 ^ i = omega arith in
      subst (λ v. test_bit v k ≡ 0) one (test_bit-shl_below i 1 k below)
  | no above ↦
      test_bit_small (suc i) (2 ^ i) k (omega (arith, pow-suc 2 i, one-le-pow i 2 (omega arith)))
        (omega arith)
]

-- No whole group is left.
aligned_none :
    (fuel begin end : ℕ) (t : LocalClTable)
    → begin / group_size ≡ end / group_size
    → end / group_size < 2 ^ group_index_shift
    → insert_aligned fuel begin end t
      ≡ some (record { full = false; begin = end; end = end; dirty = t })
unfolding insert_aligned insert_groups
aligned_none fuel begin end t same small =
    let wrap : (end / group_size + u64_mod - end / group_size) % u64_mod ≡ 0 = omega arith in
    rw (same, wrap) refl

missed :
    (t : LocalClTable) (cl g mask : ℕ)
    → IsValid t.table
    → ((j : ℕ) → t.table j < 2 ^ 63)
    → ¬ (Covered t.table cl)
    → g < 2 ^ group_index_shift
    → mask < 2 ^ 16
    → test_bit mask (cl % group_size) ≡ 0
    → ¬ (Covered (insert_mask t.table g mask).1 cl)
missed t cl g mask valid words absent small few none_there c =
    elim (insert_mask_only t.table g mask cl valid words small few c) [
      | inl old ↦ absent old
      | inr (same, bit) ↦ cc
    ]

-- LocalCLTable::range_insert on a table of valid mask-based entries, for the lines from `begin` up to
-- `end` inside one group. It comes to its end, and a line from `begin` on, below `end`, that the table
-- did not cover is not covered by the new one either.
pub range_insert-loses :
    (fuel begin end cl : ℕ) (t : LocalClTable)
    → IsValid t.table
    → ((j : ℕ) → t.table j < 2 ^ 63)
    → ¬ (Covered t.table cl)
    → begin / group_size ≡ end / group_size
    → end / group_size < 2 ^ group_index_shift
    → begin ≤ cl
    → cl < end
    → (r : RangeResult) × (range_insert fuel begin end t ≡ some r) × ¬ (Covered r.dirty.table cl)
unfolding range_insert insert_end
range_insert-loses fuel begin end cl t valid words absent same small low high =
    let i = end % group_size in
    let from = bit_and (shl64 full_mask (begin % group_size)) full_mask in
    let g = end / group_size in
    let bit : test_bit (2 ^ i) (cl % group_size) ≡ 0 =
      test_bit_pow_ne i (cl % group_size) (λ h. absurd (omega arith)) in
    let within : ¬ (Covered (insert_mask t.table g (2 ^ i)).1 cl) =
      missed t cl g (2 ^ i) valid words absent small (pow_small i (omega arith)) bit in
    let t' : LocalClTable = record t { table = (insert_mask t.table g (2 ^ i)).1 } in
    elim (Bool-cases (begin % group_size == 0)) [
      | inl e ↦
          let off : (i == 0) ≡ false = ground arith in
          elim (Bool-cases (insert_mask t.table g (2 ^ i)).0) [
            | inl f ↦ (
              record { full = true; begin = begin; end = end; dirty = t' },
              rw (e, off, f) refl,
              within,
            )
            | inr f ↦ (
              record { full = false; begin = end - i; end = end - i; dirty = t' },
              rw (e, off, f) (aligned_none fuel begin (end - i) t' (omega arith) (omega arith)),
              within,
            )
          ]
      | inr e ↦
          let one : (begin / group_size == end / group_size) ≡ true = ground arith in
          let mask = bit_and from (2 ^ i) in
          let hit = insert_mask t.table (begin / group_size) mask in
          (
            record {
              full = hit.0;
              begin = if hit.0 then begin else end;
              end = end;
              dirty = record t { table = hit.1 };
            },
            rw (e, one) refl,
            missed t cl (begin / group_size) mask valid words absent (omega arith)
                (omega (arith, bit_and-le from (2 ^ i), pow_small i (omega arith)))
                (omega (arith, test_bit-bit_and (cl % group_size) from (2 ^ i), bit)),
          )
    ]
