-- ===== src/LocalClTable/Range.antt =====
-- LocalCLTable::range_insert for a range of a few groups.
use racoherence.Prelude.{
  ℕ, ◌+◌, ◌-◌, ◌*◌, ◌/◌, ◌%◌, ◌^◌, ◌≤◌, ◌<◌, ◌≡◌, ◌≢◌, refl, ◌∙◌, sym, true, some, arith, bit_and,
  ◌==◌, inl, inr, Bool-cases, ltb, if◌then◌else◌,
}
use mathlib.Core.Path.{subst}
use native.Mathlib.Nat.{mod-eq_of_lt, pow-le-pow_right}
use racoherence.Prelude.Bits.{test_bit, test_bit-shl, test_bit-bit_and, test_bit-ones, bit_and-le}
use racoherence.Config.{u64_mod}
use racoherence.ClGroup.{shl64, full_mask, group_size, group_index_shift}
use racoherence.LocalClTable.{
  Table, LocalClTable, RangeResult, insert_mask, insert_groups, insert_aligned, insert_end,
  range_insert,
}
use racoherence.LocalClTable.Covers.{Covered}
use racoherence.LocalClTable.Home.{IsValid, insert_mask_fits}
use racoherence.LocalClTable.Insert.{insert_mask_lem, pow_small, test_bit_pow}
use racoherence.LocalClTable.Groups.{Ranged, stopped, inserted, insert_groups_lem}

-- The whole groups, fewer than four.
insert_aligned_lem :
    (fuel begin end : ℕ) (t : LocalClTable)
    → IsValid t.table
    → begin % group_size ≡ 0
    → end % group_size ≡ 0
    → begin ≤ end
    → end / group_size < begin / group_size + 4
    → end / group_size < 2 ^ group_index_shift
    → (r : RangeResult) × (insert_aligned fuel begin end t ≡ some r) × Ranged t.table begin end r
unfolding insert_aligned
insert_aligned_lem fuel begin end t valid from to order few small =
    let b = begin / group_size in
    let len : ℕ = end / group_size - b in
    let wrap : (end / group_size + u64_mod - b) % u64_mod ≡ len = omega arith in
    let short : ltb len 4 ≡ true = ground arith in
    let first : b * group_size ≡ begin = omega arith in
    let past : (b + len) * group_size ≡ end = omega arith in
    (
      insert_groups len b end t,
      rw (wrap, short) refl,
      subst (λ k. Ranged t.table k end (insert_groups len b end t)) first
          (subst (λ k. Ranged t.table (b * group_size) k (insert_groups len b end t)) past
            (insert_groups_lem len b end t valid (omega arith) (omega arith))),
    )

-- A range that begins at a group.
insert_end_lem :
    (fuel begin end : ℕ) (t : LocalClTable)
    → IsValid t.table
    → begin % group_size ≡ 0
    → begin ≤ end
    → end / group_size < begin / group_size + 4
    → end / group_size < 2 ^ group_index_shift
    → (r : RangeResult) × (insert_end fuel begin end t ≡ some r) × Ranged t.table begin end r
unfolding insert_end
insert_end_lem fuel begin end t valid from order few small =
    let (ok, full) =
      insert_mask_lem t.table (end / group_size) (2 ^ (end % group_size)) valid small
        (pow_small (end % group_size) (omega arith)) in
    elim (Bool-cases (end % group_size == 0)) [
      | inl e ↦
          let (r, runs, ok) =
            insert_aligned_lem fuel begin end t valid from (ground (arith, e)) order few small in
          (r, rw e runs, ok)
      | inr e ↦
          elim (Bool-cases (insert_mask t.table (end / group_size) (2 ^ (end % group_size))).0) [
            | inl f ↦ (
              record { full = true; begin = begin; end = end; dirty = t' },
              rw (e, f) refl,
              stopped t begin end end (end / group_size) (2 ^ (end % group_size)) valid f (full f)
                  order refl (omega arith, omega arith, small),
            )
            | inr f ↦
                let ins = ok f in
                let (r, runs, rest) =
                  insert_aligned_lem fuel begin (end - end % group_size) t' ins.valid from
                    (omega arith) (omega arith) (omega arith) (omega arith) in
                (
                  r,
                  rw (e, f) runs,
                  record {
                    valid = rest.valid;
                    kept = λ cl c. rest.kept cl (ins.kept cl c);
                    added = λ cl a b g. rest.added cl a (omega arith) g;
                    last =
                        λ g n. rest.kept end (ins.added end refl (test_bit_pow (end % group_size)));
                    fits = λ lo hi at l h.
                        rest.fits lo hi (ins.home lo hi at (omega arith) h) l (omega arith);
                    from = rest.from;
                    order = rest.order;
                    same_end = omega (arith, rest.same_end);
                  },
                )
          ]
    ]
  where
    t' : LocalClTable
    t' = record t { table = (insert_mask t.table (end / group_size) (2 ^ (end % group_size))).1 }

-- The lines of a group from `p` on.
abbrev from_mask : ℕ → ℕ
from_mask p = bit_and (shl64 full_mask p) full_mask

from_mask-bit : (p i : ℕ) → p ≤ i → i < group_size → test_bit (from_mask p) i ≡ 1
from_mask-bit p i low small =
    let fits : shl64 full_mask p ≡ full_mask * 2 ^ p =
      mod-eq_of_lt
        (omega (arith, pow-le-pow_right {n = 2} (omega arith) {i = p} {j = 15} (omega arith))) in
    let there : p + (i - p) ≡ i = omega arith in
    let bit : test_bit (full_mask * 2 ^ p) i ≡ 1 =
      subst (λ k. test_bit (full_mask * 2 ^ p) k ≡ 1) there
        (test_bit-shl p full_mask (i - p) ∙ test_bit-ones group_size (i - p) (omega arith)) in
    test_bit-bit_and i (shl64 full_mask p) full_mask
    ∙ rw (fits, bit, test_bit-ones group_size i small) refl

-- The line of `end` in the group that the range begins in.
one_group :
    (t : LocalClTable) (begin end : ℕ)
    → IsValid t.table
    → begin ≤ end
    → begin / group_size ≡ end / group_size
    → begin / group_size < 2 ^ group_index_shift
    → let mask = bit_and (from_mask (begin % group_size)) (2 ^ (end % group_size)) in
      let (full, slots) = insert_mask t.table (begin / group_size) mask in
      Ranged t.table begin end (record {
        full = full;
        begin = if full then begin else end;
        end = end;
        dirty = record t { table = slots };
      })
one_group t begin end valid order same small =
    let p = begin % group_size in
    let i = end % group_size in
    let mask = bit_and (from_mask p) (2 ^ i) in
    let fits : mask < 2 ^ 16 =
      omega (arith, bit_and-le (from_mask p) (2 ^ i), pow_small i (omega arith)) in
    let bit : test_bit mask i ≡ 1 =
      test_bit-bit_and i (from_mask p) (2 ^ i)
      ∙ rw (from_mask-bit p i (omega arith) (omega arith), test_bit_pow i) refl in
    let (ok, over) = insert_mask_lem t.table (begin / group_size) mask valid small fits in
    elim (Bool-cases (insert_mask t.table (begin / group_size) mask).0) [
      | inl e ↦ record {
        valid = subst IsValid (sym (over e)) valid;
        kept = λ cl c. subst (λ u. Covered u cl) (sym (over e)) c;
        added = λ cl a b f. absurd (omega arith);
        last = λ f n. cc;
        fits = λ lo hi at l h.
            insert_mask_fits t.table lo hi (begin / group_size) at l (omega arith) small mask;
        from = rw e (omega arith);
        order = rw e order;
        same_end = refl;
      }
      | inr e ↦ record {
        valid = (ok e).valid;
        kept = (ok e).kept;
        added = λ cl a b f. absurd (omega arith);
        last = λ f n. (ok e).added end (sym same) bit;
        fits = λ lo hi at l h. e;
        from = rw e order;
        order = rw e (omega arith);
        same_end = refl;
      }
    ]

-- LocalCLTable::range_insert on a table of valid entries, for the lines from `begin` up to `end` in
-- at most four groups whose indexes have 38 bits. It comes to its end. The new table has valid
-- entries and covers every line that the old one did. It covers the lines of the range in the groups
-- before that of `end`, and when it reports a full table those below the new `begin`, where the next
-- call goes on. When it does not report a full table, it covers the line `end` too, unless that is
-- the first of its group. What is left for the next call is inside the range, and ends in its last
-- group. A table that holds groups of the range alone, each at its own place, as a cleared table
-- does, is not reported full.
pub range_insert_lem :
    (fuel begin end : ℕ) (t : LocalClTable)
    → IsValid t.table
    → begin ≤ end
    → end / group_size < begin / group_size + 4
    → end / group_size < 2 ^ group_index_shift
    → (r : RangeResult) × (range_insert fuel begin end t ≡ some r) × Ranged t.table begin end r
unfolding range_insert
range_insert_lem fuel begin end t valid order few small =
    let p = begin % group_size in
    let (ok, over) =
      insert_mask_lem t.table (begin / group_size) (from_mask p) valid (omega arith)
        (omega (arith, bit_and-le (shl64 full_mask p) full_mask)) in
    let mask = bit_and (from_mask p) (2 ^ (end % group_size)) in
    let slots : Table = (insert_mask t.table (begin / group_size) (from_mask p)).1 in
    elim (Bool-cases (p == 0)) [
      | inl e ↦
          let (r, runs, ranged) =
            insert_end_lem fuel begin end t valid (ground (arith, e)) order few small in
          (r, rw e runs, ranged)
      | inr e ↦ elim (Bool-cases (begin / group_size == end / group_size)) [
        | inl f ↦ (
          record {
            full = (insert_mask t.table (begin / group_size) mask).0;
            begin = if (insert_mask t.table (begin / group_size) mask).0 then begin else end;
            end = end;
            dirty = record t { table = (insert_mask t.table (begin / group_size) mask).1 };
          },
          rw (e, f) refl,
          one_group t begin end valid order (ground (arith, f)) (omega arith),
        )
        | inr f ↦ elim (Bool-cases (insert_mask t.table (begin / group_size) (from_mask p)).0) [
          | inl g ↦ (
            record { full = true; begin = begin; end = end; dirty = record t { table = slots } },
            rw (e, f, g) refl,
            stopped t begin end end (begin / group_size) (from_mask p) valid g (over g) order refl
                (omega arith, omega arith, omega arith),
          )
          | inr g ↦
              let apart : begin / group_size ≢ end / group_size = λ h. ground (arith, f) in
              let (r, runs, rest) =
                insert_end_lem fuel (begin + group_size - p) end (record t { table = slots })
                  (ok g).valid (omega arith) (omega arith) (omega arith) small in
              (
                r,
                rw (e, f, g) runs,
                inserted (ok g)
                    (λ cl a b.
                      (omega arith, from_mask-bit p (cl % group_size) (omega arith) (omega arith)))
                    (omega arith) (omega arith, omega arith) rest,
              )
        ]
      ]
    ]
