-- ===== src/LocalClTable/Groups.antt =====
-- What LocalCLTable::range_insert is to do, and its loop over a few whole groups.
use racoherence.Prelude.{
  ℕ, zero, suc, ◌+◌, ◌*◌, ◌/◌, ◌%◌, ◌^◌, ◌≤◌, ◌<◌, ◌≡◌, ◌≢◌, refl, sym, true, false, arith, inl,
  inr, Bool-cases, ltb,
}
use mathlib.Core.Path.{subst}
use racoherence.Prelude.Bits.{test_bit, test_bit-ones}
use racoherence.ClGroup.{shl64, full_mask, group_size, group_index_shift, group_size_shift}
use racoherence.LocalClTable.{Table, LocalClTable, RangeResult, insert_mask, insert_groups}
use racoherence.LocalClTable.Covers.{Covered}
use racoherence.LocalClTable.Home.{IsValid, AtHome, insert_mask_fits}
use racoherence.LocalClTable.Insert.{Inserted, insert_mask_lem}

-- The result of `range_insert` on the lines from `begin` up to `end`: no line of the table is lost;
-- the lines in the groups before that of `end` are there, up to the new `begin` if the table is full;
-- and the line at `end` is there, if it is inside a group and the table is not full. A table that
-- holds groups of the range alone is not full. What is left is inside the range, up to its last group.
pub record Ranged (t : Table) (begin end : ℕ) (r : RangeResult) : Type 0 where
  pub valid : IsValid r.dirty.table
  pub kept : (cl : ℕ) → Covered t cl → Covered r.dirty.table cl
  pub added :
      (cl : ℕ)
      → begin ≤ cl
      → cl / group_size < end / group_size
      → (r.full ≡ true → cl < r.begin)
      → Covered r.dirty.table cl
  pub last : r.full ≡ false → end % group_size ≢ 0 → Covered r.dirty.table end
  pub fits :
      (lo hi : ℕ)
      → AtHome t lo hi
      → lo ≤ begin / group_size
      → end / group_size ≤ hi
      → r.full ≡ false
  pub from : begin ≤ r.begin
  pub order : r.begin ≤ r.end
  pub same_end : r.end / group_size ≡ end / group_size

-- A full table, at the group `g` of the range.
pub stopped :
    (t : LocalClTable) (begin end upto g mask : ℕ)
    → let (full, slots) = insert_mask t.table g mask in
      IsValid t.table
      → full ≡ true
      → slots ≡ t.table
      → begin ≤ end
      → end / group_size ≡ upto / group_size
      → (begin / group_size ≤ g) × (g ≤ upto / group_size) × (g < 2 ^ group_index_shift)
      → Ranged t.table begin upto
          (record { full = true; begin = begin; end = end; dirty = record t { table = slots } })
stopped t begin end upto g mask valid full same order last (low, high, small) = record {
  valid = subst IsValid (sym same) valid;
  kept = λ cl c. subst (λ u. Covered u cl) (sym same) c;
  added = λ cl a b f. absurd (omega (arith, f refl));
  last = λ f n. cc;
  fits = λ lo hi at l h.
      cc (full, insert_mask_fits t.table lo hi g at (omega arith) (omega arith) small mask);
  from = omega arith;
  order = order;
  same_end = last;
}

-- The lines of a mask, then the rest of the range.
pub inserted :
    {t t' : Table} {g mask begin middle end : ℕ} {r : RangeResult}
    → Inserted t g mask t'
    → ((cl : ℕ)
        → begin ≤ cl
        → cl < middle
        → (cl / group_size ≡ g) × (test_bit mask (cl % group_size) ≡ 1))
    → begin ≤ middle
    → (begin / group_size ≤ g) × (g ≤ end / group_size)
    → Ranged t' middle end r
    → Ranged t begin end r
inserted {middle = middle} ins here short (low, high) rest = record {
  valid = rest.valid;
  kept = λ cl c. rest.kept cl (ins.kept cl c);
  added = λ cl a b f. elim (Bool-cases (ltb cl middle)) [
    | inl e ↦
        let (group, bit) = here cl a (ground (arith, e)) in rest.kept cl (ins.added cl group bit)
    | inr e ↦ rest.added cl (ground (arith, e)) b f
  ];
  last = rest.last;
  fits = λ lo hi at l h.
      rest.fits lo hi (ins.home lo hi at (omega arith) (omega arith)) (omega arith) h;
  from = omega (arith, rest.from);
  order = rest.order;
  same_end = rest.same_end;
}

pub insert_groups_lem :
    (rounds b end : ℕ) (t : LocalClTable)
    → IsValid t.table
    → b + rounds < 2 ^ group_index_shift
    → end ≡ (b + rounds) * group_size
    → Ranged t.table (b * group_size) ((b + rounds) * group_size) (insert_groups rounds b end t)
unfolding insert_groups
insert_groups_lem zero b end t valid small upto = record {
  valid = valid;
  kept = λ cl c. c;
  added = λ cl a c f. absurd (omega arith);
  last = λ f n. absurd (n (omega arith));
  fits = λ lo hi at l h. refl;
  from = omega arith;
  order = omega arith;
  same_end = omega arith;
}
insert_groups_lem (suc rounds) b end t valid small upto =
    let (ok, full) = insert_mask_lem t.table b full_mask valid (omega arith) (omega arith) in
    elim (Bool-cases (insert_mask t.table b full_mask).0) [
      | inl e ↦
          let here : shl64 b group_size_shift ≡ b * group_size = omega arith in
          rw (e, here)
            (stopped t (b * group_size) end ((b + suc rounds) * group_size) b full_mask valid e
              (full e) (omega arith) (omega arith) (omega arith, omega arith, omega arith))
      | inr e ↦
          let next : (b + 1 + rounds) * group_size ≡ (b + suc rounds) * group_size = omega arith in
          rw e (
            inserted (ok e)
              (λ cl a c. (omega arith, test_bit-ones group_size (cl % group_size) (omega arith)))
              (omega arith) (omega arith, omega arith)
              (subst
                (λ k. Ranged (insert_mask t.table b full_mask).1 ((b + 1) * group_size) k (
                  insert_groups rounds (b + 1) end
                    (record t { table = (insert_mask t.table b full_mask).1 })))
                next
                (insert_groups_lem rounds (b + 1) end
                  (record t { table = (insert_mask t.table b full_mask).1 }) (ok e).valid
                  (omega arith) (omega arith))))
    ]
