-- ===== src/LocalClTable/Insert.antt =====
-- LocalCLTable::insert_mask and LocalCLTable::insert: no dirty line is lost.
use racoherence.Prelude.{
  ℕ, zero, suc, ◌+◌, ◌*◌, ◌/◌, ◌%◌, ◌^◌, ◌≤◌, ◌<◌, ◌≡◌, refl, ◌∙◌, true, false, arith, bit_or, ◌==◌,
  update, ◌⊎◌, inl, inr, Bool-cases, ℕ_discrete, ==_iff, sym,
}
use mathlib.Core.Path.{subst}
use racoherence.Prelude.Bits.{test_bit, test_bit-shl}
use native.Mathlib.Nat.{pow-le-pow_right}
use racoherence.Config.{local_cl_table_size}
use racoherence.ClGroup.{is_length_based, get_index, shl64, group_size, group_index_shift}
use racoherence.LocalClTable.{Table, empty_table, probe, insert_mask, insert}
use racoherence.LocalClTable.Home.{IsValid, slot_value, AtHome, insert_mask-AtHome}
use racoherence.LocalClTable.Covers.{
  covers, Covered, IsEntry, zero-IsEntry, covers-zero, covers-mark, covers-mark_new, mark-IsEntry,
}

-- The slot that the probes end at, when they find one.
pub record Hit (t : Table) (group_index mask : ℕ) (t' : Table) : Type 0 where
  pub slot : ℕ
  pub inside : slot < local_cl_table_size
  pub same_group : slot_value t group_index slot % 2 ^ group_index_shift ≡ group_index
  pub written :
      t' ≡ update t slot (bit_or (slot_value t group_index slot) (shl64 mask group_index_shift))

probe-Hit :
    (rounds i : ℕ) (t : Table) (group_index mask : ℕ)
    → (probe rounds i t group_index mask).0 ≡ false
    → Hit t group_index mask (probe rounds i t group_index mask).1
unfolding probe
probe-Hit zero i t group_index mask h = absurd (cc h)
probe-Hit (suc rounds) i t group_index mask h =
    elim (Bool-cases (
      slot_value t group_index ((group_index + i) % local_cl_table_size) % 2 ^ group_index_shift
      == group_index)) [
        | inl e ↦ rw e (record {
          slot = (group_index + i) % local_cl_table_size;
          inside = omega arith;
          same_group = ground arith;
          written = refl;
        })
        | inr e ↦ rw e (probe-Hit rounds (i + 1) t group_index mask (rw e at h))
      ]

probe_full :
    (rounds i : ℕ) (t : Table) (group_index mask : ℕ)
    → (probe rounds i t group_index mask).0 ≡ true
    → (probe rounds i t group_index mask).1 ≡ t
unfolding probe
probe_full zero i t group_index mask h = refl
probe_full (suc rounds) i t group_index mask h =
    ground (arith, probe_full rounds (i + 1) t group_index mask)

pub insert_mask-Hit :
    (t : Table) (group_index mask : ℕ)
    → (insert_mask t group_index mask).0 ≡ false
    → Hit t group_index mask (insert_mask t group_index mask).1
unfolding insert_mask
insert_mask-Hit t group_index mask ok = probe-Hit 5 0 t group_index mask ok

index-IsEntry : (group_index : ℕ) → group_index < 2 ^ group_index_shift → IsEntry group_index
unfolding is_length_based
index-IsEntry group_index g = ground arith

module _ {t t' : Table} {group_index mask : ℕ} (valid : IsValid t)
    (g : group_index < 2 ^ group_index_shift) (m : mask < 2 ^ 16)
    (h : Hit t group_index mask t') where
  value-IsEntry : IsEntry (slot_value t group_index h.slot)
  value-IsEntry = elim (Bool-cases (t h.slot == 0)) [
    | inl e ↦ rw e (index-IsEntry group_index g)
    | inr e ↦ rw e (valid h.slot)
  ]

  marked : ℕ
  marked = bit_or (slot_value t group_index h.slot) (shl64 mask group_index_shift)

  hit-IsValid : IsValid t'
  hit-IsValid j = rw h.written (elim (Bool-cases (h.slot == j)) [
    | inl e ↦ rw e (mark-IsEntry (slot_value t group_index h.slot) mask value-IsEntry m)
    | inr e ↦ rw e (valid j)
  ])

  value_keeps :
      (cl : ℕ) → covers (t h.slot) cl ≡ true → covers (slot_value t group_index h.slot) cl ≡ true
  value_keeps cl c = elim (ℕ_discrete (t h.slot) 0) [
    | yes e ↦ cc (rw e at c, covers-zero cl)
    | no n ↦ ground (arith, c)
  ]

  hit_keeps : (cl : ℕ) → Covered t cl → Covered t' cl
  hit_keeps cl (j, inside, c) = (
    j,
    inside,
    rw h.written (elim (Bool-cases (h.slot == j)) [
      | inl e ↦
          let here : covers (t h.slot) cl ≡ true =
            subst (λ k. covers (t k) cl ≡ true) (sym ((==_iff h.slot j).0 e)) c in
          rw e (
            covers-mark (slot_value t group_index h.slot) mask cl value-IsEntry m
              (value_keeps cl here))
      | inr e ↦ rw e c
    ]),
  )

  hit_adds :
      (cl : ℕ) → cl / group_size ≡ group_index → test_bit mask (cl % group_size) ≡ 1 → Covered t' cl
  unfolding get_index
  hit_adds cl e b = (
    h.slot,
    h.inside,
    rw (h.written, (==_iff h.slot h.slot).1 refl)
        (covers-mark_new (slot_value t group_index h.slot) mask cl value-IsEntry m here b),
  )
    where
      here : get_index (slot_value t group_index h.slot) ≡ cl / group_size
      here = h.same_group ∙ sym e

-- What a successful insertion of the lines of `mask` in a group does to the table.
pub record Inserted (t : Table) (group_index mask : ℕ) (t' : Table) : Type 0 where
  pub valid : IsValid t'
  pub home : (lo hi : ℕ) → AtHome t lo hi → lo ≤ group_index → group_index ≤ hi → AtHome t' lo hi
  pub kept : (cl : ℕ) → Covered t cl → Covered t' cl
  pub added :
      (cl : ℕ) → cl / group_size ≡ group_index → test_bit mask (cl % group_size) ≡ 1 → Covered t' cl

-- `insert_mask` that is not full keeps every line of the table and adds those of the mask; one that
-- is full leaves the table as it was.
pub insert_mask_lem :
    (t : Table) (group_index mask : ℕ)
    → IsValid t
    → group_index < 2 ^ group_index_shift
    → mask < 2 ^ 16
    → ((insert_mask t group_index mask).0 ≡ false
        → Inserted t group_index mask (insert_mask t group_index mask).1)
      × ((insert_mask t group_index mask).0 ≡ true → (insert_mask t group_index mask).1 ≡ t)
unfolding insert_mask
insert_mask_lem t group_index mask valid g m = (
  λ ok.
      let h = insert_mask-Hit t group_index mask ok in
      record {
        valid = hit-IsValid valid g m h;
        kept = hit_keeps valid g m h;
        added = hit_adds valid g m h;
        home =
            λ lo hi at low high. insert_mask-AtHome t lo hi group_index at low high g mask valid m;
      },
  probe_full 5 0 t group_index mask,
)

-- The mask of `insert` has the bit of its line.
pub pow_small : (p : ℕ) → p < 16 → 2 ^ p < 2 ^ 16
pow_small p h = omega (arith, pow-le-pow_right {n = 2} (omega arith) {i = p} {j = 15} (omega arith))

pub test_bit_pow : (p : ℕ) → test_bit (2 ^ p) p ≡ 1
test_bit_pow p =
    let one : 1 * 2 ^ p ≡ 2 ^ p = omega arith in
    let here : p + 0 ≡ p = omega arith in
    subst (λ k. test_bit (2 ^ p) k ≡ 1) here (rw one at (test_bit-shl p 1 0))

-- LocalCLTable::insert, on a table of valid entries and for a line whose group index has 38 bits.
-- Either it does not report a full table, and then the new table has valid entries and covers the line
-- and every line that the old one did; or it reports a full table, which is then unchanged.
pub insert_lem :
    (t : Table) (cl : ℕ)
    → IsValid t
    → cl / group_size < 2 ^ group_index_shift
    → (((insert t cl).0 ≡ false)
        × IsValid (insert t cl).1
        × Covered (insert t cl).1 cl
        × ((other : ℕ) → Covered t other → Covered (insert t cl).1 other))
      ⊎ (((insert t cl).0 ≡ true) × ((insert t cl).1 ≡ t))
unfolding insert
insert_lem t cl valid g =
    let (ok, full) =
      insert_mask_lem t (cl / group_size) (2 ^ (cl % group_size)) valid g
        (pow_small (cl % group_size) (omega arith)) in
    elim (Bool-cases (insert t cl).0) [
      | inl e ↦ inr (e, full e)
      | inr e ↦
          let i = ok e in inl (e, i.valid, i.added cl refl (test_bit_pow (cl % group_size)), i.kept)
    ]

-- A cleared table takes any line.
pub insert-empty :
    (cl : ℕ) → cl / group_size < 2 ^ group_index_shift → (insert empty_table cl).0 ≡ false
unfolding insert insert_mask probe
insert-empty cl h =
    let e : (cl / group_size % 2 ^ group_index_shift == cl / group_size) ≡ true = ground arith in
    rw e

pub empty-IsValid : IsValid empty_table
empty-IsValid j = zero-IsEntry
