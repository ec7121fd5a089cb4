-- ===== src/LocalClTable/Home.antt =====
-- LocalCLTable::insert_mask on a table that holds a few neighbouring groups alone: its first probe
-- finds the place of the group.
use racoherence.Prelude.{
  ℕ, ◌+◌, ◌%◌, ◌^◌, ◌≤◌, ◌<◌, ◌≡◌, ◌≢◌, refl, ◌∙◌, false, arith, bit_or, ◌==◌, if◌then◌else◌,
  update, inl, inr, Bool-cases, ==_iff,
}
use racoherence.Config.{u64_mod, local_cl_table_size}
use racoherence.ClGroup.{shl64, group_index_shift}
use racoherence.LocalClTable.{Table, empty_table, probe, insert_mask}
use racoherence.LocalClTable.Covers.{IsEntry, mark_index}

abbrev pub IsValid : Table → Type 0
IsValid t = (j : ℕ) → IsEntry (t j)

-- The word that `insert_mask` ors the mask into: that of the slot, or the index for an empty one.
abbrev pub slot_value : Table → ℕ → ℕ → ℕ
slot_value t group_index j = if t j == 0 then group_index else t j

-- The word of an occupied slot `j` is of a group from `lo` up to `hi`, whose place is `j`.
abbrev IsHome : ℕ → ℕ → ℕ → ℕ → Type 0
IsHome lo hi j entry =
    (lo ≤ entry % 2 ^ group_index_shift)
    × (entry % 2 ^ group_index_shift ≤ hi)
    × (entry % 2 ^ group_index_shift % local_cl_table_size ≡ j)

-- The table holds groups from `lo` up to `hi` alone, fewer than its slots, each at its own place.
abbrev pub AtHome : Table → ℕ → ℕ → Type 0
AtHome t lo hi = (hi < lo + local_cl_table_size) × ((j : ℕ) → t j ≢ 0 → IsHome lo hi j (t j))

pub empty-AtHome : (lo hi : ℕ) → hi < lo + local_cl_table_size → AtHome empty_table lo hi
empty-AtHome lo hi few = (few, λ j n. absurd (n refl))

module _ (t : Table) (lo hi g : ℕ) (home : AtHome t lo hi) (low : lo ≤ g) (high : g ≤ hi)
    (small : g < 2 ^ group_index_shift) where
  abbrev place : ℕ
  place = g % local_cl_table_size

  same_group : slot_value t g place % 2 ^ group_index_shift ≡ g
  same_group = elim (Bool-cases (t place == 0)) [
    | inl e ↦ rw e (omega arith)
    | inr e ↦
        let (above, below, there) = home.1 place (λ z. ground (arith, e)) in
        rw e (omega (arith, home.0))
  ]

  first_probe :
      (mask : ℕ)
      → insert_mask t g mask
        ≡ (false, update t place (bit_or (slot_value t g place) (shl64 mask group_index_shift)))
  unfolding insert_mask probe
  first_probe mask =
      let here : g + 0 ≡ g = omega arith in
      rw (here, (==_iff (slot_value t g place % 2 ^ group_index_shift) g).1 same_group) refl

  -- The group finds its place.
  pub insert_mask_fits : (mask : ℕ) → (insert_mask t g mask).0 ≡ false
  insert_mask_fits mask = rw (first_probe mask) refl

  pub insert_mask-AtHome :
      (mask : ℕ) → IsValid t → mask < 2 ^ 16 → AtHome (insert_mask t g mask).1 lo hi
  insert_mask-AtHome mask valid m = rw (first_probe mask) (home.0, occupied)
    where
      word : slot_value t g place < u64_mod
      word = elim (Bool-cases (t place == 0)) [
        | inl e ↦ rw e (omega arith)
        | inr e ↦ rw e ((valid place).word)
      ]

      kept :
          bit_or (slot_value t g place) (shl64 mask group_index_shift) % 2 ^ group_index_shift ≡ g
      kept = mark_index (slot_value t g place) mask word m ∙ same_group

      occupied :
          (j : ℕ)
          → let t' =
              update t place (bit_or (slot_value t g place) (shl64 mask group_index_shift)) in
            t' j ≢ 0 → IsHome lo hi j (t' j)
      occupied j = elim (Bool-cases (place == j)) [
        | inl e ↦ rw e (λ n. rw kept (low, high, (==_iff place j).0 e))
        | inr e ↦ rw e (home.1 j)
      ]
