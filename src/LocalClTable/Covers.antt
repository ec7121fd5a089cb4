-- ===== src/LocalClTable/Covers.antt =====
-- Which cache lines a packed group, and a table of them, stand for.
use racoherence.Prelude.{
  ℕ, ◌+◌, ◌*◌, ◌/◌, ◌%◌, ◌^◌, ◌≤◌, ◌<◌, ◌≡◌, ap, ◌∙◌, Bool, true, false, ◌&&◌, arith, bit_or, ltb,
  leb, ◌==◌, if◌then◌else◌, max, ◌⊎◌,
}
use racoherence.Prelude.Bits.{
  test_bit, test_bit-bit_or, bit_or_high, le-bit_or, bit_or-div, bit_or-zero, test_bit-zero,
  test_bit-le,
}
use racoherence.Config.{u64_mod, local_cl_table_size}
use racoherence.ClGroup.{
  is_length_based, get_index, get_length, get_mask16, shl64, group_size, group_index_shift,
}
use racoherence.LocalClTable.{Table}

-- The cache line `cl` is in the group `entry`. The empty slot 0 is a mask-based group with no line.
unfoldable pub covers : ℕ → ℕ → Bool
covers entry cl =
    if is_length_based entry
    then leb (get_index entry) (cl / group_size)
      && ltb (cl / group_size) (get_index entry + get_length entry)
    else (get_index entry == cl / group_size)
      && (test_bit (get_mask16 entry) (cl % group_size) == 1)

-- The cache line `cl` is in some slot of the table.
abbrev pub Covered : Table → ℕ → Type 0
Covered t cl = (j : ℕ) × (j < local_cl_table_size) × (covers (t j) cl ≡ true)

-- A 64-bit word; a length-based one has a positive length.
pub record IsEntry (entry : ℕ) : Type 0 where
  pub word : entry < u64_mod
  pub some_length : is_length_based entry ≡ true → 0 < get_length entry

pub zero-IsEntry : IsEntry 0
unfolding is_length_based
zero-IsEntry = ground arith

pub covers-zero : (cl : ℕ) → covers 0 cl ≡ false
unfolding covers is_length_based get_index get_mask16
covers-zero cl = ground (arith, test_bit-zero (cl % group_size))

-- The word that `insert_mask` writes: its index is kept, and the field above gets the mask.
record Marked (v mask v' : ℕ) : Type 0 where
  same_index : v' % 2 ^ 38 ≡ v % 2 ^ 38
  field : v' / 2 ^ 38 ≡ bit_or (v / 2 ^ 38) mask
  same_type : v' / 2 ^ 63 ≡ v / 2 ^ 63
  longer : v % 2 ^ 63 / 2 ^ 38 ≤ v' % 2 ^ 63 / 2 ^ 38

mark : (v mask : ℕ) → v < u64_mod → mask < 2 ^ 16 → Marked v mask (bit_or v (shl64 mask 38))
mark v mask h k =
    let shifted : shl64 mask 38 ≡ mask * 2 ^ 38 = omega arith in
    let sum : bit_or v (shl64 mask 38) ≡ v % 2 ^ 38 + bit_or (v / 2 ^ 38) mask * 2 ^ 38 =
      rw shifted (bit_or_high 38 v mask) in
    let top : bit_or (v / 2 ^ 38) mask / 2 ^ 25 ≡ v / 2 ^ 38 / 2 ^ 25 =
      bit_or-div 25 (v / 2 ^ 38) mask
      ∙ ap (λ (t : ℕ). bit_or (v / 2 ^ 38 / 2 ^ 25) t) (omega arith)
      ∙ bit_or-zero (v / 2 ^ 38 / 2 ^ 25) in
    let grows : v / 2 ^ 38 ≤ bit_or (v / 2 ^ 38) mask = le-bit_or (v / 2 ^ 38) mask in
    record {
      same_index = omega (arith, sum);
      field = omega (arith, sum);
      same_type = omega (arith, sum, top);
      longer = omega (arith, sum, top, grows);
    }

pub mark_index :
    (v mask : ℕ)
    → v < u64_mod
    → mask < 2 ^ 16
    → bit_or v (shl64 mask group_index_shift) % 2 ^ group_index_shift ≡ v % 2 ^ group_index_shift
mark_index v mask h k = (mark v mask h k).same_index

mark_bits :
    {v mask v' : ℕ}
    → Marked v mask v'
    → (cl : ℕ)
    → test_bit (v' / 2 ^ 38) (cl % 16)
      ≡ max (test_bit (v / 2 ^ 38) (cl % 16)) (test_bit mask (cl % 16))
mark_bits {v} {mask} m cl =
    ap (λ (t : ℕ). test_bit t (cl % 16)) m.field ∙ test_bit-bit_or (cl % 16) (v / 2 ^ 38) mask

-- The word that `insert_mask` writes keeps the lines of the old one.
pub covers-mark :
    (v mask cl : ℕ)
    → IsEntry v
    → mask < 2 ^ 16
    → covers v cl ≡ true
    → covers (bit_or v (shl64 mask group_index_shift)) cl ≡ true
unfolding covers is_length_based get_index get_length get_mask16
covers-mark v mask cl e k c =
    let m = mark v mask e.word k in
    ground (
      arith,
      m.same_index,
      m.same_type,
      m.longer,
      mark_bits m cl,
      test_bit-le mask (cl % 16),
      test_bit-le (v / 2 ^ 38) (cl % 16),
    )

-- It has the lines of the mask, in the group of the old word.
pub covers-mark_new :
    (v mask cl : ℕ)
    → IsEntry v
    → mask < 2 ^ 16
    → get_index v ≡ cl / group_size
    → test_bit mask (cl % group_size) ≡ 1
    → covers (bit_or v (shl64 mask group_index_shift)) cl ≡ true
unfolding covers is_length_based get_index get_length get_mask16
covers-mark_new v mask cl e k i b =
    let m = mark v mask e.word k in
    ground (
      arith,
      m.same_index,
      m.same_type,
      m.longer,
      mark_bits m cl,
      e.some_length,
      test_bit-le (v / 2 ^ 38) (cl % 16),
    )

pub mark-IsEntry :
    (v mask : ℕ) → IsEntry v → mask < 2 ^ 16 → IsEntry (bit_or v (shl64 mask group_index_shift))
unfolding is_length_based get_length
mark-IsEntry v mask e k =
    let m = mark v mask e.word k in
    record {
      word = omega (arith, m.same_type, e.word);
      some_length = ground (arith, m.same_type, m.longer, e.some_length);
    }

-- A mask-based word gains no line but those.
pub covers-mark_only :
    (v mask cl : ℕ)
    → v < 2 ^ 63
    → mask < 2 ^ 16
    → covers (bit_or v (shl64 mask group_index_shift)) cl ≡ true
    → (covers v cl ≡ true)
      ⊎ ((get_index v ≡ cl / group_size) × (test_bit mask (cl % group_size) ≡ 1))
unfolding covers is_length_based get_index get_length get_mask16
covers-mark_only v mask cl e k c =
    let m = mark v mask (omega arith) k in
    ground (
      arith,
      m.same_index,
      m.same_type,
      m.longer,
      mark_bits m cl,
      test_bit-le mask (cl % 16),
      test_bit-le (v / 2 ^ 38) (cl % 16),
    )
