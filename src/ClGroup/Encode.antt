-- ===== src/ClGroup/Encode.antt =====
-- The packing of a group into a word: what the accessors read back.
use racoherence.Prelude.{ℕ, ◌+◌, ◌*◌, ◌^◌, ◌≤◌, ◌<◌, ◌≡◌, true, false, arith, bit_or}
use racoherence.Prelude.Bits.{bit_or_fields}
use racoherence.ClGroup.{
  length_entry, is_length_based, get_length, get_index, get_ptr, get_mask16, group_index_shift,
  group_len_max, type_mask, shl64, group_shift,
}

-- The length-based word is the sum of its three fields.
pub length_entry_sum :
    (index length : ℕ)
    → index < 2 ^ group_index_shift
    → length ≤ group_len_max
    → length_entry index length ≡ index + length * 2 ^ group_index_shift + type_mask
unfolding length_entry
length_entry_sum index length h k =
    rw (shifted, bit_or_fields 38 length index h)
      (bit_or_fields 63 1 (index + length * 2 ^ 38) (omega arith))
  where
    shifted : shl64 length 38 ≡ length * 2 ^ 38
    shifted = omega arith

-- A length-based group reads back as one, with the index and the length that it was made of, when
-- the index has 38 bits and the length is at most GROUP_LEN_MAX.
pub length_entry_roundtrip :
    (index length : ℕ)
    → index < 2 ^ group_index_shift
    → length ≤ group_len_max
    → (is_length_based (length_entry index length) ≡ true)
      × (get_index (length_entry index length) ≡ index)
      × (get_length (length_entry index length) ≡ length)
      × (get_ptr (length_entry index length) ≡ index * 2 ^ group_shift)
unfolding is_length_based get_index get_length get_ptr
length_entry_roundtrip index length h k = rw (length_entry_sum index length h k) (ground arith)

-- A mask-based group, `index | (mask << GROUP_INDEX_SHIFT)` with a mask of 16 bits.
pub mask_entry_sum :
    (index mask : ℕ)
    → index < 2 ^ group_index_shift
    → mask < 2 ^ 16
    → bit_or index (shl64 mask group_index_shift) ≡ index + mask * 2 ^ group_index_shift
mask_entry_sum index mask h k =
    let shifted : shl64 mask 38 ≡ mask * 2 ^ 38 = omega arith in
    rw shifted (bit_or_fields 38 mask index h)

-- It reads back as mask-based, with its index and its mask.
mask_entry_roundtrip :
    (index mask : ℕ)
    → index < 2 ^ group_index_shift
    → mask < 2 ^ 16
    → (is_length_based (bit_or index (shl64 mask group_index_shift)) ≡ false)
      × (get_index (bit_or index (shl64 mask group_index_shift)) ≡ index)
      × (get_mask16 (bit_or index (shl64 mask group_index_shift)) ≡ mask)
      × (get_ptr (bit_or index (shl64 mask group_index_shift)) ≡ index * 2 ^ group_shift)
unfolding is_length_based get_index get_mask16 get_ptr
mask_entry_roundtrip index mask h k = rw (mask_entry_sum index mask h k) (ground arith)
