-- ===== src/ClGroup/Coalesce.antt =====
-- What `try_coalesce` returns for two ranges of groups.
use racoherence.Prelude.{ℕ, ◌+◌, ◌-◌, ◌≤◌, ◌<◌, ◌≡◌, true, arith, max}
use racoherence.ClGroup.{
  length_entry, is_length_based, get_length, get_index, group_len_max, try_coalesce,
}
use racoherence.ClGroup.Encode.{length_entry_roundtrip}

try_coalesce_entry :
    (index1 index2 len1 len2 : ℕ)
    → 0 < len1
    → 0 < len2
    → index1 + len1 ≤ group_len_max
    → index2 + len2 ≤ group_len_max
    → try_coalesce index1 index2 len1 len2
      ≡ length_entry (max index1 index2) (max (index1 + len1) (index2 + len2) - max index1 index2)
unfolding try_coalesce
try_coalesce_entry index1 index2 len1 len2 p q h k = ground arith

-- For two ranges that are not empty, the result is never 0, whether or not they meet: it is a
-- length-based group that starts at the larger of the two indices and ends at the larger of the two
-- ends, when the ends fit the length field.
pub try_coalesce_result :
    (index1 index2 len1 len2 : ℕ)
    → 0 < len1
    → 0 < len2
    → index1 + len1 ≤ group_len_max
    → index2 + len2 ≤ group_len_max
    → (is_length_based (try_coalesce index1 index2 len1 len2) ≡ true)
      × (get_index (try_coalesce index1 index2 len1 len2) ≡ max index1 index2)
      × (get_index (try_coalesce index1 index2 len1 len2)
            + get_length (try_coalesce index1 index2 len1 len2)
          ≡ max (index1 + len1) (index2 + len2))
try_coalesce_result index1 index2 len1 len2 p q h k =
    rw (try_coalesce_entry index1 index2 len1 len2 p q h k) (
      ground (
        arith,
        length_entry_roundtrip (max index1 index2)
            (max (index1 + len1) (index2 + len2) - max index1 index2) (omega arith) (omega arith),
      ))
