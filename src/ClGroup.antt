-- ===== src/ClGroup.antt =====
-- include/clGroup.hpp: a group of cache lines packed into one `uint64_t`, `cl_group_t`.
-- A length-based group is a type bit (bit 63), 25 bits of length and 38 bits of group index; a
-- mask-based one has a zero type bit and 16 bits of mask above the index. `& (2^k - 1)` is `% 2 ^ k`,
-- `>> k` is `/ 2 ^ k`, and `<< k` on 64 bits is `* 2 ^ k % 2 ^ 64`.
pub mod Encode
pub mod Coalesce
pub mod Ranges
use racoherence.Prelude.{
  ℕ, zero, suc, ◌+◌, ◌-◌, ◌*◌, ◌/◌, ◌%◌, ◌^◌, Bool, true, false, not, ◌&&◌, ◌||◌, List, [], ◌∷◌,
  bit_or, bit_and, ltb, ◌==◌, if◌then◌else◌, Option, none, some,
}
use Prim.Native.Nat.{bit_xor}
use racoherence.Config.{u64_mod, virtual_cl_shift, virtual_address_bits}

abbrev pub type_mask : ℕ
type_mask = 2 ^ 63

abbrev pub group_size_shift : ℕ
group_size_shift = 4

abbrev pub group_size : ℕ
group_size = 2 ^ group_size_shift

abbrev pub full_mask : ℕ
full_mask = 2 ^ group_size - 1

abbrev pub group_shift : ℕ
group_shift = virtual_cl_shift + group_size_shift

abbrev pub group_index_shift : ℕ
group_index_shift = virtual_address_bits - group_shift

abbrev pub group_len_max : ℕ
group_len_max = 2 ^ (63 - group_index_shift) - 1

-- `<<` on 64 bits.
abbrev pub shl64 : ℕ → ℕ → ℕ
shl64 x k = x * 2 ^ k % u64_mod

unfoldable pub is_length_based : ℕ → Bool
is_length_based cg = cg / type_mask % 2 == 1

unfoldable pub get_length : ℕ → ℕ
get_length cg = cg % type_mask / 2 ^ group_index_shift

unfoldable pub get_index : ℕ → ℕ
get_index cg = cg % 2 ^ group_index_shift

unfoldable pub get_ptr : ℕ → ℕ
get_ptr cg = shl64 (cg % 2 ^ group_index_shift) group_shift

unfoldable pub get_mask16 : ℕ → ℕ
get_mask16 cg = cg / 2 ^ group_index_shift

-- `uint8_t diff = cg & 2; return GROUP_SIZE_SHIFT * diff;`
unfoldable pub get_mask16_to_64_shift : ℕ → ℕ
get_mask16_to_64_shift cg = group_size_shift * (cg / 2 % 2 * 2)

-- `index | (length << GROUP_INDEX_SHIFT) | TYPE_MASK`, the length-based group that `insert_length`
-- and `try_coalesce` build.
unfoldable pub length_entry : ℕ → ℕ → ℕ
length_entry index length = bit_or (bit_or index (shl64 length group_index_shift)) type_mask

-- 0 stands for no coalescing.
unfoldable pub try_coalesce : ℕ → ℕ → ℕ → ℕ → ℕ
try_coalesce index1 index2 len1 len2 =
    let end1 = (index1 + len1) % u64_mod in
    let end2 = (index2 + len2) % u64_mod in
    let new_index = if ltb index2 index1 then index1 else index2 in
    let new_len = ((if ltb end2 end1 then end1 else end2) + u64_mod - new_index) % u64_mod in
    if ltb index2 end1 || ltb index1 end2 then length_entry new_index new_len else 0

-- `__builtin_ctzl` of a nonzero word: the index of the lowest set bit, over the 64 bits left.
ctz_from : ℕ → ℕ → ℕ → ℕ
ctz_from zero x i = i
ctz_from (suc w) x i = let rest = ctz_from w (x / 2) (i + 1) in if x % 2 == 1 then i else rest

pub ctz : ℕ → ℕ
unfolding ctz_from
ctz x = ctz_from 64 x 0

-- `m & -m` on 64 bits.
abbrev pub low_bit : ℕ → ℕ
low_bit m = bit_and m ((u64_mod - m) % u64_mod)

-- LengthCLRange::iterator and MaskCLRange::iterator: both hold a `ptr`, and a `length` or a `mask`.
pub record RangeIter : Type 0 where
  pub ptr : ℕ
  pub state : ℕ

-- LengthCLRange::iterator::operator* and operator++
unfoldable pub length_deref : RangeIter → ℕ
length_deref it = (it.ptr + shl64 it.state group_shift) % u64_mod

unfoldable pub length_next : RangeIter → RangeIter
length_next it = record it { state = (it.state + 1) % u64_mod }

-- MaskCLRange::iterator::operator* and operator++
unfoldable pub mask_deref : RangeIter → ℕ
unfolding ctz
mask_deref it = (it.ptr + shl64 (ctz it.state) virtual_cl_shift) % u64_mod

unfoldable pub mask_next : RangeIter → RangeIter
mask_next it = record it { state = bit_xor it.state (low_bit it.state) }

-- `operator!=` of both.
abbrev pub iter_ne : RangeIter → RangeIter → Bool
iter_ne a b = not (a.ptr == b.ptr) || not (a.state == b.state)

-- `for (auto a : range)` collects the values of `*it`; `none` when the fuel runs out.
unfoldable pub range_for :
    (RangeIter → ℕ) → (RangeIter → RangeIter) → ℕ → RangeIter → RangeIter → Option (List ℕ)
range_for deref next zero it end = none
range_for deref next (suc fuel) it end =
    let rest = range_for deref next fuel (next it) end in
    if iter_ne it end then elim rest [ none ↦ none | some l ↦ some (deref it ∷ l) ] else some []

-- LengthCLRange(cg): the addresses of the groups.
unfoldable pub length_range : ℕ → Option (List ℕ)
unfolding range_for length_deref length_next get_ptr get_length
length_range cg =
    range_for length_deref length_next (group_len_max + 1) (record { ptr = get_ptr cg; state = 0 })
      (record { ptr = get_ptr cg; state = get_length cg })

-- MaskCLRange(ptr, mask): the addresses of the lines.
unfoldable pub mask_range : ℕ → ℕ → Option (List ℕ)
unfolding range_for mask_deref mask_next
mask_range ptr mask =
    range_for mask_deref mask_next 65 (record { ptr = ptr; state = mask })
      (record { ptr = ptr; state = 0 })
