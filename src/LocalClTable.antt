-- ===== src/LocalClTable.antt =====
-- include/localCLTable.hpp: the thread-local set of dirty cache lines, a table of
-- LOCAL_CL_TABLE_SIZE packed groups (ClGroup). A C++ `bool` result that says "full" is a Bool beside
-- the new state; arrays are functions of the index. Cache-line numbers (`cl_addr`, `begin`, `end`)
-- are addresses shifted by VIRTUAL_CL_SHIFT.
pub mod Covers
pub mod Home
pub mod Insert
pub mod Groups
pub mod Range
pub mod Loses
use racoherence.Prelude.{
  ℕ, zero, suc, ◌+◌, ◌-◌, ◌*◌, ◌/◌, ◌%◌, ◌^◌, Bool, true, false, ◌&&◌, Option, none, some, List, [],
  ◌∷◌, bit_or, bit_and, ltb, leb, ◌==◌, if◌then◌else◌, update,
}
use racoherence.Config.{u64_mod, local_cl_table_size, local_cl_table_search_iters}
use racoherence.ClGroup.{
  length_entry, is_length_based, get_index, get_length, try_coalesce, shl64, group_size_shift,
  group_size, full_mask, group_index_shift, group_len_max,
}

abbrev pub Table : Type 0
Table = ℕ → ℕ

abbrev pub group_len_min : ℕ
group_len_min = 4

-- LocalCLTable::EntryBuffer
pub record EntryBuffer : Type 0 where
  pub cl_addr : ℕ
  pub len : ℕ

-- `true` when the line cannot go into the buffer, which is then unchanged.
pub buffer_insert : EntryBuffer → ℕ → Bool × EntryBuffer
buffer_insert b cl_ptr =
    if cl_ptr == (b.cl_addr + b.len) % u64_mod
    then (false, record b { len = (b.len + 1) % u64_mod })
    else if leb b.cl_addr cl_ptr && ltb cl_ptr ((b.cl_addr + b.len) % u64_mod)
    then (false, b)
    else if b.len == 0
    then (false, record { cl_addr = cl_ptr; len = 1 })
    else (true, b)

pub record LocalClTable : Type 0 where
  pub table : Table
  pub length_entry_count : ℕ
  pub buffer : EntryBuffer

-- `memset(table, 0, sizeof(table))`
abbrev pub empty_table : Table
empty_table i = 0

unfoldable pub clear_table : LocalClTable → LocalClTable
clear_table t = record t { table = empty_table; length_entry_count = 0 }

-- The probes of `insert_mask` from the `i`-th on.
probe : ℕ → ℕ → Table → ℕ → ℕ → Bool × Table
probe zero i t group_index mask = (true, t)
probe (suc rounds) i t group_index mask =
    let tableindex = (group_index + i) % local_cl_table_size in
    let value = if t tableindex == 0 then group_index else t tableindex in
    let rest = probe rounds (i + 1) t group_index mask in
    if value % 2 ^ group_index_shift == group_index
    then (false, update t tableindex (bit_or value (shl64 mask group_index_shift)))
    else rest

unfoldable pub insert_mask : Table → ℕ → ℕ → Bool × Table
unfolding probe
insert_mask t group_index mask = probe local_cl_table_search_iters 0 t group_index mask

-- The state of the scan of `insert_length`; `none` is the position -1.
pub record Scan : Type 0 where
  entry : ℕ
  insert_pos : Option ℕ
  slots : Table

or_here : Option ℕ → ℕ → Option ℕ
or_here none i = some i
or_here (some p) i = some p

-- One round of the scan, for the value of slot `i`.
scan_slot : ℕ → ℕ → ℕ → Scan → Scan
unfolding or_here
scan_slot group_index length i s =
    let val = s.slots i in
    let new_entry = try_coalesce (get_index val) group_index (get_length val) length in
    let freed = record s { insert_pos = or_here s.insert_pos i; slots = update s.slots i 0 } in
    if val == 0
    then record s { insert_pos = or_here s.insert_pos i }
    else if is_length_based val
    then (if new_entry == 0 then s else record freed { entry = new_entry })
    else if leb group_index (get_index val)
        && ltb (get_index val) ((group_index + length) % u64_mod)
    then freed
    else s

scan : ℕ → ℕ → ℕ → ℕ → Scan → Scan
unfolding scan_slot
scan zero i group_index length s = s
scan (suc rounds) i group_index length s =
    scan rounds (i + 1) group_index length (scan_slot group_index length i s)

-- `true` when there is no slot left.
pub insert_length : LocalClTable → ℕ → ℕ → Bool × LocalClTable
unfolding scan
insert_length t group_index length =
    let start : Scan = record {
      entry = length_entry group_index length;
      insert_pos = none;
      slots = t.table;
    } in
    let s = scan local_cl_table_size 0 group_index length start in
    elim (s.insert_pos) [
      | none ↦ (true, record t { table = s.slots })
      | some p ↦ (
        false,
        record t {
          table = update s.slots p s.entry;
          length_entry_count = t.length_entry_count + 1;
        },
      )
    ]

-- LocalCLTable::insert, without LOCAL_CL_TABLE_BUFFER.
unfoldable pub insert : Table → ℕ → Bool × Table
insert t cl_addr = insert_mask t (cl_addr / 2 ^ group_size_shift) (2 ^ (cl_addr % group_size))

-- What `range_insert` returns and leaves in its reference parameters.
pub record RangeResult : Type 0 where
  pub full : Bool
  pub begin : ℕ
  pub end : ℕ
  pub dirty : LocalClTable

-- `for (; begin_index < end_index; begin_index++)`, for the rounds that are left.
unfoldable pub insert_groups : ℕ → ℕ → ℕ → LocalClTable → RangeResult
unfolding insert_mask
insert_groups zero begin_index end t = record { full = false; begin = end; end = end; dirty = t }
insert_groups (suc rounds) begin_index end t =
    let (full, slots) = insert_mask t.table begin_index full_mask in
    let t' = record t { table = slots } in
    let rest = insert_groups rounds (begin_index + 1) end t' in
    if full
    then record { full = true; begin = shl64 begin_index group_size_shift; end = end; dirty = t' }
    else rest

-- `while (len)`, on fuel: `none` when it runs out.
unfoldable pub insert_lengths : ℕ → ℕ → ℕ → ℕ → LocalClTable → Option RangeResult
unfolding insert_length
insert_lengths zero len begin_index end t = none
insert_lengths (suc fuel) len begin_index end t =
    let l = len % (group_len_max + 1) in
    let (full, t') = insert_length t begin_index l in
    let rest = insert_lengths fuel (len - l) (begin_index + l) end t' in
    if len == 0
    then some (record { full = false; begin = end; end = end; dirty = t })
    else if full
    then some
        (record { full = true; begin = shl64 begin_index group_size_shift; end = end; dirty = t' })
    else rest

-- The whole groups that are left, once both ends are aligned.
unfoldable pub insert_aligned : ℕ → ℕ → ℕ → LocalClTable → Option RangeResult
unfolding insert_groups insert_lengths
insert_aligned fuel begin end t =
    let begin_index = begin / group_size in
    let len = (end / group_size + u64_mod - begin_index) % u64_mod in
    if ltb len group_len_min
    then some (insert_groups len begin_index end t)
    else insert_lengths fuel len begin_index end t

-- The group that the range ends in, if it does not end on a boundary.
unfoldable pub insert_end : ℕ → ℕ → ℕ → LocalClTable → Option RangeResult
unfolding insert_aligned insert_mask
insert_end fuel begin end t =
    let end_pos = end % group_size in
    let (full, slots) = insert_mask t.table (end / group_size) (2 ^ end_pos) in
    let t' = record t { table = slots } in
    if end_pos == 0
    then insert_aligned fuel begin end t
    else if full
    then some (record { full = true; begin = begin; end = end; dirty = t' })
    else insert_aligned fuel begin (end - end_pos) t'

unfoldable pub range_insert : ℕ → ℕ → ℕ → LocalClTable → Option RangeResult
unfolding insert_end
range_insert fuel begin end t =
    let begin_pos = begin % group_size in
    let begin_index = begin / group_size in
    let begin_mask = bit_and (shl64 full_mask begin_pos) full_mask in
    let end_mask = 2 ^ (end % group_size) in
    let (one_full, one_slots) = insert_mask t.table begin_index (bit_and begin_mask end_mask) in
    let (full, slots) = insert_mask t.table begin_index begin_mask in
    let one = record t { table = one_slots } in
    let t' = record t { table = slots } in
    if begin_pos == 0
    then insert_end fuel begin end t
    else if begin_index == end / group_size
    then some (record {
      full = one_full;
      begin = if one_full then begin else end;
      end = end;
      dirty = one;
    })
    else if full
    then some (record { full = true; begin = begin; end = end; dirty = t' })
    else insert_end fuel (begin + group_size - begin_pos) end t'
