-- ===== src/ThreadOps.antt =====
-- include/threadOps.hpp: a thread's stores, releases and acquires, with the default build: dirty
-- lines go through the local table (LOCAL_CL_TABLE), are written back when they are published, and
-- the thread helps to consume logs (CONSUME_HELPING). A loop that waits for other threads gives
-- `none` when it has to wait, or when its fuel runs out.
pub mod Publish
pub mod Store
pub mod RangeStore
pub mod Consume
pub mod Tests
pub mod Release
pub mod Coherence
use racoherence.Prelude.{
  ℕ, zero, suc, ◌+◌, ◌-◌, ◌*◌, ◌/◌, ◌%◌, ◌^◌, Bool, true, false, not, ◌&&◌, ◌||◌, Option, none,
  some, List, [], ◌∷◌, ◌++◌, map, ltb, leb, ◌==◌, if◌then◌else◌, update, values,
}
use racoherence.Config.{
  u64_mod, cache_line_size, cl_expand_factor, local_cl_table_size, virtual_cl_shift,
}
use racoherence.VectorClock.{VectorClock, assign, merge}
use racoherence.ClGroup.{is_length_based, length_range, group_size}
use racoherence.LocalClTable.{LocalClTable, Table, insert, clear_table, range_insert, RangeResult}
use racoherence.LogManager.{LogManager, get_new_log, produce_tail, write}
use racoherence.CacheInfo.{Flush, writeback, CacheInfo, lines_at, each, mask_lines, flush}

pub record ThreadOps : Type 0 where
  pub node_id : ℕ
  pub thread_id : ℕ
  pub thread_clock : VectorClock
  pub dirty_cls : LocalClTable
  pub recent_cl : ℕ

-- A thread, the log manager of its node, and the cache of its node.
pub record State : Type 0 where
  pub thread : ThreadOps
  pub mgr : LogManager
  pub cache : CacheInfo

-- The lines that `write_to_log` writes back for an entry.
entry_lines : ℕ → Option (List ℕ)
entry_lines entry =
    if is_length_based entry
    then elim (length_range entry) [
      | none ↦ none
      | some ps ↦ some (each (lines_at (group_size * cl_expand_factor)) ps)
    ]
    else mask_lines entry

-- The loop of `write_to_log` over the slots of the table from the `i`-th on: what it writes to the
-- log and the lines that it writes back.
collect : ℕ → ℕ → Table → Option (List ℕ × List ℕ)
unfolding entry_lines
collect zero i t = some ([], [])
collect (suc rounds) i t = elim (collect rounds (i + 1) t) [
  | none ↦ none
  | some (log, lines) ↦
      if t i == 0
      then some (log, lines)
      else elim (entry_lines (t i)) [ none ↦ none | some ps ↦ some (t i ∷ log, ps ++ lines) ]
]

-- `curr_log->write(entry)` for each of the entries.
write_all : List ℕ → List ℕ → List ℕ
write_all log [] = log
write_all log (e ∷ entries) = write_all (write log e) entries

-- `none` also while there is no free log.
pub write_to_log : Bool → State → Option (ℕ × State)
unfolding collect write_all
write_to_log is_release s = elim (get_new_log s.mgr) [
  | none ↦ none
  | some (none, m) ↦ none
  | some (some log, m) ↦ elim (collect local_cl_table_size 0 s.thread.dirty_cls.table) [
    | none ↦ none
    | some (entries, lines) ↦
        let written = record m { buf = update m.buf log (write_all (m.buf log) entries) } in
        let (clk_val, produced) = produce_tail written log is_release in
        some (
          clk_val,
          record s {
            mgr = produced;
            cache = flush s.cache (map writeback lines);
            thread = record (s.thread) { dirty_cls = clear_table s.thread.dirty_cls };
          },
        )
  ]
]

-- dirty_cls.insert of a line, with what it returns.
insert_line : State → ℕ → Bool × State
insert_line s cl =
    let (full, slots) = insert s.thread.dirty_cls.table cl in
    (
      full,
      record s {
        thread = record (s.thread) { dirty_cls = record (s.thread.dirty_cls) { table = slots } };
      },
    )

-- The rest of `log_store`, for its line `cl`.
store_cl : ℕ → State → Option State
unfolding insert_line write_to_log
store_cl cl s =
    let (full, s') = insert_line (record s { thread = record (s.thread) { recent_cl = cl } }) cl in
    if cl == s.thread.recent_cl
    then some s
    else if full
    then elim (write_to_log false s') [
      | none ↦ none
      | some (clk, s'') ↦ some ((insert_line s'' cl).1)
    ]
    else some s'

-- ThreadOps::log_store, with INLINE_CACHING.
pub log_store : ℕ → State → Option State
unfolding store_cl
log_store addr s = store_cl (addr / 2 ^ virtual_cl_shift) s

-- `while (dirty_cls.range_insert(begin_addr, end_addr)) write_to_log(false);`
unfoldable pub range_loop : ℕ → ℕ → ℕ → State → Option State
unfolding write_to_log
range_loop zero begin end s = none
range_loop (suc fuel) begin end s = elim (range_insert fuel begin end s.thread.dirty_cls) [
  | none ↦ none
  | some r ↦
      let s' = record s { thread = record (s.thread) { dirty_cls = r.dirty } } in
      elim (r.full) [
        | false ↦ some s'
        | true ↦ elim (write_to_log false s') [
          | none ↦ none
          | some (clk, s'') ↦ range_loop fuel r.begin r.end s''
        ]
      ]
]

-- ThreadOps::log_range_store
unfoldable pub log_range_store : ℕ → ℕ → ℕ → State → Option State
unfolding range_loop
log_range_store fuel begin end s =
    let begin_addr = begin / 2 ^ virtual_cl_shift in
    let end_addr = end / 2 ^ virtual_cl_shift in
    range_loop fuel begin_addr end_addr
      (record s { thread = record (s.thread) { recent_cl = end_addr } })

-- ThreadOps::thread_release
pub thread_release : State → Option (Bool × State)
unfolding write_to_log
thread_release s =
    if s.thread.recent_cl == 0
    then some (false, s)
    else elim (write_to_log true (record s { thread = record (s.thread) { recent_cl = 0 } })) [
      | none ↦ none
      | some (clk_val, s') ↦ some (
        true,
        record s' {
          thread = record (s'.thread) {
            thread_clock = assign s'.thread.thread_clock s'.thread.node_id clk_val;
          };
        },
      )
    ]
