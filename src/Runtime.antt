-- ===== src/Runtime.antt =====
-- include/runtime.hpp and src/runtime.cpp: starting a process, its threads, the subscriptions of its
-- node, and the instrumented loads and stores, with the default build. `none` is a failed assert, a
-- wait, or fuel that ran out. Memory is a function of the address, a byte each; its mapping (mmap) and
-- the calls of pthread and numa are outside, and are taken to succeed.
pub mod Threads
pub mod Subscribe
pub mod Start
pub mod Access
mod Tests
use racoherence.Prelude.{
  ℕ, zero, suc, ◌+◌, ◌-◌, ◌*◌, ◌/◌, ◌%◌, ◌^◌, Bool, true, false, not, ◌&&◌, Option, none, some,
  List, [], ◌∷◌, ◌++◌, ltb, leb, ◌==◌, if◌then◌else◌, update,
}
use racoherence.Config.{node_count, u32_mod, u64_mod, cache_line_size, cxl_hc_start, cxl_nhc_start}
use racoherence.VectorClock.{VectorClock, zero_clock}
use racoherence.LocalClTable.{LocalClTable, empty_table}
use racoherence.LogManager.{LogManager, add_subscriber, remove_subscriber, is_subscribed, new}
use racoherence.CacheInfo.{Flush, wbinvd, CacheInfo, update_clock_monotonic, flush}
use racoherence.ClTracker.{Tracker, invalidate_if_dirty}
use racoherence.ThreadOps.{ThreadOps, State, log_store, log_range_store}
use racoherence.CxlSync.{World, acquire_of, release_of}

-- ThreadOps::ThreadOps(lmgrs, cinfo, nid, tid)
abbrev pub new_thread : ℕ → ℕ → ThreadOps
new_thread nid tid = record {
  node_id = nid;
  thread_id = tid;
  thread_clock = zero_clock;
  dirty_cls = record {
    table = empty_table;
    length_entry_count = 0;
    buffer = record { cl_addr = 0; len = 0 };
  };
  recent_cl = 0;
}

-- rac_thread_create up to pthread_create: the release, and the clock that `parent_clock` points to.
unfoldable pub rac_thread_create : World → Option (World × VectorClock)
rac_thread_create w = elim (release_of w) [
  | none ↦ none
  | some w' ↦ some (w', w'.thread.thread_clock)
]

-- rac_thread_func_wrapper up to the call of `func`, with what its pointer to the parent's clock gives.
unfoldable pub thread_begin : ℕ → ℕ → ℕ → VectorClock → World → Option World
thread_begin fuel nid tid parent_clock w =
    acquire_of fuel parent_clock (record w { thread = new_thread nid tid })

-- rac_thread_func_wrapper, where `func` is a function of what the thread reaches.
unfoldable pub rac_thread_func_wrapper {ℓ} :
    {A : Type ℓ}
    → ℕ
    → ℕ
    → ℕ
    → VectorClock
    → (World → Option (A × World))
    → World
    → Option (A × World)
rac_thread_func_wrapper fuel nid tid parent_clock func w =
    elim (thread_begin fuel nid tid parent_clock w) [
      | none ↦ none
      | some begun ↦ elim (func begun) [
        | none ↦ none
        | some (ret, ran) ↦ elim (release_of ran) [ none ↦ none | some ended ↦ some (ret, ended) ]
      ]
    ]

-- rac_thread_join, once the thread has ended with this clock.
unfoldable pub rac_thread_join : ℕ → VectorClock → World → Option World
rac_thread_join fuel child_clock w = acquire_of fuel child_clock w

-- assert(target <= 0 && target < NODE_COUNT)
abbrev pub valid_target : ℕ → Bool
valid_target target = leb target 0 && ltb target node_count

-- The log managers, and what node `node_id` knows of them.
pub record Node : Type 0 where
  pub node_id : ℕ
  pub mgrs : ℕ → LogManager
  pub cache : CacheInfo

unfoldable pub rac_subscribe_to_node : ℕ → Node → Option Node
rac_subscribe_to_node target s =
    let (tail, m) = add_subscriber (s.mgrs target) s.node_id in
    if valid_target target
    then some (record s {
      mgrs = update s.mgrs target m;
      cache = update_clock_monotonic (flush s.cache (wbinvd ∷ [])) target tail;
    })
    else none

unfoldable pub rac_unsubscribe_from_node : ℕ → Node → Option Node
rac_unsubscribe_from_node target s =
    if valid_target target
    then some
        (record s { mgrs = update s.mgrs target (remove_subscriber (s.mgrs target) s.node_id) })
    else none

unfoldable pub rac_is_subscribed_to_node : ℕ → Node → Option Bool
rac_is_subscribed_to_node target s =
    if valid_target target then some (is_subscribed (s.mgrs target) s.node_id) else none

-- The parts of the hardware-coherent buffer.
pub record Layout : Type 0 where
  pub hc_buf : ℕ
  pub nhc_buf : ℕ
  pub meta : ℕ
  pub user_root : ℕ
  pub alloc_hc : ℕ
  pub alloc_hc_range : ℕ

-- alloc_cxl_memory, with what mmap gives for the two fixed addresses.
unfoldable pub alloc_cxl_memory : ℕ → Option (ℕ × ℕ)
alloc_cxl_memory hc_range =
    if ltb ((cxl_hc_start + hc_range) % u64_mod) cxl_nhc_start
    then some (cxl_hc_start, cxl_nhc_start)
    else none

-- The first part of rac_init; `meta_size` is sizeof(GlobalMeta).
unfoldable pub layout : ℕ → ℕ → ℕ → Option Layout
layout meta_size hc_range root_size =
    let off = (meta_size + root_size) % u64_mod in
    elim (alloc_cxl_memory hc_range) [
      | none ↦ none
      | some (hc_buf, nhc_buf) ↦
          if ltb off hc_range
          then some (record {
            hc_buf = hc_buf;
            nhc_buf = nhc_buf;
            meta = hc_buf;
            user_root = hc_buf + meta_size;
            alloc_hc = hc_buf + off;
            alloc_hc_range = hc_range - off;
          })
          else none
    ]

-- GlobalMeta, without the allocator's part and the barrier.
pub record GlobalMeta : Type 0 where
  pub started : Bool
  pub curr_tid : ℕ
  pub log_mgrs : ℕ → LogManager

-- The rest of rac_init, made whole: `none` while node 0 has not started, on another node.
unfoldable pub rac_init : ℕ → GlobalMeta → Option (ThreadOps × GlobalMeta)
rac_init nid meta = elim (new nid) [
  | none ↦ none
  | some m ↦
      if nid == 0
      then some (
        new_thread nid 0,
        record { started = true; curr_tid = 1; log_mgrs = update meta.log_mgrs nid m },
      )
      else if meta.started
      then some (
        new_thread nid meta.curr_tid,
        record meta {
          curr_tid = (meta.curr_tid + 1) % u32_mod;
          log_mgrs = update meta.log_mgrs nid m;
        },
      )
      else none
]

abbrev pub in_cxl_nhc_mem : ℕ → Bool
in_cxl_nhc_mem addr = leb cxl_nhc_start addr

-- The range is logged if it begins in memory that is not hardware coherent.
unfoldable pub rac_post_writeback : ℕ → ℕ → ℕ → State → Option State
rac_post_writeback fuel begin end s =
    if in_cxl_nhc_mem begin then log_range_store fuel begin end s else some s

-- check_invalidate(begin) for each end that is inside a line.
unfoldable pub invalidate_boundaries : ℕ → ℕ → Tracker → List Flush × Tracker
invalidate_boundaries begin end t =
    let (first, flushes, t') = invalidate_if_dirty t begin in
    let after_first = if begin % cache_line_size == 0 then t else t' in
    let flushes_first = if begin % cache_line_size == 0 then [] else flushes in
    let (second, flushes', t'') = invalidate_if_dirty after_first begin in
    if not (end % cache_line_size == 0) && not (begin % cache_line_size == end % cache_line_size)
    then (flushes_first ++ flushes', t'')
    else (flushes_first, after_first)

-- The little-endian bytes of a number.
abbrev pub byte : ℕ → ℕ → ℕ
byte val i = val / 2 ^ (8 * i) % 2 ^ 8

-- `*((uintN_t*)addr) = val`, for `size` bytes.
unfoldable pub write_bytes : ℕ → ℕ → ℕ → (ℕ → ℕ) → ℕ → ℕ
write_bytes zero addr val mem = mem
write_bytes (suc size) addr val mem =
    update (write_bytes size addr val mem) (addr + size) (byte val size)

unfoldable pub read_bytes : ℕ → ℕ → (ℕ → ℕ) → ℕ
read_bytes zero addr mem = 0
read_bytes (suc size) addr mem = read_bytes size addr mem + mem (addr + size) * 2 ^ (8 * size)

-- RACLOAD
abbrev pub rac_load : ℕ → ℕ → (ℕ → ℕ) → ℕ
rac_load size addr mem = read_bytes size addr mem

-- RACSTORE: the store is logged, then made.
unfoldable pub rac_store : ℕ → ℕ → ℕ → (ℕ → ℕ) → State → Option ((ℕ → ℕ) × State)
rac_store size addr val mem s =
    if in_cxl_nhc_mem addr
    then elim (log_store addr s) [
      | none ↦ none
      | some s' ↦ some (write_bytes size addr val mem, s')
    ]
    else some (write_bytes size addr val mem, s)
