-- ===== src/ThreadOps/Coherence/Tests.antt =====
-- A thread of node 0 releases line 16, and a thread of node 1 acquires what it released.
use racoherence.Prelude.{
  ℕ, zero, suc, ◌+◌, ◌*◌, ◌^◌, ◌/◌, ◌<◌, ◌≡◌, refl, true, some, [], ◌∷◌, update, update_self, ap,
  ◌∙◌, arith,
}
use racoherence.LocalClTable.{clear_table, insert, insert_mask}
use racoherence.CacheInfo.{flush, writeback, mask_lines}
use racoherence.ClGroup.{is_length_based, mask_range, get_ptr, get_mask16}
use racoherence.LogManager.Fresh.{get_new_log-empty}
use racoherence.CxlSync.{World, with_state, lock}
use racoherence.CxlSync.Handover.{Moved, release_runs, unlock_runs, lock-unlock}
use racoherence.Config.{local_cl_table_size, virtual_cl_shift, cache_line_size, node_count}
use racoherence.VectorClock.{zero_clock, merge, assign}
use racoherence.ThreadOps.{
  State, thread_release, write_to_log, collect, entry_lines, write_all, log_store, store_cl,
}
use racoherence.LocalClTable.Covers.{Covered}
use racoherence.LogManager.{produce_tail, claim_tail, publish, is_subscribed, write}
use racoherence.LogManager.Tests.{first, taken, got}
use racoherence.CacheInfo.Process.{drops}
use racoherence.ThreadOps.Publish.{writes_back}
use racoherence.ThreadOps.Tests.{
  dirty_state, dirty-IsConsistent, idle_cache, one_release, zeros, target, locker,
}
use racoherence.ThreadOps.Consume.{Consumer, thread_acquire}
use racoherence.ThreadOps.Consume.Progress.{head_of}
use racoherence.ThreadOps.Consume.Acquire.{Pending}
use racoherence.ThreadOps.Coherence.{Unread, acquire-release}

abbrev pub released : State
released = record {
  thread = record {
    node_id = 0;
    thread_id = 0;
    thread_clock = target;
    dirty_cls = clear_table dirty_state.thread.dirty_cls;
    recent_cl = 0;
  };
  mgr =
      (produce_tail (record taken { buf = update taken.buf 0 (write (taken.buf 0) (2 ^ 38 + 1)) }) 0
        true).1;
  cache = flush idle_cache (writeback 1024 ∷ []);
}

slots :
    collect local_cl_table_size 0 dirty_state.thread.dirty_cls.table
    ≡ some ((2 ^ 38 + 1) ∷ [], 1024 ∷ [])
unfolding collect entry_lines insert insert_mask is_length_based mask_lines mask_range get_ptr
    get_mask16
slots = refl

pub taken_tail : taken.tail ≡ 0
unfolding taken first
taken_tail = refl

pub released_runs : thread_release dirty_state ≡ some (true, released)
unfolding thread_release write_to_log write_all assign produce_tail claim_tail
released_runs = rw (thread_release, write_to_log, got, slots, taken_tail) refl

released_entry : released.mgr.entries 0 ≡ record { log = 0; idx = 1; is_rel = true }
unfolding taken first produce_tail claim_tail publish
released_entry = refl

released_head : head_of released.mgr 1 ≡ 0
unfolding taken first produce_tail claim_tail publish
released_head = refl

released_log : released.mgr.buf 0 ≡ (2 ^ 38 + 1) ∷ []
unfolding produce_tail claim_tail publish
released_log =
    update_self taken.buf 0 (write (taken.buf 0) (2 ^ 38 + 1))
    ∙ ap (λ l. write l (2 ^ 38 + 1)) (get_new_log-empty first.mgr taken 0 got)

released_subs : is_subscribed released.mgr 1 ≡ true
unfolding taken first produce_tail claim_tail publish is_subscribed
released_subs = refl

-- Node 1, which has not read the release.
abbrev pub behind : Consumer
behind = record { mgrs = λ i. released.mgr; cache = idle_cache }

pub behind-Unread : Unread 1 0 taken.tail 0 released.mgr behind
behind-Unread = record {
  other = λ e. omega (arith, e);
  inside = omega arith;
  subscribed = released_subs;
  entry_there = refl;
  log_there = refl;
  clock_behind = omega (arith, released_head);
  next = omega (arith, released_head);
}

pub behind-Pending : (i : ℕ) → i < node_count → Pending 1 2 target i released.mgr 0
behind-Pending zero h n s b =
    (0, omega arith, one_release released.mgr released_head released_entry released_log)
behind-Pending (suc i) h n s b = absurd (omega (arith, zeros 7 i))

acquire-release_example :
    (c' : Consumer) × (thread_acquire 1 2 target zero_clock behind
      ≡ some (merge zero_clock target, c'))
    × ((cl : ℕ)
        → Covered dirty_state.thread.dirty_cls.table cl
        → (writes_back released.cache.flushes (cl * cache_line_size) ≡ true)
          × (drops c'.cache.flushes (cl * cache_line_size) ≡ true))
acquire-release_example =
    acquire-release dirty_state released 0 taken 1 2 target zero_clock behind dirty-IsConsistent
      (omega arith) got (omega (arith, taken_tail)) released_runs behind-Unread (omega arith)
      behind-Pending

-- The same threads, with a CXLMutex.
abbrev pub owner : World
owner = record { thread = dirty_state.thread; mgrs = λ i. first.mgr; cache = idle_cache }

abbrev pub taker : World
taker = record { thread = locker.thread; mgrs = λ i. released.mgr; cache = idle_cache }

again : log_store 1032 dirty_state ≡ some dirty_state
unfolding log_store store_cl
again = refl

lock-unlock_example :
    (v' : World) × (lock 2 taker target ≡ some v')
    × Moved (1032 / 2 ^ virtual_cl_shift) (with_state (with_state owner dirty_state) released) v'
    × ((cl : ℕ)
        → Covered dirty_state.thread.dirty_cls.table cl
        → Moved cl (with_state (with_state owner dirty_state) released) v')
lock-unlock_example =
    lock-unlock 1032 owner dirty_state (with_state (with_state owner dirty_state) released)
      zero_clock target 0 0 taken taken 2 taker dirty-IsConsistent (omega arith) (omega arith)
      (omega arith) got again got (omega (arith, taken_tail))
      (unlock_runs (with_state owner dirty_state)
        (with_state (with_state owner dirty_state) released) zero_clock
        (release_runs (with_state owner dirty_state) released true released_runs))
      behind-Unread behind-Pending
