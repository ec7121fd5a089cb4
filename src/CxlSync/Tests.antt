-- ===== src/CxlSync/Tests.antt =====
-- The threads of ThreadOps.Coherence.Tests with a CXLAtomic, and as a parent and its child.
use racoherence.Prelude.{ℕ, ◌≡◌, refl, true, Option, some, arith}
use racoherence.VectorClock.{zero_clock}
use racoherence.LocalClTable.Covers.{Covered}
use racoherence.LogManager.Tests.{taken, got}
use racoherence.ThreadOps.Tests.{dirty_state, dirty-IsConsistent, target, zeros}
use racoherence.ThreadOps.Store.{into_empty}
use racoherence.ThreadOps.Coherence.Tests.{
  owner, taker, released, released_runs, taken_tail, behind-Unread, behind-Pending,
}
use racoherence.CxlSync.{
  World, InnerData, with_state, store, load, as_char, release, acquire, release_of,
}
use racoherence.CxlSync.Handover.{Moved, release_runs}
use racoherence.CxlSync.Atomic.{store-load}
use racoherence.Runtime.{rac_thread_create, thread_begin, rac_thread_func_wrapper, rac_thread_join}
use racoherence.Runtime.Threads.{thread_begin_lem, create-begin, wrapper-join}

-- Node 0 after the release.
abbrev ended : World
ended = with_state owner released

ended_runs : release_of owner ≡ some ended
ended_runs = release_runs owner released true released_runs

abbrev flag : InnerData
flag = record { atomic_data = 0; clock = zero_clock }

stored : store 1 release owner flag ≡ some (ended, record { atomic_data = 1; clock = target })
unfolding store
stored = rw (store, ended_runs) refl

store-load_example :
    (v' : World) × (load 2 acquire taker (record { atomic_data = 1; clock = target })
      ≡ some (as_char 1, v'))
    × ((cl : ℕ) → Covered dirty_state.thread.dirty_cls.table cl → Moved cl ended v')
store-load_example =
    store-load 1 release acquire owner ended flag (record { atomic_data = 1; clock = target }) 0
      taken 2 16 taker dirty-IsConsistent (omega arith) got (omega (arith, taken_tail))
      (into_empty 16 (omega arith)).1 refl refl stored behind-Unread behind-Pending

created : rac_thread_create owner ≡ some (ended, target)
unfolding rac_thread_create
created = rw (rac_thread_create, ended_runs) refl

create-begin_example :
    (v' : World) × (thread_begin 2 1 1 target taker ≡ some v')
    × ((cl : ℕ) → Covered dirty_state.thread.dirty_cls.table cl → Moved cl ended v')
create-begin_example =
    create-begin owner ended target 0 taken 2 16 1 1 taker dirty-IsConsistent (omega arith) got
      (omega (arith, taken_tail)) (into_empty 16 (omega arith)).1 created behind-Unread
      behind-Pending

abbrev result : ℕ
result = 7

-- A child that starts with nothing to read, and ends with line 16 dirty.
abbrev function : World → Option (ℕ × World)
function w = some (result, owner)

begun : (w : World) × (thread_begin 2 0 1 zero_clock owner ≡ some w)
unfolding zero_clock
begun =
    let (w, runs, locked) =
      thread_begin_lem 2 0 1 owner zero_clock refl
        (λ i h n s b. absurd (omega (arith, zeros 8 i))) in
    (w, runs)

ran : rac_thread_func_wrapper 2 0 1 zero_clock function owner ≡ some (result, ended)
unfolding rac_thread_func_wrapper
ran = rw (rac_thread_func_wrapper, begun.1, ended_runs) refl

wrapper-join_example :
    (result ≡ result)
    × (v' : World) × (rac_thread_join 2 target taker ≡ some v')
    × ((cl : ℕ) → Covered dirty_state.thread.dirty_cls.table cl → Moved cl ended v')
wrapper-join_example =
    wrapper-join 2 0 1 zero_clock function owner begun.0 owner ended result result 0 taken 2 16
      taker begun.1 refl ran dirty-IsConsistent (omega arith) got (omega (arith, taken_tail))
      (into_empty 16 (omega arith)).1 behind-Unread behind-Pending
