-- ===== src/CxlSync/Clocks.antt =====
-- Taking a lock of include/cxlSync.hpp brings the thread up to the location clock.
use racoherence.Prelude.{ℕ, ◌<◌, ◌≡◌, refl, true, some, length}
use racoherence.Config.{node_count}
use racoherence.VectorClock.{VectorClock, le, merge}
use racoherence.VectorClock.Order.{merge_lub}
use racoherence.ThreadOps.Consume.{Consumer, wait_for_consume}
use racoherence.ThreadOps.Consume.Acquire.{Pending, thread_acquire_lem}
use racoherence.ThreadOps.Consume.Advance.{Advanced}
use racoherence.CxlSync.{World, acquire_of, lock}

abbrev pub reader_of_world : World → Consumer
reader_of_world w = record { mgrs = w.mgrs; cache = w.cache }

-- What a thread has once it holds the lock.
pub record Locked (clock : VectorClock) (w w' : World) : Type 0 where
  pub own : le w.thread.thread_clock w'.thread.thread_clock ≡ true
  pub location : le clock w'.thread.thread_clock ≡ true
  pub consumed : wait_for_consume w.thread.node_id clock (reader_of_world w') ≡ true
  pub advanced : Advanced w.thread.node_id (reader_of_world w) (reader_of_world w')

-- CXLMutex::lock, when for each node that the thread's node is behind on the logs up to a release at
-- the location clock are published. It comes to its end; the thread's clock is then above what it was
-- and above the location clock; and the node has consumed the logs up to the location clock.
pub lock_lem :
    (fuel : ℕ) (w : World) (clock : VectorClock)
    → length w.thread.thread_clock ≡ length clock
    → ((i : ℕ)
        → i < node_count
        → Pending w.thread.node_id fuel clock i (w.mgrs i) (w.cache.clock i))
    → (w' : World) × (lock fuel w clock ≡ some w') × Locked clock w w'
unfolding lock acquire_of
lock_lem fuel w clock same pend =
    let (c', runs, settled, adv) =
      thread_acquire_lem w.thread.node_id fuel clock w.thread.thread_clock (reader_of_world w)
        pend in
    let (left, right, least) = merge_lub w.thread.thread_clock clock clock same refl in
    (
      record {
        thread = record (w.thread) { thread_clock = merge w.thread.thread_clock clock };
        mgrs = c'.mgrs;
        cache = c'.cache;
      },
      rw (acquire_of, runs) refl,
      record { own = left; location = right; consumed = settled; advanced = adv },
    )
