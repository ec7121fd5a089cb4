-- ===== src/McsLock/Shared.antt =====
-- include/mcsLock.hpp: MCSSharedLock. Its `wlock` is an MCSLock whose steps are those of the model, so
-- a call of the shared lock has a place in `wlock` and a mode of its own. There are `n` nodes.
pub mod Exclusion
use racoherence.Prelude.{ℕ, ◌+◌, ◌-◌, ◌<◌, ◌≡◌, ◌≢◌, [], update}
use racoherence.McsLock.{McsLock, Pc, idle, set_next, critical, read_next, Event, quiet, Move}
use racoherence.McsLock.System.{System, arrived, entered, init}

-- What a call has done: `shared` from its fetch_add in lock_shared_with_node to the fetch_sub in
-- unlock_shared, `writing` from the return of lock_with_node to the start of unlock_with_node.
pub data Mode : Type 0 where
  outside : Mode
  wants_shared : Mode
  shared : Mode
  wants_lock : Mode
  writing : Mode

pub record SharedLock : Type 0 where
  pub wlock : System
  pub active_readers : ℕ
  pub mode : ℕ → Mode

-- A step of the call with node `u` on `wlock`.
abbrev pub on_wlock : (s : System) (u : ℕ) → Event → McsLock → Pc → System
on_wlock s u e m p = record {
  mem = m;
  pc = update s.pc u p;
  arrivals = arrived e u s.arrivals;
  entries = entered e u s.entries;
}

pub data Step (n : ℕ) (s : SharedLock) : SharedLock → Type 0 where
  -- A step of wlock.lock_with_node or wlock.unlock_with_node after its call.
  inner :
      (u : ℕ) {e : Event} {m : McsLock} {p : Pc}
      → Move u s.wlock.mem e (s.wlock.pc u) m p
      → s.wlock.pc u ≢ idle
      → s.wlock.pc u ≢ critical
      → Step n s (record s { wlock = on_wlock s.wlock u e m p })
  lock_shared :
      (u : ℕ)
      → u < n
      → s.mode u ≡ outside
      → s.wlock.pc u ≡ idle
      → Step n s (record s {
        wlock = on_wlock s.wlock u quiet s.wlock.mem set_next;
        mode = update s.mode u wants_shared;
      })
  count_reader :
      (u : ℕ)
      → s.mode u ≡ wants_shared
      → s.wlock.pc u ≡ critical
      → Step n s (record s { active_readers = s.active_readers + 1; mode = update s.mode u shared })
  -- wlock.unlock_with_node(node) in lock_shared_with_node
  release_shared :
      (u : ℕ)
      → s.mode u ≡ shared
      → s.wlock.pc u ≡ critical
      → Step n s (record s { wlock = on_wlock s.wlock u quiet s.wlock.mem read_next })
  unlock_shared :
      (u : ℕ)
      → s.mode u ≡ shared
      → s.wlock.pc u ≡ idle
      → Step n s
          (record s { active_readers = s.active_readers - 1; mode = update s.mode u outside })
  lock :
      (u : ℕ)
      → u < n
      → s.mode u ≡ outside
      → s.wlock.pc u ≡ idle
      → Step n s (record s {
        wlock = on_wlock s.wlock u quiet s.wlock.mem set_next;
        mode = update s.mode u wants_lock;
      })
  -- The loop on `active_readers` ends.
  no_readers :
      (u : ℕ)
      → s.mode u ≡ wants_lock
      → s.wlock.pc u ≡ critical
      → s.active_readers ≡ 0
      → Step n s (record s { mode = update s.mode u writing })
  unlock :
      (u : ℕ)
      → s.mode u ≡ writing
      → s.wlock.pc u ≡ critical
      → Step n s (record s {
        wlock = on_wlock s.wlock u quiet s.wlock.mem read_next;
        mode = update s.mode u outside;
      })

pub data Reach (n : ℕ) : SharedLock → Type 0 where
  start : Reach n (record {
    wlock = record { mem = init; pc = λ u. idle; arrivals = []; entries = [] };
    active_readers = 0;
    mode = λ u. outside;
  })
  later : {s t : SharedLock} → Reach n s → Step n s t → Reach n t
