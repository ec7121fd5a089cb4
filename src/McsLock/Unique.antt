-- ===== src/McsLock/Unique.antt =====
-- include/mcsLock.hpp: UniqueLock on one MCSLock, whose steps are those of the model. The object number
-- `u` has the node `u`. Its user calls nothing during a call on it, and the destructor between two calls;
-- the members check nothing, and `Disciplined` says of a run that they are called where they are meant to
-- be.
mod Flag
pub mod Tests
use racoherence.Prelude.{ℕ, ◌≡◌, ◌≢◌, Bool, true, false, [], update}
use racoherence.McsLock.{
  McsLock, Pc, idle, set_next, read_tail, critical, read_next, Event, quiet, Move,
}
use racoherence.McsLock.System.{System, init}
use racoherence.McsLock.Shared.{on_wlock}

-- Where an object is: before its constructor, in the call of the constructor, between two calls, in a
-- call of the member of that name, in the call of its destructor, after its destructor.
pub data Phase : Type 0 where
  unborn : Phase
  constructing : Phase
  between : Phase
  locking : Phase
  trying : Phase
  unlocking : Phase
  destroying : Phase
  dead : Phase

pub record UniqueLocks : Type 0 where
  pub lk : System
  pub phase : ℕ → Phase
  pub locked : ℕ → Bool

abbrev in_call : UniqueLocks → ℕ → Pc → Phase → UniqueLocks
in_call s u p ph = record s { lk = on_wlock s.lk u quiet s.lk.mem p; phase = update s.phase u ph }

pub data Step (s : UniqueLocks) : UniqueLocks → Type 0 where
  -- A step of a call on the lock.
  inner :
      (u : ℕ) {e : Event} {m : McsLock} {p : Pc}
      → Move u s.lk.mem e (s.lk.pc u) m p
      → s.lk.pc u ≢ idle
      → s.lk.pc u ≢ critical
      → Step s (record s { lk = on_wlock s.lk u e m p })
  -- UniqueLock(Mutex &l): `locked` is set before the body.
  construct :
      (u : ℕ)
      → s.phase u ≡ unborn
      → Step s (in_call (record s { locked = update s.locked u true }) u set_next constructing)
  construct_done :
      (u : ℕ)
      → s.phase u ≡ constructing
      → s.lk.pc u ≡ critical
      → Step s (record s { phase = update s.phase u between })
  -- UniqueLock(Mutex &l, defer_Mutex)
  construct_deferred :
      (u : ℕ)
      → s.phase u ≡ unborn
      → Step s (record s { phase = update s.phase u between; locked = update s.locked u false })
  lock : (u : ℕ) → s.phase u ≡ between → Step s (in_call s u set_next locking)
  lock_done :
      (u : ℕ)
      → s.phase u ≡ locking
      → s.lk.pc u ≡ critical
      → Step s (record s { phase = update s.phase u between; locked = update s.locked u true })
  try_lock : (u : ℕ) → s.phase u ≡ between → Step s (in_call s u read_tail trying)
  -- `locked = lk.try_lock_with_node(&node)`
  try_lock_true :
      (u : ℕ)
      → s.phase u ≡ trying
      → s.lk.pc u ≡ critical
      → Step s (record s { phase = update s.phase u between; locked = update s.locked u true })
  try_lock_false :
      (u : ℕ)
      → s.phase u ≡ trying
      → s.lk.pc u ≡ idle
      → Step s (record s { phase = update s.phase u between; locked = update s.locked u false })
  unlock : (u : ℕ) → s.phase u ≡ between → Step s (in_call s u read_next unlocking)
  unlock_done :
      (u : ℕ)
      → s.phase u ≡ unlocking
      → s.lk.pc u ≡ idle
      → Step s (record s { phase = update s.phase u between; locked = update s.locked u false })
  -- ~UniqueLock()
  destroy_locked :
      (u : ℕ) → s.phase u ≡ between → s.locked u ≡ true → Step s (in_call s u read_next destroying)
  destroy_unlocked :
      (u : ℕ)
      → s.phase u ≡ between
      → s.locked u ≡ false
      → Step s (record s { phase = update s.phase u dead })
  destroy_done :
      (u : ℕ)
      → s.phase u ≡ destroying
      → s.lk.pc u ≡ idle
      → Step s (record s { phase = update s.phase u dead })

pub data Reach : UniqueLocks → Type 0 where
  start : Reach (record {
    lk = record { mem = init; pc = λ u. idle; arrivals = []; entries = [] };
    phase = λ u. unborn;
    locked = λ u. false;
  })
  later : {s t : UniqueLocks} → Reach s → Step s t → Reach t

-- `lock` and `try_lock` are called while `locked` is unset, and `unlock` while it is set.
abbrev pub Allowed : {s t : UniqueLocks} → Step s t → Type 0
Allowed {s} (lock u at) = s.locked u ≡ false
Allowed {s} (try_lock u at) = s.locked u ≡ false
Allowed {s} (unlock u at) = s.locked u ≡ true
Allowed (inner u mv busy out) = Unit
Allowed (construct u at) = Unit
Allowed (construct_done u at crit) = Unit
Allowed (construct_deferred u at) = Unit
Allowed (lock_done u at crit) = Unit
Allowed (try_lock_true u at crit) = Unit
Allowed (try_lock_false u at out) = Unit
Allowed (unlock_done u at out) = Unit
Allowed (destroy_locked u at held) = Unit
Allowed (destroy_unlocked u at free) = Unit
Allowed (destroy_done u at out) = Unit

abbrev pub Disciplined : {s : UniqueLocks} → Reach s → Type 0
Disciplined start = Unit
Disciplined (later r st) = Disciplined r × Allowed st
