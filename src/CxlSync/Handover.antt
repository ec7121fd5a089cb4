-- ===== src/CxlSync/Handover.antt =====
-- CXLMutex of include/cxlSync.hpp: what is stored under the lock reaches the next thread that takes it.
use racoherence.Prelude.{
  ℕ, ◌+◌, ◌*◌, ◌/◌, ◌^◌, ◌<◌, ◌≡◌, ◌≢◌, refl, ap, ◌∙◌, sym, Bool, true, Option, none, some, arith,
  inl, inr, length, update, update_self,
}
use mathlib.Core.Path.{subst}
use mathlib.Core.Option.{some-injective}
use racoherence.Config.{u32_mod, cache_line_size, virtual_cl_shift, node_count}
use racoherence.VectorClock.{VectorClock, entry, merge}
use racoherence.LocalClTable.Covers.{Covered}
use racoherence.LogManager.{LogManager, get_new_log}
use racoherence.CacheInfo.Process.{drops}
use racoherence.ThreadOps.{State, log_store, thread_release}
use racoherence.ThreadOps.Publish.{writes_back}
use racoherence.ThreadOps.Store.{IsConsistent, Stored, log_store_lem}
use racoherence.ThreadOps.Release.{thread_release_lem}
use racoherence.ThreadOps.Coherence.{Unread, acquire-release}
use racoherence.ThreadOps.Consume.{Consumer, thread_acquire}
use racoherence.ThreadOps.Consume.Acquire.{Pending}
use racoherence.CxlSync.{World, state_of, with_state, release_of, acquire_of, lock, unlock}
use racoherence.CxlSync.Clocks.{reader_of_world}

pub release_runs :
    (w : World) (s : State) (b : Bool)
    → thread_release (state_of w) ≡ some (b, s)
    → release_of w ≡ some (with_state w s)
unfolding release_of
release_runs w s b e = rw (release_of, e) refl

acquire_runs :
    (fuel : ℕ) (v : World) (clock vc : VectorClock) (c : Consumer)
    → thread_acquire v.thread.node_id fuel clock v.thread.thread_clock (reader_of_world v)
      ≡ some (vc, c)
    → acquire_of fuel clock v
      ≡ some (record {
        thread = record (v.thread) { thread_clock = vc };
        mgrs = c.mgrs;
        cache = c.cache;
      })
unfolding acquire_of
acquire_runs fuel v clock vc c e = rw (acquire_of, e) refl

-- An unlock releases the thread's lines, and leaves the thread's clock with the lock.
pub unlock_runs :
    (w w' : World) (clock : VectorClock)
    → release_of w ≡ some w'
    → unlock w clock ≡ some (w', w'.thread.thread_clock)
unfolding unlock
unlock_runs w w' clock e = rw (unlock, e) refl

-- The first node wrote the line back, and the second dropped its copy.
abbrev pub Moved : ℕ → World → World → Type 0
Moved cl w v =
    (writes_back w.cache.flushes (cl * cache_line_size) ≡ true)
    × (drops v.cache.flushes (cl * cache_line_size) ≡ true)

-- A release with a dirty line, then an acquire by a thread of another node with the released clock.
pub handed_over :
    (w w' : World) (log : ℕ) (m : LogManager) (fuel cl₀ : ℕ) (v : World)
    → IsConsistent w.thread
    → w.thread.node_id < length w.thread.thread_clock
    → get_new_log (w.mgrs w.thread.node_id) ≡ some (some log, m)
    → m.tail + 1 < u32_mod
    → Covered w.thread.dirty_cls.table cl₀
    → release_of w ≡ some w'
    → Unread v.thread.node_id w.thread.node_id m.tail log
        (w'.mgrs w.thread.node_id)
        (reader_of_world v)
    → ((i : ℕ)
        → i < node_count
        → Pending v.thread.node_id fuel w'.thread.thread_clock i (v.mgrs i) (v.cache.clock i))
    → (v' : World) × (acquire_of fuel w'.thread.thread_clock v ≡ some v')
      × ((cl : ℕ) → Covered w.thread.dirty_cls.table cl → Moved cl w' v')
handed_over w w' log m fuel cl₀ v ok inside got room dirty rel u pend =
    elim (thread_release_lem (state_of w) log m ok inside got) [
      | inl (unused, f, none_dirty) ↦ absurd (none_dirty cl₀ dirty)
      | inr (used, s, f, released) ↦
          let kept : with_state w s ≡ w' =
            some-injective _ _ (sym (release_runs w s true f) ∙ rel) in
          let mgr : w'.mgrs w.thread.node_id ≡ s.mgr =
            ap (λ x. x.mgrs w.thread.node_id) (sym kept)
            ∙ update_self w.mgrs w.thread.node_id s.mgr in
          let (c', runs, moved) =
            acquire-release (state_of w) s log m v.thread.node_id fuel clock v.thread.thread_clock
              (reader_of_world v) ok inside got room f
              (subst
                (λ m'. Unread v.thread.node_id w.thread.node_id m.tail log m' (reader_of_world v))
                mgr u)
              (omega (arith, ap (λ k. entry k.thread.thread_clock w.thread.node_id) kept)) pend in
          (
            acquired c',
            acquire_runs fuel v clock (merge v.thread.thread_clock clock) c' runs,
            λ cl h. subst (λ x. Moved cl x (acquired c')) kept (moved cl h),
          )
    ]
  where
    clock : VectorClock
    clock = w'.thread.thread_clock

    acquired : Consumer → World
    acquired c = record {
      thread = record (v.thread) { thread_clock = merge v.thread.thread_clock clock };
      mgrs = c.mgrs;
      cache = c.cache;
    }

-- What leaves its clock behind has released.
abbrev pub with_clock : Option World → Option (World × VectorClock)
with_clock none = none
with_clock (some w) = some (w, w.thread.thread_clock)

pub with_clock-released :
    (o : Option World) (w' : World) (clock : VectorClock)
    → with_clock o ≡ some (w', clock)
    → (o ≡ some w') × (w'.thread.thread_clock ≡ clock)
with_clock-released none w' clock e = absurd (cc e)
with_clock-released (some x) w' clock e =
    let same = some-injective _ _ e in
    let one : x ≡ w' = ap (λ p. p.0) same in
    (ap some one, ap (λ y. y.thread.thread_clock) (sym one) ∙ ap (λ p. p.1) same)

unlock-released :
    (w w' : World) (old clock : VectorClock)
    → unlock w old ≡ some (w', clock)
    → (release_of w ≡ some w') × (w'.thread.thread_clock ≡ clock)
unfolding unlock
unlock-released w w' old clock e = with_clock-released (release_of w) w' clock e

-- A store in a critical section of a CXLMutex. A consistent thread, whose node has an entry in its
-- clock, stores at an address of 48 bits outside line 0 and unlocks, with logs to be had, and with
-- the position of the release, plus one, below 2 ^ 32. Then a thread of another node locks with the
-- location clock that was left. That node is subscribed to the first one, has not read the release,
-- and finds its entry and its log as the release left them; its clock is not ahead of what it read;
-- and all that it must read is published, with fuel for it. The lock comes to its end; the line
-- stored, and every other dirty line, is written back by the first node and dropped by the second.
pub lock-unlock :
    (addr : ℕ) (w : World) (s : State) (w' : World) (old clock : VectorClock) (spare log : ℕ)
    (m₀ m : LogManager) (fuel : ℕ) (v : World)
    → IsConsistent w.thread
    → w.thread.node_id < length w.thread.thread_clock
    → addr < 2 ^ 48
    → addr / 2 ^ virtual_cl_shift ≢ 0
    → get_new_log (w.mgrs w.thread.node_id) ≡ some (some spare, m₀)
    → log_store addr (state_of w) ≡ some s
    → get_new_log s.mgr ≡ some (some log, m)
    → m.tail + 1 < u32_mod
    → unlock (with_state w s) old ≡ some (w', clock)
    → Unread v.thread.node_id w.thread.node_id m.tail log
        (w'.mgrs w.thread.node_id)
        (reader_of_world v)
    → ((i : ℕ)
        → i < node_count
        → Pending v.thread.node_id fuel clock i (v.mgrs i) (v.cache.clock i))
    → (v' : World) × (lock fuel v clock ≡ some v')
      × Moved (addr / 2 ^ virtual_cl_shift) w' v'
      × ((cl : ℕ) → Covered s.thread.dirty_cls.table cl → Moved cl w' v')
unfolding lock
lock-unlock addr w s w' old clock spare log m₀ m fuel v ok inside small line got st got' room un u
      pend =
    let (s', runs, stored) = log_store_lem addr (state_of w) spare m₀ ok small line got in
    let same : s' ≡ s = some-injective _ _ (sym runs ∙ st) in
    let stored' : Stored (state_of w) (addr / 2 ^ virtual_cl_shift) s =
      subst (Stored (state_of w) (addr / 2 ^ virtual_cl_shift)) same stored in
    let mgr : update w.mgrs w.thread.node_id s.mgr s.thread.node_id ≡ s.mgr =
      ap (update w.mgrs w.thread.node_id s.mgr) stored'.node
      ∙ update_self w.mgrs w.thread.node_id s.mgr in
    let (rel, stamp) = unlock-released (with_state w s) w' old clock un in
    let (v', locks, moved) =
      handed_over (with_state w s) w' log m fuel (addr / 2 ^ virtual_cl_shift) v stored'.consistent
        (omega (arith, inside, stored'.node, ap (λ k. length k) stored'.clock))
        (ap get_new_log mgr ∙ got') room stored'.dirty rel
        (subst (λ i. Unread v.thread.node_id i m.tail log (w'.mgrs i) (reader_of_world v))
          (sym stored'.node) u)
        (subst
          (λ k.
            (i : ℕ)
            → i < node_count
            → Pending v.thread.node_id fuel k i (v.mgrs i) (v.cache.clock i))
          (sym stamp) pend) in
    (
      v',
      ap (λ k. acquire_of fuel k v) (sym stamp) ∙ locks,
      moved (addr / 2 ^ virtual_cl_shift) stored'.dirty,
      moved,
    )
