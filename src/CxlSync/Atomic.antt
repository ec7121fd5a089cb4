-- ===== src/CxlSync/Atomic.antt =====
-- CXLAtomic of include/cxlSync.hpp as a flag: what a thread stored before a release store of the atomic
-- reaches the thread that loads it with acquire.
use racoherence.Prelude.{
  ℕ, ◌+◌, ◌<◌, ◌≡◌, refl, ap, ◌∙◌, sym, Bool, true, false, Option, none, some, length,
}
use mathlib.Core.Path.{subst}
use mathlib.Core.Option.{some-injective}
use racoherence.Config.{u32_mod, node_count}
use racoherence.LocalClTable.Covers.{Covered}
use racoherence.LogManager.{LogManager, get_new_log}
use racoherence.ThreadOps.Store.{IsConsistent}
use racoherence.ThreadOps.Coherence.{Unread}
use racoherence.ThreadOps.Consume.Acquire.{Pending}
use racoherence.CxlSync.{
  World, MemoryOrder, relaxed, acquire, release, acq_rel, seq_cst, InnerData, store, load, as_char,
  release_of, acquire_of,
}
use racoherence.CxlSync.Clocks.{reader_of_world}
use racoherence.CxlSync.Handover.{Moved, handed_over}

-- The orders with which `store` releases, and those with which `load` acquires.
abbrev store_releases : MemoryOrder → Bool
store_releases release = true
store_releases seq_cst = true
store_releases relaxed = false
store_releases acquire = false
store_releases acq_rel = false

abbrev load_acquires : MemoryOrder → Bool
load_acquires acquire = true
load_acquires seq_cst = true
load_acquires relaxed = false
load_acquires release = false
load_acquires acq_rel = false

abbrev with_data : ℕ → Option World → Option (World × InnerData)
with_data desired none = none
with_data desired (some w) =
    some (w, record { atomic_data = desired; clock = w.thread.thread_clock })

with_data-released :
    (desired : ℕ) (o : Option World) (w' : World) (i' : InnerData)
    → with_data desired o ≡ some (w', i')
    → (o ≡ some w') × (i' ≡ record { atomic_data = desired; clock = w'.thread.thread_clock })
with_data-released desired none w' i' e = absurd (cc e)
with_data-released desired (some x) w' i' e =
    let same = some-injective _ _ e in
    let one : x ≡ w' = ap (λ p. p.0) same in
    (
      ap some one,
      sym (ap (λ p. p.1) same)
          ∙ ap (λ y. record { atomic_data = desired; clock = y.thread.thread_clock }) one,
    )

store-released :
    (desired : ℕ) (order : MemoryOrder) (w w' : World) (i i' : InnerData)
    → store_releases order ≡ true
    → store desired order w i ≡ some (w', i')
    → (release_of w ≡ some w')
      × (i' ≡ record { atomic_data = desired; clock = w'.thread.thread_clock })
unfolding store
store-released desired release w w' i i' h e = with_data-released desired (release_of w) w' i' e
store-released desired seq_cst w w' i i' h e = with_data-released desired (release_of w) w' i' e
store-released desired relaxed w w' i i' h e = absurd (cc h)
store-released desired acquire w w' i i' h e = absurd (cc h)
store-released desired acq_rel w w' i i' h e = absurd (cc h)

load_runs :
    (fuel : ℕ) (order : MemoryOrder) (v v' : World) (i : InnerData)
    → load_acquires order ≡ true
    → acquire_of fuel i.clock v ≡ some v'
    → load fuel order v i ≡ some (as_char i.atomic_data, v')
unfolding load
load_runs fuel acquire v v' i h e = rw (load, e) refl
load_runs fuel seq_cst v v' i h e = rw (load, e) refl
load_runs fuel relaxed v v' i h e = absurd (cc h)
load_runs fuel release v v' i h e = absurd (cc h)
load_runs fuel acq_rel v v' i h e = absurd (cc h)

-- CXLAtomic::store with an order that releases, by a consistent thread with a dirty line, whose node
-- has an entry in its clock, with a log to be had, and with the position of the release, plus one,
-- below 2 ^ 32; then CXLAtomic::load of the atomic with an order that acquires, by a thread of
-- another node. That node is subscribed to the first one, has not read the release, and finds its
-- entry and its log as the release left them; its clock is not ahead of what it read; and all that
-- it must read is published, with fuel for it. The load comes to its end and gives the value stored,
-- through a `char`; every line that was dirty before the store is written back by the first node and
-- dropped by the second.
pub store-load :
    (desired : ℕ) (order order' : MemoryOrder) (w w' : World) (i i' : InnerData) (log : ℕ)
    (m : LogManager) (fuel cl₀ : ℕ) (v : World)
    → IsConsistent w.thread
    → w.thread.node_id < length w.thread.thread_clock
    → get_new_log (w.mgrs w.thread.node_id) ≡ some (some log, m)
    → m.tail + 1 < u32_mod
    → Covered w.thread.dirty_cls.table cl₀
    → store_releases order ≡ true
    → load_acquires order' ≡ true
    → store desired order w i ≡ some (w', i')
    → Unread v.thread.node_id w.thread.node_id m.tail log
        (w'.mgrs w.thread.node_id)
        (reader_of_world v)
    → ((k : ℕ)
        → k < node_count
        → Pending v.thread.node_id fuel i'.clock k (v.mgrs k) (v.cache.clock k))
    → (v' : World) × (load fuel order' v i' ≡ some (as_char desired, v'))
      × ((cl : ℕ) → Covered w.thread.dirty_cls.table cl → Moved cl w' v')
store-load desired order order' w w' i i' log m fuel cl₀ v ok inside got room dirty rel acq st u
      pend =
    let (released, left) = store-released desired order w w' i i' rel st in
    let stamp : i'.clock ≡ w'.thread.thread_clock = ap (λ x. x.clock) left in
    let (v', runs, moved) = handed_over w w' log m fuel cl₀ v ok inside got room dirty released u (
      subst
        (λ t.
          (k : ℕ) → k < node_count → Pending v.thread.node_id fuel t k (v.mgrs k) (v.cache.clock k))
        stamp pend) in
    (
      v',
      load_runs fuel order' v v' i' acq (ap (λ t. acquire_of fuel t v) stamp ∙ runs)
          ∙ ap (λ x. some (as_char x.atomic_data, v')) left,
      moved,
    )
