-- ===== src/Runtime/Threads.antt =====
-- Threads of src/runtime.cpp: what a new thread, and one that joins another, know.
use mathlib.Core.Option.{some-injective}
use racoherence.Prelude.{ℕ, ◌+◌, ◌<◌, ◌≡◌, refl, ap, ◌∙◌, sym, Option, none, some, length}
use mathlib.Core.Path.{subst}
use racoherence.Config.{node_count, u32_mod}
use racoherence.VectorClock.{VectorClock, zero_clock}
use racoherence.LocalClTable.Covers.{Covered}
use racoherence.LogManager.{LogManager, get_new_log}
use racoherence.ThreadOps.Store.{IsConsistent}
use racoherence.ThreadOps.Coherence.{Unread}
use racoherence.ThreadOps.Consume.Acquire.{Pending}
use racoherence.CxlSync.{World, lock, release_of, acquire_of}
use racoherence.CxlSync.Clocks.{Locked, lock_lem, reader_of_world}
use racoherence.CxlSync.Handover.{Moved, handed_over, with_clock-released}
use racoherence.Runtime.{
  new_thread, rac_thread_create, thread_begin, rac_thread_func_wrapper, rac_thread_join,
}

-- A thread that rac_thread_create starts on node `nid` with its parent's clock, when for each node
-- that `nid` is behind on the logs up to a release at that clock are published. It begins: its clock
-- is then above the parent's, and its node has consumed the logs up to the parent's clock.
pub thread_begin_lem :
    (fuel nid tid : ℕ) (w : World) (parent_clock : VectorClock)
    → length parent_clock ≡ node_count
    → ((i : ℕ) → i < node_count → Pending nid fuel parent_clock i (w.mgrs i) (w.cache.clock i))
    → (w' : World) × (thread_begin fuel nid tid parent_clock w ≡ some w')
      × Locked parent_clock (record w { thread = new_thread nid tid }) w'
unfolding thread_begin lock zero_clock
thread_begin_lem fuel nid tid w parent_clock same pend =
    lock_lem fuel (record w { thread = new_thread nid tid }) parent_clock (sym same) pend

create-released :
    (w w' : World) (clock : VectorClock)
    → rac_thread_create w ≡ some (w', clock)
    → (release_of w ≡ some w') × (w'.thread.thread_clock ≡ clock)
unfolding rac_thread_create
create-released w w' clock e = with_clock-released (release_of w) w' clock e

-- rac_thread_create by a consistent parent with a dirty line, whose node has an entry in its clock,
-- with a log to be had, and with the position of the release, plus one, below 2 ^ 32; then the begin
-- of its child, with the parent's clock, on another node. That node is subscribed to the parent's,
-- has not read the release, and finds its entry and its log as the release left them; its clock is
-- not ahead of what it read; and all that it must read is published, with fuel for it. The child
-- begins, and every line that was dirty is written back by the parent's node and dropped by the
-- child's.
pub create-begin :
    (w w' : World) (clock : VectorClock) (log : ℕ) (m : LogManager) (fuel cl₀ nid tid : ℕ)
    (v : World)
    → IsConsistent w.thread
    → w.thread.node_id < length w.thread.thread_clock
    → get_new_log (w.mgrs w.thread.node_id) ≡ some (some log, m)
    → m.tail + 1 < u32_mod
    → Covered w.thread.dirty_cls.table cl₀
    → rac_thread_create w ≡ some (w', clock)
    → Unread nid w.thread.node_id m.tail log (w'.mgrs w.thread.node_id) (reader_of_world v)
    → ((i : ℕ) → i < node_count → Pending nid fuel clock i (v.mgrs i) (v.cache.clock i))
    → (v' : World) × (thread_begin fuel nid tid clock v ≡ some v')
      × ((cl : ℕ) → Covered w.thread.dirty_cls.table cl → Moved cl w' v')
unfolding thread_begin
create-begin w w' clock log m fuel cl₀ nid tid v ok inside got room dirty created u pend =
    let (released, stamp) = create-released w w' clock created in
    let (v', runs, moved) =
      handed_over w w' log m fuel cl₀ (record v { thread = new_thread nid tid }) ok inside got room
        dirty released u
        (subst (λ k. (i : ℕ) → i < node_count → Pending nid fuel k i (v.mgrs i) (v.cache.clock i))
          (sym stamp) pend) in
    (
      v',
      ap (λ k. acquire_of fuel k (record v { thread = new_thread nid tid })) (sym stamp) ∙ runs,
      moved,
    )

abbrev with_result {ℓ} : {A : Type ℓ} → A → Option World → Option (A × World)
with_result ret none = none
with_result ret (some w) = some (ret, w)

with_result-ended {ℓ} :
    {A : Type ℓ} (ret ret' : A) (o : Option World) (w : World)
    → with_result ret o ≡ some (ret', w)
    → (o ≡ some w) × (ret ≡ ret')
with_result-ended ret ret' none w e = absurd (cc e)
with_result-ended ret ret' (some x) w e =
    let same = some-injective _ _ e in (ap some (ap (λ p. p.1) same), ap (λ p. p.0) same)

-- The function of the thread is run between the begin and the release.
wrapper-ended {ℓ} :
    {A : Type ℓ} (fuel nid tid : ℕ) (clock : VectorClock) (func : World → Option (A × World))
    (w begun ran ended : World) (ret ret' : A)
    → thread_begin fuel nid tid clock w ≡ some begun
    → func begun ≡ some (ret, ran)
    → rac_thread_func_wrapper fuel nid tid clock func w ≡ some (ret', ended)
    → (release_of ran ≡ some ended) × (ret ≡ ret')
unfolding rac_thread_func_wrapper
wrapper-ended fuel nid tid clock func w begun ran ended ret ret' b f e =
    with_result-ended ret ret' (release_of ran) ended (sym opened ∙ e)
  where
    opened : rac_thread_func_wrapper fuel nid tid clock func w ≡ with_result ret (release_of ran)
    opened = rw (rac_thread_func_wrapper, b, f) refl

-- A thread of rac_thread_func_wrapper whose function leaves it consistent with a dirty line, its
-- node with an entry in its clock, with a log to be had, and with the position of the release with
-- which it ends, plus one, below 2 ^ 32; then rac_thread_join by a thread of another node. That node
-- is subscribed to the first one, has not read the release, and finds its entry and its log as the
-- release left them; its clock is not ahead of what it read; and all that it must read is published,
-- with fuel for it. The thread gives what its function gave, the join comes to its end, and every
-- line that was dirty is written back by the thread's node and dropped by that of the join.
pub wrapper-join {ℓ} :
    {A : Type ℓ} (fuel nid tid : ℕ) (clock : VectorClock) (func : World → Option (A × World))
    (w begun ran ended : World) (ret ret' : A) (log : ℕ) (m : LogManager) (fuel' cl₀ : ℕ)
    (v : World)
    → thread_begin fuel nid tid clock w ≡ some begun
    → func begun ≡ some (ret, ran)
    → rac_thread_func_wrapper fuel nid tid clock func w ≡ some (ret', ended)
    → IsConsistent ran.thread
    → ran.thread.node_id < length ran.thread.thread_clock
    → get_new_log (ran.mgrs ran.thread.node_id) ≡ some (some log, m)
    → m.tail + 1 < u32_mod
    → Covered ran.thread.dirty_cls.table cl₀
    → Unread v.thread.node_id ran.thread.node_id m.tail log
        (ended.mgrs ran.thread.node_id)
        (reader_of_world v)
    → ((i : ℕ)
        → i < node_count
        → Pending v.thread.node_id fuel' ended.thread.thread_clock i (v.mgrs i) (v.cache.clock i))
    → (ret ≡ ret')
      × (v' : World) × (rac_thread_join fuel' ended.thread.thread_clock v ≡ some v')
      × ((cl : ℕ) → Covered ran.thread.dirty_cls.table cl → Moved cl ended v')
unfolding rac_thread_join
wrapper-join fuel nid tid clock func w begun ran ended ret ret' log m fuel' cl₀ v b f e ok inside
      got room dirty u pend =
    let (released, same) = wrapper-ended fuel nid tid clock func w begun ran ended ret ret' b f e in
    let (v', runs, moved) =
      handed_over ran ended log m fuel' cl₀ v ok inside got room dirty released u pend in
    (same, v', runs, moved)
