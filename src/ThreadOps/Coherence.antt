-- ===== src/ThreadOps/Coherence.antt =====
-- ThreadOps::thread_release on one node, then ThreadOps::thread_acquire on another.
pub mod Tests
use racoherence.Prelude.{
  ℕ, ◌+◌, ◌*◌, ◌≤◌, ◌<◌, ◌≡◌, ◌≢◌, ap, ◌∙◌, sym, true, false, some, contains, arith, inl, inr,
  length,
}
use mathlib.Core.Path.{subst}
use mathlib.Core.Option.{some-injective}
use racoherence.Config.{u32_mod, cache_line_size, node_count}
use racoherence.VectorClock.{VectorClock, entry, merge}
use racoherence.LocalClTable.Covers.{Covered, covers}
use racoherence.LogManager.{LogManager, get_new_log, is_subscribed, get_idx, next_idx}
use racoherence.CacheInfo.Process.{drops}
use racoherence.ThreadOps.{State, thread_release}
use racoherence.ThreadOps.Publish.{writes_back}
use racoherence.ThreadOps.Store.{IsConsistent}
use racoherence.ThreadOps.Release.{Released, thread_release_lem}
use racoherence.ThreadOps.Consume.{Consumer, thread_acquire, wait_for_consume}
use racoherence.ThreadOps.Consume.Progress.{at, head_of}
use racoherence.ThreadOps.Consume.Acquire.{
  Pending, Settled, wait_for_consume-Settled, thread_acquire_lem,
}
use racoherence.ThreadOps.Consume.Advance.{Advanced}

-- Node `nid` has the position `tail` of node `i` still to read, where the entry and the log `log`
-- stand as the manager `m` has them, and its clock for node `i` is not ahead of what it has read.
pub record Unread (nid i tail log : ℕ) (m : LogManager) (c : Consumer) : Type 0 where
  pub other : i ≢ nid
  pub inside : i < node_count
  pub subscribed : is_subscribed (c.mgrs i) nid ≡ true
  pub entry_there : at (c.mgrs i) tail ≡ at m tail
  pub log_there : (c.mgrs i).buf log ≡ m.buf log
  pub clock_behind : c.cache.clock i ≤ head_of (c.mgrs i) nid
  pub next : head_of (c.mgrs i) nid ≤ tail

-- A release that had lines to publish is the one described.
release-Released :
    (s s' : State) (log : ℕ) (m : LogManager)
    → IsConsistent s.thread
    → s.thread.node_id < length s.thread.thread_clock
    → get_new_log s.mgr ≡ some (some log, m)
    → thread_release s ≡ some (true, s')
    → Released s m log s'
release-Released s s' log m c inside got r = elim (thread_release_lem s log m c inside got) [
  | inl (unused, f, none_dirty) ↦ absurd (cc (ap (λ x. x.0) (some-injective _ _ (sym f ∙ r))))
  | inr (used, t, f, released) ↦
      subst (Released s m log) (ap (λ x. x.1) (some-injective _ _ (sym f ∙ r))) released
]

-- Once its clock reaches the next position, the reader has gone past the position and dropped what
-- the log there covers.
reads_past :
    (nid i tail log e cl : ℕ) (target : VectorClock) (m : LogManager) (c c' : Consumer)
    → Unread nid i tail log m c
    → Advanced nid c c'
    → Settled nid target i (c'.mgrs i) (c'.cache.clock i)
    → tail + 1 ≤ entry target i
    → (at m tail).log ≡ log
    → contains (m.buf log) e ≡ true
    → covers e cl ≡ true
    → drops c'.cache.flushes (cl * cache_line_size) ≡ true
reads_past nid i tail log e cl target m c c' u adv settled above here listed cov =
    adv.dropped i tail e cl u.next (omega (arith, reached, adv.behind i u.clock_behind))
      (ap (λ x. contains ((c.mgrs i).buf x.log) e) u.entry_there
        ∙ ap (λ l. contains ((c.mgrs i).buf l) e) here
        ∙ ap (λ b. contains b e) u.log_there
        ∙ listed)
      cov
  where
    reached : tail + 1 ≤ c'.cache.clock i
    reached = omega (arith, settled u.other (adv.subbed i ∙ u.subscribed), above)

-- A consistent thread, whose node has an entry in its clock, releases the lines that it wrote, with
-- a log to be had and at a position that is below 2 ^ 32 after one is added, and a thread of another
-- node acquires a clock that has the release. That node is subscribed to the releasing one, has not
-- read the release, and finds its entry and its log as the release left them; its clock is not ahead
-- of what it read; and all that it must read is published, with fuel for it. The acquire comes to
-- its end; each line that was dirty is written back by the releasing node, and the acquiring node
-- drops its copy of it.
pub acquire-release :
    (s s' : State) (log : ℕ) (m : LogManager) (nid fuel : ℕ) (clock thread_clock : VectorClock)
    (c : Consumer)
    → IsConsistent s.thread
    → s.thread.node_id < length s.thread.thread_clock
    → get_new_log s.mgr ≡ some (some log, m)
    → m.tail + 1 < u32_mod
    → thread_release s ≡ some (true, s')
    → Unread nid s.thread.node_id m.tail log s'.mgr c
    → entry s'.thread.thread_clock s.thread.node_id ≤ entry clock s.thread.node_id
    → ((i : ℕ) → i < node_count → Pending nid fuel clock i (c.mgrs i) (c.cache.clock i))
    → (c' : Consumer) × (thread_acquire nid fuel clock thread_clock c
        ≡ some (merge thread_clock clock, c'))
      × ((cl : ℕ)
          → Covered s.thread.dirty_cls.table cl
          → (writes_back s'.cache.flushes (cl * cache_line_size) ≡ true)
            × (drops c'.cache.flushes (cl * cache_line_size) ≡ true))
acquire-release s s' log m nid fuel clock thread_clock c ok inside got small rel u above pend =
    let r = release-Released s s' log m ok inside got rel in
    let (c', runs, waited, adv) = thread_acquire_lem nid fuel clock thread_clock c pend in
    (
      c',
      runs,
      λ cl dirty.
          let (e, listed, cov) = r.logged cl dirty in
          (
            r.sent cl dirty,
            reads_past nid s.thread.node_id m.tail log e cl clock s'.mgr c c' u adv
                (wait_for_consume-Settled nid s.thread.node_id clock c' u.inside waited)
                (omega (arith, r.clock, above)) (ap (λ x. x.log) r.published) listed cov,
          ),
    )
