-- ===== src/ThreadOps/Release.antt =====
-- ThreadOps::thread_release: what a release publishes.
use racoherence.Prelude.{
  ℕ, ◌*◌, ◌<◌, ◌≡◌, ◌≢◌, arith, contains, refl, ◌∙◌, sym, true, false, some, List, ◌==◌, Bool-cases,
  inl, inr, ==_iff, ◌⊎◌, length, get_or-set_self,
}
use mathlib.Core.Path.{subst}
use racoherence.Config.{cache_line_size}
use racoherence.VectorClock.{assign, entry}
use racoherence.LocalClTable.{clear_table, empty_table}
use racoherence.LocalClTable.Covers.{Covered, covers, covers-zero}
use racoherence.LocalClTable.Insert.{empty-IsValid}
use racoherence.LogManager.{LogManager, get_new_log, next_idx, get_idx}
use racoherence.CacheInfo.{Flush, process_log}
use racoherence.CacheInfo.Process.{drops}
use racoherence.ThreadOps.{State, write_to_log, thread_release}
use racoherence.ThreadOps.Publish.{Published, writes_back, write_to_log_publishes}
use racoherence.ThreadOps.Store.{IsConsistent}

-- What a release of the thread's dirty lines in the log numbered `log` leaves behind.
pub record Released (s : State) (m : LogManager) (log : ℕ) (s' : State) : Type 0 where
  pub consistent : IsConsistent s'.thread
  pub clock : entry s'.thread.thread_clock s.thread.node_id ≡ next_idx m.tail
  pub published :
      s'.mgr.entries (get_idx m.tail) ≡ record { log = log; idx = next_idx m.tail; is_rel = true }
  pub clean : (cl : ℕ) → ¬ (Covered s'.thread.dirty_cls.table cl)
  pub sent :
      (cl : ℕ)
      → Covered s.thread.dirty_cls.table cl
      → writes_back s'.cache.flushes (cl * cache_line_size) ≡ true
  pub dropped :
      (fs : List Flush) × (process_log (s'.mgr.buf log) ≡ some fs)
      × ((cl : ℕ) → Covered s.thread.dirty_cls.table cl → drops fs (cl * cache_line_size) ≡ true)
  pub logged :
      (cl : ℕ)
      → Covered s.thread.dirty_cls.table cl
      → (e : ℕ) × (contains (s'.mgr.buf log) e ≡ true) × (covers e cl ≡ true)

empty-Covered : (cl : ℕ) → ¬ (Covered empty_table cl)
empty-Covered cl (j, inside, c) = absurd (cc (c, covers-zero cl))

-- The thread that a release publishes from, and what it leaves once the clock is set.
cleared : State → State
cleared s = record s { thread = record (s.thread) { recent_cl = 0 } }

stamped : State → ℕ → State
stamped s clk = record s {
  thread = record (s.thread) { thread_clock = assign s.thread.thread_clock s.thread.node_id clk };
}

release_runs :
    (s s' : State) (clk : ℕ)
    → (s.thread.recent_cl == 0) ≡ false
    → write_to_log true (cleared s) ≡ some (clk, s')
    → thread_release s ≡ some (true, stamped s' clk)
unfolding thread_release cleared stamped
release_runs s s' clk e w = rw (e, w) refl

release_Released :
    (s s' : State) (log clk : ℕ) (m : LogManager)
    → s.thread.node_id < length s.thread.thread_clock
    → Published (cleared s) true m log clk s'
    → Released s m log (stamped s' clk)
unfolding cleared stamped clear_table assign
release_Released s s' log clk m inside p = record {
  consistent =
      subst (λ t. IsConsistent (stamped (record s' { thread = t }) clk).thread) (sym p.cleared)
        (record {
          valid = empty-IsValid;
          cached = λ h. absurd (h refl);
          clean = λ h. empty-Covered;
        });
  clock =
      subst
        (λ t.
          entry (stamped (record s' { thread = t }) clk).thread.thread_clock s.thread.node_id
          ≡ next_idx m.tail)
        (sym p.cleared)
        (get_or-set_self s.thread.thread_clock s.thread.node_id clk 0 inside ∙ p.clock);
  published = p.entry;
  clean = subst (λ t. (cl : ℕ) → ¬ (Covered t.dirty_cls.table cl)) (sym p.cleared) empty-Covered;
  sent = p.sent;
  dropped = p.dropped;
  logged = p.logged;
}

-- ThreadOps::thread_release of a consistent thread whose node has an entry in its clock, while a log
-- is to be had. If `recent_cl` is 0, it returns false, changes nothing, and no line is dirty. If it
-- is not 0, it returns true: the log is published as a release, its position plus one is the
-- thread's own clock entry, no line is dirty any more, every line that was dirty is written back,
-- and `process_log` of the log drops its copies.
pub thread_release_lem :
    (s : State) (log : ℕ) (m : LogManager)
    → IsConsistent s.thread
    → s.thread.node_id < length s.thread.thread_clock
    → get_new_log s.mgr ≡ some (some log, m)
    → ((s.thread.recent_cl ≡ 0)
        × (thread_release s ≡ some (false, s))
        × ((cl : ℕ) → ¬ (Covered s.thread.dirty_cls.table cl)))
      ⊎ ((s.thread.recent_cl ≢ 0)
          × (s' : State) × (thread_release s ≡ some (true, s'))
          × Released s m log s')
unfolding thread_release cleared
thread_release_lem s log m c inside got = elim (Bool-cases (s.thread.recent_cl == 0)) [
  | inl e ↦
      inl
        ((==_iff s.thread.recent_cl 0).0 e, rw e refl, c.clean ((==_iff s.thread.recent_cl 0).0 e))
  | inr e ↦
      let (clk, s', w, p) = write_to_log_publishes true (cleared s) log m c.valid got in
      inr (
        (λ z. ground (arith, e, z)),
        stamped s' clk,
        release_runs s s' clk e w,
        release_Released s s' log clk m inside p,
      )
]
