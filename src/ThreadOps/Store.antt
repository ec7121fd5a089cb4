-- ===== src/ThreadOps/Store.antt =====
-- ThreadOps::log_store and ThreadOps::thread_release: a stored line is dirty until it is published.
use racoherence.Prelude.{
  ℕ, ◌*◌, ◌/◌, ◌^◌, ◌<◌, ◌≡◌, ◌≢◌, refl, ap, ◌∙◌, sym, true, false, some, arith, ◌==◌, Bool-cases,
  inl, inr, ==_iff, ◌⊎◌,
}
use mathlib.Core.Path.{subst}
use racoherence.Config.{virtual_cl_shift, cache_line_size}
use racoherence.ClGroup.{group_size, group_index_shift}
use racoherence.LocalClTable.{Table, insert, empty_table, clear_table}
use racoherence.LocalClTable.Covers.{Covered}
use racoherence.LocalClTable.Home.{IsValid}
use racoherence.LocalClTable.Insert.{insert_lem, insert-empty, empty-IsValid}
use racoherence.LogManager.{LogManager, get_new_log}
use racoherence.ThreadOps.{State, ThreadOps, insert_line, store_cl, write_to_log, log_store}
use racoherence.ThreadOps.Publish.{writes_back, write_to_log_publishes}

-- Between two calls: the table is valid, and the inline cache holds a line that the table covers, or
-- nothing while the table is empty.
pub record IsConsistent (t : ThreadOps) : Type 0 where
  pub valid : IsValid t.dirty_cls.table
  pub cached : t.recent_cl ≢ 0 → Covered t.dirty_cls.table t.recent_cl
  pub clean : t.recent_cl ≡ 0 → (cl : ℕ) → ¬ (Covered t.dirty_cls.table cl)

-- The line is dirty still, or is written back.
abbrev pub Kept : State → ℕ → Type 0
Kept s cl =
    Covered s.thread.dirty_cls.table cl
    ⊎ (writes_back s.cache.flushes (cl * cache_line_size) ≡ true)

-- What a store of the line `cl` does.
pub record Stored (s : State) (cl : ℕ) (s' : State) : Type 0 where
  pub consistent : IsConsistent s'.thread
  pub dirty : Covered s'.thread.dirty_cls.table cl
  pub kept : (other : ℕ) → Covered s.thread.dirty_cls.table other → Kept s' other
  pub node : s'.thread.node_id ≡ s.thread.node_id
  pub clock : s'.thread.thread_clock ≡ s.thread.thread_clock

-- The thread after a line went into its table.
store_line : State → ℕ → Table → State
store_line s cl slots = record s {
  thread = record (s.thread) {
    recent_cl = cl;
    dirty_cls = record (s.thread.dirty_cls) { table = slots };
  };
}

store_line-IsConsistent :
    (s : State) (cl : ℕ) (slots : Table)
    → cl ≢ 0
    → IsValid slots
    → Covered slots cl
    → IsConsistent (store_line s cl slots).thread
unfolding store_line
store_line-IsConsistent s cl slots n valid here = record {
  valid = valid;
  cached = λ h. here;
  clean = λ h. absurd (n h);
}

module _ (cl : ℕ) (s : State) where
  recent : (cl == s.thread.recent_cl) ≡ true → store_cl cl s ≡ some s
  unfolding store_cl
  recent e = rw e refl

  fits :
      (cl == s.thread.recent_cl) ≡ false
      → (insert s.thread.dirty_cls.table cl).0 ≡ false
      → store_cl cl s ≡ some (store_line s cl (insert s.thread.dirty_cls.table cl).1)
  unfolding store_cl insert_line store_line
  fits e ok = rw (e, ok) refl

  -- Where the full table is published from.
  full_state : State
  unfolding store_line
  full_state = store_line s cl s.thread.dirty_cls.table

  again :
      (s' : State)
      → s'.thread ≡ record (full_state.thread) { dirty_cls = clear_table s.thread.dirty_cls }
      → (insert_line s' cl).1 ≡ store_line s' cl (insert empty_table cl).1
  unfolding insert_line store_line full_state clear_table
  again s' cleared =
      subst
        (λ t.
          (insert_line (record s' { thread = t }) cl).1
          ≡ store_line (record s' { thread = t }) cl (insert empty_table cl).1)
        (sym cleared) refl

  tried :
      (insert s.thread.dirty_cls.table cl).1 ≡ s.thread.dirty_cls.table
      → (insert_line (record s { thread = record (s.thread) { recent_cl = cl } }) cl).1 ≡ full_state
  unfolding insert_line full_state store_line
  tried same = ap (λ slots. store_line s cl slots) same

  spills :
      (clk : ℕ) (s' : State)
      → (cl == s.thread.recent_cl) ≡ false
      → (insert s.thread.dirty_cls.table cl).0 ≡ true
      → (insert s.thread.dirty_cls.table cl).1 ≡ s.thread.dirty_cls.table
      → write_to_log false full_state ≡ some (clk, s')
      → s'.thread ≡ record (full_state.thread) { dirty_cls = clear_table s.thread.dirty_cls }
      → store_cl cl s ≡ some (store_line s' cl (insert empty_table cl).1)
  unfolding store_cl insert_line
  spills clk s' e full same w cleared =
      rw (e, full, ap (write_to_log false) (tried same) ∙ w) (ap some (again s' cleared))

-- A line goes into a cleared table.
pub into_empty :
    (cl : ℕ)
    → cl / group_size < 2 ^ group_index_shift
    → IsValid (insert empty_table cl).1 × Covered (insert empty_table cl).1 cl
into_empty cl small = elim (insert_lem empty_table cl empty-IsValid small) [
  | inl (fit, valid, here, kept) ↦ (valid, here)
  | inr (over, same) ↦ absurd (cc (over, insert-empty cl small))
]

-- ThreadOps::log_store by a consistent thread, of an address of 48 bits that is not in line 0, while a
-- log is to be had. It comes to its end with the thread consistent and the stored line dirty; every
-- line that was dirty is dirty still, or is written back.
pub log_store_lem :
    (addr : ℕ) (s : State) (log : ℕ) (m : LogManager)
    → IsConsistent s.thread
    → addr < 2 ^ 48
    → addr / 2 ^ virtual_cl_shift ≢ 0
    → get_new_log s.mgr ≡ some (some log, m)
    → (s' : State) × (log_store addr s ≡ some s') × Stored s (addr / 2 ^ virtual_cl_shift) s'
unfolding log_store store_line full_state
log_store_lem addr s log m c w n got =
    let line = addr / 2 ^ virtual_cl_shift in
    let small : line / group_size < 2 ^ group_index_shift = omega arith in
    elim (Bool-cases (line == s.thread.recent_cl)) [
      | inl e ↦ (
        s,
        recent line s e,
        record {
          consistent = c;
          dirty =
              subst (Covered s.thread.dirty_cls.table) (sym ((==_iff line s.thread.recent_cl).0 e))
                (c.cached (ground (arith, e)));
          kept = λ other h. inl h;
          node = refl;
          clock = refl;
        },
      )
      | inr e ↦ elim (insert_lem s.thread.dirty_cls.table line c.valid small) [
        | inl (fit, valid, here, kept) ↦ (
          store_line s line (insert s.thread.dirty_cls.table line).1,
          fits line s e fit,
          record {
            consistent =
                store_line-IsConsistent s line (insert s.thread.dirty_cls.table line).1 n valid
                  here;
            dirty = here;
            kept = λ other h. inl (kept other h);
            node = refl;
            clock = refl;
          },
        )
        | inr (over, same) ↦
            let (clk, s', runs, p) =
              write_to_log_publishes false (full_state line s) log m c.valid got in
            let (valid, here) = into_empty line small in
            (
              store_line s' line (insert empty_table line).1,
              spills line s clk s' e over same runs p.cleared,
              record {
                consistent =
                    store_line-IsConsistent s' line (insert empty_table line).1 n valid here;
                dirty = here;
                kept = λ other h. inr (p.sent other h);
                node = ap (λ t. t.node_id) p.cleared;
                clock = ap (λ t. t.thread_clock) p.cleared;
              },
            )
      ]
    ]
