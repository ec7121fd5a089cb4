-- ===== src/ThreadOps/Publish.antt =====
-- ThreadOps::write_to_log: every dirty line is written back, and a node that processes the log drops
-- its copy of it.
use racoherence.Prelude.{
  ℕ, zero, suc, ◌+◌, ◌-◌, ◌*◌, ◌/◌, ◌^◌, ◌≤◌, ◌<◌, ◌≡◌, refl, ap, ◌∙◌, sym, Bool, true, false, ◌||◌,
  some, List, [], ◌∷◌, ◌++◌, map, contains, contains-append, arith, ◌==◌, Bool-cases, inl, inr,
  ℕ_discrete, ==_iff, length, update, update_self,
}
use mathlib.Core.Path.{subst}
use mathlib.Core.List.{append-nil, append_assoc}
use racoherence.Config.{u64_mod, cache_line_size, cl_expand_factor, local_cl_table_size, log_size}
use racoherence.ClGroup.{is_length_based, get_length, get_index, get_ptr, group_size, group_shift}
use racoherence.ClGroup.Ranges.{groups_from, length_range_lem, contains-groups_from}
use racoherence.LocalClTable.{Table, clear_table}
use racoherence.LocalClTable.Covers.{covers, Covered, IsEntry, covers-zero}
use racoherence.LocalClTable.Home.{IsValid}
use racoherence.LogManager.{
  LogManager, get_new_log, produce_tail, claim_tail, publish, next_idx, get_idx,
}
use racoherence.LogManager.Fresh.{get_new_log-empty}
use racoherence.CacheInfo.{Flush, writeback, invalidate, wbinvd, lines_at, each, process_log, flush}
use racoherence.CacheInfo.Process.{
  contains-each, mask_lines_lem, length_lines_at, drops, process_log-drops,
}
use racoherence.ThreadOps.{State, entry_lines, collect, write_all, write_to_log}

-- The group of a covered line is one of those that the iteration visits.
covers_group :
    (entry cl : ℕ)
    → is_length_based entry ≡ true
    → covers entry cl ≡ true
    → (cl / group_size - get_index entry < get_length entry)
      × (get_ptr entry + (0 + (cl / group_size - get_index entry)) * 2 ^ group_shift
          ≡ cl / group_size * 2 ^ group_shift)
      × (cl * cache_line_size < u64_mod)
unfolding covers get_index get_ptr get_length
covers_group entry cl m c = (ground (arith, c), ground (arith, c), ground (arith, c))

-- What is written back for an entry has every line that the entry covers.
entry_lines_lem :
    (entry : ℕ)
    → IsEntry entry
    → (ps : List ℕ) × (entry_lines entry ≡ some ps)
      × ((cl : ℕ) → covers entry cl ≡ true → contains ps (cl * cache_line_size) ≡ true)
unfolding entry_lines
entry_lines_lem entry valid = elim (Bool-cases (is_length_based entry)) [
  | inl m ↦
      let groups : List ℕ = groups_from (get_ptr entry) 0 (get_length entry) in
      (
        each (lines_at (group_size * cl_expand_factor)) groups,
        rw (m, length_range_lem entry) refl,
        λ cl c.
            let (inside, addr, small) = covers_group entry cl m c in
            contains-each (lines_at (group_size * cl_expand_factor)) groups
              (cl / group_size * 2 ^ group_shift) (cl * cache_line_size)
              (subst (λ a. contains groups a ≡ true) addr
                (contains-groups_from (get_ptr entry) 0 (get_length entry)
                  (cl / group_size - get_index entry) inside))
              (length_lines_at (group_size * cl_expand_factor) (cl / group_size * 2 ^ group_shift)
                cl (omega arith) (omega arith) (omega arith) small),
      )
  | inr m ↦ let (ps, e, c) = mask_lines_lem entry valid.word m in (ps, rw (m, e) refl, c)
]

-- The slots from the `i`-th on: every valid table has them collected.
record Collected (n i : ℕ) (t : Table) (log lines : List ℕ) : Type 0 where
  ends : collect n i t ≡ some (log, lines)
  fits : length log ≤ n
  entries : (entry : ℕ) → contains log entry ≡ true → IsEntry entry
  logged : (j cl : ℕ) → i ≤ j → j < i + n → covers (t j) cl ≡ true → contains log (t j) ≡ true
  written :
      (j cl : ℕ)
      → i ≤ j
      → j < i + n
      → covers (t j) cl ≡ true
      → contains lines (cl * cache_line_size) ≡ true

skip_slot :
    (n i : ℕ) (t : Table) (log lines : List ℕ)
    → t i ≡ 0
    → Collected n (i + 1) t log lines
    → Collected (suc n) i t log lines
unfolding collect
skip_slot n i t log lines e rest = record {
  ends = rw (rest.ends, e) refl;
  fits = omega (arith, rest.fits);
  entries = rest.entries;
  logged = λ j cl a b c. rest.logged j cl (later j cl a c) (omega arith) c;
  written = λ j cl a b c. rest.written j cl (later j cl a c) (omega arith) c;
}
  where
    later : (j cl : ℕ) → i ≤ j → covers (t j) cl ≡ true → i + 1 ≤ j
    later j cl a c = elim (ℕ_discrete i j) [
      | yes same ↦ absurd (cc (subst (λ k. covers (t k) cl ≡ true) (sym same) c, e, covers-zero cl))
      | no n ↦ omega arith
    ]

take_slot :
    (n i : ℕ) (t : Table) (log lines ps : List ℕ)
    → (t i == 0) ≡ false
    → IsEntry (t i)
    → entry_lines (t i) ≡ some ps
    → ((cl : ℕ) → covers (t i) cl ≡ true → contains ps (cl * cache_line_size) ≡ true)
    → Collected n (i + 1) t log lines
    → Collected (suc n) i t (t i ∷ log) (ps ++ lines)
unfolding collect
take_slot n i t log lines ps e valid eq here rest = record {
  ends = rw (rest.ends, e, eq) refl;
  fits = omega (arith, rest.fits);
  entries = λ entry h. elim (ℕ_discrete (t i) entry) [
    | yes same ↦ subst IsEntry same valid
    | no n ↦ rest.entries entry (ground (arith, h))
  ];
  logged = λ j cl a b c. elim (ℕ_discrete i j) [
    | yes same ↦ rw same (ground arith)
    | no n ↦ ground (arith, rest.logged j cl (omega arith) (omega arith) c)
  ];
  written = λ j cl a b c.
      rw (contains-append ps lines (cl * cache_line_size)) (elim (ℕ_discrete i j) [
        | yes same ↦ rw (here cl (subst (λ k. covers (t k) cl ≡ true) (sym same) c)) refl
        | no n ↦ ground (arith, rest.written j cl (omega arith) (omega arith) c)
      ]);
}

collect_lem :
    (n i : ℕ) (t : Table)
    → IsValid t
    → (log : List ℕ) × (lines : List ℕ) × Collected n i t log lines
unfolding collect
collect_lem zero i t valid = (
  [],
  [],
  record {
    ends = refl;
    fits = omega arith;
    entries = λ entry h. absurd (cc h);
    logged = λ j cl a b c. absurd (omega arith);
    written = λ j cl a b c. absurd (omega arith);
  },
)
collect_lem (suc n) i t valid =
    let (log, lines, rest) = collect_lem n (i + 1) t valid in
    elim (Bool-cases (t i == 0)) [
      | inl e ↦ (log, lines, skip_slot n i t log lines ((==_iff (t i) 0).0 e) rest)
      | inr e ↦
          let (ps, eq, here) = entry_lines_lem (t i) (valid i) in
          (t i ∷ log, ps ++ lines, take_slot n i t log lines ps e (valid i) eq here rest)
    ]

write_all-append : (log entries : List ℕ) → write_all log entries ≡ log ++ entries
unfolding write_all
write_all-append log [] = sym (append-nil log)
write_all-append log (e ∷ entries) =
    write_all-append (log ++ e ∷ []) entries ∙ append_assoc log (e ∷ []) entries

-- The instructions write the line at an address back to memory.
abbrev pub writes_back : List Flush → ℕ → Bool
writes_back [] addr = false
writes_back (writeback a ∷ fs) addr = a == addr || writes_back fs addr
writes_back (invalidate a ∷ fs) addr = writes_back fs addr
writes_back (wbinvd ∷ fs) addr = writes_back fs addr

pub writes_back-map :
    (before : List Flush) (ps : List ℕ) (addr : ℕ)
    → contains ps addr ≡ true
    → writes_back (before ++ map writeback ps) addr ≡ true
writes_back-map [] [] addr h = h
writes_back-map [] (p ∷ ps) addr h = ground (arith, h, writes_back-map [] ps addr)
writes_back-map (writeback a ∷ before) ps addr h = ground (arith, writes_back-map before ps addr h)
writes_back-map (invalidate a ∷ before) ps addr h = writes_back-map before ps addr h
writes_back-map (wbinvd ∷ before) ps addr h = writes_back-map before ps addr h

pub writes_back-before :
    (before after : List Flush) (addr : ℕ)
    → writes_back before addr ≡ true
    → writes_back (before ++ after) addr ≡ true
writes_back-before [] after addr h = absurd (cc h)
writes_back-before (writeback a ∷ fs) after addr h =
    ground (arith, h, writes_back-before fs after addr)
writes_back-before (invalidate a ∷ fs) after addr h = writes_back-before fs after addr h
writes_back-before (wbinvd ∷ fs) after addr h = writes_back-before fs after addr h

-- What a thread leaves behind when it publishes its dirty lines in the log numbered `log`.
pub record Published (s : State) (is_release : Bool) (m : LogManager) (log clk : ℕ) (s' : State)
    : Type 0 where
  pub clock : clk ≡ next_idx m.tail
  pub entry :
      s'.mgr.entries (get_idx m.tail)
      ≡ record { log = log; idx = next_idx m.tail; is_rel = is_release }
  pub fits : length (s'.mgr.buf log) ≤ log_size
  pub cleared : s'.thread ≡ record (s.thread) { dirty_cls = clear_table s.thread.dirty_cls }
  pub sent :
      (cl : ℕ)
      → Covered s.thread.dirty_cls.table cl
      → writes_back s'.cache.flushes (cl * cache_line_size) ≡ true
  pub dropped :
      (fs : List Flush) × (process_log (s'.mgr.buf log) ≡ some fs)
      × ((cl : ℕ) → Covered s.thread.dirty_cls.table cl → drops fs (cl * cache_line_size) ≡ true)
  pub logged :
      (cl : ℕ)
      → Covered s.thread.dirty_cls.table cl
      → (e : ℕ) × (contains (s'.mgr.buf log) e ≡ true) × (covers e cl ≡ true)

module _ (is_release : Bool) (s : State) (log : ℕ) (m : LogManager) (new : m.buf log ≡ [])
    (entries lines : List ℕ) where
  written : LogManager
  written = record m { buf = update m.buf log (write_all (m.buf log) entries) }

  after : State
  unfolding written
  after = record s {
    mgr = (produce_tail written log is_release).1;
    cache = flush s.cache (map writeback lines);
    thread = record (s.thread) { dirty_cls = clear_table s.thread.dirty_cls };
  }

  content : after.mgr.buf log ≡ entries
  unfolding after written produce_tail claim_tail publish
  content =
      update_self m.buf log (write_all (m.buf log) entries)
      ∙ ap (λ l. write_all l entries) new
      ∙ write_all-append [] entries

  after-Published :
      Collected local_cl_table_size 0 s.thread.dirty_cls.table entries lines
      → Published s is_release m log (next_idx m.tail) after
  unfolding after written produce_tail claim_tail publish clear_table flush
  after-Published c =
      let (fs, e, drop) = process_log-drops entries c.entries in
      record {
        clock = refl;
        entry =
            update_self m.entries (get_idx m.tail)
              (record { log = log; idx = next_idx m.tail; is_rel = is_release });
        fits = omega (arith, c.fits, ap (λ l. length l) content);
        cleared = refl;
        sent = λ cl (j, inside, covered).
            writes_back-map s.cache.flushes lines (cl * cache_line_size)
              (c.written j cl (omega arith) (omega arith) covered);
        dropped = (
          fs,
          ap process_log content ∙ e,
          λ cl (j, inside, covered).
              drop (s.thread.dirty_cls.table j) cl
                (c.logged j cl (omega arith) (omega arith) covered) covered,
        );
        logged = λ cl (j, inside, covered). (
          s.thread.dirty_cls.table j,
          ap (λ l. contains l (s.thread.dirty_cls.table j)) content
              ∙ c.logged j cl (omega arith) (omega arith) covered,
          covered,
        );
      }

  runs :
      get_new_log s.mgr ≡ some (some log, m)
      → Collected local_cl_table_size 0 s.thread.dirty_cls.table entries lines
      → write_to_log is_release s ≡ some (next_idx m.tail, after)
  unfolding write_to_log after written produce_tail claim_tail
  runs got c = rw (write_to_log, got, c.ends) refl

-- ThreadOps::write_to_log, on a table of valid entries, with a log to be had. It comes to its end; the
-- log is published at the tail with the kind asked for, and its position plus one is the clock
-- returned; it has at most LOG_SIZE entries; the table is cleared; every line that the table covered
-- is written back; and `process_log` of the published log comes to its end and drops the copy of
-- every line that the table covered.
pub write_to_log_publishes :
    (is_release : Bool) (s : State) (log : ℕ) (m : LogManager)
    → IsValid s.thread.dirty_cls.table
    → get_new_log s.mgr ≡ some (some log, m)
    → (clk : ℕ) × (s' : State) × (write_to_log is_release s ≡ some (clk, s'))
      × Published s is_release m log clk s'
write_to_log_publishes is_release s log m valid got =
    let (entries, lines, c) = collect_lem local_cl_table_size 0 s.thread.dirty_cls.table valid in
    (
      next_idx m.tail,
      after is_release s log m (get_new_log-empty s.mgr m log got) entries lines,
      runs is_release s log m (get_new_log-empty s.mgr m log got) entries lines got c,
      after-Published is_release s log m (get_new_log-empty s.mgr m log got) entries lines c,
    )
