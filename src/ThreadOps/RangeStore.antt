-- ===== src/ThreadOps/RangeStore.antt =====
-- ThreadOps::log_range_store: what becomes of the lines of a range, and of those that were dirty.
use racoherence.Prelude.{
  ℕ, suc, ◌+◌, ◌/◌, ◌^◌, ◌≤◌, ◌<◌, ◌≡◌, refl, ap, ◌∙◌, sym, true, false, some, arith, Bool-cases,
  inl, inr, ltb,
}
use mathlib.Core.Path.{subst}
use racoherence.Config.{virtual_cl_shift}
use racoherence.ClGroup.{group_size, group_index_shift}
use racoherence.LocalClTable.{LocalClTable, RangeResult, empty_table, clear_table, range_insert}
use racoherence.LocalClTable.Covers.{Covered}
use racoherence.LocalClTable.Home.{IsValid, AtHome, empty-AtHome}
use racoherence.LocalClTable.Insert.{empty-IsValid}
use racoherence.LocalClTable.Groups.{Ranged}
use racoherence.LocalClTable.Range.{range_insert_lem}
use racoherence.LogManager.{LogManager, get_new_log}
use racoherence.ThreadOps.{State, write_to_log, range_loop, log_range_store}
use racoherence.ThreadOps.Publish.{Published, write_to_log_publishes}
use racoherence.ThreadOps.Store.{Kept}

-- The thread with the table that a pass leaves.
abbrev with_dirty : State → LocalClTable → State
with_dirty s t = record s { thread = record (s.thread) { dirty_cls = t } }

last_pass :
    (fuel begin end : ℕ) (s : State) (r : RangeResult)
    → range_insert fuel begin end s.thread.dirty_cls ≡ some r
    → r.full ≡ false
    → range_loop (suc fuel) begin end s ≡ some (with_dirty s r.dirty)
unfolding range_loop
last_pass fuel begin end s r runs fits = rw (range_loop, runs, fits) refl

next_pass :
    (fuel begin end clk : ℕ) (s s' : State) (r : RangeResult)
    → range_insert fuel begin end s.thread.dirty_cls ≡ some r
    → r.full ≡ true
    → write_to_log false (with_dirty s r.dirty) ≡ some (clk, s')
    → range_loop (suc fuel) begin end s ≡ range_loop fuel r.begin r.end s'
unfolding range_loop
next_pass fuel begin end clk s s' r runs full w = rw (range_loop, runs, full, w) refl

-- What a store of the lines from `begin` up to `end` does: no line that was dirty is lost, nor any of
-- the range in the groups before that of `end`.
pub record RangeStored (s : State) (begin end : ℕ) (s' : State) : Type 0 where
  pub valid : IsValid s'.thread.dirty_cls.table
  pub kept : (cl : ℕ) → Covered s.thread.dirty_cls.table cl → Kept s' cl
  pub added : (cl : ℕ) → begin ≤ cl → cl / group_size < end / group_size → Kept s' cl
  pub recent : s'.thread.recent_cl ≡ s.thread.recent_cl
  pub node : s'.thread.node_id ≡ s.thread.node_id
  pub clock : s'.thread.thread_clock ≡ s.thread.thread_clock

-- The first pass filled the table, which was published; the second one starts with a cleared table.
module _ (fuel begin end : ℕ) (s : State) (m : LogManager) (log clk : ℕ) (s' : State)
    (r : RangeResult) (ranged : Ranged s.thread.dirty_cls.table begin end r)
    (p : Published (with_dirty s r.dirty) false m log clk s') where
  cleared : s'.thread.dirty_cls.table ≡ empty_table
  unfolding clear_table
  cleared = ap (λ t. t.dirty_cls.table) p.cleared

  second_pass :
      r.full ≡ true
      → end / group_size < begin / group_size + 4
      → end / group_size < 2 ^ group_index_shift
      → (s'' : State) × (range_loop (suc fuel) r.begin r.end s' ≡ some s'')
        × RangeStored s begin end s''
  second_pass full few small =
      let valid : IsValid s'.thread.dirty_cls.table = subst IsValid (sym cleared) empty-IsValid in
      let from : begin / group_size ≤ r.begin / group_size = omega (arith, ranged.from) in
      let upto : r.begin / group_size ≤ r.end / group_size = omega (arith, ranged.order) in
      let (r', runs, again) =
        range_insert_lem fuel r.begin r.end s'.thread.dirty_cls valid ranged.order
          (omega (arith, ranged.same_end)) (omega (arith, ranged.same_end)) in
      let fits =
        again.fits (r.begin / group_size) (r.end / group_size)
          (subst (λ t. AtHome t (r.begin / group_size) (r.end / group_size)) (sym cleared)
            (empty-AtHome (r.begin / group_size) (r.end / group_size)
              (omega (arith, ranged.same_end))))
          (omega arith) (omega arith) in
      (
        with_dirty s' r'.dirty,
        last_pass fuel r.begin r.end s' r' runs fits,
        record {
          valid = again.valid;
          kept = λ cl c. inr (p.sent cl (ranged.kept cl c));
          added = λ cl a b. elim (Bool-cases (ltb cl r.begin)) [
            | inl e ↦ inr (p.sent cl (ranged.added cl a b (λ h. ground (arith, e))))
            | inr e ↦ inl (
                again.added cl (ground (arith, e)) (omega (arith, ranged.same_end))
                  (λ h. cc (h, fits)))
          ];
          recent = ap (λ t. t.recent_cl) p.cleared;
          node = ap (λ t. t.node_id) p.cleared;
          clock = ap (λ t. t.thread_clock) p.cleared;
        },
      )

range_loop_lem :
    (fuel begin end : ℕ) (s : State) (log : ℕ) (m : LogManager)
    → IsValid s.thread.dirty_cls.table
    → begin ≤ end
    → end / group_size < begin / group_size + 4
    → end / group_size < 2 ^ group_index_shift
    → get_new_log s.mgr ≡ some (some log, m)
    → (s' : State) × (range_loop (suc (suc fuel)) begin end s ≡ some s')
      × RangeStored s begin end s'
range_loop_lem fuel begin end s log m valid order few small got =
    let (r, runs, ranged) =
      range_insert_lem (suc fuel) begin end s.thread.dirty_cls valid order few small in
    elim (Bool-cases (r.full)) [
      | inl full ↦
          let (clk, s', w, p) =
            write_to_log_publishes false (with_dirty s r.dirty) log m ranged.valid got in
          let (s'', rest, stored) =
            second_pass fuel begin end s m log clk s' r ranged p full few small in
          (s'', next_pass (suc fuel) begin end clk s s' r runs full w ∙ rest, stored)
      | inr fits ↦ (
        with_dirty s r.dirty,
        last_pass (suc fuel) begin end s r runs fits,
        record {
          valid = ranged.valid;
          kept = λ cl c. inl (ranged.kept cl c);
          added = λ cl a b. inl (ranged.added cl a b (λ h. cc (h, fits)));
          recent = refl;
          node = refl;
          clock = refl;
        },
      )
    ]

-- ThreadOps::log_range_store on a valid table, from the address `begin` up to `end` of 48 bits, in at
-- most the third group after that of `begin`, while a log is to be had. It comes to its end in at most two
-- passes, with a valid table. Every line that was dirty, and every line of the range in the groups
-- before that of `end`, is dirty, or is written back.
pub log_range_store_lem :
    (fuel begin end : ℕ) (s : State) (log : ℕ) (m : LogManager)
    → let first = begin / 2 ^ virtual_cl_shift in
      let past = end / 2 ^ virtual_cl_shift in
      IsValid s.thread.dirty_cls.table
      → begin ≤ end
      → end < 2 ^ 48
      → past / group_size < first / group_size + 4
      → get_new_log s.mgr ≡ some (some log, m)
      → (s' : State) × (log_range_store (suc (suc fuel)) begin end s ≡ some s')
        × RangeStored (record s { thread = record (s.thread) { recent_cl = past } }) first past s'
unfolding log_range_store
log_range_store_lem fuel begin end s log m valid order word few got =
    let past = end / 2 ^ virtual_cl_shift in
    range_loop_lem fuel (begin / 2 ^ virtual_cl_shift) past
      (record s { thread = record (s.thread) { recent_cl = past } }) log m valid (omega arith) few
      (omega arith) got
