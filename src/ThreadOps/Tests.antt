-- ===== src/ThreadOps/Tests.antt =====
-- A thread of node 0 that stores to lines 16 and 17, and a thread of node 1 that acquires its release.
use racoherence.Prelude.{
  ℕ, zero, suc, ◌+◌, ◌*◌, ◌^◌, ◌/◌, ◌%◌, ◌<◌, ◌≡◌, ◌≢◌, refl, ap, ◌∙◌, true, false, some, List, [],
  ◌∷◌, ◌⊎◌, arith, replicate, contains, ℕ_discrete, sym, ==_iff,
}
use mathlib.Core.Path.{subst}
use racoherence.Config.{cache_line_size, virtual_cl_shift, node_count, log_max_batch}
use racoherence.VectorClock.{VectorClock, entry, zero_clock, merge}
use racoherence.ClGroup.{is_length_based, get_length}
use racoherence.LocalClTable.{insert, empty_table}
use racoherence.LocalClTable.Covers.{Covered, covers, IsEntry}
use racoherence.LogManager.{LogManager}
use racoherence.LogManager.Tests.{
  first, taken, got, announced, announced_entry, announced_head, announced_log, announced_others,
}
use racoherence.CacheInfo.{CacheInfo, Flush, process_log}
use racoherence.CacheInfo.Process.{drops, process_log-drops}
use racoherence.ThreadOps.{State, write_to_log, log_store, thread_release}
use racoherence.CxlSync.{World}
use racoherence.ThreadOps.Publish.{Published, write_to_log_publishes}
use racoherence.ThreadOps.Store.{IsConsistent, Stored, log_store_lem, into_empty}
use racoherence.ThreadOps.Release.{Released, thread_release_lem}
use racoherence.ThreadOps.Consume.{Consumer, thread_acquire, wait_for_consume, agent_round}
use racoherence.ThreadOps.Consume.Progress.{at, head_of}
use racoherence.ThreadOps.Consume.CatchUp.{Reaches}
use racoherence.ThreadOps.Consume.Acquire.{Pending, thread_acquire_lem}
use racoherence.ThreadOps.Consume.Agent.{Orderly, agent_round_lem}
use racoherence.ThreadOps.Consume.Advance.{Advanced}

abbrev pub idle_cache : CacheInfo
idle_cache = record { clock = λ i. 0; flushes = [] }

-- Line 16 is dirty.
abbrev pub dirty_state : State
dirty_state = record {
  thread = record {
    node_id = 0;
    thread_id = 0;
    thread_clock = replicate 8 0;
    dirty_cls = record {
      table = (insert empty_table 16).1;
      length_entry_count = 0;
      buffer = record { cl_addr = 0; len = 0 };
    };
    recent_cl = 16;
  };
  mgr = first.mgr;
  cache = idle_cache;
}

pub dirty-IsConsistent : IsConsistent dirty_state.thread
dirty-IsConsistent =
    let (valid, here) = into_empty 16 (omega arith) in
    record { valid = valid; cached = λ h. here; clean = λ h. absurd (omega arith) }

write_to_log_publishes_example :
    (clk : ℕ) × (s' : State) × (write_to_log true dirty_state ≡ some (clk, s'))
    × Published dirty_state true taken 0 clk s'
write_to_log_publishes_example =
    write_to_log_publishes true dirty_state 0 taken (into_empty 16 (omega arith)).0 got

log_store_lem_example :
    (s' : State) × (log_store 1088 dirty_state ≡ some s')
    × Stored dirty_state (1088 / 2 ^ virtual_cl_shift) s'
log_store_lem_example =
    log_store_lem 1088 dirty_state 0 taken dirty-IsConsistent (omega arith) (omega arith) got

thread_release_lem_example :
    ((dirty_state.thread.recent_cl ≡ 0)
      × (thread_release dirty_state ≡ some (false, dirty_state))
      × ((cl : ℕ) → ¬ (Covered dirty_state.thread.dirty_cls.table cl)))
    ⊎ ((dirty_state.thread.recent_cl ≢ 0)
        × (s' : State) × (thread_release dirty_state ≡ some (true, s'))
        × Released dirty_state taken 0 s')
thread_release_lem_example =
    thread_release_lem dirty_state 0 taken dirty-IsConsistent (omega arith) got

-- Three groups from group 7 on.
abbrev three_groups : ℕ
three_groups = 2 ^ 63 + 3 * 2 ^ 38 + 7

three_groups_long : 0 < get_length three_groups
unfolding get_length
three_groups_long = omega arith

one_line_mask : is_length_based (2 ^ 38 + 1) ≡ false
unfolding is_length_based
one_line_mask = refl

one_line-IsEntry : IsEntry (2 ^ 38 + 1)
one_line-IsEntry = record { word = omega arith; some_length = λ t. absurd (cc (t, one_line_mask)) }

word-IsEntry :
    (entry : ℕ) → contains (three_groups ∷ (2 ^ 38 + 1) ∷ []) entry ≡ true → IsEntry entry
word-IsEntry entry h = elim (ℕ_discrete three_groups entry) [
  | yes e ↦ subst IsEntry e long
  | no n ↦ subst IsEntry ((==_iff (2 ^ 38 + 1) entry).0 (ground (arith, h))) one_line-IsEntry
]
  where
    long : IsEntry three_groups
    long = record { word = omega arith; some_length = λ t. three_groups_long }

process_log-drops_example :
    (fs : List Flush) × (process_log (three_groups ∷ (2 ^ 38 + 1) ∷ []) ≡ some fs)
    × ((entry cl : ℕ)
        → contains (three_groups ∷ (2 ^ 38 + 1) ∷ []) entry ≡ true
        → covers entry cl ≡ true
        → drops fs (cl * cache_line_size) ≡ true)
process_log-drops_example = process_log-drops (three_groups ∷ (2 ^ 38 + 1) ∷ []) word-IsEntry

-- Node 1, which has read nothing yet; node 0 has published a release.
abbrev pub reader : Consumer
reader = record { mgrs = λ i. announced.mgr; cache = idle_cache }

abbrev pub target : VectorClock
target = 1 ∷ replicate 7 0

pub one_release :
    (m : LogManager)
    → head_of m 1 ≡ 0
    → m.entries 0 ≡ record { log = 0; idx = 1; is_rel = true }
    → m.buf 0 ≡ (2 ^ 38 + 1) ∷ []
    → Reaches m (head_of m 1) 0 1
one_release m h e l = record {
  readable = record {
    in_range = omega (arith, h);
    published = λ p a b.
        let z : 0 ≡ p = omega (arith, h) in subst (λ q. (at m q).idx ≡ q + 1) z (ap (λ x. x.idx) e);
    valid = λ p w a b inside.
        let z : p ≡ 0 = omega (arith, h) in
        let there : contains (m.buf (m.entries 0).log) w ≡ true =
          subst (λ q. contains (m.buf (at m q).log) w ≡ true) z inside in
        let only : contains ((2 ^ 38 + 1) ∷ []) w ≡ true =
          ap (λ b. contains b w) (sym l) ∙ ap (λ x. contains (m.buf x.log) w) (sym e) ∙ there in
        subst IsEntry ((==_iff (2 ^ 38 + 1) w).0 (ground (arith, only))) one_line-IsEntry;
  };
  release = subst (λ q. (at m (q + 0)).is_rel ≡ true) (sym h) (ap (λ x. x.is_rel) e);
  enough = omega (arith, h);
}

reader-Reaches : Reaches announced.mgr (head_of announced.mgr 1) 0 1
reader-Reaches = one_release announced.mgr announced_head announced_entry announced_log

pub zeros : (n i : ℕ) → entry (replicate n 0) i ≡ 0
zeros zero i = refl
zeros (suc n) zero = refl
zeros (suc n) (suc i) = zeros n i

pub reader-Pending : (i : ℕ) → i < node_count → Pending 1 2 target i announced.mgr 0
reader-Pending zero h n s b = (0, omega arith, reader-Reaches)
reader-Pending (suc i) h n s b = absurd (omega (arith, zeros 7 i))

thread_acquire_lem_example :
    (c' : Consumer) × (thread_acquire 1 2 target zero_clock reader
      ≡ some (merge zero_clock target, c'))
    × (wait_for_consume 1 target c' ≡ true)
    × Advanced 1 reader c'
thread_acquire_lem_example = thread_acquire_lem 1 2 target zero_clock reader reader-Pending

-- A thread of node 1 that takes a lock with that clock.
abbrev pub locker : World
locker = record {
  thread = record {
    node_id = 1;
    thread_id = 0;
    thread_clock = replicate 8 0;
    dirty_cls = record {
      table = empty_table;
      length_entry_count = 0;
      buffer = record { cl_addr = 0; len = 0 };
    };
    recent_cl = 0;
  };
  mgrs = λ i. announced.mgr;
  cache = idle_cache;
}

-- The agent of node 1, in the same state.
reader-Orderly : (i : ℕ) → i < node_count → Orderly 1 log_max_batch announced.mgr
reader-Orderly i h = record {
  in_range = omega (arith, announced_head);
  valid = λ p w a b e inside. elim (ℕ_discrete p 0) [
    | yes z ↦
        reader-Reaches.readable.valid p w (omega (arith, announced_head, z))
          (omega (arith, announced_head, z)) inside
    | no d ↦ elim (ℕ_discrete (p % 64) 0) [
      | yes same ↦ absurd (
          omega (
            arith,
            d,
            e,
            ap (λ q. (announced.mgr.entries q).idx) same,
            ap (λ x. x.idx) announced_entry,
          ))
      | no other ↦ absurd (omega (arith, announced_others p other, e))
    ]
  ];
}

agent_round_lem_example :
    (idle : ℕ) × (c' : Consumer) × (agent_round 1 node_count 0 0 reader ≡ some (idle, c'))
    × Advanced 1 reader c'
agent_round_lem_example = agent_round_lem 1 0 reader reader-Orderly
