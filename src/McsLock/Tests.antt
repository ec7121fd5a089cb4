-- ===== src/McsLock/Tests.antt =====
-- Two calls of `lock` on an MCSLock, and what the theorems say of them.
use racoherence.Prelude.{ℕ, ◌*◌, ◌≤◌, ◌≡◌, ◌≢◌, ◌⊎◌, refl, List, [], ◌∷◌, ◌++◌, arith}
use racoherence.McsLock.{
  idle, link, critical, call_lock, clear_next, mark_locked, exchange_free, exchange_taken,
  set_owner, store_link,
}
use racoherence.McsLock.System.{System, Step, pick, Reach, start, later}
use racoherence.McsLock.Correct.{mutual_exclusion, first_come}
use racoherence.McsLock.Shared
use racoherence.McsLock.Shared.{SharedLock, writing, shared}
use racoherence.McsLock.Shared.Exclusion.{writer_alone}
use racoherence.McsLock.Progress.{Run, nothing, onward, Continues, calls_end}

-- Node 0 has the lock, and node 1 is behind it.
record Two : Type 0 where
  state : System
  reached : Reach state
  first : state.pc 0 ≡ critical
  second : state.pc 1 ≡ link 0

record One : Type 0 where
  state : System
  reached : Reach state
  first : state.pc 0 ≡ critical

abbrev lock_free : One
lock_free = record {
  state = _;
  reached =
      later
        (later
          (later (later (later start (pick 0 call_lock)) (pick 0 clear_next)) (pick 0 mark_locked))
          (pick 0 (exchange_free refl)))
        (pick 0 set_owner);
  first = refl;
}

abbrev lock_twice : Two
lock_twice = record {
  state = _;
  reached =
      later
        (later (later (later lock_free.reached (pick 1 call_lock)) (pick 1 clear_next))
          (pick 1 mark_locked))
        (pick 1 (exchange_taken refl));
  first = refl;
  second = refl;
}

both_arrived : lock_twice.state.arrivals ≡ 1 ∷ 0 ∷ []
both_arrived = refl

abbrev holder : ℕ
holder = 0

mutual_exclusion_example : holder ≡ 0
mutual_exclusion_example = mutual_exclusion lock_twice.reached 0 0 refl refl

first_come_example :
    (waiting : List ℕ) × (lock_twice.state.arrivals ≡ waiting ++ lock_twice.state.entries)
first_come_example = first_come lock_twice.reached

-- Node 1 links itself.
record Linked : Type 0 where
  state : System
  run : Run lock_twice.state 1 state

abbrev link_second : Linked
link_second = record { state = _; run = onward nothing (pick 1 store_link) (λ x. cc) }

calls_end_example :
    (1 ≤ 11 * 2)
    × ((u : ℕ)
        → link_second.state.pc u ≢ idle
        → (t' : System) × (st : Step link_second.state t') × Continues st)
calls_end_example = calls_end {n = 2} lock_twice.reached (λ u h. ground arith) link_second.run

-- Node 0 has the MCSSharedLock for writing.
record Writer : Type 0 where
  state : SharedLock
  reached : Shared.Reach 1 state
  writes : state.mode 0 ≡ writing

abbrev lock_to_write : Writer
lock_to_write = record {
  state = _;
  reached =
      Shared.later
        (Shared.later
          (Shared.later
            (Shared.later
              (Shared.later (Shared.later Shared.start (Shared.lock 0 (omega arith) refl refl))
                (Shared.inner 0 clear_next (λ x. cc) (λ x. cc)))
              (Shared.inner 0 mark_locked (λ x. cc) (λ x. cc)))
            (Shared.inner 0 (exchange_free refl) (λ x. cc) (λ x. cc)))
          (Shared.inner 0 set_owner (λ x. cc) (λ x. cc)))
        (Shared.no_readers 0 refl refl refl);
  writes = refl;
}

writer_alone_example :
    (1 ≡ holder) ⊎ ((lock_to_write.state.mode 1 ≢ shared) × (lock_to_write.state.mode 1 ≢ writing))
writer_alone_example = writer_alone lock_to_write.reached 0 refl 1
