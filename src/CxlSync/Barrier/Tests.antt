-- ===== src/CxlSync/Barrier/Tests.antt =====
-- Two threads at a CXLBarrier.
use racoherence.Prelude.{ℕ, zero, suc, ◌+◌, ◌≤◌, ◌<◌, ◌≢◌, refl, arith}
use racoherence.CxlSync.Barrier.{
  System, Reach, start, later, pick, load_phase, add_arrived, all_arrived, reset_arrived,
  next_phase, outside,
}
use racoherence.CxlSync.Barrier.Progress.{CanMove, barrier_goes_on}
use racoherence.CxlSync.Barrier.Rounds.{no_early_return}

-- Thread 1 arrives last, and returns before thread 0.
record Passed : Type 0 where
  state : System
  reached : Reach 2 state

abbrev pass : Passed
pass = record {
  state = _;
  reached =
      later
        (later
          (later
            (later
              (later
                (later (later start (pick 0 (omega arith) (load_phase refl)))
                  (pick 0 (omega arith) (add_arrived refl)))
                (pick 1 (omega arith) (load_phase refl)))
              (pick 1 (omega arith) (add_arrived refl)))
            (pick 1 (omega arith) (all_arrived refl refl)))
          (pick 1 (omega arith) (reset_arrived refl)))
        (pick 1 (omega arith) (next_phase refl));
}

no_early_return_example :
    ((pass.state.threads 1).returns ≤ (pass.state.threads 0).arrivals)
    × ((pass.state.threads 1).arrivals ≤ (pass.state.threads 0).arrivals + 1)
no_early_return_example =
    no_early_return (omega arith) (omega arith) pass.reached 1 0 (omega arith) (omega arith)

-- Thread 0 has arrived, and thread 1 is about to.
abbrev meeting : Passed
meeting = record {
  state = _;
  reached =
      later
        (later (later start (pick 0 (omega arith) (load_phase refl)))
          (pick 0 (omega arith) (add_arrived refl)))
        (pick 1 (omega arith) (load_phase refl));
}

both_in : (u : ℕ) → u < 2 → (meeting.state.threads u).pc ≢ outside
both_in zero h e = cc e
both_in (suc zero) h e = cc e
both_in (suc (suc u)) h e = absurd (omega arith)

barrier_goes_on_example :
    (v : ℕ) × (v < 2) × CanMove meeting.state.barrier (meeting.state.threads v)
barrier_goes_on_example = barrier_goes_on (omega arith) (omega arith) meeting.reached both_in
