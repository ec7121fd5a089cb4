-- ===== src/CxlSync/Barrier/Rounds.antt =====
-- The rounds of a CXLBarrier.
use racoherence.Prelude.{ℕ, ◌+◌, ◌≤◌, ◌<◌, refl, arith, update, sum-eq-zero}
use racoherence.CxlSync.Barrier.{
  Barrier, Thread, Move, load_phase, add_arrived, all_arrived, some_missing, reset_arrived,
  next_phase, see_phase, System, pick, new_thread, Reach, start, later,
}
use racoherence.CxlSync.Barrier.Invariant.{Inv, in_round}
use racoherence.CxlSync.Barrier.Arrive.{load_phase-Inv, add_arrived-Inv, all_arrived-Inv}
use racoherence.CxlSync.Barrier.Leave.{some_missing-Inv, reset_arrived-Inv, see_phase-Inv}
use racoherence.CxlSync.Barrier.NextRound.{near, returns_le, next_phase-Inv}

-- The state is that of some round.
pub record Sound (n : ℕ) (s : System) : Type 0 where
  pub round : ℕ
  pub present : ℕ
  pub inv : Inv n round present s.barrier s.threads

Move-Sound :
    {n : ℕ} {s : System} (u : ℕ) {b : Barrier} {t : Thread}
    → Sound n s
    → u < n
    → Move s.barrier (s.threads u) b t
    → Sound n (record { barrier = b; threads = update s.threads u t })
Move-Sound u ok lt (load_phase at) = record {
  round = _;
  present = _;
  inv = load_phase-Inv ok.inv u lt at;
}
Move-Sound u ok lt (add_arrived {p} at) = record {
  round = _;
  present = _;
  inv = add_arrived-Inv ok.inv u lt p at;
}
Move-Sound u ok lt (all_arrived {p} {a} at e) = record {
  round = _;
  present = _;
  inv = all_arrived-Inv ok.inv u lt p a at e;
}
Move-Sound u ok lt (some_missing {p} {a} at e) = record {
  round = _;
  present = _;
  inv = some_missing-Inv ok.inv u lt p a at e;
}
Move-Sound u ok lt (reset_arrived at) = record {
  round = _;
  present = _;
  inv = reset_arrived-Inv ok.inv u lt at;
}
Move-Sound u ok lt (next_phase at) = record {
  round = _;
  present = _;
  inv = next_phase-Inv ok.inv u lt at;
}
Move-Sound u ok lt (see_phase {p} at e) = record {
  round = _;
  present = _;
  inv = see_phase-Inv ok.inv u lt p at e;
}

pub Reach-Sound : {n : ℕ} {s : System} → 0 < n → n ≤ 128 → Reach n s → Sound n s
Reach-Sound {n} some_one few start = record {
  round = 0;
  present = 0;
  inv = record {
    few = few;
    some_thread = some_one;
    target = refl;
    phase = refl;
    count = sum-eq-zero (in_round 0) (λ v. new_thread) n (λ i l. refl);
    at_most = omega arith;
    arrived = λ h. refl;
    cleared = λ v l h. refl;
    out = λ v l h. (refl, refl);
    load = λ v p l h. cc;
    counts = λ v p a l h. cc;
    finishes = λ v l h. ground arith;
    waits = λ v p l h. cc;
    unique = λ v w a l m rv rm sv sm. cc;
    closes = λ full. absurd (omega (arith, some_one, full));
  };
}
Reach-Sound some_one few (later r (pick u lt mv)) =
    let ok = Reach-Sound some_one few r in Move-Sound u ok (omega (arith, ok.inv.target, lt)) mv

-- A CXLBarrier of at most 128 threads, in any interleaving of the calls on its three atomics: a thread
-- has returned from `wait` at most as often as each thread has arrived at it, and each thread has
-- arrived at most once more often than any other one. So no thread passes the barrier in a round in
-- which another one has not arrived.
pub no_early_return :
    {n : ℕ} {s : System}
    → 0 < n
    → n ≤ 128
    → Reach n s
    → (u v : ℕ) → u < n
    → v < n
    → ((s.threads u).returns ≤ (s.threads v).arrivals)
      × ((s.threads u).arrivals ≤ (s.threads v).arrivals + 1)
no_early_return some_one few r u v lu lv =
    let ok = Reach-Sound some_one few r in
    omega (arith, returns_le ok.inv u lu u lu, near ok.inv u lu u lu, near ok.inv u lu v lv)
