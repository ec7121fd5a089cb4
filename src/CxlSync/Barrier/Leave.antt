-- ===== src/CxlSync/Barrier/Leave.antt =====
-- The steps after the test of `local_arrived`, inside the round, keep the invariant of a CXLBarrier.
use racoherence.Prelude.{ℕ, ◌+◌, ◌<◌, ◌≡◌, ◌≢◌, inl, refl, arith, update, sum-update}
use racoherence.CxlSync.{as_char}
use racoherence.CxlSync.Barrier.{Barrier, outside, counted, last, reset, waiting, Thread}
use racoherence.CxlSync.Barrier.Invariant.{Inv, keep, in_round}

module _ {n r c : ℕ} {b : Barrier} {threads : ℕ → Thread} (inv : Inv n r c b threads) (u : ℕ)
    (lt : u < n) where
  pub some_missing-Inv :
      (p a : ℕ)
      → (threads u).pc ≡ counted p a
      → a ≢ b.target
      → Inv n r c b (update threads u (record (threads u) { pc = waiting p }))
  some_missing-Inv p a at test = record {
    few = inv.few;
    some_thread = inv.some_thread;
    target = inv.target;
    phase = inv.phase;
    count = ground (
      arith,
      inv.count,
      inv.counts u p a lt at,
      inv.target,
      sum-update (in_round r) threads u (record (threads u) { pc = waiting p }) n lt,
    );
    at_most = ground (arith, inv.at_most, inv.counts u p a lt at, inv.target);
    arrived = ground (arith, inv.arrived, inv.few, inv.counts u p a lt at, inv.target);
    cleared = λ v l h.
        ground (arith, inv.cleared v l, inv.finishes v l, inv.counts u p a lt at, inv.target);
    out = λ v l h. ground (arith, inv.out v l, inv.counts u p a lt at, inv.target);
    load = λ v p' l h.
        ground (arith, inv.load v p' l, inv.phase, inv.at_most, inv.counts u p a lt at, inv.target);
    counts = λ v p' a' l h.
        ground (arith, inv.counts v p' a' l, inv.few, inv.counts u p a lt at, inv.target);
    finishes = λ v l h. ground (arith, inv.finishes v l, inv.counts u p a lt at, inv.target);
    waits = λ v p' l h. ground (arith, inv.waits v p' l, inv.counts u p a lt at, inv.target);
    unique = λ v w a' l m rv rm sv sm.
        ground (arith, inv.unique v w a' l m, inv.counts u p a lt at, inv.target);
    closes = λ full.
        keep n r threads u (record (threads u) { pc = waiting p })
          (λ s e. ground (arith, at, s, test, inv.target)) (inv.closes full);
  }

  pub reset_arrived-Inv :
      (threads u).pc ≡ last
      → Inv n r c (record b { arrived = 0 }) (update threads u (record (threads u) { pc = reset }))
  reset_arrived-Inv at = record {
    few = inv.few;
    some_thread = inv.some_thread;
    target = inv.target;
    phase = inv.phase;
    count = ground (
      arith,
      inv.count,
      inv.finishes u lt (inl at),
      sum-update (in_round r) threads u (record (threads u) { pc = reset }) n lt,
    );
    at_most = ground (arith, inv.at_most, inv.finishes u lt (inl at));
    arrived = ground (arith, inv.arrived, inv.few, inv.finishes u lt (inl at));
    cleared =
        λ v l h. ground (arith, inv.cleared v l, inv.finishes v l, inv.finishes u lt (inl at));
    out = λ v l h. ground (arith, inv.out v l, inv.finishes u lt (inl at));
    load = λ v p' l h.
        ground (arith, inv.load v p' l, inv.phase, inv.at_most, inv.finishes u lt (inl at));
    counts =
        λ v p' a' l h. ground (arith, inv.counts v p' a' l, inv.few, inv.finishes u lt (inl at));
    finishes = λ v l h. ground (arith, inv.finishes v l, inv.finishes u lt (inl at));
    waits = λ v p' l h. ground (arith, inv.waits v p' l, inv.finishes u lt (inl at));
    unique = λ v w a' l m rv rm sv sm. ground (
      arith,
      inv.unique v w a' l m,
      inv.finishes u lt (inl at),
      inv.unique v u a' l lt,
      inv.unique u w a' lt m,
    );
    closes = λ full.
        keep n r threads u (record (threads u) { pc = reset }) (λ s e. (refl, e)) (inv.closes full);
  }

  pub see_phase-Inv :
      (p : ℕ)
      → (threads u).pc ≡ waiting p
      → as_char b.phase ≢ p
      → Inv n r c b (
          update threads u (record (threads u) { pc = outside; returns = (threads u).returns + 1 }))
  see_phase-Inv p at test = record {
    few = inv.few;
    some_thread = inv.some_thread;
    target = inv.target;
    phase = inv.phase;
    count = ground (
      arith,
      inv.count,
      inv.waits u p lt at,
      inv.phase,
      sum-update (in_round r) threads u
          (record (threads u) { pc = outside; returns = (threads u).returns + 1 }) n lt,
    );
    at_most = ground (arith, inv.at_most, inv.waits u p lt at, inv.phase);
    arrived = ground (arith, inv.arrived, inv.few, inv.waits u p lt at, inv.phase);
    cleared =
        λ v l h. ground (arith, inv.cleared v l, inv.finishes v l, inv.waits u p lt at, inv.phase);
    out = λ v l h. ground (arith, inv.out v l, inv.waits u p lt at, inv.phase);
    load = λ v p' l h.
        ground (arith, inv.load v p' l, inv.phase, inv.at_most, inv.waits u p lt at, inv.phase);
    counts = λ v p' a' l h.
        ground (arith, inv.counts v p' a' l, inv.few, inv.waits u p lt at, inv.phase);
    finishes = λ v l h. ground (arith, inv.finishes v l, inv.waits u p lt at, inv.phase);
    waits = λ v p' l h. ground (arith, inv.waits v p' l, inv.waits u p lt at, inv.phase);
    unique = λ v w a' l m rv rm sv sm.
        ground (arith, inv.unique v w a' l m, inv.waits u p lt at, inv.phase);
    closes = λ full.
        keep n r threads u (record (threads u) { pc = outside; returns = (threads u).returns + 1 })
          (λ s e. ground (arith, at, s)) (inv.closes full);
  }
