-- ===== src/CxlSync/Barrier/NextRound.antt =====
-- The step of a CXLBarrier to its next round.
use racoherence.Prelude.{
  ℕ, ◌+◌, ◌%◌, ◌≤◌, ◌<◌, ◌≡◌, inl, inr, refl, arith, update, sum_room, sum-eq-zero,
}
use racoherence.Config.{u32_mod}
use racoherence.CxlSync.Barrier.{
  Barrier, Pc, outside, loaded, counted, last, reset, waiting, Thread,
}
use racoherence.CxlSync.Barrier.Invariant.{Inv, in_round, in_round_le, slot_le}

module _ {n r c : ℕ} {b : Barrier} {threads : ℕ → Thread} (inv : Inv n r c b threads) (u : ℕ)
    (lt : u < n) where
  -- Once all have arrived, each has arrived in this round.
  all_in : c ≡ n → (v : ℕ) → v < n → r < (threads v).arrivals
  all_in full v l = ground (arith, inv.count, sum_room (in_round r) (in_round_le r) threads v n l)

  pub near : (v : ℕ) → v < n → (r ≤ (threads v).arrivals) × ((threads v).arrivals ≤ r + 1)
  near v l = at_place (threads v).pc refl
    where
      at_place :
          (q : Pc)
          → (threads v).pc ≡ q
          → (r ≤ (threads v).arrivals) × ((threads v).arrivals ≤ r + 1)
      at_place outside at = ground (arith, inv.out v l at)
      at_place (loaded p) at = ground (arith, inv.load v p l at)
      at_place (counted p a) at = ground (arith, inv.counts v p a l at)
      at_place last at = ground (arith, inv.finishes v l (inl at))
      at_place reset at = ground (arith, inv.finishes v l (inr at))
      at_place (waiting p) at = ground (arith, inv.waits v p l at)

  pub returns_le : (v : ℕ) → v < n → (threads v).returns ≤ r
  returns_le v l = at_place (threads v).pc refl
    where
      at_place : (q : Pc) → (threads v).pc ≡ q → (threads v).returns ≤ r
      at_place outside at = ground (arith, inv.out v l at)
      at_place (loaded p) at = ground (arith, inv.load v p l at)
      at_place (counted p a) at = ground (arith, inv.counts v p a l at)
      at_place last at = ground (arith, inv.finishes v l (inl at))
      at_place reset at = ground (arith, inv.finishes v l (inr at))
      at_place (waiting p) at = ground (arith, inv.waits v p l at)

  -- What the thread leaves at the start of the next round.
  abbrev pub left : Thread
  left = record (threads u) { pc = outside; returns = (threads u).returns + 1 }

  pub next_phase-Inv :
      (threads u).pc ≡ reset
      → Inv n (r + 1) 0 (record b { phase = (b.phase + 1) % u32_mod }) (update threads u left)
  next_phase-Inv at =
      let done = inv.finishes u lt (inr at) in
      let full : c ≡ n = ground (arith, done) in
      record {
        few = inv.few;
        some_thread = inv.some_thread;
        target = inv.target;
        phase = ground (arith, inv.phase);
        count =
            sum-eq-zero (in_round (r + 1)) (update threads u left) n
              (λ v l. ground (arith, near v l, done));
        at_most = omega arith;
        arrived = λ h. ground (arith, inv.cleared u lt at);
        cleared = λ v l h. ground (arith, inv.cleared u lt at);
        out = λ v l h. ground (arith, inv.out v l, all_in full v l, done);
        load = λ v p' l h. ground (arith, inv.load v p' l, all_in full v l);
        counts = λ v p' a' l h.
            ground (arith, inv.counts v p' a' l, all_in full v l, inv.unique u v n lt l, done);
        finishes = λ v l h. ground (arith, inv.finishes v l, inv.unique u v n lt l, done);
        waits = λ v p' l h. ground (arith, inv.waits v p' l, all_in full v l);
        unique = λ v w a' l m rv rm sv sm. ground (
          arith,
          slot_le inv u lt v l a',
          slot_le inv u lt w m a',
          returns_le v l,
          returns_le w m,
          done,
        );
        closes = λ empty. absurd (omega (arith, inv.some_thread));
      }
