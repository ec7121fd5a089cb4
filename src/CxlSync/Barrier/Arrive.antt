-- ===== src/CxlSync/Barrier/Arrive.antt =====
-- The steps up to the test of `local_arrived` keep the invariant of a CXLBarrier.
use racoherence.Prelude.{ℕ, ◌+◌, ◌%◌, ◌<◌, ◌≡◌, refl, arith, update, sum-update}
use racoherence.Config.{u32_mod}
use racoherence.CxlSync.{as_char}
use racoherence.CxlSync.Barrier.{Barrier, outside, loaded, counted, last, Thread}
use racoherence.CxlSync.Barrier.Invariant.{Inv, keep, in_round, room, slot_le}

module _ {n r c : ℕ} {b : Barrier} {threads : ℕ → Thread} (inv : Inv n r c b threads) (u : ℕ)
    (lt : u < n) where
  pub load_phase-Inv :
      (threads u).pc ≡ outside
      → Inv n r c b (update threads u (record (threads u) { pc = loaded (as_char b.phase) }))
  load_phase-Inv at = record {
    few = inv.few;
    some_thread = inv.some_thread;
    target = inv.target;
    phase = inv.phase;
    count = ground (
      arith,
      inv.count,
      inv.out u lt at,
      sum-update (in_round r) threads u (record (threads u) { pc = loaded (as_char b.phase) }) n lt,
    );
    at_most = ground (arith, inv.at_most, inv.out u lt at);
    arrived = ground (arith, inv.arrived, inv.few, inv.out u lt at);
    cleared = λ v l h. ground (arith, inv.cleared v l, inv.finishes v l, inv.out u lt at);
    out = λ v l h. ground (arith, inv.out v l, inv.out u lt at);
    load = λ v p' l h. ground (arith, inv.load v p' l, inv.phase, inv.at_most, inv.out u lt at);
    counts = λ v p' a' l h. ground (arith, inv.counts v p' a' l, inv.few, inv.out u lt at);
    finishes = λ v l h. ground (arith, inv.finishes v l, inv.out u lt at);
    waits = λ v p' l h. ground (arith, inv.waits v p' l, inv.out u lt at);
    unique = λ v w a' l m rv rm sv sm. ground (arith, inv.unique v w a' l m, inv.out u lt at);
    closes = λ full.
        keep n r threads u (record (threads u) { pc = loaded (as_char b.phase) })
          (λ s e. ground (arith, at, s)) (inv.closes full);
  }

  pub add_arrived-Inv :
      (p : ℕ)
      → (threads u).pc ≡ loaded p
      → Inv n r
          (c + 1)
          (record b { arrived = (b.arrived + 1) % u32_mod })
          (update threads u (record (threads u) {
            pc = counted p ((as_char b.arrived + 1) % u32_mod);
            arrivals = (threads u).arrivals + 1;
          }))
  add_arrived-Inv p at = record {
    few = inv.few;
    some_thread = inv.some_thread;
    target = inv.target;
    phase = inv.phase;
    count = ground (
      arith,
      inv.count,
      inv.load u p lt at,
      room inv u lt p at,
      inv.arrived,
      sum-update (in_round r) threads u
          (record (threads u) {
            pc = counted p ((as_char b.arrived + 1) % u32_mod);
            arrivals = (threads u).arrivals + 1;
          })
          n lt,
    );
    at_most = ground (arith, inv.at_most, inv.load u p lt at, room inv u lt p at, inv.arrived);
    arrived =
        ground (arith, inv.arrived, inv.few, inv.load u p lt at, room inv u lt p at, inv.arrived);
    cleared = λ v l h. ground (
      arith,
      inv.cleared v l,
      inv.finishes v l,
      inv.load u p lt at,
      room inv u lt p at,
      inv.arrived,
    );
    out = λ v l h. ground (arith, inv.out v l, inv.load u p lt at, room inv u lt p at, inv.arrived);
    load = λ v p' l h. ground (
      arith,
      inv.load v p' l,
      inv.phase,
      inv.at_most,
      inv.load u p lt at,
      room inv u lt p at,
      inv.arrived,
    );
    counts = λ v p' a' l h.
        ground (
          arith,
          inv.counts v p' a' l,
          inv.few,
          inv.load u p lt at,
          room inv u lt p at,
          inv.arrived,
        );
    finishes = λ v l h.
        ground (arith, inv.finishes v l, inv.load u p lt at, room inv u lt p at, inv.arrived);
    waits = λ v p' l h.
        ground (arith, inv.waits v p' l, inv.load u p lt at, room inv u lt p at, inv.arrived);
    unique = λ v w a' l m rv rm sv sm. ground (
      arith,
      inv.unique v w a' l m,
      inv.load u p lt at,
      room inv u lt p at,
      inv.arrived,
      slot_le inv u lt v l a',
      slot_le inv u lt w m a',
    );
    closes = λ full. (
      u,
      lt,
      ground (arith, full, inv.arrived, inv.few, room inv u lt p at),
      ground (arith, inv.load u p lt at),
    );
  }

  pub all_arrived-Inv :
      (p a : ℕ)
      → (threads u).pc ≡ counted p a
      → a ≡ b.target
      → Inv n r c b (update threads u (record (threads u) { pc = last }))
  all_arrived-Inv p a at test = record {
    few = inv.few;
    some_thread = inv.some_thread;
    target = inv.target;
    phase = inv.phase;
    count = ground (
      arith,
      inv.count,
      inv.counts u p a lt at,
      inv.target,
      inv.at_most,
      sum-update (in_round r) threads u (record (threads u) { pc = last }) n lt,
    );
    at_most = ground (arith, inv.at_most, inv.counts u p a lt at, inv.target, inv.at_most);
    arrived = ground (arith, inv.arrived, inv.few, inv.counts u p a lt at, inv.target, inv.at_most);
    cleared = λ v l h.
        ground (
          arith,
          inv.cleared v l,
          inv.finishes v l,
          inv.counts u p a lt at,
          inv.target,
          inv.at_most,
        );
    out = λ v l h. ground (arith, inv.out v l, inv.counts u p a lt at, inv.target, inv.at_most);
    load = λ v p' l h. ground (
      arith,
      inv.load v p' l,
      inv.phase,
      inv.at_most,
      inv.counts u p a lt at,
      inv.target,
      inv.at_most,
    );
    counts = λ v p' a' l h.
        ground
          (arith, inv.counts v p' a' l, inv.few, inv.counts u p a lt at, inv.target, inv.at_most);
    finishes =
        λ v l h. ground (arith, inv.finishes v l, inv.counts u p a lt at, inv.target, inv.at_most);
    waits = λ v p' l h.
        ground (arith, inv.waits v p' l, inv.counts u p a lt at, inv.target, inv.at_most);
    unique = λ v w a' l m rv rm sv sm. ground (
      arith,
      inv.unique v w a' l m,
      inv.counts u p a lt at,
      inv.target,
      inv.at_most,
      inv.unique v u a' l lt,
      inv.unique u w a' lt m,
    );
    closes = λ full.
        keep n r threads u (record (threads u) { pc = last }) (λ s e. (refl, e)) (inv.closes full);
  }
