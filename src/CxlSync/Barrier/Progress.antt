-- ===== src/CxlSync/Barrier/Progress.antt =====
-- A CXLBarrier does not hang.
use racoherence.Prelude.{
  ℕ, ◌≤◌, ◌<◌, ◌≡◌, ◌≢◌, ◌⊎◌, inl, inr, refl, arith, ℕ_discrete, sum_ones, somewhere_or_everywhere,
}
use racoherence.CxlSync.{as_char}
use racoherence.CxlSync.Barrier.{
  Barrier, Pc, outside, loaded, counted, last, reset, waiting, Thread, Move, add_arrived,
  all_arrived, some_missing, reset_arrived, next_phase, see_phase, System, Reach,
}
use racoherence.CxlSync.Barrier.Invariant.{Inv, in_round}
use racoherence.CxlSync.Barrier.Rounds.{Reach-Sound}

-- The thread has a step to make.
abbrev pub CanMove : Barrier → Thread → Type 0
CanMove b t = (b' : Barrier) × (t' : Thread) × Move b t b' t'

-- The thread waits, and the phase is the one that it waits to see changed.
abbrev Stuck : Barrier → Thread → Type 0
Stuck b t = t.pc ≡ waiting (as_char b.phase)

moves_or_waits : (b : Barrier) (t : Thread) → t.pc ≢ outside → CanMove b t ⊎ Stuck b t
moves_or_waits b t inside = at_place t.pc refl
  where
    at_place : (q : Pc) → t.pc ≡ q → CanMove b t ⊎ Stuck b t
    at_place outside at = absurd (inside at)
    at_place (loaded p) at = inl (_, _, add_arrived at)
    at_place (counted p a) at = elim (ℕ_discrete a b.target) [
      | yes e ↦ inl (_, _, all_arrived at e)
      | no d ↦ inl (_, _, some_missing at d)
    ]
    at_place last at = inl (_, _, reset_arrived at)
    at_place reset at = inl (_, _, next_phase at)
    at_place (waiting p) at = elim (ℕ_discrete (as_char b.phase) p) [
      | yes e ↦ inr (cc (at, e))
      | no d ↦ inl (_, _, see_phase at d)
    ]

-- A thread that is stuck has arrived in this round.
Stuck-in_round :
    {n r c : ℕ} {b : Barrier} {threads : ℕ → Thread}
    → Inv n r c b threads
    → (u : ℕ) → u < n
    → Stuck b (threads u)
    → in_round r (threads u) ≡ 1
Stuck-in_round {b = b} inv u lt at = ground (arith, inv.waits u (as_char b.phase) lt at, inv.phase)

-- The threads are not all stuck.
not_all_Stuck :
    {n r c : ℕ} {b : Barrier} {threads : ℕ → Thread}
    → Inv n r c b threads
    → ¬ ((u : ℕ) → u < n → Stuck b (threads u))
not_all_Stuck {n} {r} {threads = threads} inv all =
    let (v, l, s, e) = inv.closes (
      omega (
        arith,
        inv.count,
        sum_ones (in_round r) threads n (λ u lt. Stuck-in_round inv u lt (all u lt)),
      )) in
    ground (arith, s, all v l)

-- A CXLBarrier of at most 128 threads, in any interleaving of the calls on its three atomics: while
-- every thread is in a call of `wait`, one of them has a step to make, so that they do not all wait for
-- the phase to change.
pub barrier_goes_on :
    {n : ℕ} {s : System}
    → 0 < n
    → n ≤ 128
    → Reach n s
    → ((u : ℕ) → u < n → (s.threads u).pc ≢ outside)
    → (v : ℕ) × (v < n) × CanMove s.barrier (s.threads v)
barrier_goes_on {n} {s} some_one few r all_in =
    let ok = Reach-Sound some_one few r in
    elim (somewhere_or_everywhere (λ u. CanMove s.barrier (s.threads u))
      (λ u. Stuck s.barrier (s.threads u)) n
      (λ u lt. moves_or_waits s.barrier (s.threads u) (all_in u lt))) [
        | inl found ↦ found
        | inr all ↦ absurd (not_all_Stuck ok.inv all)
      ]
