-- ===== src/McsLock/Shared/Exclusion.antt =====
-- A writer of an MCSSharedLock is alone.
use racoherence.Prelude.{
  ℕ, ◌+◌, ◌≤◌, ◌<◌, ◌≡◌, ◌≢◌, ◌⊎◌, inl, inr, refl, sym, arith, ℕ_discrete, update, sum, sum-eq-zero,
  sum-update, weight_le-sum,
}
use mathlib.Core.Path.{subst}
use racoherence.McsLock.{McsLock, Pc, critical, Event, Move, call_lock, call_unlock}
use racoherence.McsLock.System
use racoherence.McsLock.System.{System}
use racoherence.McsLock.Correct.{mutual_exclusion}
use racoherence.McsLock.Shared.{
  Mode, outside, wants_shared, shared, wants_lock, writing, SharedLock, on_wlock, Step, inner,
  lock_shared, count_reader, release_shared, unlock_shared, lock, no_readers, unlock, Reach, start,
  later,
}

abbrev reads : Mode → ℕ
reads shared = 1
reads _ = 0

record Inv (n : ℕ) (s : SharedLock) : Type 0 where
  wlock : System.Reach s.wlock
  beyond : (u : ℕ) → n ≤ u → s.mode u ≡ outside
  counted : sum reads s.mode n ≡ s.active_readers
  alone : (v : ℕ) → s.mode v ≡ writing → (s.wlock.pc v ≡ critical) × (s.active_readers ≡ 0)

pub step_at :
    (s : System) (u : ℕ) {e : Event} {m : McsLock} {p p' : Pc}
    → s.pc u ≡ p
    → Move u s.mem e p m p'
    → System.Step s (on_wlock s u e m p')
step_at s u {e} {m} {p' = p'} at mv = System.pick u (subst (λ x. Move u s.mem e x m p') (sym at) mv)

within : {n : ℕ} {s : SharedLock} → Inv n s → (u : ℕ) → s.mode u ≢ outside → u < n
within {n} inv u h = ground (arith, inv.beyond u)

sum_after :
    {n : ℕ} {s : SharedLock}
    → Inv n s
    → (u : ℕ) (mode : Mode) → u < n
    → sum reads (update s.mode u mode) n + reads (s.mode u) ≡ s.active_readers + reads mode
sum_after {n} {s} inv u mode lt = omega (arith, inv.counted, sum-update reads s.mode u mode n lt)

-- A writer has the lock `wlock`.
same_critical :
    {n : ℕ} {s : SharedLock}
    → Inv n s
    → (u v : ℕ) → s.wlock.pc u ≡ critical
    → s.wlock.pc v ≡ critical
    → u ≡ v
same_critical inv u v hu hv =
    mutual_exclusion inv.wlock u v (ground (arith, hu)) (ground (arith, hv))

Step-Inv : {n : ℕ} {s t : SharedLock} → Inv n s → Step n s t → Inv n t
Step-Inv {s = s} inv (inner u mv busy other) = record {
  wlock = System.later inv.wlock (System.pick u mv);
  beyond = inv.beyond;
  counted = inv.counted;
  alone = λ v h. ground (arith, inv.alone v h);
}
Step-Inv {s = s} inv (lock_shared u lt out at) = record {
  wlock = System.later inv.wlock (step_at s.wlock u at call_lock);
  beyond = λ v h. ground (arith, inv.beyond v);
  counted = ground (arith, sum_after inv u wants_shared lt);
  alone = λ v h. ground (arith, inv.alone v);
}
Step-Inv {s = s} inv (count_reader u wants at) = record {
  wlock = inv.wlock;
  beyond = λ v h. ground (arith, inv.beyond v, within inv u);
  counted = ground (arith, sum_after inv u shared (within inv u (λ x. cc)));
  alone = λ v h. ground (arith, inv.alone v, same_critical inv u v);
}
Step-Inv {s = s} inv (release_shared u reader at) = record {
  wlock = System.later inv.wlock (step_at s.wlock u at call_unlock);
  beyond = inv.beyond;
  counted = inv.counted;
  alone = λ v h. ground (arith, inv.alone v);
}
Step-Inv {s = s} inv (unlock_shared u reader at) = record {
  wlock = inv.wlock;
  beyond = λ v h. ground (arith, inv.beyond v, within inv u);
  counted = ground (arith, sum_after inv u outside (within inv u (λ x. cc)));
  alone = λ v h. ground (arith, inv.alone v);
}
Step-Inv {s = s} inv (lock u lt out at) = record {
  wlock = System.later inv.wlock (step_at s.wlock u at call_lock);
  beyond = λ v h. ground (arith, inv.beyond v);
  counted = ground (arith, sum_after inv u wants_lock lt);
  alone = λ v h. ground (arith, inv.alone v);
}
Step-Inv {s = s} inv (no_readers u wants at none_left) = record {
  wlock = inv.wlock;
  beyond = λ v h. ground (arith, inv.beyond v, within inv u);
  counted = ground (arith, sum_after inv u writing (within inv u (λ x. cc)));
  alone = λ v h. ground (arith, inv.alone v);
}
Step-Inv {s = s} inv (unlock u writes at) = record {
  wlock = System.later inv.wlock (step_at s.wlock u at call_unlock);
  beyond = λ v h. ground (arith, inv.beyond v, within inv u);
  counted = ground (arith, sum_after inv u outside (within inv u (λ x. cc)));
  alone = λ v h. ground (arith, inv.alone v, same_critical inv u v);
}

Reach-Inv : {n : ℕ} {s : SharedLock} → Reach n s → Inv n s
Reach-Inv {n} start = record {
  wlock = System.start;
  beyond = λ u h. refl;
  counted = sum-eq-zero reads (λ u. outside) n (λ i l. refl);
  alone = λ v h. cc;
}
Reach-Inv (later r st) = Step-Inv (Reach-Inv r) st

-- While a call has the MCSSharedLock for writing, no other call has it for reading or for writing.
pub writer_alone :
    {n : ℕ} {s : SharedLock}
    → Reach n s
    → (v : ℕ) → s.mode v ≡ writing
    → (u : ℕ) → (u ≡ v) ⊎ ((s.mode u ≢ shared) × (s.mode u ≢ writing))
writer_alone {n} {s} r v hv u =
    let inv = Reach-Inv r in
    let (at, no_reader) = inv.alone v hv in
    elim (ℕ_discrete u v) [
      | yes e ↦ inl e
      | no other ↦ inr (
        (λ h. ground (arith, inv.counted, weight_le-sum reads s.mode u n (within inv u (λ x. cc)))),
        (λ h. other (same_critical inv u v (inv.alone u h).0 at)),
      )
    ]
