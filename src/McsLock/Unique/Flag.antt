-- ===== src/McsLock/Unique/Flag.antt =====
-- The flag `locked` of a UniqueLock says whether the object has the lock.
use racoherence.Prelude.{
  ℕ, ◌≡◌, ◌≢◌, ◌⊎◌, ◌↔◌, inl, inr, refl, Bool, true, false, arith, ℕ_discrete, update,
}
use mathlib.Core.Path.{subst}
use racoherence.Prelude.{update_self, update_ne}
use racoherence.McsLock.System
use racoherence.McsLock.System.{System}
use racoherence.McsLock.Shared.Exclusion.{step_at}
use racoherence.McsLock.Unique.{
  UniqueLocks, Phase, unborn, constructing, between, locking, trying, unlocking, destroying, dead,
  Step, inner, construct, construct_done, construct_deferred, lock, lock_done, try_lock,
  try_lock_true, try_lock_false, unlock, unlock_done, destroy_locked, destroy_unlocked,
  destroy_done, Reach, start, later, Allowed, Disciplined,
}
use racoherence.McsLock.Correct.{mutual_exclusion}
use racoherence.McsLock.{
  McsLock, Pc, idle, set_next, set_locked, exchange, link, spin, read_tail, try_next, try_locked,
  try_exchange, own, critical, read_next, compare_tail, wait_next, hand_over, Event, Move,
  call_lock, clear_next, mark_locked, exchange_free, exchange_taken, store_link, stop_spin,
  set_owner, call_try, try_busy, try_free, try_clear, try_mark, try_win, try_lose, call_unlock,
  no_next, has_next, compare_win, compare_lose, got_next, pass_on, holding,
}

-- Where a call of lock_with_node, try_lock_with_node and unlock_with_node may stand, with what it is
-- when it has returned.
abbrev in_lock : Pc → Bool
in_lock set_next = true
in_lock set_locked = true
in_lock exchange = true
in_lock (link _) = true
in_lock spin = true
in_lock own = true
in_lock critical = true
in_lock _ = false

abbrev in_try : Pc → Bool
in_try read_tail = true
in_try try_next = true
in_try try_locked = true
in_try try_exchange = true
in_try own = true
in_try critical = true
in_try idle = true
in_try _ = false

abbrev in_unlock : Pc → Bool
in_unlock read_next = true
in_unlock compare_tail = true
in_unlock wait_next = true
in_unlock (hand_over _) = true
in_unlock idle = true
in_unlock _ = false

-- A step of a call stays in the call.
abbrev Stays : Pc → Pc → Type 0
Stays p q =
    (in_lock p ≡ true → in_lock q ≡ true)
    × (in_try p ≡ true → in_try q ≡ true)
    × (in_unlock p ≡ true → in_unlock q ≡ true)

stays :
    {u : ℕ} {m m' : McsLock} {e : Event} {p q : Pc}
    → Move u m e p m' q
    → p ≢ idle
    → p ≢ critical
    → Stays p q
stays call_lock busy out = absurd (busy refl)
stays call_try busy out = absurd (busy refl)
stays call_unlock busy out = absurd (out refl)
stays clear_next busy out = ((λ h. refl), (λ h. cc), λ h. cc)
stays mark_locked busy out = ((λ h. refl), (λ h. cc), λ h. cc)
stays (exchange_free e) busy out = ((λ h. refl), (λ h. cc), λ h. cc)
stays (exchange_taken e) busy out = ((λ h. refl), (λ h. cc), λ h. cc)
stays store_link busy out = ((λ h. refl), (λ h. cc), λ h. cc)
stays (stop_spin e) busy out = ((λ h. refl), (λ h. cc), λ h. cc)
stays set_owner busy out = ((λ h. refl), (λ h. refl), λ h. cc)
stays (try_busy e) busy out = ((λ h. cc), (λ h. refl), λ h. cc)
stays (try_free e) busy out = ((λ h. cc), (λ h. refl), λ h. cc)
stays try_clear busy out = ((λ h. cc), (λ h. refl), λ h. cc)
stays try_mark busy out = ((λ h. cc), (λ h. refl), λ h. cc)
stays (try_win e) busy out = ((λ h. cc), (λ h. refl), λ h. cc)
stays (try_lose e) busy out = ((λ h. cc), (λ h. refl), λ h. cc)
stays (no_next e) busy out = ((λ h. cc), (λ h. cc), λ h. refl)
stays (has_next e) busy out = ((λ h. cc), (λ h. cc), λ h. refl)
stays (compare_win e) busy out = ((λ h. cc), (λ h. cc), λ h. refl)
stays (compare_lose e) busy out = ((λ h. cc), (λ h. cc), λ h. refl)
stays (got_next e) busy out = ((λ h. cc), (λ h. cc), λ h. refl)
stays pass_on busy out = ((λ h. cc), (λ h. cc), λ h. refl)

-- Between two calls the flag is set exactly while the object holds the lock; in a call, the call on the
-- lock is the one of that name.
abbrev Agrees : Phase → Pc → Bool → Type 0
Agrees unborn p flag = p ≡ idle
Agrees constructing p flag = (in_lock p ≡ true) × (flag ≡ true)
Agrees between p flag = ((flag ≡ true) × (p ≡ critical)) ⊎ ((flag ≡ false) × (p ≡ idle))
Agrees locking p flag = in_lock p ≡ true
Agrees trying p flag = in_try p ≡ true
Agrees unlocking p flag = in_unlock p ≡ true
Agrees destroying p flag = in_unlock p ≡ true
Agrees dead p flag = p ≡ idle

record Inv (s : UniqueLocks) : Type 0 where
  lk : System.Reach s.lk
  agrees : (u : ℕ) → Agrees (s.phase u) (s.lk.pc u) (s.locked u)

moved :
    (p q : Pc) (ph : Phase) (flag : Bool)
    → p ≢ idle
    → p ≢ critical
    → Stays p q
    → Agrees ph p flag
    → Agrees ph q flag
moved p q unborn flag busy out st a = absurd (busy a)
moved p q constructing flag busy out (l, t, n) (h, f) = (l h, f)
moved p q between flag busy out st (inl (f, h)) = absurd (out h)
moved p q between flag busy out st (inr (f, h)) = absurd (busy h)
moved p q locking flag busy out (l, t, n) h = l h
moved p q trying flag busy out (l, t, n) h = t h
moved p q unlocking flag busy out (l, t, n) h = n h
moved p q destroying flag busy out (l, t, n) h = n h
moved p q dead flag busy out st a = absurd (busy a)

-- What is proved of the object `u` and kept for the others holds of all.
one_by_one : (P : ℕ → Type 0) (u : ℕ) → P u → ((v : ℕ) → u ≢ v → P v) → (v : ℕ) → P v
one_by_one P u here others v = elim (ℕ_discrete u v) [ yes e ↦ subst P e here | no n ↦ others v n ]

Step-Inv : {s t : UniqueLocks} → Inv s → (st : Step s t) → Allowed st → Inv t
Step-Inv {s = s} inv (inner u {p = p} mv busy out) rules = record {
  lk = System.later inv.lk (System.pick u mv);
  agrees =
      one_by_one (λ v. Agrees (s.phase v) (update s.lk.pc u p v) (s.locked v)) u
        (rw (update_self s.lk.pc u p) (
          moved (s.lk.pc u) p (s.phase u) (s.locked u) busy out (stays mv busy out) (inv.agrees u)))
        (λ v n. rw (update_ne s.lk.pc u v p n) (inv.agrees v));
}
Step-Inv {s = s} inv (construct u at) rules = record {
  lk = System.later inv.lk (step_at s.lk u (ground (arith, inv.agrees u, at)) call_lock);
  agrees = λ v. ground (arith, inv.agrees v);
}
Step-Inv {s = s} inv (construct_done u at crit) rules = record {
  lk = inv.lk;
  agrees = λ v. ground (arith, inv.agrees v);
}
Step-Inv {s = s} inv (construct_deferred u at) rules = record {
  lk = inv.lk;
  agrees = λ v. ground (arith, inv.agrees v);
}
Step-Inv {s = s} inv (lock u at) free = record {
  lk = System.later inv.lk (step_at s.lk u (ground (arith, inv.agrees u, at)) call_lock);
  agrees = λ v. ground (arith, inv.agrees v);
}
Step-Inv {s = s} inv (lock_done u at crit) rules = record {
  lk = inv.lk;
  agrees = λ v. ground (arith, inv.agrees v);
}
Step-Inv {s = s} inv (try_lock u at) free = record {
  lk = System.later inv.lk (step_at s.lk u (ground (arith, inv.agrees u, at)) call_try);
  agrees = λ v. ground (arith, inv.agrees v);
}
Step-Inv {s = s} inv (try_lock_true u at crit) rules = record {
  lk = inv.lk;
  agrees = λ v. ground (arith, inv.agrees v);
}
Step-Inv {s = s} inv (try_lock_false u at out) rules = record {
  lk = inv.lk;
  agrees = λ v. ground (arith, inv.agrees v);
}
Step-Inv {s = s} inv (unlock u at) held = record {
  lk = System.later inv.lk (step_at s.lk u (ground (arith, inv.agrees u, at)) call_unlock);
  agrees = λ v. ground (arith, inv.agrees v);
}
Step-Inv {s = s} inv (unlock_done u at out) rules = record {
  lk = inv.lk;
  agrees = λ v. ground (arith, inv.agrees v);
}
Step-Inv {s = s} inv (destroy_locked u at held) rules = record {
  lk = System.later inv.lk (step_at s.lk u (ground (arith, inv.agrees u, at)) call_unlock);
  agrees = λ v. ground (arith, inv.agrees v);
}
Step-Inv {s = s} inv (destroy_unlocked u at free) rules = record {
  lk = inv.lk;
  agrees = λ v. ground (arith, inv.agrees v);
}
Step-Inv {s = s} inv (destroy_done u at out) rules = record {
  lk = inv.lk;
  agrees = λ v. ground (arith, inv.agrees v);
}

Reach-Inv : {s : UniqueLocks} (r : Reach s) → Disciplined r → Inv s
Reach-Inv start rules = record { lk = System.start; agrees = λ u. refl }
Reach-Inv (later r st) (rules, now) = Step-Inv (Reach-Inv r rules) st now

-- UniqueLock, in a run where `lock` and `try_lock` are called on an object only while its `locked` is
-- unset and `unlock` only while it is set, each between two calls: between two calls on an object
-- `locked` is set exactly while the object holds the lock, no object holds it after its destructor,
-- and of two objects between calls one at most has `locked` set.
pub flag_lem :
    {s : UniqueLocks} (r : Reach s)
    → Disciplined r
    → (u v : ℕ)
    → (s.phase u ≡ between → (s.locked u ≡ true) ↔ (holding (s.lk.pc u) ≡ true))
      × (s.phase u ≡ dead → holding (s.lk.pc u) ≡ false)
      × (s.phase u ≡ between → s.phase v ≡ between → s.locked u ≡ true → s.locked v ≡ true → u ≡ v)
flag_lem {s} r rules u v =
    let inv = Reach-Inv r rules in
    (
      (λ at. ground (arith, inv.agrees u, at)),
      (λ at. ground (arith, inv.agrees u, at)),
      λ at at' hu hv.
          mutual_exclusion inv.lk u v (ground (arith, inv.agrees u, at, hu))
            (ground (arith, inv.agrees v, at', hv)),
    )
