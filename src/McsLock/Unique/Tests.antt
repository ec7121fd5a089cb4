-- ===== src/McsLock/Unique/Tests.antt =====
-- A UniqueLock that its constructor has locked.
use racoherence.Prelude.{ℕ, ◌≡◌, ◌↔◌, refl, true, false}
use racoherence.McsLock.{clear_next, mark_locked, exchange_free, set_owner, holding}
use racoherence.McsLock.Unique.{
  UniqueLocks, Reach, start, later, inner, construct, construct_done, between, dead, Disciplined,
}
use racoherence.McsLock.Unique.Flag.{flag_lem}

record One : Type 0 where
  state : UniqueLocks
  reached : Reach state

abbrev constructed : One
constructed = record {
  state = _;
  reached =
      later
        (later
          (later
            (later
              (later (later start (construct 0 refl)) (inner 0 clear_next (λ e. cc e) (λ e. cc e)))
              (inner 0 mark_locked (λ e. cc e) (λ e. cc e)))
            (inner 0 (exchange_free refl) (λ e. cc e) (λ e. cc e)))
          (inner 0 set_owner (λ e. cc e) (λ e. cc e)))
        (construct_done 0 refl refl);
}

flag_set : constructed.state.locked 0 ≡ true
flag_set = refl

constructed_rules : Disciplined constructed.reached
constructed_rules = ((((((tt, tt), tt), tt), tt), tt), tt)

flag_lem_example :
    let s = constructed.state in
    (s.phase 0 ≡ between → (s.locked 0 ≡ true) ↔ (holding (s.lk.pc 0) ≡ true))
    × (s.phase 0 ≡ dead → holding (s.lk.pc 0) ≡ false)
    × (s.phase 0 ≡ between
        → s.phase 1 ≡ between
        → s.locked 0 ≡ true
        → s.locked 1 ≡ true
        → ◌≡◌ {A = ℕ} 0 1)
flag_lem_example = flag_lem constructed.reached constructed_rules 0 1
