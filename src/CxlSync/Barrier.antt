-- ===== src/CxlSync/Barrier.antt =====
-- include/cxlSync.hpp: CXLBarrier, a call on one of its three CXLAtomics at a time. Only their data is
-- kept; what the calls do to clocks is in CxlSync. The threads are those with a number below `target`.
mod Invariant
mod Arrive
mod Leave
mod NextRound
pub mod Rounds
mod Progress
mod Tests
use racoherence.Prelude.{ℕ, ◌+◌, ◌%◌, ◌<◌, ◌≡◌, ◌≢◌, update}
use racoherence.Config.{u32_mod}
use racoherence.CxlSync.{as_char}

pub record Barrier : Type 0 where
  pub target : ℕ
  pub arrived : ℕ
  pub phase : ℕ

-- CXLBarrier::init
abbrev pub init : ℕ → Barrier
init count = record { target = count; arrived = 0; phase = 0 }

-- Where a thread stands in `wait`, with its local variables.
pub data Pc : Type 0 where
  outside : Pc
  loaded : (local_phase : ℕ) → Pc
  counted : (local_phase local_arrived : ℕ) → Pc
  last : Pc
  reset : Pc
  waiting : (local_phase : ℕ) → Pc

-- How often a thread has added itself to `arrived`, and how often it has returned from `wait`.
pub record Thread : Type 0 where
  pub pc : Pc
  pub arrivals : ℕ
  pub returns : ℕ

-- One step of a thread. A phase that has not changed is loaded again, which changes nothing.
pub data Move (b : Barrier) (t : Thread) : Barrier → Thread → Type 0 where
  load_phase : t.pc ≡ outside → Move b t b (record t { pc = loaded (as_char b.phase) })
  add_arrived :
      {p : ℕ}
      → t.pc ≡ loaded p
      → Move b t
          (record b { arrived = (b.arrived + 1) % u32_mod })
          (record t {
            pc = counted p ((as_char b.arrived + 1) % u32_mod);
            arrivals = t.arrivals + 1;
          })
  all_arrived : {p a : ℕ} → t.pc ≡ counted p a → a ≡ b.target → Move b t b (record t { pc = last })
  some_missing :
      {p a : ℕ} → t.pc ≡ counted p a → a ≢ b.target → Move b t b (record t { pc = waiting p })
  reset_arrived : t.pc ≡ last → Move b t (record b { arrived = 0 }) (record t { pc = reset })
  next_phase :
      t.pc ≡ reset
      → Move b t
          (record b { phase = (b.phase + 1) % u32_mod })
          (record t { pc = outside; returns = t.returns + 1 })
  see_phase :
      {p : ℕ}
      → t.pc ≡ waiting p
      → as_char b.phase ≢ p
      → Move b t b (record t { pc = outside; returns = t.returns + 1 })

pub record System : Type 0 where
  pub barrier : Barrier
  pub threads : ℕ → Thread

pub data Step (s : System) : System → Type 0 where
  pick :
      (u : ℕ) {b : Barrier} {t : Thread}
      → u < s.barrier.target
      → Move s.barrier (s.threads u) b t
      → Step s (record { barrier = b; threads = update s.threads u t })

abbrev pub new_thread : Thread
new_thread = record { pc = outside; arrivals = 0; returns = 0 }

pub data Reach (count : ℕ) : System → Type 0 where
  start : Reach count (record { barrier = init count; threads = λ u. new_thread })
  later : {s t : System} → Reach count s → Step s t → Reach count t
