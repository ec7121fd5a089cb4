-- ===== src/McsLock/System.antt =====
-- Calls on one MCSLock, interleaved step by step. Beside the lock the state holds in which order calls
-- made the exchange of `tail`, and in which order they got the lock, the latest first.
use racoherence.Prelude.{ℕ, false, none, List, [], ◌∷◌, update}
use racoherence.McsLock.{McsLock, Pc, idle, Event, arrive, enter, Move}

pub record System : Type 0 where
  pub mem : McsLock
  pub pc : ℕ → Pc
  pub arrivals : List ℕ
  pub entries : List ℕ

abbrev pub arrived : Event → ℕ → List ℕ → List ℕ
arrived arrive u us = u ∷ us
arrived _ u us = us

abbrev pub entered : Event → ℕ → List ℕ → List ℕ
entered enter u us = u ∷ us
entered _ u us = us

pub data Step (s : System) : System → Type 0 where
  pick :
      (u : ℕ) {e : Event} {m : McsLock} {p : Pc}
      → Move u s.mem e (s.pc u) m p
      → Step s (record {
        mem = m;
        pc = update s.pc u p;
        arrivals = arrived e u s.arrivals;
        entries = entered e u s.entries;
      })

-- The lock after its constructor; what nodes hold before they are used does not matter.
abbrev pub init : McsLock
init = record { tail = none; owner = none; next = λ u. none; locked = λ u. false }

pub data Reach : System → Type 0 where
  start : Reach (record { mem = init; pc = λ u. idle; arrivals = []; entries = [] })
  later : {s t : System} → Reach s → Step s t → Reach t
