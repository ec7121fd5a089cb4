-- ===== src/LogManager/Fresh.antt =====
-- LogManager::get_new_log: the log that it gives is empty.
use racoherence.Prelude.{ℕ, ◌≡◌, true, Option, none, some, [], update, update_self, refl}
use mathlib.Core.Path.{subst}
use racoherence.SpmcQueue.{Queue, dequeue}
use racoherence.LogManager.{LogManager, take_free, get_new_log, perform_gc}

-- `none` and a null pointer hold no log.
Gives : Option (Option ℕ × LogManager) → Type 0
Gives none = true ≡ true
Gives (some (none, m)) = true ≡ true
Gives (some (some log, m)) = m.buf log ≡ []

take_free-Gives : (m : LogManager) → Gives (take_free m)
unfolding take_free Gives
take_free-Gives m = dequeued (dequeue 1 m.freelist)
  where
    dequeued :
        (r : Option (Option ℕ × Queue))
        → Gives (elim r [
          | none ↦ none
          | some (none, q) ↦ some (none, record m { freelist = q })
          | some (some log, q) ↦
              some (some log, record m { freelist = q; buf = update m.buf log [] })
        ])
    dequeued none = refl
    dequeued (some (none, q)) = refl
    dequeued (some (some log, q)) = update_self m.buf log []

get_new_log-Gives : (m : LogManager) → Gives (get_new_log m)
unfolding get_new_log Gives
get_new_log-Gives m = first (take_free m) (take_free-Gives m)
  where
    third :
        (r : Option LogManager)
        → Gives (elim r [ none ↦ none | some collected ↦ take_free collected ])
    third none = refl
    third (some collected) = take_free-Gives collected

    second :
        (r : Option (Option ℕ × LogManager))
        → Gives r
        → Gives (elim r [
          | none ↦ none
          | some (some log, m'') ↦ some (some log, m'')
          | some (none, m'') ↦ elim (perform_gc m'') [
            | none ↦ none
            | some collected ↦ take_free collected
          ]
        ])
    second none g = refl
    second (some (none, m'')) g = third (perform_gc m'')
    second (some (some log, m'')) g = g

    first :
        (r : Option (Option ℕ × LogManager))
        → Gives r
        → Gives (elim r [
          | none ↦ none
          | some (some log, m') ↦ some (some log, m')
          | some (none, m') ↦ elim (take_free m') [
            | none ↦ none
            | some (some log, m'') ↦ some (some log, m'')
            | some (none, m'') ↦ elim (perform_gc m'') [
              | none ↦ none
              | some collected ↦ take_free collected
            ]
          ]
        ])
    first none g = refl
    first (some (none, m')) g = second (take_free m') (take_free-Gives m')
    first (some (some log, m')) g = g

-- A log that `get_new_log` gives is empty.
pub get_new_log-empty :
    (m m' : LogManager) (log : ℕ) → get_new_log m ≡ some (some log, m') → m'.buf log ≡ []
unfolding Gives
get_new_log-empty m m' log e = subst Gives e (get_new_log-Gives m)
