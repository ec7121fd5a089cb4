-- ===== src/McsLock/Invariant/Facts.antt =====
-- What a step has tested, the other node it is about, and the end of the line.
use racoherence.Prelude.{
  ℕ, ◌+◌, ◌-◌, ◌<◌, ◌≡◌, ◌≢◌, true, false, none, some, arith, Option-cases, inl, inr,
}
use racoherence.McsLock.{
  McsLock, Pc, Event, Move, queued, exchange_free, exchange_taken, stop_spin, try_busy, try_free,
  try_win, try_lose, no_next, has_next, compare_win, compare_lose, got_next, store_link, pass_on,
}
use racoherence.McsLock.Invariant.Defs.{Line, Inv}

-- What a step has tested, for the clauses that stand for several steps.
abbrev pub Tested : {u : ℕ} {m m' : McsLock} {e : Event} {p p' : Pc} → Move u m e p m' p' → Type 0
Tested {m} (exchange_free _) = m.tail ≡ none
Tested {m} (exchange_taken {p} _) = m.tail ≡ some p
Tested {u} {m} (stop_spin _) = m.locked u ≡ false
Tested {m} (try_busy {p} _) = m.tail ≡ some p
Tested {m} (try_free _) = m.tail ≡ none
Tested {m} (try_win _) = m.tail ≡ none
Tested {m} (try_lose {p} _) = m.tail ≡ some p
Tested {u} {m} (no_next _) = m.next u ≡ none
Tested {u} {m} (has_next {n} _) = m.next u ≡ some n
Tested {u} {m} (compare_win _) = m.tail ≡ some u
Tested {u} {m} (compare_lose _) = m.tail ≢ some u
Tested {u} {m} (got_next {n} _) = m.next u ≡ some n
Tested _ = Unit

pub tested : {u : ℕ} {m m' : McsLock} {e : Event} {p p' : Pc} (mv : Move u m e p m' p') → Tested mv
tested (exchange_free t) = t
tested (exchange_taken t) = t
tested (stop_spin t) = t
tested (try_busy t) = t
tested (try_free t) = t
tested (try_win t) = t
tested (try_lose t) = t
tested (no_next t) = t
tested (has_next t) = t
tested (compare_win t) = t
tested (compare_lose t) = t
tested (got_next t) = t
tested _ = tt

-- The other node that a step is about.
abbrev pub target : {u : ℕ} {m m' : McsLock} {e : Event} {p p' : Pc} → Move u m e p m' p' → ℕ
target (exchange_taken {p} _) = p
target (store_link {p}) = p
target (has_next {n} _) = n
target (got_next {n} _) = n
target (pass_on {n}) = n
target _ = 0

module _ {q : Line} {m : McsLock} {pc : ℕ → Pc} (inv : Inv q m pc) (u : ℕ) where
  -- The last in line has no successor yet.
  pub last_free : q.head < q.count → m.next (q.who (q.count - 1)) ≡ none
  last_free h = elim (Option-cases (m.next (q.who (q.count - 1)))) [
    | inl e ↦ e
    | inr (n, e) ↦
        absurd (
          ground
            (arith, inv.present (q.count - 1), inv.nexts (q.who (q.count - 1)) n, inv.placed n))
  ]

  pub at_end : (v : ℕ) → queued (pc v) ≡ true → m.tail ≡ some v → q.place v + 1 ≡ q.count
  at_end v h t =
      ground (arith, inv.ordered, inv.last, inv.empty, inv.present (q.count - 1), inv.placed v)
