-- ===== src/McsLock/Invariant/Defs.antt =====
-- The line of the calls that have made the exchange: `who` gives the node at a position, `place` the
-- position of a node; positions below `head` have left, those below `count` have arrived, and those
-- below `inner` have had the lock.
use racoherence.Prelude.{
  ℕ, zero, suc, ◌+◌, ◌-◌, ◌≤◌, ◌<◌, ◌≡◌, Bool, true, false, none, some, List, [], ◌∷◌, update,
}
use racoherence.McsLock.{
  McsLock, Pc, set_locked, exchange, link, spin, try_locked, try_exchange, wait_next, hand_over,
  Event, quiet, arrive, enter, leave, queued, holding, inside,
}

pub record Line : Type 0 where
  pub who : ℕ → ℕ
  pub place : ℕ → ℕ
  pub head : ℕ
  pub count : ℕ
  pub inner : ℕ

abbrev pub advance : Event → ℕ → Line → Line
advance quiet u q = q
advance arrive u q = record q {
  who = update q.who q.count u;
  place = update q.place u q.count;
  count = q.count + 1;
}
advance enter u q = record q { inner = q.inner + 1 }
advance leave u q = record q { head = q.head + 1 }

-- The nodes of the first positions, the latest first.
unfoldable pub history : (ℕ → ℕ) → ℕ → List ℕ
history who zero = []
history who (suc n) = who n ∷ history who n

-- `next` of the node is cleared, and it is not in the line.
abbrev pub cleared : Pc → Bool
cleared set_locked = true
cleared exchange = true
cleared try_locked = true
cleared try_exchange = true
cleared _ = false

-- The node is ready for the exchange.
abbrev pub armed : Pc → Bool
armed exchange = true
armed try_exchange = true
armed _ = false

pub record Inv (q : Line) (m : McsLock) (pc : ℕ → Pc) : Type 0 where
  pub ordered : q.head ≤ q.count
  pub empty : q.head ≡ q.count → m.tail ≡ none
  pub last : q.head < q.count → m.tail ≡ some (q.who (q.count - 1))
  pub present :
      (p : ℕ) → q.head ≤ p → p < q.count → (queued (pc (q.who p)) ≡ true) × (q.place (q.who p) ≡ p)
  pub placed :
      (u : ℕ)
      → queued (pc u) ≡ true
      → (q.head ≤ q.place u) × (q.place u < q.count) × (q.who (q.place u) ≡ u)
  pub holds : (u : ℕ) → holding (pc u) ≡ true → q.place u ≡ q.head
  pub links :
      (u p : ℕ)
      → pc u ≡ link p
      → (q.head < q.place u) × (q.who (q.place u - 1) ≡ p) × (m.locked u ≡ true) × (m.next p ≡ none)
  pub waits : (u : ℕ) → pc u ≡ spin → m.locked u ≡ false → q.place u ≡ q.head
  pub freed : (u : ℕ) → pc u ≡ spin → q.place u ≡ q.head → m.locked u ≡ false
  pub linked : (u : ℕ) → pc u ≡ spin → q.head < q.place u → m.next (q.who (q.place u - 1)) ≡ some u
  pub nexts :
      (u n : ℕ)
      → queued (pc u) ≡ true
      → m.next u ≡ some n
      → (pc n ≡ spin) × (m.locked n ≡ true) × (q.place n ≡ q.place u + 1)
  pub clear : (u : ℕ) → cleared (pc u) ≡ true → m.next u ≡ none
  pub armed_locked : (u : ℕ) → armed (pc u) ≡ true → m.locked u ≡ true
  pub handing : (u n : ℕ) → pc u ≡ hand_over n → m.next u ≡ some n
  pub owned : (u : ℕ) → inside (pc u) ≡ true → m.owner ≡ some u
  pub more : (u : ℕ) → pc u ≡ wait_next → q.head + 1 < q.count
  pub inner_in : (u : ℕ) → inside (pc u) ≡ true → q.inner ≡ q.head + 1
  pub inner_at :
      (u : ℕ) → queued (pc u) ≡ true → inside (pc u) ≡ false → q.place u ≡ q.head → q.inner ≡ q.head
  pub inner_empty : q.head ≡ q.count → q.inner ≡ q.head
