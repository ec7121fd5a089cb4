-- ===== src/McsLock/Correct.antt =====
-- What an MCSLock promises in every state that its calls can reach.
use racoherence.Prelude.{
  ℕ, zero, suc, ◌-◌, ◌≤◌, ◌≡◌, ◌≢◌, sym, ap, ◌∙◌, true, none, some, List, [], ◌∷◌, ◌++◌, arith,
  dec_lt,
}
use racoherence.McsLock.{link, spin, hand_over, queued, holding, inside}
use racoherence.McsLock.System.{System, Reach}
use racoherence.McsLock.Invariant.{history, inner_le, Reach-Sound}

-- At most one call holds the lock.
pub mutual_exclusion :
    {s : System} → Reach s → (u v : ℕ) → holding (s.pc u) ≡ true → holding (s.pc v) ≡ true → u ≡ v
mutual_exclusion r u v hu hv =
    let (q, ok) = Reach-Sound r in
    ground (arith, ok.inv.holds u, ok.inv.holds v, ok.inv.placed u, ok.inv.placed v)

history-split :
    (who : ℕ → ℕ) (n k : ℕ) → n ≤ k → (w : List ℕ) × (history who k ≡ w ++ history who n)
unfolding history
history-split who n zero le = ([], ground arith)
history-split who n (suc k) le = elim (dec_lt k n) [
  | yes lt ↦ ([], ap (history who) {x = suc k} {y = n} (omega arith))
  | no ge ↦ let (w, e) = history-split who n k (omega arith) in (who k ∷ w, ap (who k ∷◌) e)
]

-- Calls get the lock in the order of their exchanges of `tail`: the calls that have had it are the
-- earliest of those that made the exchange, in the same order.
pub first_come : {s : System} → Reach s → (waiting : List ℕ) × (s.arrivals ≡ waiting ++ s.entries)
first_come r =
    let (q, ok) = Reach-Sound r in
    let (w, e) = history-split q.who q.inner q.count (inner_le ok.inv) in
    (w, ok.arrivals ∙ e ∙ ap (w ++◌) (sym ok.entries))

-- What a call writes in the node of another one.
record Careful (s : System) : Type 0 where
  pub links :
      (u p : ℕ) → s.pc u ≡ link p → (p ≢ u) × (queued (s.pc p) ≡ true) × (s.mem.next p ≡ none)
  pub hands : (u n : ℕ) → s.pc u ≡ hand_over n → (n ≢ u) × (s.pc n ≡ spin) × (s.mem.locked n ≡ true)

-- A call writes in the node of another call only while that call is under way: it links itself to one
-- in line that has no successor yet, and it hands the lock over to one that spins and is locked. So no
-- write reaches a node that its owner has freed after `unlock`.
writes-Careful : {s : System} → Reach s → Careful s
writes-Careful r =
    let (q, ok) = Reach-Sound r in
    record {
      links = λ u p h.
          ground (arith, ok.inv.links u p, ok.inv.placed u, ok.inv.present (q.place u - 1));
      hands = λ u n h. ground (arith, ok.inv.handing u n, ok.inv.nexts u n);
    }

-- While a call holds the lock, has stored itself and has not returned from `unlock`, `owner` is its
-- node: `unlock()`, which takes the node from there, releases the node of the call that holds the lock.
owner_holds : {s : System} → Reach s → (u : ℕ) → inside (s.pc u) ≡ true → s.mem.owner ≡ some u
owner_holds r u h = let (q, ok) = Reach-Sound r in ok.inv.owned u h
