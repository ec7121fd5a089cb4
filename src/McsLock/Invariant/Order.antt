-- ===== src/McsLock/Invariant/Order.antt =====
-- A step of a call keeps what `Inv` says of the bounds of the line and who stands in it.
use racoherence.Prelude.{ℕ, ◌-◌, ◌≤◌, ◌<◌, ◌≡◌, true, none, some, update, arith}
use racoherence.McsLock.{McsLock, Pc, Event, Move, queued, holding, call_lock}
use racoherence.McsLock.Invariant.Defs.{Line, advance, Inv}
use racoherence.McsLock.Invariant.Facts.{tested, target}

module _ {q : Line} {m : McsLock} {pc : ℕ → Pc} (inv : Inv q m pc) (u : ℕ) where
  pub Move-ordered :
      {e : Event} {m' : McsLock} {p p' : Pc}
      → Move u m e p m' p'
      → pc u ≡ p
      → (advance e u q).head ≤ (advance e u q).count
  Move-ordered call_lock here = inv.ordered
  Move-ordered mv here = ground (arith, inv.ordered, inv.placed u)

  pub Move-placed :
      {e : Event} {m' : McsLock} {p p' : Pc}
      → Move u m e p m' p'
      → pc u ≡ p
      → (v : ℕ) → queued (update pc u p' v) ≡ true
      → ((advance e u q).head ≤ (advance e u q).place v)
        × ((advance e u q).place v < (advance e u q).count)
        × ((advance e u q).who ((advance e u q).place v) ≡ v)
  Move-placed call_lock here v h = ground (arith, inv.placed v)
  Move-placed mv here v h = ground (arith, inv.ordered, inv.placed u, inv.placed v, inv.holds u)

  pub Move-empty :
      {e : Event} {m' : McsLock} {p p' : Pc}
      → Move u m e p m' p'
      → pc u ≡ p
      → (advance e u q).head ≡ (advance e u q).count
      → m'.tail ≡ none
  Move-empty call_lock here g =
      ground (arith, inv.ordered, inv.empty, inv.last, inv.placed u, inv.holds u)
  Move-empty mv here g = ground (
    arith,
    tested mv,
    inv.ordered,
    inv.empty,
    inv.last,
    inv.placed u,
    inv.holds u,
    inv.links u (target mv),
    inv.handing u (target mv),
    inv.nexts u (target mv),
    inv.placed (target mv),
  )

  pub Move-last :
      {e : Event} {m' : McsLock} {p p' : Pc}
      → Move u m e p m' p'
      → pc u ≡ p
      → (advance e u q).head < (advance e u q).count
      → m'.tail ≡ some ((advance e u q).who ((advance e u q).count - 1))
  Move-last call_lock here g = ground (
    arith,
    inv.ordered,
    inv.empty,
    inv.last,
    inv.placed u,
    inv.holds u,
    inv.present (q.count - 1),
  )
  Move-last mv here g = ground (
    arith,
    tested mv,
    inv.ordered,
    inv.empty,
    inv.last,
    inv.placed u,
    inv.holds u,
    inv.present (q.count - 1),
  )

  pub Move-present :
      {e : Event} {m' : McsLock} {p p' : Pc}
      → Move u m e p m' p'
      → pc u ≡ p
      → (k : ℕ) → (advance e u q).head ≤ k
      → k < (advance e u q).count
      → (queued (update pc u p' ((advance e u q).who k)) ≡ true)
        × ((advance e u q).place ((advance e u q).who k) ≡ k)
  Move-present call_lock here k a b =
      ground (arith, inv.ordered, inv.present k, inv.placed u, inv.holds u)
  Move-present mv here k a b =
      ground (arith, tested mv, inv.ordered, inv.present k, inv.placed u, inv.holds u)

  pub Move-holds :
      {e : Event} {m' : McsLock} {p p' : Pc}
      → Move u m e p m' p'
      → pc u ≡ p
      → (v : ℕ) → holding (update pc u p' v) ≡ true
      → (advance e u q).place v ≡ (advance e u q).head
  Move-holds call_lock here v h = ground (
    arith,
    inv.ordered,
    inv.empty,
    inv.last,
    inv.waits u,
    inv.holds u,
    inv.holds v,
    inv.placed u,
    inv.placed v,
  )
  Move-holds mv here v h = ground (
    arith,
    tested mv,
    inv.ordered,
    inv.empty,
    inv.last,
    inv.waits u,
    inv.holds u,
    inv.holds v,
    inv.placed u,
    inv.placed v,
  )
