-- ===== src/McsLock/Invariant/Nodes.antt =====
-- A step of a call keeps what `Inv` says of `owner`, the nodes that are not in line, and who has had the lock.
use racoherence.Prelude.{ℕ, ◌+◌, ◌-◌, ◌<◌, ◌≡◌, true, false, none, some, update, arith}
use racoherence.McsLock.{McsLock, Pc, Event, Move, queued, inside, wait_next, hand_over, call_lock}
use racoherence.McsLock.Invariant.Defs.{Line, advance, cleared, armed, Inv}
use racoherence.McsLock.Invariant.Facts.{tested, target}

module _ {q : Line} {m : McsLock} {pc : ℕ → Pc} (inv : Inv q m pc) (u : ℕ) where
  pub Move-clear :
      {e : Event} {m' : McsLock} {p p' : Pc}
      → Move u m e p m' p'
      → pc u ≡ p
      → (v : ℕ) → cleared (update pc u p' v) ≡ true
      → m'.next v ≡ none
  Move-clear call_lock here v h =
      ground (arith, inv.clear v, inv.present (q.place u - 1), inv.placed u)
  Move-clear mv here v h = ground (
    arith,
    tested mv,
    inv.clear v,
    inv.present (q.place u - 1),
    inv.placed u,
    inv.links u (target mv),
    inv.handing u (target mv),
    inv.nexts u (target mv),
    inv.placed (target mv),
  )

  pub Move-armed_locked :
      {e : Event} {m' : McsLock} {p p' : Pc}
      → Move u m e p m' p'
      → pc u ≡ p
      → (v : ℕ) → armed (update pc u p' v) ≡ true
      → m'.locked v ≡ true
  Move-armed_locked call_lock here v h = ground (arith, inv.armed_locked v)
  Move-armed_locked mv here v h = ground (
    arith,
    tested mv,
    inv.armed_locked v,
    inv.links u (target mv),
    inv.handing u (target mv),
    inv.nexts u (target mv),
    inv.placed (target mv),
  )

  pub Move-handing :
      {e : Event} {m' : McsLock} {p p' : Pc}
      → Move u m e p m' p'
      → pc u ≡ p
      → (v n : ℕ) → update pc u p' v ≡ hand_over n
      → m'.next v ≡ some n
  Move-handing call_lock here v n h = ground (arith, inv.handing v n)
  Move-handing mv here v n h = ground (
    arith,
    tested mv,
    inv.handing v n,
    inv.links u (target mv),
    inv.handing u (target mv),
    inv.nexts u (target mv),
    inv.placed (target mv),
  )

  pub Move-owned :
      {e : Event} {m' : McsLock} {p p' : Pc}
      → Move u m e p m' p'
      → pc u ≡ p
      → (v : ℕ) → inside (update pc u p' v) ≡ true
      → m'.owner ≡ some v
  Move-owned call_lock here v h =
      ground (arith, inv.owned v, inv.holds u, inv.holds v, inv.placed u, inv.placed v)
  Move-owned mv here v h =
      ground (arith, tested mv, inv.owned v, inv.holds u, inv.holds v, inv.placed u, inv.placed v)

  pub Move-more :
      {e : Event} {m' : McsLock} {p p' : Pc}
      → Move u m e p m' p'
      → pc u ≡ p
      → (v : ℕ) → update pc u p' v ≡ wait_next
      → (advance e u q).head + 1 < (advance e u q).count
  Move-more call_lock here v h = ground (
    arith,
    inv.more v,
    inv.ordered,
    inv.last,
    inv.placed u,
    inv.placed v,
    inv.holds u,
    inv.holds v,
  )
  Move-more mv here v h = ground (
    arith,
    tested mv,
    inv.more v,
    inv.ordered,
    inv.last,
    inv.placed u,
    inv.placed v,
    inv.holds u,
    inv.holds v,
  )

  pub Move-inner_in :
      {e : Event} {m' : McsLock} {p p' : Pc}
      → Move u m e p m' p'
      → pc u ≡ p
      → (v : ℕ) → inside (update pc u p' v) ≡ true
      → (advance e u q).inner ≡ (advance e u q).head + 1
  Move-inner_in call_lock here v h =
      ground (
        arith,
        inv.inner_in v,
        inv.holds u,
        inv.holds v,
        inv.placed u,
        inv.placed v,
        inv.inner_at u,
      )
  Move-inner_in mv here v h = ground (
    arith,
    tested mv,
    inv.inner_in v,
    inv.holds u,
    inv.holds v,
    inv.placed u,
    inv.placed v,
    inv.inner_at u,
  )

  pub Move-inner_at :
      {e : Event} {m' : McsLock} {p p' : Pc}
      → Move u m e p m' p'
      → pc u ≡ p
      → (v : ℕ) → queued (update pc u p' v) ≡ true
      → inside (update pc u p' v) ≡ false
      → (advance e u q).place v ≡ (advance e u q).head
      → (advance e u q).inner ≡ (advance e u q).head
  Move-inner_at call_lock here v h f g = ground (
    arith,
    inv.inner_at v,
    inv.inner_in u,
    inv.inner_empty,
    inv.ordered,
    inv.last,
    inv.empty,
    inv.holds u,
    inv.placed u,
    inv.placed v,
    inv.inner_at u,
  )
  Move-inner_at mv here v h f g = ground (
    arith,
    tested mv,
    inv.inner_at v,
    inv.inner_in u,
    inv.inner_empty,
    inv.ordered,
    inv.last,
    inv.empty,
    inv.holds u,
    inv.placed u,
    inv.placed v,
    inv.inner_at u,
  )

  pub Move-inner_empty :
      {e : Event} {m' : McsLock} {p p' : Pc}
      → Move u m e p m' p'
      → pc u ≡ p
      → (advance e u q).head ≡ (advance e u q).count
      → (advance e u q).inner ≡ (advance e u q).head
  Move-inner_empty call_lock here g = ground (
    arith,
    inv.inner_empty,
    inv.inner_in u,
    inv.inner_at u,
    inv.ordered,
    inv.holds u,
    inv.placed u,
  )
  Move-inner_empty mv here g = ground (
    arith,
    tested mv,
    inv.inner_empty,
    inv.inner_in u,
    inv.inner_at u,
    inv.ordered,
    inv.holds u,
    inv.placed u,
  )
