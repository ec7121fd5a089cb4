-- ===== src/McsLock/Invariant/Links.antt =====
-- A step of a call keeps what `Inv` says of `next` and `locked` of the nodes in line.
use racoherence.Prelude.{ℕ, ◌+◌, ◌-◌, ◌<◌, ◌≡◌, true, false, none, some, update, arith}
use racoherence.McsLock.{McsLock, Pc, Event, Move, queued, link, spin, call_lock, store_link}
use racoherence.McsLock.Invariant.Defs.{Line, advance, Inv}
use racoherence.McsLock.Invariant.Facts.{tested, target, last_free, at_end}

module _ {q : Line} {m : McsLock} {pc : ℕ → Pc} (inv : Inv q m pc) (u : ℕ) where
  pub Move-links :
      {e : Event} {m' : McsLock} {p p' : Pc}
      → Move u m e p m' p'
      → pc u ≡ p
      → (v k : ℕ) → update pc u p' v ≡ link k
      → ((advance e u q).head < (advance e u q).place v)
        × ((advance e u q).who ((advance e u q).place v - 1) ≡ k)
        × (m'.locked v ≡ true)
        × (m'.next k ≡ none)
  Move-links call_lock here v k h = ground (
    arith,
    inv.ordered,
    inv.empty,
    inv.last,
    inv.links v k,
    inv.placed u,
    inv.placed v,
    inv.holds u,
    inv.armed_locked u,
    inv.present (q.count - 1),
    inv.present (q.place v - 1),
    inv.present (q.place u - 1),
    last_free inv u,
    at_end inv u u,
  )
  Move-links mv here v k h = ground (
    arith,
    tested mv,
    inv.ordered,
    inv.empty,
    inv.last,
    inv.links v k,
    inv.placed u,
    inv.placed v,
    inv.holds u,
    inv.armed_locked u,
    inv.present (q.count - 1),
    inv.present (q.place v - 1),
    inv.present (q.place u - 1),
    last_free inv u,
    at_end inv u u,
    inv.links u (target mv),
    inv.handing u (target mv),
    inv.nexts u (target mv),
    inv.placed (target mv),
  )

  pub Move-waits :
      {e : Event} {m' : McsLock} {p p' : Pc}
      → Move u m e p m' p'
      → pc u ≡ p
      → (v : ℕ) → update pc u p' v ≡ spin
      → m'.locked v ≡ false
      → (advance e u q).place v ≡ (advance e u q).head
  Move-waits call_lock here v h f =
      ground (arith, inv.waits v, inv.placed v, inv.placed u, inv.holds u, at_end inv u u)
  Move-waits mv here v h f = ground (
    arith,
    tested mv,
    inv.waits v,
    inv.placed v,
    inv.placed u,
    inv.holds u,
    at_end inv u u,
    inv.links u (target mv),
    inv.handing u (target mv),
    inv.nexts u (target mv),
    inv.placed (target mv),
  )

  pub Move-freed :
      {e : Event} {m' : McsLock} {p p' : Pc}
      → Move u m e p m' p'
      → pc u ≡ p
      → (v : ℕ) → update pc u p' v ≡ spin
      → (advance e u q).place v ≡ (advance e u q).head
      → m'.locked v ≡ false
  Move-freed call_lock here v h f =
      ground
        (arith, inv.freed v, inv.placed u, inv.placed v, inv.holds u, inv.ordered, at_end inv u u)
  Move-freed mv here v h f = ground (
    arith,
    tested mv,
    inv.freed v,
    inv.placed u,
    inv.placed v,
    inv.holds u,
    inv.ordered,
    at_end inv u u,
    inv.links u (target mv),
    inv.handing u (target mv),
    inv.nexts u (target mv),
    inv.placed (target mv),
  )

  pub Move-linked :
      {e : Event} {m' : McsLock} {p p' : Pc}
      → Move u m e p m' p'
      → pc u ≡ p
      → (v : ℕ) → update pc u p' v ≡ spin
      → (advance e u q).head < (advance e u q).place v
      → m'.next ((advance e u q).who ((advance e u q).place v - 1)) ≡ some v
  Move-linked call_lock here v h f = ground (
    arith,
    inv.linked v,
    inv.placed u,
    inv.placed v,
    inv.holds u,
    inv.ordered,
    inv.present (q.place v - 1),
    inv.present (q.place u - 1),
  )
  Move-linked mv here v h f = ground (
    arith,
    tested mv,
    inv.linked v,
    inv.placed u,
    inv.placed v,
    inv.holds u,
    inv.ordered,
    inv.present (q.place v - 1),
    inv.present (q.place u - 1),
    inv.links u (target mv),
    inv.handing u (target mv),
    inv.nexts u (target mv),
    inv.placed (target mv),
  )

  pub Move-nexts :
      {e : Event} {m' : McsLock} {p p' : Pc}
      → Move u m e p m' p'
      → pc u ≡ p
      → (v n : ℕ) → queued (update pc u p' v) ≡ true
      → m'.next v ≡ some n
      → (update pc u p' n ≡ spin)
        × (m'.locked n ≡ true)
        × ((advance e u q).place n ≡ (advance e u q).place v + 1)
  Move-nexts call_lock here v n h f = ground (
    arith,
    inv.nexts v n,
    inv.placed u,
    inv.placed v,
    inv.placed n,
    inv.holds u,
    inv.clear u,
    inv.present (q.place u - 1),
  )
  Move-nexts (store_link {p = k}) here v n h f = ground (
    arith,
    inv.nexts v n,
    inv.links u k,
    inv.placed u,
    inv.placed v,
    inv.placed k,
    inv.present (q.place u - 1),
  )
  Move-nexts mv here v n h f = ground (
    arith,
    tested mv,
    inv.nexts v n,
    inv.placed u,
    inv.placed v,
    inv.placed n,
    inv.holds u,
    inv.clear u,
    inv.links u (target mv),
    inv.handing u (target mv),
    inv.nexts u (target mv),
    inv.placed (target mv),
  )
