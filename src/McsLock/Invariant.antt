-- ===== src/McsLock/Invariant.antt =====
-- Every reachable state of an MCSLock satisfies the invariant, for some line of calls.
mod Defs
mod Facts
mod Order
mod Links
mod Nodes
unfoldable pub use Defs.*
use Order.*
use Links.*
use Nodes.*
use racoherence.Prelude.{
  ℕ, zero, suc, ◌+◌, ◌-◌, ◌≤◌, ◌<◌, ◌≡◌, refl, sym, ap, ◌∙◌, true, false, none, some, List, [], ◌∷◌,
  update, arith,
}
use racoherence.McsLock.{McsLock, Pc, idle, Event, quiet, arrive, enter, leave, Move, set_owner}
use racoherence.McsLock.System.{System, Step, pick, init, Reach, start, later, arrived, entered}

Move-Inv :
    {q : Line} {e : Event} {m m' : McsLock} {pc : ℕ → Pc} {p p' : Pc} (u : ℕ)
    → Inv q m pc
    → Move u m e p m' p'
    → pc u ≡ p
    → Inv (advance e u q) m' (update pc u p')
Move-Inv u inv mv here = record {
  ordered = Move-ordered inv u mv here;
  empty = Move-empty inv u mv here;
  last = Move-last inv u mv here;
  present = Move-present inv u mv here;
  placed = Move-placed inv u mv here;
  holds = Move-holds inv u mv here;
  links = Move-links inv u mv here;
  waits = Move-waits inv u mv here;
  freed = Move-freed inv u mv here;
  linked = Move-linked inv u mv here;
  nexts = Move-nexts inv u mv here;
  clear = Move-clear inv u mv here;
  armed_locked = Move-armed_locked inv u mv here;
  handing = Move-handing inv u mv here;
  owned = Move-owned inv u mv here;
  more = Move-more inv u mv here;
  inner_in = Move-inner_in inv u mv here;
  inner_at = Move-inner_at inv u mv here;
  inner_empty = Move-inner_empty inv u mv here;
}

-- The line of no call.
abbrev nobody : Line
nobody = record { who = λ k. 0; place = λ v. 0; head = 0; count = 0; inner = 0 }

Inv-init : Inv nobody init (λ u. idle)
Inv-init = record {
  ordered = omega arith;
  empty = λ h. refl;
  last = λ h. absurd (omega arith);
  present = λ p a b. absurd (omega arith);
  placed = λ u h. cc;
  holds = λ u h. refl;
  links = λ u p h. cc;
  waits = λ u h f. refl;
  freed = λ u h f. refl;
  linked = λ u h f. cc;
  nexts = λ u n h f. cc;
  clear = λ u h. refl;
  armed_locked = λ u h. cc;
  handing = λ u n h. cc;
  owned = λ u h. cc;
  more = λ u h. cc;
  inner_in = λ u h. cc;
  inner_at = λ u h f g. refl;
  inner_empty = λ h. refl;
}

-- The line agrees with the state.
pub record Sound (q : Line) (s : System) : Type 0 where
  pub inv : Inv q s.mem s.pc
  pub arrivals : s.arrivals ≡ history q.who q.count
  pub entries : s.entries ≡ history q.who q.inner

history-update : (who : ℕ → ℕ) (c u n : ℕ) → n ≤ c → history (update who c u) n ≡ history who n
unfolding history
history-update who c u zero le = refl
history-update who c u (suc n) le = ground (arith, history-update who c u n (omega arith))

pub inner_le : {q : Line} {m : McsLock} {pc : ℕ → Pc} → Inv q m pc → q.inner ≤ q.count
inner_le {q} inv = ground (
  arith,
  inv.ordered,
  inv.inner_empty,
  inv.present q.head,
  inv.inner_in (q.who q.head),
  inv.inner_at (q.who q.head),
)

arrived-history :
    (e : Event) (u : ℕ) (q : Line)
    → arrived e u (history q.who q.count) ≡ history (advance e u q).who (advance e u q).count
unfolding history
arrived-history arrive u q = ground (arith, history-update q.who q.count u q.count (omega arith))
arrived-history quiet u q = refl
arrived-history enter u q = refl
arrived-history leave u q = refl

entered-history :
    (e : Event) (u : ℕ) (q : Line)
    → q.inner ≤ q.count
    → (e ≡ enter → q.who q.inner ≡ u)
    → entered e u (history q.who q.inner) ≡ history (advance e u q).who (advance e u q).inner
unfolding history
entered-history enter u q le next = ground (arith, next refl)
entered-history arrive u q le next = sym (history-update q.who q.count u q.inner le)
entered-history quiet u q le next = refl
entered-history leave u q le next = refl

-- The step that gets the lock is of the first in line that has not had it.
enters_first :
    (u : ℕ) {q : Line} {e : Event} {m m' : McsLock} {pc : ℕ → Pc} {p p' : Pc}
    → Inv q m pc
    → Move u m e p m' p'
    → pc u ≡ p
    → e ≡ enter
    → q.who q.inner ≡ u
enters_first u inv set_owner here eq = ground (arith, inv.placed u, inv.holds u, inv.inner_at u)
enters_first u inv mv here eq = cc

Step-Sound : {q : Line} {s t : System} → Sound q s → Step s t → (q' : Line) × Sound q' t
Step-Sound {q} ok (pick u {e} mv) = (
  advance e u q,
  record {
    inv = Move-Inv u ok.inv mv refl;
    arrivals = ap (arrived e u) ok.arrivals ∙ arrived-history e u q;
    entries =
        ap (entered e u) ok.entries
        ∙ entered-history e u q (inner_le ok.inv) (enters_first u ok.inv mv refl);
  },
)

pub Reach-Sound : {s : System} → Reach s → (q : Line) × Sound q s
unfolding history
Reach-Sound start = (nobody, record { inv = Inv-init; arrivals = refl; entries = refl })
Reach-Sound (later r st) = let (q, ok) = Reach-Sound r in Step-Sound ok st
