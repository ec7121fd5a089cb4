-- ===== src/LogManager/Invariant/Steps.antt =====
-- Every step keeps the invariant, where there is room and a subscription is made while all is
-- published, so that it holds in every state that is reached so.
use racoherence.Prelude.{ℕ, ◌≡◌, ◌∙◌, sym, none, some, ◌∷◌, inl, inr}
use mathlib.Core.Path.{subst, subst₂}
use native.Mathlib.Omega.{arith}
use racoherence.LogManager.{LogManager, get_new_log, is_subscribed}
use racoherence.LogManager.System.{
  System, HasRoom, Step, get, get_null, write_log, claim, announce, consume, unsubscribe, subscribe,
  start, Reach, init, next, SubscribesLate, Calm,
}
use racoherence.LogManager.Defs.{Inv}
use racoherence.LogManager.Invariant.Take.{get_new_log-Inv}
use racoherence.LogManager.Invariant.Produce.{write-Inv, claim-Inv, announce-Inv}
use racoherence.LogManager.Invariant.Consume.{consume-Inv, remove-Inv, add-Inv}
use racoherence.LogManager.Invariant.Init.{new-Inv}

get_some :
    (s : System) (log : ℕ) (m : LogManager)
    → Inv s
    → HasRoom s
    → get_new_log s.mgr ≡ some (some log, m)
    → Inv (record s { mgr = m; hand = log ∷ s.hand })
get_some s log m inv room e = elim (get_new_log-Inv s inv room) [
  | inl (log', m', e', kept, emptied, same) ↦
      subst₂ (λ l r. Inv (record s { mgr = r; hand = l ∷ s.hand })) (ground arith) (ground arith)
        kept
  | inr (m', e', kept, none_free, same, waits) ↦ absurd (cc (sym e ∙ e'))
]

get_none :
    (s : System) (m : LogManager)
    → Inv s
    → HasRoom s
    → get_new_log s.mgr ≡ some (none, m)
    → Inv (record s { mgr = m })
get_none s m inv room e = elim (get_new_log-Inv s inv room) [
  | inl (log', m', e', kept, emptied, same) ↦ absurd (cc (sym e ∙ e'))
  | inr (m', e', kept, none_free, same, waits) ↦
      subst (λ r. Inv (record s { mgr = r })) (ground arith) kept
]

pub Step-Inv : {s t : System} → Inv s → HasRoom s → (st : Step s t) → SubscribesLate st → Inv t
unfolding is_subscribed
Step-Inv {s} inv room (get {log} {m} e) late = get_some s log m inv room e
Step-Inv {s} inv room (get_null {m} e) late = get_none s m inv room e
Step-Inv {s} inv room (write_log before after log cl e fits) late =
    write-Inv s before after log cl inv e
Step-Inv {s} inv room (claim before after log r e) late = claim-Inv s before after log r inv room e
Step-Inv {s} inv room (announce t early pending) late = announce-Inv s t inv room early pending
Step-Inv {s} inv room (consume nid inside remote subbed e) late =
    consume-Inv s nid inv room (record { inside = inside; remote = remote; subbed = subbed }) e
Step-Inv {s} inv room (unsubscribe nid) late = remove-Inv s nid inv
Step-Inv {s} inv room (subscribe nid) quiet = add-Inv s nid inv quiet

-- The invariant holds in every state that the calls reach calmly.
pub Reach-Inv : {nid : ℕ} {s : System} (r : Reach nid s) → Calm r → Inv s
Reach-Inv {nid} (init {m} e) calm =
    let (q, e', inv) = new-Inv nid in subst (λ x. Inv (start x)) (cc (sym e' ∙ e)) inv
Reach-Inv (next r st) (calm, room, late) = Step-Inv (Reach-Inv r calm) room st late
