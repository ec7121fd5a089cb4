-- ===== src/McsLock/Progress.antt =====
-- Calls on an MCSLock come to their end: there is always one that can make a step, and each makes few.
use racoherence.Prelude.{
  ℕ, ◌+◌, ◌*◌, ◌≤◌, ◌<◌, ◌≡◌, ◌≢◌, ◌⊎◌, inl, inr, refl, ap, ◌∙◌, true, false, none, some, arith,
  dec_lt, Option-cases, Bool-cases, ℕ_discrete, sum, sum_le, sum-update,
}
use racoherence.McsLock.{
  McsLock, Pc, idle, set_next, set_locked, exchange, link, spin, read_tail, try_next, try_locked,
  try_exchange, own, critical, read_next, compare_tail, wait_next, hand_over, Event, Move,
  call_lock, clear_next, mark_locked, exchange_free, exchange_taken, store_link, stop_spin,
  set_owner, try_busy, try_free, try_clear, try_mark, try_win, try_lose, call_unlock, no_next,
  has_next, compare_win, compare_lose, got_next, pass_on, queued,
}
use racoherence.McsLock.System.{System, Step, pick, Reach, later}
use racoherence.McsLock.Invariant.{Line, Inv, Reach-Sound}

-- A step that a call can make.
record Moves (v : ℕ) (m : McsLock) (p : Pc) : Type 0 where
  event : Event
  mem : McsLock
  pc : Pc
  move : Move v m event p mem pc

moves : {v : ℕ} {m m' : McsLock} {p p' : Pc} {e : Event} → Move v m e p m' p' → Moves v m p
moves mv = record { event = _; mem = _; pc = _; move = mv }

-- A call that has begun is held up only in its own spin, or by a successor that has not linked itself.
ready :
    (v : ℕ) (m : McsLock) (p : Pc)
    → p ≢ idle
    → (p ≡ spin → m.locked v ≡ false)
    → (p ≡ wait_next → m.next v ≢ none)
    → Moves v m p
ready v m idle h f g = absurd (h refl)
ready v m set_next h f g = moves clear_next
ready v m set_locked h f g = moves mark_locked
ready v m exchange h f g = elim (Option-cases m.tail) [
  | inl e ↦ moves (exchange_free e)
  | inr (t, e) ↦ moves (exchange_taken e)
]
ready v m (link p) h f g = moves store_link
ready v m spin h f g = moves (stop_spin (f refl))
ready v m read_tail h f g = elim (Option-cases m.tail) [
  | inl e ↦ moves (try_free e)
  | inr (t, e) ↦ moves (try_busy e)
]
ready v m try_next h f g = moves try_clear
ready v m try_locked h f g = moves try_mark
ready v m try_exchange h f g = elim (Option-cases m.tail) [
  | inl e ↦ moves (try_win e)
  | inr (t, e) ↦ moves (try_lose e)
]
ready v m own h f g = moves set_owner
ready v m critical h f g = moves call_unlock
ready v m read_next h f g = elim (Option-cases (m.next v)) [
  | inl e ↦ moves (no_next e)
  | inr (n, e) ↦ moves (has_next e)
]
ready v m compare_tail h f g = elim (Option-cases m.tail) [
  | inl e ↦ moves (compare_lose (λ x. cc))
  | inr (t, e) ↦ elim (ℕ_discrete t v) [
    | yes same ↦ moves (compare_win (e ∙ ap some same))
    | no other ↦ moves (compare_lose (λ x. ground arith))
  ]
]
ready v m wait_next h f g = elim (Option-cases (m.next v)) [
  | inl e ↦ absurd (g refl e)
  | inr (n, e) ↦ moves (got_next e)
]
ready v m (hand_over n) h f g = moves pass_on

is_waiting : (p : Pc) → (p ≡ wait_next) ⊎ (p ≢ wait_next)
is_waiting wait_next = inl refl
is_waiting p = inr (λ x. cc)

-- A call that has begun and can make a step.
abbrev Able : McsLock → (ℕ → Pc) → Type 0
Able m pc = (v : ℕ) × (pc v ≢ idle) × Moves v m (pc v)

module _ {q : Line} {m : McsLock} {pc : ℕ → Pc} (inv : Inv q m pc) where
  front_moves :
      (v : ℕ)
      → queued (pc v) ≡ true
      → q.place v ≡ q.head
      → (pc v ≡ wait_next → m.next v ≢ none)
      → Able m pc
  front_moves v h at linked =
      (v, (λ x. cc), ready v m (pc v) (λ x. cc) (λ x. inv.freed v x at) linked)

  -- The call behind one that waits for its successor.
  second_moves : (v : ℕ) → pc v ≡ wait_next → m.next v ≡ none → Able m pc
  second_moves v w e = (
    next,
    (λ x. ground (arith, behind)),
    ready next m (pc next) (λ x. ground (arith, behind))
        (λ x. ground (arith, inv.linked next x, inv.placed v, inv.holds v, behind))
        (λ x. ground (arith, inv.holds next, behind)),
  )
    where
      next : ℕ
      next = q.who (q.head + 1)

      behind : (queued (pc next) ≡ true) × (q.place next ≡ q.head + 1)
      behind = inv.present (q.head + 1) (omega arith) (inv.more v w)

  -- Among the calls in line the first one can make a step, or the one behind it.
  line_moves : q.head < q.count → Able m pc
  line_moves some_call = elim (Option-cases (m.next first)) [
    | inr (n, e) ↦ front_moves first here.0 here.1 (λ x y. cc)
    | inl e ↦ elim (is_waiting (pc first)) [
      | inl w ↦ second_moves first w e
      | inr other ↦ front_moves first here.0 here.1 (λ x. absurd (other x))
    ]
  ]
    where
      first : ℕ
      first = q.who q.head

      here : (queued (pc first) ≡ true) × (q.place first ≡ q.head)
      here = inv.present q.head (omega arith) some_call

  -- When a call has begun, there is one that has begun and can make a step.
  some_Able : (u : ℕ) → pc u ≢ idle → Able m pc
  some_Able u h = elim (Bool-cases (queued (pc u))) [
    | inl line ↦ line_moves (omega (arith, inv.placed u line))
    | inr free ↦ (u, h, ready u m (pc u) h (λ x. cc) (λ x. cc))
  ]

-- How many steps are left to a call, at most.
abbrev rank : Pc → ℕ
rank idle = 0
rank (hand_over _) = 1
rank wait_next = 2
rank compare_tail = 3
rank read_next = 4
rank critical = 5
rank own = 6
rank spin = 7
rank (link _) = 8
rank exchange = 9
rank set_locked = 10
rank set_next = 11
rank try_exchange = 7
rank try_locked = 8
rank try_next = 9
rank read_tail = 10

Move-rank :
    {u : ℕ} {m m' : McsLock} {e : Event} {p p' : Pc}
    → Move u m e p m' p'
    → p ≢ idle
    → rank p' < rank p
Move-rank call_lock h = absurd (h refl)
Move-rank mv h = ground arith

rank_le : (p : Pc) → rank p ≤ 11
rank_le p = ground arith

-- A step of a call that has begun.
abbrev pub Continues : {s t : System} → Step s t → Type 0
Continues {s} (pick u mv) = s.pc u ≢ idle

-- A run of `k` steps in which no call begins.
pub data Run (s : System) : ℕ → System → Type 0 where
  nothing : Run s 0 s
  onward : {k : ℕ} {t t' : System} → Run s k t → (st : Step t t') → Continues st → Run s (k + 1) t'

-- No call has a node from `n` on.
abbrev pub Among : ℕ → System → Type 0
Among n s = (u : ℕ) → n ≤ u → s.pc u ≡ idle

Step-sum :
    {n : ℕ} {s t : System}
    → Among n s
    → (st : Step s t) → Continues st
    → Among n t × (sum rank t.pc n + 1 ≤ sum rank s.pc n)
Step-sum {n} {s} few (pick u {p} mv) go = (
  (λ v h. ground (arith, few v h)),
  omega (arith, sum-update rank s.pc u p n within, Move-rank mv go),
)
  where
    within : u < n
    within = elim (dec_lt u n) [ yes b ↦ b | no ge ↦ absurd (go (few u (omega arith))) ]

Run-sum :
    {n : ℕ} {s : System} {k : ℕ} {t : System}
    → Among n s
    → Run s k t
    → Among n t × (sum rank t.pc n + k ≤ sum rank s.pc n)
Run-sum few nothing = (few, omega arith)
Run-sum few (onward r st go) =
    let (few', le) = Run-sum few r in
    let (few'', less) = Step-sum few' st go in (few'', omega (arith, le, less))

Run-Reach : {s : System} {k : ℕ} {t : System} → Reach s → Run s k t → Reach t
Run-Reach r nothing = r
Run-Reach r (onward run st go) = later (Run-Reach r run) st

-- From a state that `n` calls have reached, a run in which no new call begins has at most 11 * n steps;
-- and as long as a call has not returned, some call can make a further step. So, if no caller keeps the
-- lock, every call returns.
pub calls_end :
    {n k : ℕ} {s t : System}
    → Reach s
    → Among n s
    → Run s k t
    → (k ≤ 11 * n) × ((u : ℕ) → t.pc u ≢ idle → (t' : System) × (st : Step t t') × Continues st)
calls_end {n} {s = s} reach few run = (
  omega (arith, (Run-sum few run).1, sum_le rank 11 rank_le s.pc n),
  (λ u h.
      let (q, ok) = Reach-Sound (Run-Reach reach run) in
      let (v, going, step) = some_Able ok.inv u h in (_, pick v step.move, going)),
)
