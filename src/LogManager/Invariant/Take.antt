-- ===== src/LogManager/Invariant/Take.antt =====
-- LogManager::get_new_log keeps the invariant, and always returns.
use racoherence.Prelude.{
  ℕ, ◌+◌, ◌≤◌, ◌<◌, ◌≡◌, ◌≢◌, refl, ap, ◌∙◌, none, some, List, [], ◌∷◌, length, count, values,
  count-values, arith, inl, inr, ◌⊎◌, update, update_ne, update_self, count_mem,
}
use racoherence.SpmcQueue.{Queue}
use racoherence.SpmcQueue.Refine.{contents, dequeue_refines}
use racoherence.LogManager.{LogManager, get_new_log, take_free}
use racoherence.LogManager.System.{System, HasRoom}
use racoherence.LogManager.Defs.{Inv, Waits, base, in_flight}
use racoherence.LogManager.Invariant.Collect.{perform_gc-Inv, collected}

-- A buffer that is used elsewhere is not that of a position in flight.
pub assigned-ne :
    {s : System} (inv : Inv s) (log p : ℕ)
    → 1 ≤ count log (contents s.mgr.freelist) + count log s.hand
    → base s ≤ p
    → p < s.mgr.tail
    → log ≢ s.assigned p
assigned-ne {s} inv log p used a b e = omega (
  arith,
  inv.unique log,
  inv.started,
  inv.bound_in,
  count-values s.assigned (base s) (in_flight s) p a (omega (arith, inv.started, inv.bound_in)),
  ap (λ l. count l (values s.assigned (base s) (in_flight s))) e,
)

-- The thread has the log, emptied.
abbrev pub taken : System → Queue → ℕ → System
taken s q log = record s {
  mgr = record (s.mgr) { freelist = q; buf = update (s.mgr.buf) log [] };
  hand = log ∷ s.hand;
}

take_free-Inv :
    {s : System}
    → Inv s
    → HasRoom s
    → ((contents s.mgr.freelist ≡ []) × (take_free s.mgr ≡ some (none, s.mgr)))
      ⊎ ((q : Queue) × (log : ℕ) × (take_free s.mgr
            ≡ some (some log, record (s.mgr) { freelist = q; buf = update (s.mgr.buf) log [] }))
          × Inv (taken s q log))
unfolding take_free
take_free-Inv {s} inv room = elim (dequeue_refines 0 inv.queue) [
  | inl (empty, e) ↦ inl (empty, rw (e, take_free))
  | inr (log, q, e, valid, head, pos) ↦ inr (
    q,
    log,
    rw (e, take_free),
    record {
      queue = valid;
      position = pos ∙ inv.position;
      started = inv.started;
      tail_in = inv.tail_in;
      bound_in = inv.bound_in;
      buffers = omega (arith, ap (λ l. length l) head, inv.buffers);
      unique = λ a. omega (arith, ap (count a) head, inv.unique a);
      readers =
          λ j r. inv.readers j (record { inside = r.inside; remote = r.remote; subbed = r.subbed });
      passed = λ j p r.
          inv.passed j p (record { inside = r.inside; remote = r.remote; subbed = r.subbed });
      behind = inv.behind;
      announced = inv.announced;
      published = inv.published;
      content = λ p a b.
          update_ne s.mgr.buf log (s.assigned p) [] (assigned-ne inv log p (held head) a b)
          ∙ inv.content p a b;
    },
  )
]
  where
    held :
        {log : ℕ} {rest : List ℕ}
        → contents s.mgr.freelist ≡ log ∷ rest
        → 1 ≤ count log (contents s.mgr.freelist) + count log s.hand
    held {log} {rest} head = omega (arith, ap (count log) head, count_mem log [] rest)

-- The two ways in which `get_new_log` returns: with a log, emptied and now the caller's, or with the
-- null pointer; in both the invariant is kept.
abbrev pub Got : System → Type 0
Got s =
    (log : ℕ) × (m : LogManager) × (get_new_log s.mgr ≡ some (some log, m))
    × Inv (record s { mgr = m; hand = log ∷ s.hand })
    × (m.buf log ≡ [])
    × (m.tail ≡ s.mgr.tail)

abbrev pub Null : System → Type 0
Null s =
    (m : LogManager) × (get_new_log s.mgr ≡ some (none, m))
    × Inv (record s { mgr = m })
    × (contents m.freelist ≡ [])
    × (m.tail ≡ s.mgr.tail)
    × Waits s

-- `get_new_log` on a manager that satisfies the invariant, away from the wrap of its index, always
-- returns; it keeps the invariant, whether it finds a free log, collects one, or finds none.
pub get_new_log-Inv : (s : System) → Inv s → HasRoom s → Got s ⊎ Null s
unfolding get_new_log
get_new_log-Inv s inv room = elim (take_free-Inv inv room) [
  | inr (q, log, e, kept) ↦
      inl (log, (taken s q log).mgr, rw (e, get_new_log), kept, update_self s.mgr.buf log [], refl)
  | inl (empty, e) ↦
      let (q, b, gc, kept, waits) = perform_gc-Inv inv room empty in
      elim (take_free-Inv kept room) [
        | inr (q', log, e', kept') ↦ inl (
          log,
          (taken (collected s q b) q' log).mgr,
          rw (e, e, gc, e', get_new_log),
          kept',
          update_self s.mgr.buf log [],
          refl,
        )
        | inl (empty', e') ↦
            let same : b ≡ s.mgr.bound = omega (
              arith,
              inv.buffers,
              kept.buffers,
              inv.tail_in,
              kept.tail_in,
              ap (λ l. length l) empty,
              ap (λ l. length l) empty',
            ) in
            inr (
              (collected s q b).mgr,
              rw (e, e, gc, e', get_new_log),
              kept,
              empty',
              refl,
              waits same,
            )
      ]
]
