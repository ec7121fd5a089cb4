-- ===== src/LogManager/Invariant/Produce.antt =====
-- Writing to a log, and the two halves of LogManager::produce_tail, keep the invariant.
use racoherence.Prelude.{
  ℕ, suc, ◌+◌, ◌-◌, ◌≤◌, ◌<◌, ◌≡◌, ap, ◌∙◌, sym, Bool, true, false, List, [], ◌∷◌, ◌++◌, length,
  length-append, count, count-append, count_mem, values, values_snoc, values_shift, arith, update,
  update_ne, update_self, ℕ_discrete, dec_lt,
}
use racoherence.Config.{log_count}
use racoherence.SpmcQueue.Refine.{contents}
use racoherence.LogManager.{claim_tail, publish, write, get_idx, next_idx}
use racoherence.LogManager.Gc.{Reader}
use racoherence.LogManager.System.{System, HasRoom}
use racoherence.LogManager.Defs.{Inv, base, in_flight}
use racoherence.LogManager.Invariant.Take.{assigned-ne}

held :
    (s : System) (before after : List ℕ) (log : ℕ)
    → s.hand ≡ before ++ log ∷ after
    → 1 ≤ count log (contents s.mgr.freelist) + count log s.hand
held s before after log e = omega (arith, ap (count log) e, count_mem log before after)

-- A thread writes only to a log that it holds.
pub write-Inv :
    (s : System) (before after : List ℕ) (log cl : ℕ)
    → Inv s
    → s.hand ≡ before ++ log ∷ after
    → Inv (record s {
      mgr = record (s.mgr) { buf = update (s.mgr.buf) log (write (s.mgr.buf log) cl) };
    })
write-Inv s before after log cl inv e = record {
  queue = inv.queue;
  position = inv.position;
  started = inv.started;
  tail_in = inv.tail_in;
  bound_in = inv.bound_in;
  buffers = inv.buffers;
  unique = inv.unique;
  readers =
      λ j r. inv.readers j (record { inside = r.inside; remote = r.remote; subbed = r.subbed });
  passed =
      λ j p r. inv.passed j p (record { inside = r.inside; remote = r.remote; subbed = r.subbed });
  behind = inv.behind;
  announced = inv.announced;
  published = inv.published;
  content = λ p a b.
      update_ne s.mgr.buf log (s.assigned p) (write (s.mgr.buf log) cl)
        (assigned-ne inv log p (held s before after log e) a b)
      ∙ inv.content p a b;
}

-- The position claimed, with the log, its content and its kind.
abbrev pub claimed : System → List ℕ → List ℕ → ℕ → Bool → System
claimed s before after log r = record {
  mgr = (claim_tail s.mgr).1;
  hand = before ++ after;
  assigned = update s.assigned (s.mgr.tail) log;
  sent = update s.sent (s.mgr.tail) (s.mgr.buf log);
  rel = update s.rel (s.mgr.tail) r;
  done = update s.done (s.mgr.tail) false;
}

module _ (s : System) (before after : List ℕ) (log : ℕ) (r : Bool) (inv : Inv s) (room : HasRoom s)
    (e : s.hand ≡ before ++ log ∷ after) where
  t : System
  t = claimed s before after log r

  -- The thread holds a log, so that fewer than LOG_COUNT positions are in flight.
  space : suc (s.mgr.tail) ≤ s.mgr.bound
  space =
      omega
        (arith, inv.buffers, ap (λ l. length l) e, length-append before (log ∷ after), inv.started)

  tail_after : next_idx s.mgr.tail ≡ suc (s.mgr.tail)
  tail_after = omega arith

  window_after :
      values (update s.assigned s.mgr.tail log) (base s) (suc (in_flight s))
      ≡ values s.assigned (base s) (in_flight s) ++ log ∷ []
  window_after =
      let kept : values (update s.assigned s.mgr.tail log) (base s) (in_flight s)
          ≡ values s.assigned (base s) (in_flight s) =
        values_shift (update s.assigned s.mgr.tail log) s.assigned (base s) 0 (in_flight s) (base s)
          (omega arith)
          (λ p a b.
            let same : p + 0 ≡ p = omega arith in
            ap (update s.assigned s.mgr.tail log) same
            ∙ update_ne s.assigned s.mgr.tail p log (omega (arith, inv.started, inv.bound_in))) in
      values_snoc (update s.assigned s.mgr.tail log) (base s) (in_flight s) s.mgr.tail
        (omega (arith, inv.started, inv.bound_in))
      ∙ ap (λ l. l ++ update s.assigned s.mgr.tail log s.mgr.tail ∷ []) kept
      ∙ ap (λ x. values s.assigned (base s) (in_flight s) ++ x ∷ [])
          (update_self s.assigned s.mgr.tail log)

  flight_after : next_idx s.mgr.tail + log_count - s.mgr.bound ≡ suc (in_flight s)
  flight_after = omega (arith, inv.bound_in)

  claim_published :
      (p : ℕ)
      → base s ≤ p
      → p < suc (s.mgr.tail)
      → update s.done s.mgr.tail false p ≡ true
      → s.mgr.entries (get_idx p) ≡ record {
        log = update s.assigned s.mgr.tail log p;
        idx = p + 1;
        is_rel = update s.rel s.mgr.tail r p;
      }
  claim_published p a b d = elim (ℕ_discrete s.mgr.tail p) [
    | yes same ↦ absurd (ground arith)
    | no other ↦
        let old =
          inv.published p a (omega arith) (sym (update_ne s.done s.mgr.tail p false other) ∙ d) in
        rw (update_ne s.assigned s.mgr.tail p log other, update_ne s.rel s.mgr.tail p r other) old
  ]

  claim_content :
      (p : ℕ)
      → base s ≤ p
      → p < suc (s.mgr.tail)
      → s.mgr.buf (update s.assigned s.mgr.tail log p) ≡ update s.sent s.mgr.tail (s.mgr.buf log) p
  claim_content p a b = elim (ℕ_discrete s.mgr.tail p) [
    | yes same ↦ ground arith
    | no other ↦
        rw
          (
            update_ne s.assigned s.mgr.tail p log other,
            update_ne s.sent s.mgr.tail p (s.mgr.buf log) other,
          )
          (inv.content p a (omega arith))
  ]

  pub claim-Inv : Inv (claimed s before after log r)
  unfolding claim_tail
  claim-Inv = record {
    queue = inv.queue;
    position = inv.position;
    started = inv.started;
    tail_in = omega (arith, space);
    bound_in = omega (arith, inv.bound_in);
    buffers = omega (
      arith,
      inv.buffers,
      flight_after,
      ap (λ l. length l) e,
      length-append before (log ∷ after),
      length-append before after,
    );
    unique = λ a. omega (
      arith,
      inv.unique a,
      ap (λ n. count a (values (update s.assigned s.mgr.tail log) (base s) n)) flight_after,
      ap (count a) window_after,
      count-append a (values s.assigned (base s) (in_flight s)) (log ∷ []),
      ap (count a) e,
      count-append a before (log ∷ after),
      count-append a before after,
    );
    readers = λ j reader.
        let (near, far) =
          inv.readers j
            (record { inside = reader.inside; remote = reader.remote; subbed = reader.subbed }) in
        (near, omega arith);
    passed = λ j p reader h.
        let reader' : Reader s.mgr j = record {
          inside = reader.inside;
          remote = reader.remote;
          subbed = reader.subbed;
        } in
        update_ne s.done s.mgr.tail p false (omega (arith, inv.readers j reader'))
        ∙ inv.passed j p reader' h;
    behind = λ p h.
        update_ne s.done s.mgr.tail p false (omega (arith, inv.bound_in, inv.started))
        ∙ inv.behind p h;
    announced = λ p h.
        let (early, finished) = inv.announced p h in
        (omega arith, update_ne s.done s.mgr.tail p false (omega arith) ∙ finished);
    published = λ p a b d. claim_published p a (omega arith) d;
    content = λ p a b. claim_content p a (omega arith);
  }

-- A claimed position that its thread publishes.
pub announce-Inv :
    (s : System) (t : ℕ)
    → Inv s
    → HasRoom s
    → t < s.mgr.tail
    → s.done t ≡ false
    → Inv (record s { mgr = publish s.mgr t (s.assigned t) (s.rel t); done = update s.done t true })
unfolding publish
announce-Inv s t inv room early pending =
    let recent : base s ≤ t = not_behind in
    record {
      queue = inv.queue;
      position = inv.position;
      started = inv.started;
      tail_in = inv.tail_in;
      bound_in = inv.bound_in;
      buffers = inv.buffers;
      unique = inv.unique;
      readers =
          λ j r. inv.readers j (record { inside = r.inside; remote = r.remote; subbed = r.subbed });
      passed = λ j p r h.
          stays p
            (inv.passed j p (record { inside = r.inside; remote = r.remote; subbed = r.subbed }) h);
      behind = λ p h. stays p (inv.behind p h);
      announced = λ p h. elim (ℕ_discrete t p) [
        | yes same ↦ ground arith
        | no other ↦ ground (arith, inv.announced p)
      ];
      published = λ p a b d. elim (ℕ_discrete t p) [
        | yes same ↦ ground arith
        | no other ↦ ground (arith, inv.published p a b)
      ];
      content = inv.content;
    }
  where
    stays : (p : ℕ) → s.done p ≡ true → update s.done t true p ≡ true
    stays p h = ground arith

    not_behind : base s ≤ t
    not_behind = elim (dec_lt t (base s)) [
      | yes h ↦ absurd (cc (inv.behind t h))
      | no h ↦ omega arith
    ]
