-- ===== src/LogManager/Invariant/Collect.antt =====
-- LogManager::perform_gc keeps the invariant, and always returns.
use racoherence.Prelude.{
  ℕ, ◌+◌, ◌-◌, ◌≤◌, ◌<◌, ◌≡◌, refl, ap, ◌∙◌, Bool, true, false, ◌≢◌, some, [], ◌++◌, length,
  length-append, count, count-append, values, values-append, values_shift, length-values, arith,
  dec_lt, inl, inr, Bool-cases,
}
use mathlib.Core.Path.{subst}
use racoherence.Config.{u32_mod, log_count, node_count}
use racoherence.SpmcQueue.{Queue}
use racoherence.SpmcQueue.Refine.{contents}
use racoherence.LogManager.{
  perform_gc, gc_bound, gc_fuel, next_round, get_idx, next_idx, prev_round,
}
use racoherence.LogManager.Gc.{
  Freed, log_at, gc_free_lem, gc_free_unsubbed_lem, Reader, Bounded, gc_bound_lem, InStep,
}
use racoherence.LogManager.System.{System, HasRoom}
use racoherence.LogManager.Defs.{Inv, Waits, base, in_flight, uses}

abbrev pub collected : System → Queue → ℕ → System
collected s q b = record s { mgr = record (s.mgr) { freelist = q; bound = b } }

module _ {s : System} (inv : Inv s) (room : HasRoom s) where
  open inv use {
    queue, position, started, tail_in, bound_in, buffers, unique, readers, passed, announced,
    published, content,
  }

  -- The entries freed are those of the `k` oldest positions, all published.
  module _ {q : Queue} {k : ℕ} (freed : Freed s.mgr.entries s.mgr.freelist s.mgr.bound k q)
      (few : k ≤ in_flight s) (all_done : (p : ℕ) → base s ≤ p → p < base s + k → s.done p ≡ true)
      (waited : (j : ℕ) → Reader s.mgr j → s.mgr.bound + k ≤ (s.mgr.subs j).head + log_count) where
    freed_logs : values (log_at s.mgr.entries) s.mgr.bound k ≡ values s.assigned (base s) k
    freed_logs =
        values_shift (log_at s.mgr.entries) s.assigned (base s) log_count k s.mgr.bound
          (omega arith)
          (λ p a b.
            let wraps : get_idx (p + log_count) ≡ get_idx p = omega arith in
            ap (λ t. (s.mgr.entries t).log) wraps
            ∙ ap (λ e. e.log) (published p a (omega arith) (all_done p a b)))

    free_after : contents q ≡ contents s.mgr.freelist ++ values s.assigned (base s) k
    free_after = freed.holds ∙ ap (λ l. contents s.mgr.freelist ++ l) freed_logs

    split :
        values s.assigned (base s) (in_flight s)
        ≡ values s.assigned (base s) k
          ++ values s.assigned
              (s.mgr.bound + k - log_count)
              (s.mgr.tail + log_count - (s.mgr.bound + k))
    split =
        ap (values s.assigned (base s)) (omega arith)
        ∙ values-append s.assigned (base s) k (s.mgr.tail + log_count - (s.mgr.bound + k))
            (s.mgr.bound + k - log_count) (omega arith)

    uses_after : (a : ℕ) → uses (collected s q (s.mgr.bound + k)) a ≡ uses s a
    uses_after a =
        let kept = values s.assigned (base s) k in
        let rest =
          values s.assigned (s.mgr.bound + k - log_count)
            (s.mgr.tail + log_count - (s.mgr.bound + k)) in
        omega (
          arith,
          ap (count a) free_after,
          count-append a (contents s.mgr.freelist) kept,
          ap (count a) split,
          count-append a kept rest,
        )

    Reader-of : {j : ℕ} → Reader (collected s q (s.mgr.bound + k)).mgr j → Reader s.mgr j
    Reader-of r = record { inside = r.inside; remote = r.remote; subbed = r.subbed }

    collected-Inv : Inv (collected s q (s.mgr.bound + k))
    collected-Inv = record {
      queue = freed.valid;
      position = omega (arith, freed.position);
      started = omega arith;
      tail_in = omega arith;
      bound_in = omega arith;
      buffers = omega (
        arith,
        ap (λ l. length l) free_after,
        length-append (contents s.mgr.freelist) (values s.assigned (base s) k),
        length-values s.assigned (base s) k,
      );
      unique = λ a. omega (arith, uses_after a, unique a);
      readers = λ j r. (waited j (Reader-of r), (readers j (Reader-of r)).1);
      passed = λ j p r. passed j p (Reader-of r);
      behind = λ p h. elim (dec_lt p (base s)) [
        | yes early ↦ inv.behind p early
        | no late ↦ all_done p (omega arith) (omega arith)
      ];
      announced = announced;
      published = λ p a. published p (omega arith);
      content = λ p a. content p (omega arith);
    }

  in_step : InStep s.mgr
  in_step j r = let (near, far) = readers j r in (near, omega arith)

  gc : ℕ × Bool
  gc = gc_bound node_count 0 s.mgr (next_round s.mgr.bound, false)

  bounded : Bounded s.mgr 0 (next_round s.mgr.bound) false gc
  unfolding gc
  bounded = gc_bound_lem node_count 0 s.mgr (next_round s.mgr.bound) false refl in_step

  -- What `perform_gc` does: it returns, and nothing but the free list and the bound change.
  abbrev pub Collects : Type 0
  Collects =
      (q : Queue) × (b : ℕ) × (perform_gc s.mgr ≡ some (record (s.mgr) { freelist = q; bound = b }))
      × Inv (collected s q b)
      × (b ≡ s.mgr.bound → Waits s)

  collects_subbed : gc.1 ≡ true → Collects
  unfolding perform_gc gc
  collects_subbed h =
      let low : s.mgr.bound ≤ gc.0 = bounded.lower (omega arith) in
      let reader : (j : ℕ) × Reader s.mgr j = elim (bounded.one_seen h) [
        | inl e ↦ absurd (cc e)
        | inr r ↦ r
      ] in
      let near : gc.0 ≤ s.mgr.tail + log_count =
        omega (arith, bounded.readers reader.0 (omega arith) reader.1, readers reader.0 reader.1) in
      let (q, e, freed) =
        gc_free_lem (gc.0 - s.mgr.bound) gc_fuel s.mgr.bound gc.0 s.mgr.entries s.mgr.freelist
          (omega arith) (omega (arith, bounded.upper)) (omega arith) queue (omega arith)
          (omega arith) in
      let back : s.mgr.bound + (gc.0 - s.mgr.bound) ≡ gc.0 = omega arith in
      (
        q,
        s.mgr.bound + (gc.0 - s.mgr.bound),
        rw (h, e, back, perform_gc),
        collected-Inv freed (omega arith)
            (λ p a c.
              passed reader.0 p reader.1
                (omega (arith, bounded.readers reader.0 (omega arith) reader.1)))
            (λ j r. rw back (bounded.readers j (omega arith) r)),
        λ same. elim (bounded.least) [
          | inl top ↦ absurd (omega (arith, top, same))
          | inr (j, r, least) ↦ inl (j, r, omega (arith, least, same))
        ],
      )

  -- The scan stops at the tail at the latest, whose entry is not published.
  collects_unsubbed : gc.1 ≡ false → contents s.mgr.freelist ≡ [] → Collects
  unfolding perform_gc gc
  collects_unsubbed h empty =
      let low : s.mgr.bound ≤ gc.0 = bounded.lower (omega arith) in
      let (k, q, e, le, freed, stops, seen) =
        gc_free_unsubbed_lem (gc.0 - s.mgr.bound) gc_fuel s.mgr.bound gc.0 s.mgr.entries
          s.mgr.freelist (omega arith) (omega (arith, bounded.upper)) (omega (arith, bounded.upper))
          queue (omega (arith, bounded.upper, ap (λ l. length l) empty)) (omega arith) in
      let shown : (p : ℕ) → base s ≤ p → p < base s + k → (p < s.mgr.tail) × (s.done p ≡ true) =
        λ p a c. announced p (
          shown_at p (omega (arith, bounded.upper))
            (seen (p + log_count) (omega arith) (omega arith))) in
      (
        q,
        s.mgr.bound + k,
        rw (h, e, perform_gc),
        collected-Inv freed (short k shown) (λ p a c. (shown p a c).1)
            (λ j r. absurd ((bounded.none_seen h).1 j (omega arith) r)),
        λ same. inr (
          (λ j. (bounded.none_seen h).1 j (omega arith)),
          λ early. elim (bounded.least) [
            | inl top ↦
                let none_freed : k ≡ 0 = omega (arith, same) in
                pending early (
                  subst (λ t. (s.mgr.entries (get_idx t)).idx ≢ next_idx (prev_round t))
                    (omega (arith, none_freed)) (stops (omega (arith, top, none_freed))))
            | inr (j, r, least) ↦ absurd ((bounded.none_seen h).1 j (omega arith) r)
          ],
        ),
      )
    where
      shown_at :
          (p : ℕ)
          → p + 1 < u32_mod
          → (s.mgr.entries (get_idx (p + log_count))).idx ≡ next_idx (prev_round (p + log_count))
          → (s.mgr.entries (get_idx p)).idx ≡ p + 1
      shown_at p small h =
          ap (λ t. (s.mgr.entries t).idx)
            (let wraps : get_idx p ≡ get_idx (p + log_count) = omega arith in wraps)
          ∙ h
          ∙ omega arith

      pending :
          base s < s.mgr.tail
          → (s.mgr.entries (get_idx s.mgr.bound)).idx ≢ next_idx (prev_round s.mgr.bound)
          → s.done (base s) ≡ false
      pending early off = elim (Bool-cases (s.done (base s))) [
        | inr e ↦ e
        | inl e ↦
            let wraps : get_idx s.mgr.bound ≡ get_idx (base s) = omega arith in
            absurd (
              off (
                ap (λ t. (s.mgr.entries t).idx) wraps
                ∙ ap (λ x. x.idx) (published (base s) (omega arith) early e)
                ∙ omega arith))
      ]

      short :
          (k : ℕ)
          → ((p : ℕ) → base s ≤ p → p < base s + k → (p < s.mgr.tail) × (s.done p ≡ true))
          → k ≤ in_flight s
      short k shown = elim (dec_lt (in_flight s) k) [
        | yes long ↦ omega (arith, (shown s.mgr.tail (omega arith) (omega arith)).0)
        | no ok ↦ omega arith
      ]

  -- `perform_gc` on an empty free list returns, and keeps the invariant.
  pub perform_gc-Inv : contents s.mgr.freelist ≡ [] → Collects
  perform_gc-Inv empty = elim (Bool-cases gc.1) [
    | inl e ↦ collects_subbed e
    | inr e ↦ collects_unsubbed e empty
  ]
