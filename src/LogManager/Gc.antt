-- ===== src/LogManager/Gc.antt =====
-- The loops of LogManager::perform_gc: the bound that they compute and the logs that they free.
use racoherence.Prelude.{
  ℕ, zero, suc, ◌+◌, ◌^◌, ◌≤◌, ◌<◌, ◌≡◌, ◌≢◌, ap, ◌∙◌, Bool, true, false, not, ◌||◌, some, [], ◌∷◌,
  ◌++◌, ◌==◌, length, values, arith, Bool-cases, sym, length-append, ℕ_discrete, inl, inr, ◌⊎◌,
  ==_iff, refl, ◌&&◌, if◌then◌else◌, ltb, leb,
}
use mathlib.Core.Path.{subst}
use mathlib.Core.List.{append_assoc, append-nil}
use racoherence.Config.{u32_mod, log_count, node_count}
use racoherence.SpmcQueue.{Queue}
use racoherence.SpmcQueue.Refine.{IsValid, contents, enqueue_refines}
use racoherence.LogManager.{
  LogManager, PubEntry, gc_bound, push_free, gc_free, gc_free_unsubbed, prev_round, next_round,
  get_idx, next_idx,
}

pub push_free_lem :
    (q : Queue) (log : ℕ)
    → IsValid q
    → length (contents q) < log_count
    → q.enqueue_pos + log_count + 1 < 2 ^ 63
    → (q' : Queue) × (push_free q log ≡ some q')
      × IsValid q'
      × (contents q' ≡ contents q ++ log ∷ [])
      × (q'.enqueue_pos ≡ q.enqueue_pos + 1)
unfolding push_free
push_free_lem q log i room h =
    let (q', e, valid, holds, pos) = enqueue_refines 0 log i room h in
    (q', rw (e, push_free), valid, holds, pos)

abbrev pub log_at : (ℕ → PubEntry) → ℕ → ℕ
log_at entries i = (entries (get_idx i)).log

-- What a loop that frees `n` entries from `i` on leaves in the free list.
pub record Freed (entries : ℕ → PubEntry) (q : Queue) (i n : ℕ) (q' : Queue) : Type 0 where
  pub valid : IsValid q'
  pub holds : contents q' ≡ contents q ++ values (log_at entries) i n
  pub position : q'.enqueue_pos ≡ q.enqueue_pos + n

Freed-cons :
    (entries : ℕ → PubEntry) {q q1 q' : Queue} {i n : ℕ}
    → contents q1 ≡ contents q ++ log_at entries i ∷ []
    → q1.enqueue_pos ≡ q.enqueue_pos + 1
    → Freed entries q1 (i + 1) n q'
    → Freed entries q i (suc n) q'
Freed-cons entries {q} {i} {n} c e f = record {
  valid = f.valid;
  holds =
      f.holds
      ∙ ap (λ l. l ++ values (log_at entries) (i + 1) n) c
      ∙ append_assoc (contents q) (log_at entries i ∷ []) (values (log_at entries) (i + 1) n);
  position = omega (arith, f.position);
}

gc_free-more :
    (fuel i new_b : ℕ) (entries : ℕ → PubEntry) (q q1 : Queue)
    → (i == new_b) ≡ false
    → push_free q (log_at entries i) ≡ some q1
    → next_idx i ≡ i + 1
    → gc_free (suc fuel) i new_b entries q ≡ gc_free fuel (i + 1) new_b entries q1
unfolding gc_free
gc_free-more fuel i new_b entries q q1 more pushed step =
    rw (more, pushed, gc_free) (ap (λ t. gc_free fuel t new_b entries q1) step)

gc_free_unsubbed-more :
    (fuel i new_b : ℕ) (entries : ℕ → PubEntry) (q q1 : Queue)
    → (i == new_b) ≡ false
    → ((entries (get_idx i)).idx == next_idx (prev_round i)) ≡ true
    → push_free q (log_at entries i) ≡ some q1
    → next_idx i ≡ i + 1
    → gc_free_unsubbed (suc fuel) i new_b entries q ≡ gc_free_unsubbed fuel (i + 1) new_b entries q1
unfolding gc_free_unsubbed
gc_free_unsubbed-more fuel i new_b entries q q1 more go pushed step =
    rw (more, go, pushed, gc_free_unsubbed)
      (ap (λ t. gc_free_unsubbed fuel t new_b entries q1) step)

-- With a subscriber: every entry from `i` to the new bound is freed.
pub gc_free_lem :
    (n fuel i new_b : ℕ) (entries : ℕ → PubEntry) (q : Queue)
    → i + n ≡ new_b
    → n < fuel
    → new_b + log_count < u32_mod
    → IsValid q
    → length (contents q) + n ≤ log_count
    → q.enqueue_pos ≤ i
    → (q' : Queue) × (gc_free fuel i new_b entries q ≡ some q') × Freed entries q i n q'
unfolding gc_free
gc_free_lem n zero i new_b entries q e f b v room pos = absurd (omega arith)
gc_free_lem zero (suc fuel) i new_b entries q e f b v room pos =
    let same : (i == new_b) ≡ true = ground arith in
    (
      q,
      rw (same, gc_free),
      record { valid = v; holds = sym (append-nil (contents q)); position = omega arith },
    )
gc_free_lem (suc n) (suc fuel) i new_b entries q e f b v room pos =
    let more : (i == new_b) ≡ false = ground arith in
    let (q1, pushed, v1, c1, p1) =
      push_free_lem q (log_at entries i) v (omega arith) (omega arith) in
    let step : next_idx i ≡ i + 1 = omega arith in
    let room1 : length (contents q1) + n ≤ log_count =
      omega (arith, ap (λ l. length l) c1, length-append (contents q) (log_at entries i ∷ [])) in
    let (q', rest, freed) =
      gc_free_lem n fuel (i + 1) new_b entries q1 (omega arith) (omega arith) b v1 room1
        (omega (arith, p1)) in
    (
      q',
      gc_free-more fuel i new_b entries q q1 more pushed step ∙ rest,
      Freed-cons entries c1 p1 freed,
    )

-- With no subscriber: the entries from `i` up to some bound are freed, each of them is published, and
-- the one that the loop stops at is not.
pub gc_free_unsubbed_lem :
    (n fuel i new_b : ℕ) (entries : ℕ → PubEntry) (q : Queue)
    → i + n ≡ new_b
    → n < fuel
    → new_b + log_count < u32_mod
    → IsValid q
    → length (contents q) + n ≤ log_count
    → q.enqueue_pos ≤ i
    → (k : ℕ) × (q' : Queue) × (gc_free_unsubbed fuel i new_b entries q ≡ some (i + k, q'))
      × (k ≤ n)
      × Freed entries q i k q'
      × (k < n → (entries (get_idx (i + k))).idx ≢ next_idx (prev_round (i + k)))
      × ((j : ℕ) → i ≤ j → j < i + k → (entries (get_idx j)).idx ≡ next_idx (prev_round j))
unfolding gc_free_unsubbed
gc_free_unsubbed_lem n zero i new_b entries q e f b v room pos = absurd (omega arith)
gc_free_unsubbed_lem zero (suc fuel) i new_b entries q e f b v room pos =
    let same : (i == new_b) ≡ true = ground arith in
    let stay : i + 0 ≡ i = omega arith in
    (
      0,
      q,
      rw (same, stay, gc_free_unsubbed),
      omega arith,
      record { valid = v; holds = sym (append-nil (contents q)); position = omega arith },
      λ h. absurd (omega arith),
      λ j a c. absurd (omega arith),
    )
gc_free_unsubbed_lem (suc n) (suc fuel) i new_b entries q e f b v room pos =
    elim (Bool-cases ((entries (get_idx i)).idx == next_idx (prev_round i))) [
      | inr stop ↦
          let more : (i == new_b) ≡ false = ground arith in
          let stay : i + 0 ≡ i = omega arith in
          (
            0,
            q,
            rw (more, stop, stay, gc_free_unsubbed),
            omega arith,
            record { valid = v; holds = sym (append-nil (contents q)); position = omega arith },
            λ h. rw stay (λ e. ground (arith, stop, e)),
            λ j a c. absurd (omega arith),
          )
      | inl go ↦
          let more : (i == new_b) ≡ false = ground arith in
          let (q1, pushed, v1, c1, p1) =
            push_free_lem q (log_at entries i) v (omega arith) (omega arith) in
          let step : next_idx i ≡ i + 1 = omega arith in
          let room1 : length (contents q1) + n ≤ log_count =
            omega
              (arith, ap (λ l. length l) c1, length-append (contents q) (log_at entries i ∷ [])) in
          let (k, q', rest, le, freed, stops, seen) =
            gc_free_unsubbed_lem n fuel (i + 1) new_b entries q1 (omega arith) (omega arith) b v1
              room1 (omega (arith, p1)) in
          (
            suc k,
            q',
            gc_free_unsubbed-more fuel i new_b entries q q1 more go pushed step
                ∙ rest
                ∙ ap (λ t. some (t, q')) (omega arith),
            omega arith,
            Freed-cons entries c1 p1 freed,
            λ h.
                let along : i + 1 + k ≡ i + suc k = omega arith in
                subst (λ t. (entries (get_idx t)).idx ≢ next_idx (prev_round t)) along
                  (stops (omega arith)),
            λ j a c. elim (ℕ_discrete i j) [
              | yes same ↦
                  subst (λ t. (entries (get_idx t)).idx ≡ next_idx (prev_round t)) same
                    ((==_iff _ _).0 go)
              | no other ↦ seen j (omega arith) (omega arith)
            ],
          )
    ]

-- A subscriber that the collection has to wait for.
pub record Reader (m : LogManager) (j : ℕ) : Type 0 where
  pub inside : j < node_count
  pub remote : j ≢ m.node_id
  pub subbed : (m.subs j).is_subbed ≡ true

-- The bound that the loop over the subscribers gives, from a bound `start`.
pub record Bounded (m : LogManager) (from start : ℕ) (had : Bool) (r : ℕ × Bool) : Type 0 where
  pub upper : r.0 ≤ start
  pub lower : m.bound ≤ start → m.bound ≤ r.0
  pub readers : (j : ℕ) → from ≤ j → Reader m j → r.0 ≤ (m.subs j).head + log_count
  pub none_seen : r.1 ≡ false → (had ≡ false) × ((j : ℕ) → from ≤ j → ¬ Reader m j)
  pub one_seen : r.1 ≡ true → (had ≡ true) ⊎ ((j : ℕ) × Reader m j)
  pub least : (r.0 ≡ start) ⊎ ((j : ℕ) × Reader m j × (r.0 ≡ (m.subs j).head + log_count))

abbrev pub InStep : LogManager → Type 0
InStep m =
    (j : ℕ)
    → Reader m j
    → (m.bound ≤ (m.subs j).head + log_count) × ((m.subs j).head + log_count < u32_mod)

not-Reader :
    {m : LogManager} {i : ℕ} → (i == m.node_id || not ((m.subs i).is_subbed)) ≡ true → ¬ Reader m i
not-Reader skip r = ground (arith, r.remote, r.subbed)

reads :
    {m : LogManager} {i : ℕ}
    → (i == m.node_id || not ((m.subs i).is_subbed)) ≡ false
    → i < node_count
    → Reader m i
reads look inside = record { inside = inside; remote = ground arith; subbed = ground arith }

skip-Reader :
    {m : LogManager} {i start : ℕ} {had : Bool} {r : ℕ × Bool}
    → Bounded m (i + 1) start had r
    → ¬ Reader m i
    → Bounded m i start had r
skip-Reader {m} {i} b no_reader = record {
  upper = b.upper;
  lower = b.lower;
  readers = λ j a r. elim (ℕ_discrete i j) [
    | yes same ↦ absurd (no_reader (subst (Reader m) (sym same) r))
    | no other ↦ b.readers j (omega arith) r
  ];
  none_seen = λ h. (
    (b.none_seen h).0,
    λ j a r. elim (ℕ_discrete i j) [
      | yes same ↦ no_reader (subst (Reader m) (sym same) r)
      | no other ↦ (b.none_seen h).1 j (omega arith) r
    ],
  );
  one_seen = b.one_seen;
  least = b.least;
}

-- One reader more, whose head is taken into account.
count-Reader :
    {m : LogManager} {i start lower : ℕ} {had : Bool} {r : ℕ × Bool}
    → lower ≤ start
    → (m.bound ≤ start → m.bound ≤ lower)
    → (lower ≤ (m.subs i).head + log_count)
    → (lower ≡ start) ⊎ (lower ≡ (m.subs i).head + log_count)
    → Reader m i
    → Bounded m (i + 1) lower true r
    → Bounded m i start had r
count-Reader {m} {i} {r = r} up low mine which reader b = record {
  upper = omega (arith, b.upper);
  lower = λ h. b.lower (low h);
  readers = λ j a reader'. elim (ℕ_discrete i j) [
    | yes same ↦ subst (λ k. r.0 ≤ (m.subs k).head + log_count) same (omega (arith, b.upper))
    | no other ↦ b.readers j (omega arith) reader'
  ];
  none_seen = λ h. absurd (cc ((b.none_seen h).0));
  one_seen = λ h. inr (i, reader);
  least = elim (b.least) [
    | inr (j, reader', e) ↦ inr (j, reader', e)
    | inl e ↦ elim which [ inl f ↦ inl (e ∙ f) | inr f ↦ inr (i, reader, e ∙ f) ]
  ];
}

if_either : (b : Bool) (x y : ℕ) → ((if b then x else y) ≡ y) ⊎ ((if b then x else y) ≡ x)
if_either true x y = inr refl
if_either false x y = inl refl

pub gc_bound_lem :
    (rounds i : ℕ) (m : LogManager) (start : ℕ) (had : Bool)
    → i + rounds ≡ node_count
    → InStep m
    → Bounded m i start had (gc_bound rounds i m (start, had))
unfolding gc_bound
gc_bound_lem zero i m start had e heads = record {
  upper = omega arith;
  lower = λ h. h;
  readers = λ j a r. absurd (omega (arith, r.inside));
  none_seen = λ h. (h, λ j a r. omega (arith, r.inside));
  one_seen = λ h. inl h;
  least = inl refl;
}
gc_bound_lem (suc rounds) i m start had e heads =
    elim (Bool-cases (i == m.node_id || not ((m.subs i).is_subbed))) [
      | inl skip ↦
          rw (skip, gc_bound)
            (skip-Reader (gc_bound_lem rounds (i + 1) m start had (omega arith) heads)
              (not-Reader skip))
      | inr look ↦
          let reader : Reader m i = reads look (omega arith) in
          let (far, small) = heads i reader in
          rw (look, gc_bound)
            (count-Reader (ground arith) (λ h. ground arith) (ground arith)
              (elim (if_either
                (ltb (next_round ((m.subs i).head)) start
                  && leb m.bound (next_round ((m.subs i).head)))
                (next_round ((m.subs i).head)) start) [
                  | inl e ↦ inl e
                  | inr e ↦ inr (e ∙ omega arith)
                ])
              reader (gc_bound_lem rounds (i + 1) m _ true (omega arith) heads))
    ]
