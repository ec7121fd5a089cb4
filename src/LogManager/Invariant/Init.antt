-- ===== src/LogManager/Invariant/Init.antt =====
-- The constructor of LogManager establishes the invariant.
use racoherence.Prelude.{
  ℕ, zero, suc, ◌+◌, ◌≤◌, ◌<◌, ◌≡◌, refl, ap, ◌∙◌, sym, some, [], ◌∷◌, ◌++◌, length, length-append,
  arith, count, values, ℕ_discrete,
}
use mathlib.Core.List.{append_assoc, append-nil}
use racoherence.Config.{log_count}
use racoherence.SpmcQueue.{Queue}
use racoherence.SpmcQueue
use racoherence.SpmcQueue.Refine.{IsValid, contents, new-IsValid}
use racoherence.LogManager.{new, fresh, fill_free}
use racoherence.LogManager.Gc.{push_free_lem}
use racoherence.LogManager.System.{start}
use racoherence.LogManager.Defs.{Inv}

fill_free_lem :
    (n i : ℕ) (q : Queue)
    → IsValid q
    → length (contents q) + n ≤ log_count
    → q.enqueue_pos ≤ i
    → i + n ≤ log_count
    → (q' : Queue) × (fill_free n i q ≡ some q')
      × IsValid q'
      × (contents q' ≡ contents q ++ values (λ k. k) i n)
      × (q'.enqueue_pos ≡ q.enqueue_pos + n)
unfolding fill_free
fill_free_lem zero i q v room pos le = (q, refl, v, sym (append-nil (contents q)), omega arith)
fill_free_lem (suc n) i q v room pos le =
    let (q1, pushed, v1, c1, p1) = push_free_lem q i v (omega arith) (omega arith) in
    let (q', e, v', c', p') =
      fill_free_lem n (i + 1) q1 v1
        (omega (arith, ap (λ l. length l) c1, length-append (contents q) (i ∷ [])))
        (omega (arith, p1)) (omega arith) in
    (
      q',
      rw (pushed, fill_free) e,
      v',
      c'
          ∙ ap (λ l. l ++ values (λ k. k) (i + 1) n) c1
          ∙ append_assoc (contents q) (i ∷ []) (values (λ k. k) (i + 1) n),
      omega (arith, p', p1),
    )

count_below : (a p n : ℕ) → a < p → count a (values (λ k. k) p n) ≡ 0
count_below a p zero h = refl
count_below a p (suc n) h = ground (arith, count_below a (p + 1) n (omega arith))

count_range : (a p n : ℕ) → count a (values (λ k. k) p n) ≤ 1
count_range a p zero = omega arith
count_range a p (suc n) = elim (ℕ_discrete p a) [
  | yes e ↦ ground (arith, count_below a (p + 1) n)
  | no e ↦ ground (arith, count_range a (p + 1) n)
]

fresh-Inv :
    (nid : ℕ) (q : Queue)
    → IsValid q
    → contents q ≡ values (λ k. k) 0 log_count
    → q.enqueue_pos ≡ log_count
    → Inv (start (fresh nid q))
fresh-Inv nid q v c p = record {
  queue = v;
  position = p;
  started = omega arith;
  tail_in = omega arith;
  bound_in = omega arith;
  buffers = omega (arith, ap (λ l. length l) c);
  unique = λ a. omega (arith, ap (count a) c, count_range a 0 log_count);
  readers = λ j r. (omega arith, omega arith);
  passed = λ j p r h. absurd (omega arith);
  behind = λ p h. absurd (omega arith);
  announced = λ p h. absurd (omega arith);
  published = λ p a b d. absurd (omega arith);
  content = λ p a b. absurd (omega arith);
}

-- The constructor returns, and what it makes satisfies the invariant.
pub new-Inv : (nid : ℕ) → (q : Queue) × (new nid ≡ some (fresh nid q)) × Inv (start (fresh nid q))
unfolding new SpmcQueue.new
new-Inv nid =
    let (q, e, v, c, p) =
      fill_free_lem log_count 0 SpmcQueue.new new-IsValid (omega arith) (omega arith)
        (omega arith) in
    (q, rw (e, new), fresh-Inv nid q v c p)
