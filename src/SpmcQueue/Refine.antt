-- ===== src/SpmcQueue/Refine.antt =====
-- The queue of cells behaves as a first-in first-out list of at most LOG_COUNT values.
use racoherence.Prelude.{
  ℕ, zero, suc, ◌+◌, ◌-◌, ◌%◌, ◌^◌, ◌≤◌, ◌<◌, ◌≡◌, refl, ap, true, false, none, some, List, [], ◌∷◌,
  ◌++◌, length, update, arith, update_self, update_ne, dec_lt, inl, inr, ◌⊎◌,
}
use racoherence.Config.{u64_mod, log_count}
use racoherence.SpmcQueue.{Queue, new, enqueue, enqueue_loop, dequeue, dequeue_loop, dif}

-- Between the positions the cells are full, from the enqueue position on they are free; the
-- positions stay below 2 ^ 63.
pub record IsValid (q : Queue) : Type 0 where
  pub ordered : q.dequeue_pos ≤ q.enqueue_pos
  pub bounded : q.enqueue_pos ≤ q.dequeue_pos + log_count
  pub small : q.enqueue_pos + log_count < 2 ^ 63
  pub full_cells :
      (p : ℕ) → q.dequeue_pos ≤ p → p < q.enqueue_pos → q.sequence (p % log_count) ≡ p + 1
  pub free_cells :
      (p : ℕ) → q.enqueue_pos ≤ p → p < q.dequeue_pos + log_count → q.sequence (p % log_count) ≡ p

-- The `n` values from position `p` on.
abbrev pub window : (ℕ → ℕ) → ℕ → ℕ → List ℕ
window cell p zero = []
window cell p (suc n) = cell (p % log_count) ∷ window cell (p + 1) n

abbrev pub contents : Queue → List ℕ
contents q = window q.cell q.dequeue_pos (q.enqueue_pos - q.dequeue_pos)

pub length-window : (cell : ℕ → ℕ) (p n : ℕ) → length (window cell p n) ≡ n
length-window cell p zero = refl
length-window cell p (suc n) = ap suc (length-window cell (p + 1) n)

-- A write at the end of a window of fewer than LOG_COUNT cells.
window-update :
    (cell : ℕ → ℕ) (p n e v : ℕ)
    → p + n ≡ e
    → n < log_count
    → window (update cell (e % log_count) v) p (suc n) ≡ window cell p n ++ v ∷ []
window-update cell p zero e v h k =
    let same : p ≡ e = omega arith in
    rw same (ap (λ x. x ∷ []) (update_self cell (e % log_count) v))
window-update cell p (suc n) e v h k =
    rw (window-update cell (p + 1) n e v (omega arith) (omega arith)) (
      ap (λ x. x ∷ (window cell (p + 1) n ++ v ∷ []))
        (update_ne cell (e % log_count) (p % log_count) v (omega arith)))

abbrev pushed : Queue → ℕ → Queue
pushed q v = record q {
  enqueue_pos = (q.enqueue_pos + 1) % u64_mod;
  cell = update q.cell (q.enqueue_pos % log_count) v;
  sequence = update q.sequence (q.enqueue_pos % log_count) ((q.enqueue_pos + 1) % u64_mod);
}

abbrev popped : Queue → Queue
popped q = record q {
  dequeue_pos = (q.dequeue_pos + 1) % u64_mod;
  sequence = update q.sequence (q.dequeue_pos % log_count) ((q.dequeue_pos + log_count) % u64_mod);
}

module _ {q : Queue} (i : IsValid q) where
  open i use {ordered, bounded, small, full_cells, free_cells}

  pushed-IsValid :
      (v : ℕ)
      → q.enqueue_pos < q.dequeue_pos + log_count
      → q.enqueue_pos + log_count + 1 < 2 ^ 63
      → IsValid (pushed q v)
  pushed-IsValid v room h = record {
    ordered = omega arith;
    bounded = omega arith;
    small = omega arith;
    full_cells = λ p a b. ground (arith, full_cells p);
    free_cells = λ p a b. ground (arith, free_cells p);
  }

  popped-IsValid : q.dequeue_pos < q.enqueue_pos → IsValid (popped q)
  popped-IsValid more = record {
    ordered = omega arith;
    bounded = omega arith;
    small = omega arith;
    full_cells = λ p a b. ground (arith, full_cells p);
    free_cells = λ p a b. ground (arith, free_cells p);
  }

  contents-pushed :
      (v : ℕ)
      → q.enqueue_pos < q.dequeue_pos + log_count
      → contents (pushed q v) ≡ contents q ++ v ∷ []
  contents-pushed v room =
      let count : (q.enqueue_pos + 1) % u64_mod - q.dequeue_pos
          ≡ suc (q.enqueue_pos - q.dequeue_pos) =
        omega arith in
      rw count (
        window-update q.cell q.dequeue_pos (q.enqueue_pos - q.dequeue_pos) q.enqueue_pos v
          (omega arith) (omega arith))

  contents-popped :
      q.dequeue_pos < q.enqueue_pos
      → contents q ≡ q.cell (q.dequeue_pos % log_count) ∷ contents (popped q)
  contents-popped more =
      let count : q.enqueue_pos - q.dequeue_pos
          ≡ suc (q.enqueue_pos - (q.dequeue_pos + 1) % u64_mod) =
        omega arith in
      let next : (q.dequeue_pos + 1) % u64_mod ≡ q.dequeue_pos + 1 = omega arith in
      rw count (rw next refl)

-- `enqueue` on a valid queue that holds fewer than LOG_COUNT values returns `true` at once, leaves a
-- valid queue, and adds the value at the end of its contents. (The enqueue position must stay below
-- 2 ^ 63.)
pub enqueue_refines :
    (fuel : ℕ) {q : Queue} (v : ℕ)
    → IsValid q
    → length (contents q) < log_count
    → q.enqueue_pos + log_count + 1 < 2 ^ 63
    → (q' : Queue) × (enqueue (suc fuel) q v ≡ some (true, q'))
      × IsValid q'
      × (contents q' ≡ contents q ++ v ∷ [])
      × (q'.enqueue_pos ≡ q.enqueue_pos + 1)
unfolding enqueue enqueue_loop
enqueue_refines fuel {q} v i room h =
    let fits : q.enqueue_pos < q.dequeue_pos + log_count =
      omega
        (arith, length-window q.cell q.dequeue_pos (q.enqueue_pos - q.dequeue_pos), i.ordered) in
    let free : dif (q.sequence (q.enqueue_pos % log_count)) q.enqueue_pos ≡ 0 =
      omega (arith, i.free_cells q.enqueue_pos (omega arith) fits) in
    (pushed q v, rw free, pushed-IsValid i v fits h, contents-pushed i v fits, omega arith)

-- `enqueue` on a valid queue that holds LOG_COUNT values returns `false` at once and changes nothing.
enqueue-full :
    (fuel : ℕ) {q : Queue} (v : ℕ)
    → IsValid q
    → length (contents q) ≡ log_count
    → enqueue (suc fuel) q v ≡ some (false, q)
unfolding enqueue enqueue_loop
enqueue-full fuel {q} v i full =
    let count = length-window q.cell q.dequeue_pos (q.enqueue_pos - q.dequeue_pos) in
    let wraps : q.enqueue_pos % log_count ≡ q.dequeue_pos % log_count = omega arith in
    ground (arith, i.full_cells q.dequeue_pos, ap q.sequence wraps)

-- `dequeue` on a valid queue returns at once: an empty queue gives nothing and is unchanged; else the
-- oldest value is taken and the others are left, in a valid queue.
pub dequeue_refines :
    (fuel : ℕ) {q : Queue}
    → IsValid q
    → ((contents q ≡ []) × (dequeue (suc fuel) q ≡ some (none, q)))
      ⊎ ((v : ℕ) × (q' : Queue) × (dequeue (suc fuel) q ≡ some (some v, q'))
          × IsValid q'
          × (contents q ≡ v ∷ contents q')
          × (q'.enqueue_pos ≡ q.enqueue_pos))
unfolding dequeue dequeue_loop
dequeue_refines fuel {q} i = elim (dec_lt q.dequeue_pos q.enqueue_pos) [
  | yes more ↦ inr (
    q.cell (q.dequeue_pos % log_count),
    popped q,
    ground (arith, i.full_cells q.dequeue_pos),
    popped-IsValid i more,
    contents-popped i more,
    refl,
  )
  | no done ↦ inl (
    (let e : q.enqueue_pos - q.dequeue_pos ≡ 0 = omega arith in rw e refl),
    ground (arith, i.free_cells q.dequeue_pos, i.ordered, i.small),
  )
]

pub new-IsValid : IsValid new
unfolding new
new-IsValid = record {
  ordered = omega arith;
  bounded = omega arith;
  small = omega arith;
  full_cells = λ p a b. absurd (omega arith);
  free_cells = λ p a b. omega arith;
}
