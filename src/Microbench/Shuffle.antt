-- ===== src/Microbench/Shuffle.antt =====
-- The constructor of RandWorkLoad in include/microbench.hpp: a shuffle of operations of SeqWorkLoad.
use mathlib.Core.List.{Perm, perm_middle, append-nil}
use mathlib.Core.List.Perm
use racoherence.Prelude.{
  ℕ, zero, suc, ◌+◌, ◌-◌, ◌*◌, ◌%◌, ◌≤◌, ◌<◌, ◌≡◌, ◌≢◌, refl, ap, sym, ◌∙◌, Bool, true, false, some,
  none, List, [], ◌∷◌, ◌++◌, arith, ◌==◌, bit_and, Bool-cases, inl, inr, ℕ_discrete, update,
  update_self, update_ne, values, values_shift, values_snoc,
}
use mathlib.Core.Path.{subst}
use native.Mathlib.Nat.{mod-lt, zero-lt-suc}
use racoherence.Prelude.Bits.{bit_and-le, bit_and_mask}
use racoherence.Microbench.{
  UserOp, op_store_rls, op_load_acq, step, op_buffer_max, plain_acq_rls_ratio, seq_get_next_op,
  fill_buffer, rand_get_next_op, run,
}
use racoherence.Microbench.Locks.{in_range, one_at_a_time, run_one_at_a_time}

values_same {ℓ} :
    {A : Type ℓ} (f g : ℕ → A) (p n : ℕ)
    → ((i : ℕ) → p ≤ i → i < p + n → f i ≡ g i)
    → values f p n ≡ values g p n
values_same f g p n h =
    values_shift f g p 0 n p (omega arith)
      (λ i a b. ap f {x = i + 0} {y = i} (omega arith) ∙ h i a b)

-- The value that an update puts in trades places with the one that it replaces.
update-perm {ℓ} :
    {A : Type ℓ} (f : ℕ → A) (v : A) (j p n : ℕ)
    → p ≤ j
    → j < p + n
    → Perm (f j ∷ values (update f j v) p n) (v ∷ values f p n)
update-perm f v j p zero a b = absurd (omega arith)
update-perm f v j p (suc n) a b = elim (ℕ_discrete p j) [
  | yes e ↦
      subst (λ k. Perm (f k ∷ values (update f k v) p (suc n)) (v ∷ values f p (suc n))) e
        (rw
          (
            update_self f p v,
            values_same (update f p v) f (p + 1) n
                (λ i l h. update_ne f p i v (λ q. omega (arith, q))),
          )
          (Perm.swap v (f p) (values f (p + 1) n)))
  | no m ↦ rw (update_ne f j p v (λ q. m (sym q))) (
      Perm.trans (Perm.swap (f p) (f j) (values (update f j v) (p + 1) n)) (
        Perm.trans (Perm.cons (f p) (update-perm f v j (p + 1) n (omega arith) (omega arith)))
          (Perm.swap v (f p) (values f (p + 1) n))))
]

snoc-perm {ℓ} : {A : Type ℓ} (xs : List A) (x : A) → Perm (xs ++ x ∷ []) (x ∷ xs)
snoc-perm xs x = subst (λ l. Perm (xs ++ x ∷ []) (x ∷ l)) (append-nil xs) (perm_middle xs [])

-- A round of the shuffle: the operation goes to a place below the round's, and what was there to the
-- end.
round-perm {ℓ} :
    {A : Type ℓ} (f : ℕ → A) (v : A) (j n : ℕ)
    → j ≤ n
    → Perm (values (update (update f n (f j)) j v) 0 (suc n)) (v ∷ values f 0 n)
round-perm f v j n h =
    rw (values_snoc (update (update f n (f j)) j v) 0 n n (omega arith)) (elim (ℕ_discrete j n) [
      | yes e ↦
          rw
            (
              values_same (update (update f n (f j)) j v) f 0 n (λ i a b. ground (arith, e)),
              there e,
            )
            (snoc-perm (values f 0 n) v)
      | no m ↦
          rw
            (
              values_same (update (update f n (f j)) j v) (update f j v) 0 n
                  (λ i a b. ground arith),
              elsewhere m,
            )
            (Perm.trans (snoc-perm (values (update f j v) 0 n) (f j))
              (update-perm f v j 0 n (omega arith) (omega arith)))
    ])
  where
    there : j ≡ n → update (update f n (f j)) j v n ≡ v
    there e = ground (arith, e)

    elsewhere : j ≢ n → update (update f n (f j)) j v n ≡ f j
    elsewhere m = ground (arith, m)

below : (r i : ℕ) → r % (i + 1) ≤ i
below r i = omega (arith, mod-lt r (zero-lt-suc i))

-- The constructor of RandWorkLoad, whatever rand() gives: after any number of rounds the buffer holds
-- the operations that SeqWorkLoad made for them, each as often, in some order.
fill_buffer-perm :
    (rand : ℕ → ℕ) (n : ℕ)
    → Perm (values (fill_buffer rand n) 0 n) (values (λ i. seq_get_next_op (i * step)) 0 n)
unfolding fill_buffer
fill_buffer-perm rand zero = Perm.nil
fill_buffer-perm rand (suc n) =
    let made : ℕ → UserOp = λ i. seq_get_next_op (i * step) in
    rw (values_snoc made 0 n n (omega arith)) (
      Perm.trans (round-perm (fill_buffer rand n) (made n) (rand n % (n + 1)) n (below (rand n) n))
        (Perm.trans (Perm.cons (made n) (fill_buffer-perm rand n))
          (Perm.symm (snoc-perm (values made 0 n) (made n)))))

update_all {ℓ κ} :
    {A : Type ℓ} (P : A → Type κ) (f : ℕ → A) (i : ℕ) (a : A) (k : ℕ)
    → P a
    → (i ≢ k → P (f k))
    → P (update f i a k)
update_all P f i a k new old = elim (ℕ_discrete i k) [
  | yes e ↦ subst (λ q. P (update f i a q)) e (subst P (sym (update_self f i a)) new)
  | no m ↦ subst P (sym (update_ne f i k a m)) (old m)
]

-- What all the operations made have, all in the buffer have.
fill_buffer_all :
    (P : UserOp → Type 0) (rand : ℕ → ℕ) (n k : ℕ)
    → ((i : ℕ) → P (seq_get_next_op (i * step)))
    → k < n
    → P (fill_buffer rand n k)
unfolding fill_buffer
fill_buffer_all P rand zero k made h = absurd (omega arith)
fill_buffer_all P rand (suc n) k made h =
    let j = rand n % (n + 1) in
    let f = fill_buffer rand n in
    update_all P (update f n (f j)) j (seq_get_next_op (n * step)) k (made n) (λ m.
      elim (ℕ_discrete n k) [
        | yes e ↦
            subst (λ q. P (update f n (f j) q)) e
              (subst P (sym (update_self f n (f j)))
                (fill_buffer_all P rand n j made (omega (arith, below (rand n) n, e, m))))
        | no d ↦
            subst P (sym (update_ne f n k (f j) d)) (fill_buffer_all P rand n k made (omega arith))
      ])

-- An operation of SeqWorkLoad has its offset in the array that it is for.
seq_in_range : (i : ℕ) → in_range (seq_get_next_op i) ≡ true
seq_in_range i = elim (Bool-cases (bit_and i (plain_acq_rls_ratio - 1) == 0)) [
  | inl e ↦ elim (Bool-cases (i % 3 % 2 == 0)) [
    | inl l ↦ rw (e, l) (ground (arith, bit_and-le i 15))
    | inr l ↦ rw (e, l) (ground (arith, bit_and-le i 15))
  ]
  | inr e ↦ elim (Bool-cases (i % 3 % 2 == 0)) [
    | inl l ↦ rw (e, l) (ground (arith, bit_and-le i 1073741823))
    | inr l ↦ rw (e, l) (ground (arith, bit_and-le i 1073741823))
  ]
]

rand_slot : (index : ℕ) → bit_and index (op_buffer_max - 1) < op_buffer_max
rand_slot index = omega (arith, bit_and-le index (op_buffer_max - 1))

-- Microbench::run with WORKLOAD_USE_LOCKS, on SeqWorkLoad and on RandWorkLoad for any results of
-- rand(). It accesses data inside the pool only, never locks a mutex while it holds one or unlocks one
-- that it does not hold, and holds none at its end.
pub workloads_take_turns :
    (rand : ℕ → ℕ)
    → (run one_at_a_time seq_get_next_op none ≡ some none)
      × (run one_at_a_time (rand_get_next_op (fill_buffer rand op_buffer_max)) none ≡ some none)
unfolding rand_get_next_op
workloads_take_turns rand = (
  run_one_at_a_time seq_get_next_op (λ k h. seq_in_range k),
  run_one_at_a_time (rand_get_next_op (fill_buffer rand op_buffer_max)) (λ k h.
      fill_buffer_all (λ op. in_range op ≡ true) rand op_buffer_max (bit_and k (op_buffer_max - 1))
        (λ i. seq_in_range (i * step)) (rand_slot k)),
)

-- An acquire or a release of offset 0.
abbrev first_sync : UserOp → Bool
first_sync op = elim (op.type_) [
  | op_store_rls ↦ op.offset == 0
  | op_load_acq ↦ op.offset == 0
  | _ ↦ false
]

spaced_first_sync : (i : ℕ) → first_sync (seq_get_next_op (i * step)) ≡ true
spaced_first_sync i =
    let every : bit_and (i * 32768) 255 ≡ 0 = bit_and_mask 8 (i * 32768) ∙ omega arith in
    let low : bit_and (i * 32768) 15 ≡ 0 = bit_and_mask 4 (i * 32768) ∙ omega arith in
    elim (Bool-cases (i * 32768 % 3 % 2 == 0)) [
      | inl l ↦ rw (every, low, l) refl
      | inr l ↦ rw (every, low, l) refl
    ]

-- RandWorkLoad::getNextOp, whatever rand() gives, is an acquire or a release of offset 0 every time:
-- the constructor takes the operations of SeqWorkLoad that lie CXL_POOL_DATA_SIZE / OP_BUFFER_MAX apart,
-- a multiple of PLAIN_ACQ_RLS_RATIO.
rand_first_sync :
    (rand : ℕ → ℕ) (index : ℕ)
    → first_sync (rand_get_next_op (fill_buffer rand op_buffer_max) index) ≡ true
unfolding rand_get_next_op
rand_first_sync rand index =
    fill_buffer_all (λ op. first_sync op ≡ true) rand op_buffer_max
      (bit_and index (op_buffer_max - 1)) spaced_first_sync (rand_slot index)
