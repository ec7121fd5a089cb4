-- ===== src/Microbench/Locks.antt =====
-- Microbench::run and Microbench::use_locks: the mutexes are taken and given back in turn.
use racoherence.Prelude.{
  ℕ, zero, suc, ◌+◌, ◌≤◌, ◌<◌, ◌≡◌, refl, ◌∙◌, Bool, true, false, Option, none, some, arith, ltb,
  ◌==◌, if◌then◌else◌, Bool-cases, inl, inr,
}
use racoherence.Microbench.{
  UserOp, OpType, op_store, op_store_rls, op_load, op_load_acq, op_end, op_lock, op_unlock,
  cxl_sync_range, cxl_pool_data_size, total_ops, locking, use_locks, run_loop, run,
}

-- What a workload may ask for, with an offset in its array.
abbrev pub in_range : UserOp → Bool
in_range op = elim (op.type_) [
  | op_store_rls ↦ ltb op.offset cxl_sync_range
  | op_load_acq ↦ ltb op.offset cxl_sync_range
  | op_store ↦ ltb op.offset cxl_pool_data_size
  | op_load ↦ ltb op.offset cxl_pool_data_size
  | _ ↦ false
]

-- What a thread may do that holds one mutex at most: lock one of the pool's with none held, unlock the
-- one that it holds, and access the pool's data.
abbrev pub one_at_a_time : UserOp → Option ℕ → Option (Option ℕ)
one_at_a_time op held = elim (op.type_) [
  | op_store ↦ if ltb op.offset cxl_pool_data_size then some held else none
  | op_load ↦ if ltb op.offset cxl_pool_data_size then some held else none
  | op_lock ↦ elim held [
    | none ↦ if ltb op.offset cxl_sync_range then some (some op.offset) else none
    | some k ↦ none
  ]
  | op_unlock ↦ elim held [ none ↦ none | some k ↦ if k == op.offset then some none else none ]
  | _ ↦ none
]

-- The mutex that `locked_offset` stands for.
held_at : ℕ → Option ℕ
held_at locked_offset = if locked_offset == cxl_sync_range then none else some locked_offset

unlocking :
    (o locked : ℕ)
    → o < cxl_sync_range
    → locked ≤ cxl_sync_range
    → (one_at_a_time (locking o locked).0 (held_at locked) ≡ some (held_at ((locking o locked).1)))
      × ((locking o locked).1 ≤ cxl_sync_range)
unfolding held_at
unlocking o locked r l = elim (Bool-cases (locked == cxl_sync_range)) [
  | inl e ↦ rw e (ground (arith, e), ground (arith, e))
  | inr e ↦ rw e (ground (arith, e), ground (arith, e))
]

one_op :
    (t : OpType) (o locked : ℕ)
    → let op : UserOp = record { type_ = t; offset = o } in
      in_range op ≡ true
      → locked ≤ cxl_sync_range
      → (one_at_a_time (use_locks op locked).0 (held_at locked)
          ≡ some (held_at ((use_locks op locked).1)))
        × ((use_locks op locked).1 ≤ cxl_sync_range)
unfolding use_locks
one_op op_store o locked r l = (ground (arith, r), l)
one_op op_store_rls o locked r l = unlocking o locked (ground (arith, r)) l
one_op op_load o locked r l = (ground (arith, r), l)
one_op op_load_acq o locked r l = unlocking o locked (ground (arith, r)) l
one_op op_end o locked r l = absurd (cc r)
one_op op_lock o locked r l = absurd (cc r)
one_op op_unlock o locked r l = absurd (cc r)

run_step :
    {S : Type 0} (exec : UserOp → S → Option S) (workload : ℕ → UserOp) (rounds i locked : ℕ)
    (s s' : S)
    → exec (use_locks (workload i) locked).0 s ≡ some s'
    → run_loop exec workload (suc rounds) i locked s
      ≡ run_loop exec workload rounds (i + 1) ((use_locks (workload i) locked).1) s'
unfolding run_loop
run_step exec workload rounds i locked s s' e = rw (run_loop, e) refl

rounds_lem :
    (rounds i locked : ℕ) (workload : ℕ → UserOp)
    → locked ≤ cxl_sync_range
    → ((k : ℕ) → k < i + rounds → in_range (workload k) ≡ true)
    → run_loop one_at_a_time workload rounds i locked (held_at locked) ≡ some none
unfolding run_loop held_at
rounds_lem zero i locked workload l r = ground (arith, l)
rounds_lem (suc rounds) i locked workload l r =
    let (here, l') = one_op (workload i).type_ (workload i).offset locked (r i (omega arith)) l in
    run_step one_at_a_time workload rounds i locked (held_at locked)
      (held_at ((use_locks (workload i) locked).1)) here
    ∙ rounds_lem rounds (i + 1) ((use_locks (workload i) locked).1) workload l'
        (λ k h. r k (omega arith))

-- Microbench::run with WORKLOAD_USE_LOCKS, on a workload whose offsets stay in their arrays. It makes
-- no access outside the pool and no atomic access, never locks a mutex while it holds one or unlocks
-- one that it does not hold, and holds none at its end.
pub run_one_at_a_time :
    (workload : ℕ → UserOp)
    → ((k : ℕ) → k < total_ops → in_range (workload k) ≡ true)
    → run one_at_a_time workload none ≡ some none
unfolding run held_at
run_one_at_a_time workload r = rounds_lem total_ops 0 cxl_sync_range workload (omega arith) r
