-- ===== src/Microbench.antt =====
-- include/microbench.hpp and src/microbench.cpp: the workloads, and the loop of the benchmark with
-- WORKLOAD_USE_LOCKS. An array is a function of its index; the result of the `k`-th call of rand() is a
-- parameter.
pub mod Locks
pub mod Shuffle
pub mod Tests
use racoherence.Prelude.{
  ℕ, zero, suc, ◌+◌, ◌-◌, ◌*◌, ◌/◌, ◌%◌, ◌^◌, Bool, true, false, Option, none, some, bit_and, ◌==◌,
  if◌then◌else◌, update,
}
use racoherence.Config.{u32_mod}
use racoherence.VectorClock.{VectorClock}
use racoherence.ThreadOps.{State}
use racoherence.Runtime.{rac_store}
use racoherence.CxlSync.{
  World, state_of, with_state, InnerData, MemoryOrder, release, acquire, store, load, lock, unlock,
}

abbrev pub cxl_nhc_range : ℕ
cxl_nhc_range = 2 ^ 34

abbrev pub cxl_sync_range : ℕ
cxl_sync_range = 2 ^ 4

abbrev pub cxl_pool_data_size : ℕ
cxl_pool_data_size = cxl_nhc_range / 2 ^ 4

abbrev pub total_ops : ℕ
total_ops = 2 ^ 25

abbrev pub seq_op_factor : ℕ
seq_op_factor = 3

abbrev pub plain_acq_rls_ratio : ℕ
plain_acq_rls_ratio = 2 ^ 8

abbrev pub op_buffer_max : ℕ
op_buffer_max = 2 ^ 15

pub data OpType : Type 0 where
  op_store : OpType
  op_store_rls : OpType
  op_load : OpType
  op_load_acq : OpType
  op_end : OpType
  op_lock : OpType
  op_unlock : OpType

pub record UserOp : Type 0 where
  pub type_ : OpType
  pub offset : ℕ

-- SeqWorkLoad::getNextOp
abbrev pub seq_get_next_op : ℕ → UserOp
seq_get_next_op index =
    let is_acq_rel = bit_and index (plain_acq_rls_ratio - 1) == 0 in
    let is_load = index % seq_op_factor % 2 == 0 in
    let range = if is_acq_rel then cxl_sync_range else cxl_pool_data_size in
    record {
      type_ =
          if is_acq_rel
          then (if is_load then op_load_acq else op_store_rls)
          else (if is_load then op_load else op_store);
      offset = bit_and index (range - 1);
    }

-- The step of the constructor of RandWorkLoad.
abbrev pub step : ℕ
step = if cxl_pool_data_size / op_buffer_max == 0 then 1 else cxl_pool_data_size / op_buffer_max

-- The loop of the constructor, `n` rounds of it from an initialised buffer.
unfoldable pub fill_buffer : (ℕ → ℕ) → ℕ → ℕ → UserOp
fill_buffer rand zero = λ k. record { type_ = op_store; offset = 0 }
fill_buffer rand (suc i) =
    let op = seq_get_next_op (i * step) in
    let j = rand i % (i + 1) in
    let op_buffer = fill_buffer rand i in
    let moved = update op_buffer i (op_buffer j) in update moved j op

-- RandWorkLoad::getNextOp, with the buffer; its assertion is `index < TOTAL_OPS`.
unfoldable pub rand_get_next_op : (ℕ → UserOp) → ℕ → UserOp
rand_get_next_op op_buffer index = op_buffer (bit_and index (op_buffer_max - 1))

-- The case of `use_locks` for an acquire or a release.
abbrev pub locking : ℕ → ℕ → UserOp × ℕ
locking offset locked_offset =
    if locked_offset == cxl_sync_range
    then (record { type_ = op_lock; offset = offset }, offset % u32_mod)
    else (record { type_ = op_unlock; offset = locked_offset }, cxl_sync_range)

-- Microbench::use_locks: the operation, and `locked_offset` after it.
unfoldable pub use_locks : UserOp → ℕ → UserOp × ℕ
use_locks op locked_offset = elim (op.type_) [
  | op_store_rls ↦ locking op.offset locked_offset
  | op_load_acq ↦ locking op.offset locked_offset
  | _ ↦ (op, locked_offset)
]

-- Microbench::run, where `exec` does what the switch does for an operation: the loop from round `i` on,
-- then the unlock of what is still locked.
unfoldable pub run_loop :
    {S : Type 0} → (UserOp → S → Option S) → (ℕ → UserOp) → ℕ → ℕ → ℕ → S → Option S
run_loop exec workload zero i locked_offset s =
    if locked_offset == cxl_sync_range
    then some s
    else exec (record { type_ = op_unlock; offset = locked_offset }) s
run_loop exec workload (suc rounds) i locked_offset s =
    let (op, locked) = use_locks (workload i) locked_offset in
    elim (exec op s) [ none ↦ none | some s' ↦ run_loop exec workload rounds (i + 1) locked s' ]

unfoldable pub run : {S : Type 0} → (UserOp → S → Option S) → (ℕ → UserOp) → S → Option S
run exec workload s = run_loop exec workload total_ops 0 cxl_sync_range s

-- A thread of the benchmark and CXLPool: the clocks of its mutexes, its atomics, the address of its
-- data, and the memory.
pub record Bench : Type 0 where
  pub world : World
  pub mutexes : ℕ → VectorClock
  pub atomic_data : ℕ → InnerData
  pub data_at : ℕ
  pub memory : ℕ → ℕ

-- The switch. A load's value is not used.
unfoldable pub exec_op : ℕ → UserOp → Bench → Option Bench
exec_op fuel op b = elim (op.type_) [
  | op_store_rls ↦ elim (store 0 release b.world (b.atomic_data op.offset)) [
    | none ↦ none
    | some (w, d) ↦ some (record b { world = w; atomic_data = update b.atomic_data op.offset d })
  ]
  | op_store ↦ elim (rac_store 1 (b.data_at + op.offset) 0 b.memory (state_of b.world)) [
    | none ↦ none
    | some (mem, s) ↦ some (record b { world = with_state b.world s; memory = mem })
  ]
  | op_load_acq ↦ elim (load fuel acquire b.world (b.atomic_data op.offset)) [
    | none ↦ none
    | some (value, w) ↦ some (record b { world = w })
  ]
  | op_load ↦ some b
  | op_lock ↦ elim (lock fuel b.world (b.mutexes op.offset)) [
    | none ↦ none
    | some w ↦ some (record b { world = w })
  ]
  | op_unlock ↦ elim (unlock b.world (b.mutexes op.offset)) [
    | none ↦ none
    | some (w, clock) ↦ some (record b { world = w; mutexes = update b.mutexes op.offset clock })
  ]
  | op_end ↦ some b
]
