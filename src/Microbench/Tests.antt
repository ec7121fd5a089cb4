-- ===== src/Microbench/Tests.antt =====
-- Runs of the benchmark's workloads, with a sequence of numbers for rand().
use racoherence.Prelude.{ℕ, ◌+◌, ◌*◌, ◌≡◌, refl, some, none, [], ◌∷◌, values}
use racoherence.Microbench.{
  op_load, op_store, op_load_acq, op_buffer_max, seq_get_next_op, fill_buffer, rand_get_next_op,
  use_locks, run_loop, run,
}
use racoherence.Microbench.Locks.{one_at_a_time}
use racoherence.Microbench.Shuffle.{workloads_take_turns}

abbrev numbers : ℕ → ℕ
numbers k = k * 7 + 3

first_ops :
    values seq_get_next_op 0 3
    ≡ record { type_ = op_load_acq; offset = 0 }
      ∷ record { type_ = op_store; offset = 1 }
      ∷ record { type_ = op_load; offset = 2 }
      ∷ []
first_ops = refl

-- Four rounds, with a mutex still locked at the end.
four_rounds : run_loop one_at_a_time seq_get_next_op 4 0 16 none ≡ some none
unfolding run_loop use_locks
four_rounds = refl

workloads_take_turns_example :
    (run one_at_a_time seq_get_next_op none ≡ some none)
    × (run one_at_a_time (rand_get_next_op (fill_buffer numbers op_buffer_max)) none ≡ some none)
workloads_take_turns_example = workloads_take_turns numbers
