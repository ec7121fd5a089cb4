-- ===== src/Runtime/Tests.antt =====
-- Runs of the runtime, of range stores and of the instrumented functions on small inputs.
use racoherence.Prelude.{ℕ, ◌*◌, ◌+◌, ◌%◌, ◌^◌, ◌≡◌, refl, none, some, arith}
use racoherence.Config.{cxl_nhc_start}
use racoherence.LogManager.Tests.{taken, got}
use racoherence.ThreadOps.{State, log_range_store}
use racoherence.ThreadOps.Tests.{dirty_state, dirty-IsConsistent}
use racoherence.Runtime.{rac_store}
use racoherence.Runtime.Access.{Written, rac_store_lem}
use racoherence.InstrumentLib.{Memory, memmove}
use racoherence.InstrumentLib.Copy.{Copied}
use racoherence.InstrumentLib.Logged.{Logged, memmove_lem}
use racoherence.ThreadOps.RangeStore.{RangeStored, log_range_store_lem}

rac_store_lem_example :
    (mem' : ℕ → ℕ) × (s' : State) × (rac_store 8 (cxl_nhc_start + 8) 77 (λ a. 0) dirty_state
      ≡ some (mem', s'))
    × Written 8 (cxl_nhc_start + 8) 77 (λ a. 0) mem' s'
rac_store_lem_example =
    rac_store_lem 8 (cxl_nhc_start + 8) 77 (λ a. 0) dirty_state 0 taken refl dirty-IsConsistent
      (omega arith) (omega arith) got

-- Bytes that are their own address.
abbrev bytes : Memory
bytes a = a % 2 ^ 8

-- The source ends inside the destination.
memmove_lem_example :
    (mem' : Memory) × (s' : State) × (memmove 30 none
        (cxl_nhc_start + 64)
        (cxl_nhc_start + 60)
        20
        bytes
        dirty_state
      ≡ some (cxl_nhc_start + 64, mem', s'))
    × Copied (cxl_nhc_start + 64) (cxl_nhc_start + 60) 20 bytes mem'
    × Logged (cxl_nhc_start + 64) 20 dirty_state s'
memmove_lem_example =
    memmove_lem 28 (cxl_nhc_start + 64) (cxl_nhc_start + 60) 20 bytes dirty_state 0 taken
      (omega arith) (omega arith) dirty-IsConsistent.valid (omega arith, omega arith) got

-- The lines 5 to 40, beside line 16.
log_range_store_lem_example :
    (s' : State) × (log_range_store 2 (5 * 64) (40 * 64) dirty_state ≡ some s')
    × RangeStored
        (record dirty_state { thread = record (dirty_state.thread) { recent_cl = 40 } })
        5
        40
        s'
log_range_store_lem_example =
    log_range_store_lem 0 (5 * 64) (40 * 64) dirty_state 0 taken dirty-IsConsistent.valid
      (omega arith) (omega arith) (omega arith) got
