-- ===== src/InstrumentLib/Logged.antt =====
-- src/instrumentLib.cpp: what the memory functions write in memory that is not hardware coherent is
-- published.
use racoherence.Prelude.{
  ℕ, suc, ◌+◌, ◌/◌, ◌^◌, ◌≤◌, ◌<◌, ◌≡◌, refl, true, none, some, arith, Bool-cases, inl, inr,
}
use racoherence.Config.{u32_mod, virtual_cl_shift}
use racoherence.ClGroup.{group_size}
use racoherence.LocalClTable.Covers.{Covered}
use racoherence.LocalClTable.Home.{IsValid}
use racoherence.LogManager.{LogManager, get_new_log}
use racoherence.ThreadOps.{State}
use racoherence.ThreadOps.Store.{Kept}
use racoherence.ThreadOps.RangeStore.{log_range_store_lem}
use racoherence.Runtime.{in_cxl_nhc_mem}
use racoherence.InstrumentLib.{Memory, log_written, memmove}
use racoherence.InstrumentLib.Copy.{Copied, memmove_copies}

-- What the end of a function that wrote `n` bytes at `dst` does: no line that was dirty is lost, nor
-- any that was written in the groups before that of the end, if the memory is not hardware coherent.
pub record Logged (dst n : ℕ) (s s' : State) : Type 0 where
  pub valid : IsValid s'.thread.dirty_cls.table
  pub kept : (cl : ℕ) → Covered s.thread.dirty_cls.table cl → Kept s' cl
  pub added :
      in_cxl_nhc_mem dst ≡ true
      → (cl : ℕ) → dst / 2 ^ virtual_cl_shift ≤ cl
      → cl / group_size < (dst + n) / 2 ^ virtual_cl_shift / group_size
      → Kept s' cl

-- A range of few groups, below 2 ^ 48.
abbrev pub IsShort : ℕ → ℕ → Type 0
IsShort dst n =
    (dst + n < 2 ^ 48)
    × ((dst + n) / 2 ^ virtual_cl_shift / group_size < dst / 2 ^ virtual_cl_shift / group_size + 4)

log_written_lem :
    (fuel dst n : ℕ) (s : State) (log : ℕ) (m : LogManager)
    → IsValid s.thread.dirty_cls.table
    → IsShort dst n
    → get_new_log s.mgr ≡ some (some log, m)
    → (s' : State) × (log_written (suc (suc fuel)) dst n s ≡ some s') × Logged dst n s s'
unfolding log_written
log_written_lem fuel dst n s log m valid (word, few) got = elim (Bool-cases (in_cxl_nhc_mem dst)) [
  | inl e ↦
      let (s', runs, stored) =
        log_range_store_lem fuel dst (dst + n) s log m valid (omega arith) word few got in
      (
        s',
        rw e runs,
        record { valid = stored.valid; kept = stored.kept; added = λ f. stored.added },
      )
  | inr e ↦ (
    s,
    rw e refl,
    record { valid = valid; kept = λ cl c. inl c; added = λ f cl a b. absurd (cc (e, f)) },
  )
]

-- memmove before instrument_lib, of less than 2 ^ 32 bytes, with a destination that ends below 2 ^ 48 in
-- at most the third group after its first, by a thread with a valid table, while a log is to be had. It comes to its end,
-- however the two ranges overlap: it returns the destination, `n` bytes there are those that were at
-- the source, and the other bytes are as they were. Every line that was dirty is dirty still or written
-- back, and so is every line of the destination in the groups before that of its end, if the
-- destination is not hardware coherent.
pub memmove_lem :
    (fuel dst src n : ℕ) (mem : Memory) (s : State) (log : ℕ) (m : LogManager)
    → n < suc (suc fuel)
    → n < u32_mod
    → IsValid s.thread.dirty_cls.table
    → IsShort dst n
    → get_new_log s.mgr ≡ some (some log, m)
    → (mem' : Memory) × (s' : State) × (memmove (suc (suc fuel)) none dst src n mem s
        ≡ some (dst, mem', s'))
      × Copied dst src n mem mem'
      × Logged dst n s s'
memmove_lem fuel dst src n mem s log m enough small valid short got =
    let (s', logs, ok) = log_written_lem fuel dst n s log m valid short got in
    let (mem', runs, there) =
      memmove_copies (suc (suc fuel)) dst src n mem s s' enough small logs in
    (mem', s', runs, there, ok)
