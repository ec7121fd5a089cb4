-- ===== src/LazyBuild.antt =====
-- The build without EAGER_INVALIDATE: CacheInfo::process_log of include/cacheInfo.hpp marks lines in the
-- tracker of include/clTracker.hpp, and RACLOAD and RACSTORE of include/runtime.hpp invalidate a marked
-- line when they come to it (check_invalidate of include/threadOps.hpp).
pub mod Marks
pub mod Tests
use racoherence.Prelude.{
  ℕ, zero, suc, ◌+◌, ◌%◌, Bool, true, false, Option, none, some, List, [], ◌∷◌, leb, if◌then◌else◌,
}
use racoherence.Config.{u64_mod, u32_mod, wbinvd_threshold}
use racoherence.ClGroup.{
  is_length_based, get_length, get_ptr, get_mask16, get_mask16_to_64_shift, shl64, full_mask,
}
use racoherence.CacheInfo.{Flush, wbinvd}
use racoherence.ClTracker.{Tracker, mark_mask, invalidate_if_dirty}
use racoherence.ThreadOps.{State, log_store}
use racoherence.Runtime.{in_cxl_nhc_mem, read_bytes, write_bytes}

-- The loop over a length-based group, `rounds` more of it from `i` on.
unfoldable pub mark_groups : ℕ → ℕ → ℕ → Tracker → Tracker
mark_groups zero i cl_addr t = t
mark_groups (suc rounds) i cl_addr t =
    mark_groups rounds (i + 1) cl_addr
      (mark_mask t ((cl_addr + i) % u64_mod) (shl64 full_mask (get_mask16_to_64_shift cl_addr)))

-- The instructions issued, and the tracker.
unfoldable pub process_log : List ℕ → Tracker → List Flush × Tracker
process_log [] t = ([], t)
process_log (entry ∷ log) t =
    let length = get_length entry % u32_mod in
    elim (is_length_based entry) [
      | true ↦ elim (leb wbinvd_threshold length) [
        | true ↦ (wbinvd ∷ [], t)
        | false ↦ process_log log (mark_groups length 0 (get_ptr entry) t)
      ]
      | false ↦
          process_log log
            (mark_mask t (get_ptr entry) (shl64 (get_mask16 entry) (get_mask16_to_64_shift entry)))
    ]

-- check_invalidate
abbrev pub check_invalidate : ℕ → Tracker → Bool × List Flush × Tracker
check_invalidate addr t = invalidate_if_dirty t addr

-- RACLOAD: the value, the instructions issued before the load, and the tracker.
unfoldable pub rac_load : ℕ → ℕ → (ℕ → ℕ) → Tracker → ℕ × List Flush × Tracker
rac_load size addr mem t = elim (in_cxl_nhc_mem addr) [
  | true ↦
      let (found, issued, t') = check_invalidate addr t in (read_bytes size addr mem, issued, t')
  | false ↦ (read_bytes size addr mem, [], t)
]

-- RACSTORE: the memory, the instructions issued before the store, the tracker and the thread.
unfoldable pub rac_store :
    ℕ → ℕ → ℕ → (ℕ → ℕ) → Tracker → State → Option ((ℕ → ℕ) × List Flush × Tracker × State)
rac_store size addr val mem t s = elim (in_cxl_nhc_mem addr) [
  | true ↦
      let (found, issued, t') = check_invalidate addr t in
      elim (log_store addr s) [
        | none ↦ none
        | some s' ↦ some (write_bytes size addr val mem, issued, t', s')
      ]
  | false ↦ some (write_bytes size addr val mem, [], t, s)
]
