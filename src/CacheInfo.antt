-- ===== src/CacheInfo.antt =====
-- include/cacheInfo.hpp: what a node knows of the others' logs. The cache instructions of
-- include/flushUtils.hpp are recorded in the order in which they are issued; the build invalidates
-- eagerly (EAGER_INVALIDATE), so `process_log` does not use the tracker. Out of fuel is `none`.
pub mod Process
use racoherence.Prelude.{
  ℕ, zero, suc, ◌+◌, ◌*◌, ◌%◌, ◌^◌, Bool, true, false, Option, none, some, List, [], ◌∷◌, ◌++◌, map,
  ltb, leb, ◌==◌, if◌then◌else◌, update, values,
}
use racoherence.Config.{u64_mod, u32_mod, cache_line_size, cl_expand_factor, wbinvd_threshold}
use racoherence.ClGroup.{
  is_length_based, get_length, get_ptr, get_mask16, mask_range, length_range, group_size,
}

-- do_writeback, do_invalidate, wbinvd, with the address of the cache line.
pub data Flush : Type 0 where
  writeback : ℕ → Flush
  invalidate : ℕ → Flush
  wbinvd : Flush

-- The hardware lines from an address on: `ptr + i * CACHE_LINE_SIZE`, `n` of them.
abbrev pub lines_at : ℕ → ℕ → List ℕ
lines_at n ptr = values (λ i. (ptr + i * cache_line_size) % u64_mod) 0 n

-- The loop body for each address of a range.
abbrev pub each : (ℕ → List ℕ) → List ℕ → List ℕ
each lines [] = []
each lines (p ∷ ps) = lines p ++ each lines ps

-- The hardware lines of a mask-based group.
unfoldable pub mask_lines : ℕ → Option (List ℕ)
mask_lines entry = elim (mask_range (get_ptr entry) (get_mask16 entry)) [
  | none ↦ none
  | some ps ↦ some (each (lines_at cl_expand_factor) ps)
]

-- CacheInfo::process_log, with LOCAL_CL_TABLE, WBINVD_PATH and EAGER_INVALIDATE; `unsigned length`
-- takes the length on 32 bits.
unfoldable pub process_log : List ℕ → Option (List Flush)
unfolding mask_lines
process_log [] = some []
process_log (entry ∷ log) =
    let rest = process_log log in
    let length = get_length entry % u32_mod in
    if is_length_based entry
    then (if leb wbinvd_threshold length then some (wbinvd ∷ []) else elim rest [
      | none ↦ none
      | some flushes ↦ some (
          map invalidate (lines_at (length * group_size * cl_expand_factor) (get_ptr entry))
          ++ flushes)
    ])
    else elim (mask_lines entry) [
      | none ↦ none
      | some ps ↦ elim rest [ none ↦ none | some flushes ↦ some (map invalidate ps ++ flushes) ]
    ]

-- `clock` is the node's progress through the logs of each node; `flushes` the instructions issued.
pub record CacheInfo : Type 0 where
  pub clock : ℕ → ℕ
  pub flushes : List Flush

unfoldable pub update_clock : CacheInfo → ℕ → ℕ → CacheInfo
update_clock c i val = record c { clock = update c.clock i val }

-- With no call between its load and its compare-exchange.
unfoldable pub update_clock_monotonic : CacheInfo → ℕ → ℕ → CacheInfo
update_clock_monotonic c i val =
    if leb val (c.clock i) then c else record c { clock = update c.clock i val }

abbrev pub get_clock : CacheInfo → ℕ → ℕ
get_clock c i = c.clock i

unfoldable pub flush : CacheInfo → List Flush → CacheInfo
flush c issued = record c { flushes = c.flushes ++ issued }
