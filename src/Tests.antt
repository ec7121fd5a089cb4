-- ===== src/Tests.antt =====
-- Concrete runs of the vector clocks, the packed groups, the table of dirty lines and the free list.
use racoherence.Prelude.{
  ◌<◌, ℕ, ◌+◌, ◌*◌, ◌/◌, ◌%◌, ◌^◌, ◌≡◌, refl, true, false, ◌&&◌, none, some, [], ◌∷◌, ◌++◌, map,
  ◌⊎◌, max, arith,
}
use racoherence.Config.{u64_mod, virtual_cl_shift, cache_line_size}
use racoherence.CacheInfo.{CacheInfo}
use racoherence.CacheInfo.Process.{drops}
use racoherence.ThreadOps.Publish.{writes_back}
use racoherence.CxlSync.Relaxed.{relaxed_lock, relaxed_unlock, relaxed_mutex_lem}
use racoherence.Runtime.{Layout, alloc_cxl_memory, layout}
use racoherence.CxlMalloc.{Arenas, cxl_alloc_process_init}
use racoherence.CxlMalloc.Regions.{Ordered, regions-Ordered}
use racoherence.VectorClock.{VectorClock, merge, le}
use racoherence.VectorClock.Order.{merge_lub}
use racoherence.ClGroup.{is_length_based, get_index, get_length, try_coalesce, shl64, mask_range}
use racoherence.ClGroup.Coalesce.{try_coalesce_result}
use racoherence.ClGroup.Ranges.{mask_range_lem, set_bits}
use racoherence.LocalClTable.{LocalClTable, RangeResult, empty_table, insert, range_insert}
use racoherence.LocalClTable.Groups.{Ranged}
use racoherence.LocalClTable.Range.{range_insert_lem}
use racoherence.LocalClTable.Loses.{range_insert-loses}
use racoherence.LocalClTable.Covers.{Covered, covers-zero}
use racoherence.LocalClTable.Home.{IsValid}
use racoherence.LocalClTable.Insert.{insert_lem, empty-IsValid}
use racoherence.ClTracker.{Tracker, mark_dirty, invalidate_range_if_dirty}
use racoherence.ClTracker.RangeLeaf.{Result, RangeInvalidated}
use racoherence.ClTracker.RangeLoop.{invalidate_range_if_dirty_lem}
use racoherence.ExtentPool.{ExtentPool}
use racoherence.SpmcQueue.{Queue, enqueue, dequeue, new}
use racoherence.SpmcQueue.Refine.{contents, enqueue_refines, dequeue_refines, new-IsValid}
use racoherence.SpmcQueue.Refine

abbrev early_clock : VectorClock
early_clock = 1 ∷ 2 ∷ 0 ∷ 0 ∷ 0 ∷ 0 ∷ 0 ∷ 0 ∷ []

abbrev other_clock : VectorClock
other_clock = 0 ∷ 5 ∷ 0 ∷ 0 ∷ 0 ∷ 0 ∷ 0 ∷ 7 ∷ []

merge_lub_example :
    (le early_clock (merge early_clock other_clock) ≡ true)
    × (le other_clock (merge early_clock other_clock) ≡ true)
    × (le (merge early_clock other_clock) early_clock
        ≡ (le early_clock early_clock && le other_clock early_clock))
merge_lub_example = merge_lub early_clock other_clock early_clock refl refl

-- Groups 10 to 12 and 100 to 101 do not meet.
try_coalesce_result_example :
    (is_length_based (try_coalesce 10 100 3 2) ≡ true)
    × (get_index (try_coalesce 10 100 3 2) ≡ max 10 100)
    × (get_index (try_coalesce 10 100 3 2) + get_length (try_coalesce 10 100 3 2)
        ≡ max (10 + 3) (100 + 2))
try_coalesce_result_example =
    try_coalesce_result 10 100 3 2 (omega arith) (omega arith) (omega arith) (omega arith)

abbrev three_groups : ℕ
three_groups = 2 ^ 63 + 3 * 2 ^ 38 + 7

mask_range_lem_example :
    mask_range 4096 10 ≡ some (map (λ p. (4096 + shl64 p virtual_cl_shift) % u64_mod) (set_bits 10))
mask_range_lem_example = mask_range_lem 4096 10 (omega arith)

insert_lem_example :
    (((insert empty_table 1000).0 ≡ false)
      × IsValid (insert empty_table 1000).1
      × Covered (insert empty_table 1000).1 1000
      × ((other : ℕ) → Covered empty_table other → Covered (insert empty_table 1000).1 other))
    ⊎ (((insert empty_table 1000).0 ≡ true) × ((insert empty_table 1000).1 ≡ empty_table))
insert_lem_example = insert_lem empty_table 1000 empty-IsValid (omega arith)

enqueue_refines_example :
    (q' : Queue) × (enqueue 1 new 5 ≡ some (true, q'))
    × Refine.IsValid q'
    × (contents q' ≡ contents new ++ 5 ∷ [])
    × (q'.enqueue_pos ≡ new.enqueue_pos + 1)
unfolding new
enqueue_refines_example = enqueue_refines 0 5 new-IsValid (omega arith) (omega arith)

dequeue_refines_example :
    ((contents new ≡ []) × (dequeue 1 new ≡ some (none, new)))
    ⊎ ((v : ℕ) × (q' : Queue) × (dequeue 1 new ≡ some (some v, q'))
        × Refine.IsValid q'
        × (contents new ≡ v ∷ contents q')
        × (q'.enqueue_pos ≡ new.enqueue_pos))
dequeue_refines_example = dequeue_refines 0 new-IsValid

-- Every buffer is free.
abbrev full_queue : Queue
full_queue = record { sequence = λ i. i + 1; cell = λ i. i; enqueue_pos = 64; dequeue_pos = 0 }

full_queue-IsValid : Refine.IsValid full_queue
full_queue-IsValid = record {
  ordered = omega arith;
  bounded = omega arith;
  small = omega arith;
  full_cells = λ p a b. omega arith;
  free_cells = λ p a b. omega arith;
}

abbrev no_lines : Tracker
no_lines = λ i. none

-- Parts of two leaves.
invalidate_range_if_dirty_lem_example :
    (r : Result) × (invalidate_range_if_dirty 3 (mark_dirty no_lines 4100) 4000 4200 ≡ some r)
    × RangeInvalidated (mark_dirty no_lines 4100) 3968 4200 false r
invalidate_range_if_dirty_lem_example =
    invalidate_range_if_dirty_lem 3 (mark_dirty no_lines 4100) 4000 4200 (omega arith) (omega arith)
      (omega arith) (omega arith)

abbrev pool : ExtentPool
pool = record { base = 2 ^ 40; size = 1000; offset = 10 }

abbrev empty_lines : LocalClTable
empty_lines = record {
  table = empty_table;
  length_entry_count = 0;
  buffer = record { cl_addr = 0; len = 0 };
}

-- From inside group 0 to inside group 2.
range_insert_lem_example :
    (r : RangeResult) × (range_insert 0 5 40 empty_lines ≡ some r) × Ranged empty_table 5 40 r
range_insert_lem_example =
    range_insert_lem 0 5 40 empty_lines empty-IsValid (omega arith) (omega arith) (omega arith)

no_line : (cl : ℕ) → ¬ (Covered empty_table cl)
no_line cl (j, inside, c) = absurd (cc (c, covers-zero cl))

-- Lines 17 to 19 are stored, and line 18 is not recorded.
range_insert-loses_example :
    (r : RangeResult) × (range_insert 0 17 20 empty_lines ≡ some r) × ¬ (Covered r.dirty.table 18)
range_insert-loses_example =
    range_insert-loses 0 17 20 18 empty_lines empty-IsValid (λ j. omega arith) (no_line 18) refl
      (omega arith) (omega arith) (omega arith)

abbrev no_flushes : CacheInfo
no_flushes = record { clock = λ i. 0; flushes = [] }

relaxed_mutex_lem_example :
    ((c' : CacheInfo) × (relaxed_lock 100 200 no_flushes ≡ some c')
      × ((i : ℕ)
          → i < 200
          → drops c'.flushes ((100 + i) / cache_line_size * cache_line_size) ≡ true)
      × ((addr : ℕ) → drops no_flushes.flushes addr ≡ true → drops c'.flushes addr ≡ true))
    × ((c' : CacheInfo) × (relaxed_unlock 100 200 no_flushes ≡ some c')
        × ((i : ℕ)
            → i < 200
            → writes_back c'.flushes ((100 + i) / cache_line_size * cache_line_size) ≡ true)
        × ((addr : ℕ)
            → writes_back no_flushes.flushes addr ≡ true
            → writes_back c'.flushes addr ≡ true))
relaxed_mutex_lem_example = relaxed_mutex_lem 100 200 no_flushes (omega arith)

record Started : Type 0 where
  place : Layout
  arenas : Arenas
  laid : layout 4096 (2 ^ 20) 64 ≡ some place
  divided :
      cxl_alloc_process_init
        (λ n. n / 64 + 1)
        place.alloc_hc
        place.alloc_hc_range
        place.nhc_buf
        (2 ^ 20)
      ≡ some arenas

abbrev started : Started
unfolding layout alloc_cxl_memory cxl_alloc_process_init
started = record { place = _; arenas = _; laid = refl; divided = refl }

regions-Ordered_example : Ordered 4096 64 (2 ^ 20) (2 ^ 20) started.place started.arenas
regions-Ordered_example =
    regions-Ordered (λ n. n / 64 + 1) 4096 64 (2 ^ 20) (2 ^ 20) started.place started.arenas
      (omega arith) (omega arith) (omega arith) started.laid started.divided
