-- ===== src/LazyBuild/Tests.antt =====
-- A line of the second group of a leaf, in the build without EAGER_INVALIDATE.
use racoherence.Prelude.{
  ℕ, ◌+◌, ◌*◌, ◌/◌, ◌%◌, ◌^◌, ◌≡◌, refl, true, false, none, [], ◌∷◌, arith, ◌==◌, if◌then◌else◌,
}
use racoherence.CacheInfo.{invalidate}
use racoherence.ClTracker.{Tracker, is_dirty, find_leaf}
use racoherence.Runtime.{in_cxl_nhc_mem}
use racoherence.LazyBuild.{process_log, rac_load}
use racoherence.LazyBuild.Marks.{one_line, rac_load-process_log}

abbrev nothing_marked : Tracker
nothing_marked i = none

abbrev second_group : ℕ
second_group = 3 * 2 ^ 46 + 1032

clean_before : is_dirty nothing_marked second_group ≡ false
unfolding is_dirty find_leaf
clean_before = refl

in_nhc : in_cxl_nhc_mem second_group ≡ true
in_nhc = refl

rac_load-process_log_example :
    ((process_log (one_line (second_group / 64) ∷ []) nothing_marked).0 ≡ [])
    × ((rac_load 8 second_group
          (λ a. 0)
          (process_log (one_line (second_group / 64) ∷ []) nothing_marked).1).1
        ≡ (if second_group / 64 / 16 % 4 == 0 then invalidate second_group ∷ [] else []))
rac_load-process_log_example =
    rac_load-process_log 8 second_group (λ a. 0) nothing_marked (omega arith) in_nhc clean_before
