-- ===== src/LazyBuild/Marks.antt =====
-- CacheInfo::process_log without EAGER_INVALIDATE: which lines of a mask-based group are marked.
use racoherence.Prelude.{
  ℕ, ◌+◌, ◌*◌, ◌/◌, ◌%◌, ◌^◌, ◌≤◌, ◌<◌, ◌≡◌, refl, ap, ◌∙◌, true, false, ◌||◌, [], ◌∷◌, arith, ◌==◌,
  if◌then◌else◌,
}
use native.Mathlib.Nat.{pow-le-pow_right}
use racoherence.Prelude.Bits.{pow_add}
use racoherence.ClGroup.{
  get_ptr, get_mask16, get_mask16_to_64_shift, is_length_based, shl64, group_size,
  group_index_shift,
}
use racoherence.CacheInfo.{invalidate}
use racoherence.ClTracker.{Tracker, is_dirty, mark_mask, invalidate_if_dirty}
use racoherence.ClTracker.Bits.{leaf_is_dirty_lem, test_bit-pow}
use racoherence.ClTracker.Lines.{same_leaf_at, invalidate_if_dirty_lem}
use racoherence.ClTracker.Masks.{is_dirty-mark_mask}
use racoherence.Runtime.{in_cxl_nhc_mem, read_bytes}
use racoherence.LazyBuild.{process_log, rac_load}

-- The group of line `cl`, with that line only.
abbrev pub one_line : ℕ → ℕ
one_line cl = cl / group_size + 2 ^ (cl % group_size) * 2 ^ group_index_shift

one_line_fields :
    (cl : ℕ)
    → cl < 2 ^ 42
    → (is_length_based (one_line cl) ≡ false)
      × (get_ptr (one_line cl) ≡ cl / 16 * 2 ^ 10)
      × (get_mask16 (one_line cl) ≡ 2 ^ (cl % 16))
      × (get_mask16_to_64_shift (one_line cl) ≡ 4 * (cl / 32 % 2 * 2))
unfolding is_length_based get_ptr get_mask16 get_mask16_to_64_shift
one_line_fields cl small =
    let bound : 2 ^ (cl % 16) ≤ 2 ^ 15 =
      pow-le-pow_right {n = 2} (omega arith) {i = cl % 16} {j = 15} (omega arith) in
    (ground (arith, bound), ground (arith, bound), ground (arith, bound), ground (arith, bound))

-- The bit that the mask of line `cl` has in a leaf.
marked_bit : ℕ → ℕ
marked_bit cl = cl % 16 + 4 * (cl / 32 % 2 * 2)

mask_bit : (cl : ℕ) → shl64 (2 ^ (cl % 16)) (4 * (cl / 32 % 2 * 2)) ≡ 2 ^ marked_bit cl
unfolding marked_bit
mask_bit cl =
    let p = cl % 16 in
    let s = 4 * (cl / 32 % 2 * 2) in
    let bound : 2 ^ (p + s) ≤ 2 ^ 23 =
      pow-le-pow_right {n = 2} (omega arith) {i = p + s} {j = 23} (omega arith) in
    omega (arith, pow_add p s, bound)

bit_found : (cl : ℕ) → (marked_bit cl == cl % 64) ≡ (cl / 16 % 4 == 0)
unfolding marked_bit
bit_found cl = ground arith

mask_runs :
    (entry : ℕ) (t : Tracker)
    → is_length_based entry ≡ false
    → process_log (entry ∷ []) t
      ≡ ([], mark_mask t (get_ptr entry) (shl64 (get_mask16 entry) (get_mask16_to_64_shift entry)))
unfolding process_log
mask_runs entry t m = rw (process_log, m) refl

-- What the tracker says of an address after its line came in a log by itself.
log_marks :
    (addr : ℕ) (t : Tracker)
    → addr < 2 ^ 48
    → (process_log (one_line (addr / 64) ∷ []) t).0 ≡ []
      × (is_dirty (process_log (one_line (addr / 64) ∷ []) t).1 addr
          ≡ (addr / 64 / 16 % 4 == 0 || is_dirty t addr))
log_marks addr t small =
    let cl = addr / 64 in
    let (m, ptr, mask, shift) = one_line_fields cl (omega arith) in
    let runs = mask_runs (one_line cl) t m in
    (
      ap (λ r. r.0) runs,
      ap (λ r. is_dirty r.1 addr) runs
          ∙ rw (ptr, mask, shift, mask_bit cl)
              (is_dirty-mark_mask t (cl / 16 * 2 ^ 10) (2 ^ marked_bit cl) addr
                ∙ rw
                    (
                      same_leaf_at (cl / 16 * 2 ^ 10) addr (omega arith),
                      leaf_is_dirty_lem (2 ^ marked_bit cl) (addr / 64 % 64),
                      test_bit-pow (marked_bit cl) (addr / 64 % 64),
                    )
                    (ground (arith, bit_found cl))),
    )

load_issues :
    (size addr : ℕ) (mem : ℕ → ℕ) (t : Tracker)
    → in_cxl_nhc_mem addr ≡ true
    → (rac_load size addr mem t).1 ≡ (if is_dirty t addr then invalidate addr ∷ [] else [])
unfolding rac_load
load_issues size addr mem t e = ap (λ r. r.1) loads ∙ (invalidate_if_dirty_lem t addr).issued
  where
    loads :
        rac_load size addr mem t
        ≡ (read_bytes size addr mem, (invalidate_if_dirty t addr).1, (invalidate_if_dirty t addr).2)
    loads = rw (rac_load, e) refl

-- CacheInfo::process_log without EAGER_INVALIDATE, of a log with the line of a 48-bit address only,
-- that is in memory without hardware coherence; then RACLOAD of the address, which no earlier log marked. Processing issues nothing. The load
-- invalidates the line if its group of 16 lines is the first of the four that share a leaf of the
-- tracker; in the other three groups it reads without invalidating.
pub rac_load-process_log :
    (size addr : ℕ) (mem : ℕ → ℕ) (t : Tracker)
    → addr < 2 ^ 48
    → in_cxl_nhc_mem addr ≡ true
    → is_dirty t addr ≡ false
    → ((process_log (one_line (addr / 64) ∷ []) t).0 ≡ [])
      × ((rac_load size addr mem (process_log (one_line (addr / 64) ∷ []) t).1).1
          ≡ (if addr / 64 / 16 % 4 == 0 then invalidate addr ∷ [] else []))
rac_load-process_log size addr mem t small nhc unmarked =
    let (none_issued, marks) = log_marks addr t small in
    let here : is_dirty (process_log (one_line (addr / 64) ∷ []) t).1 addr
        ≡ (addr / 64 / 16 % 4 == 0) =
      marks ∙ rw unmarked (ground arith) in
    (
      none_issued,
      load_issues size addr mem (process_log (one_line (addr / 64) ∷ []) t).1 nhc
          ∙ ap (λ b. if b then invalidate addr ∷ [] else []) here,
    )
