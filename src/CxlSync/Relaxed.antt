-- ===== src/CxlSync/Relaxed.antt =====
-- include/cxlSync.hpp: CXLRelaxedMutex, with the range loops of include/flushUtils.hpp. The lock `mtx`
-- is free at the call, and the allocation of the object is outside. config.hpp always defines
-- PROTOCOL_OFF, so `lock` takes the branch without the owner.
use racoherence.Prelude.{
  ℕ, zero, suc, ◌+◌, ◌-◌, ◌*◌, ◌/◌, ◌%◌, ◌^◌, ◌≤◌, ◌<◌, ◌≡◌, refl, true, false, Option, none, some,
  List, [], ◌∷◌, ◌++◌, map, ltb, if◌then◌else◌, arith, contains, Bool-cases, inl, inr,
}
use mathlib.Core.Path.{subst}
use racoherence.Config.{cache_line_size, u32_mod}
use racoherence.CacheInfo.{Flush, invalidate, writeback, CacheInfo, flush}
use racoherence.CacheInfo.Process.{drops, drops-append, drops-invalidate}
use racoherence.ThreadOps.Publish.{writes_back, writes_back-map, writes_back-before}

-- `for (; ptr < end; ptr += CACHE_LINE_SIZE)`, on fuel.
unfoldable pub range_lines : ℕ → ℕ → ℕ → Option (List ℕ)
range_lines zero ptr end = none
range_lines (suc fuel) ptr end =
    let rest = range_lines fuel (ptr + cache_line_size) end in
    if ltb ptr end then elim rest [ none ↦ none | some ps ↦ some (ptr ∷ ps) ] else some []

-- `data + len` with an `int` length; a length of 2 ^ 31 or more is negative.
abbrev pub range_end : ℕ → ℕ → ℕ
range_end data_ len =
    if ltb (len % u32_mod) (2 ^ 31)
    then data_ + len % u32_mod
    else data_ - (u32_mod - len % u32_mod)

-- The lines of both loops.
unfoldable pub lines_of : ℕ → ℕ → Option (List ℕ)
lines_of data_ len =
    range_lines (len % u32_mod / cache_line_size + 3) (data_ - data_ % cache_line_size)
      (range_end data_ len)

abbrev pub issue : (ℕ → Flush) → Option (List ℕ) → CacheInfo → Option CacheInfo
issue instruction none c = none
issue instruction (some ps) c = some (flush c (map instruction ps))

unfoldable pub do_range_invalidate : ℕ → ℕ → CacheInfo → Option CacheInfo
do_range_invalidate data_ len c = issue invalidate (lines_of data_ len) c

unfoldable pub do_range_writeback : ℕ → ℕ → CacheInfo → Option CacheInfo
do_range_writeback data_ len c = issue writeback (lines_of data_ len) c

-- CXLRelaxedMutex::lock and unlock, for data of `size` bytes.
unfoldable pub relaxed_lock : ℕ → ℕ → CacheInfo → Option CacheInfo
relaxed_lock data_ size c = do_range_invalidate data_ size c

unfoldable pub relaxed_unlock : ℕ → ℕ → CacheInfo → Option CacheInfo
relaxed_unlock data_ size c = do_range_writeback data_ size c

range_lines_next :
    (fuel ptr end : ℕ) (ps : List ℕ)
    → ltb ptr end ≡ true
    → range_lines fuel (ptr + cache_line_size) end ≡ some ps
    → range_lines (suc fuel) ptr end ≡ some (ptr ∷ ps)
unfolding range_lines
range_lines_next fuel ptr end ps e runs = rw (e, runs) refl

-- The lines from `ptr` on that begin below `end` are there.
abbrev Visits : ℕ → ℕ → List ℕ → Type 0
Visits ptr end ps =
    (k : ℕ) → ptr + k * cache_line_size < end → contains ps (ptr + k * cache_line_size) ≡ true

one_more :
    (ptr end : ℕ) (ps : List ℕ) → Visits (ptr + cache_line_size) end ps → Visits ptr end (ptr ∷ ps)
one_more ptr end ps there zero h = ground arith
one_more ptr end ps there (suc i) h =
    let e : ptr + suc i * cache_line_size ≡ ptr + cache_line_size + i * cache_line_size =
      omega arith in
    rw e (ground (arith, there i (omega arith)))

-- The loop visits the lines from `ptr` on.
range_lines_lem :
    (n ptr end : ℕ)
    → end ≤ ptr + n * cache_line_size
    → (ps : List ℕ) × (range_lines (suc n) ptr end ≡ some ps) × Visits ptr end ps
unfolding range_lines
range_lines_lem zero ptr end enough =
    let e : ltb ptr end ≡ false = ground arith in ([], rw e refl, (λ k h. absurd (omega arith)))
range_lines_lem (suc n) ptr end enough =
    let (ps, runs, there) = range_lines_lem n (ptr + cache_line_size) end (omega arith) in
    elim (Bool-cases (ltb ptr end)) [
      | inr e ↦ ([], rw e refl, (λ k h. ground (arith, e)))
      | inl e ↦ (ptr ∷ ps, range_lines_next (suc n) ptr end ps e runs, one_more ptr end ps there)
    ]

-- Each line that has a byte of `len` bytes at `data_` is visited.
lines_of_lem :
    (data_ len : ℕ)
    → len < 2 ^ 31
    → (ps : List ℕ) × (lines_of data_ len ≡ some ps)
      × ((i : ℕ) → i < len → contains ps ((data_ + i) / cache_line_size * cache_line_size) ≡ true)
unfolding lines_of
lines_of_lem data_ len small =
    let n = len / cache_line_size + 2 in
    let from = data_ - data_ % cache_line_size in
    let (ps, runs, there) = range_lines_lem n from (data_ + len) (omega arith) in
    let same : len % u32_mod ≡ len = omega arith in
    let positive : ltb len (2 ^ 31) ≡ true = ground arith in
    let fuel : len / cache_line_size + 3 ≡ suc n = omega arith in
    (
      ps,
      rw (same, positive, fuel) runs,
      (λ i h.
          let k = (data_ + i) / cache_line_size - data_ / cache_line_size in
          let at : from + k * cache_line_size ≡ (data_ + i) / cache_line_size * cache_line_size =
            omega arith in
          subst (λ a. contains ps a ≡ true) at (there k (omega arith))),
    )

-- CXLRelaxedMutex::lock and unlock for data of less than 2 ^ 31 bytes. They come to their end; `lock`
-- drops the node's copy of each line that has a byte of the data, and `unlock` writes each such line
-- back. `lock` keeps what was dropped before, and `unlock` what was written back before.
pub relaxed_mutex_lem :
    (data_ size : ℕ) (c : CacheInfo)
    → size < 2 ^ 31
    → ((c' : CacheInfo) × (relaxed_lock data_ size c ≡ some c')
        × ((i : ℕ)
            → i < size
            → drops c'.flushes ((data_ + i) / cache_line_size * cache_line_size) ≡ true)
        × ((addr : ℕ) → drops c.flushes addr ≡ true → drops c'.flushes addr ≡ true))
      × ((c' : CacheInfo) × (relaxed_unlock data_ size c ≡ some c')
          × ((i : ℕ)
              → i < size
              → writes_back c'.flushes ((data_ + i) / cache_line_size * cache_line_size) ≡ true)
          × ((addr : ℕ) → writes_back c.flushes addr ≡ true → writes_back c'.flushes addr ≡ true))
unfolding relaxed_lock relaxed_unlock do_range_invalidate do_range_writeback flush
relaxed_mutex_lem data_ size c small =
    let (ps, runs, there) = lines_of_lem data_ size small in
    (
      (
        record c { flushes = c.flushes ++ map invalidate ps },
        rw runs refl,
        (λ i h.
            rw
              (
                drops-append c.flushes (map invalidate ps)
                    ((data_ + i) / cache_line_size * cache_line_size),
                drops-invalidate ps ((data_ + i) / cache_line_size * cache_line_size),
                there i h,
              )
              (ground arith)),
        (λ addr h. rw (drops-append c.flushes (map invalidate ps) addr, h) refl),
      ),
      (
        record c { flushes = c.flushes ++ map writeback ps },
        rw runs refl,
        (λ i h.
            writes_back-map c.flushes ps ((data_ + i) / cache_line_size * cache_line_size)
              (there i h)),
        (λ addr h. writes_back-before c.flushes (map writeback ps) addr h),
      ),
    )
