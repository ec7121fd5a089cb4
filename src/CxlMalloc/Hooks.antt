-- ===== src/CxlMalloc/Hooks.antt =====
-- src/cxlMalloc.cpp without USE_GLOBAL_MIMALLOC: the extents that jemalloc's hooks give out, and the
-- pools that they come from; CXLHCAllocator of include/cxlMalloc.hpp. The C library's memset, and
-- cxlhc_malloc with its heaps, are parameters. A pointer that may be null is an Option.
pub mod Extents
pub mod Tests
use racoherence.Prelude.{
  ℕ, ◌+◌, ◌-◌, ◌*◌, ◌%◌, Bool, true, false, Option, none, some, bit_and, ◌==◌, if◌then◌else◌,
}
use racoherence.Config.{u64_mod, cache_line_size}
use racoherence.ExtentPool.{ExtentPool, allocate}

-- AllocMeta
pub record AllocMeta : Type 0 where
  pub cxlhc_pool : ExtentPool
  pub cxlnhc_pool : ExtentPool

-- `new (&pool) ExtentPool(buf, range)`
abbrev pub new_pool : ℕ → ℕ → ExtentPool
new_pool buffer buffer_size = record { base = buffer; size = buffer_size; offset = 0 }

-- What cxl_alloc_process_init makes of the metadata: the first process places the pools, the
-- coherent one from the next cache line on. `-` binds tighter than `&`.
unfoldable pub place_pools : ℕ → ℕ → ℕ → ℕ → Bool → AllocMeta → AllocMeta
place_pools hc_buf hc_range nhc_buf nhc_range is_first a_meta =
    let padding =
      bit_and ((cache_line_size + u64_mod - hc_buf % u64_mod) % u64_mod) (cache_line_size - 1) in
    let buf = if padding == 0 then hc_buf else hc_buf + padding in
    let range =
      if padding == 0 then hc_range else (hc_range + u64_mod - padding % u64_mod) % u64_mod in
    if is_first
    then record { cxlhc_pool = new_pool buf range; cxlnhc_pool = new_pool nhc_buf nhc_range }
    else a_meta

-- What a hook gives back: the extent, the metadata, the memory, `*zero` and `*commit`.
pub record Answer : Type 0 where
  pub extent : Option ℕ
  pub alloc_meta : AllocMeta
  pub memory : ℕ → ℕ
  pub zero_ : Option Bool
  pub commit : Option Bool

abbrev pub Memset : Type 0
Memset = ℕ → ℕ → ℕ → (ℕ → ℕ) → ℕ → ℕ

-- The part of a hook after its pool was asked, with the metadata then.
abbrev pub answer : Memset → Option ℕ → ℕ → Option Bool → Option Bool → AllocMeta → (ℕ → ℕ) → Answer
answer memset none size zero_ commit meta mem = record {
  extent = none;
  alloc_meta = meta;
  memory = mem;
  zero_ = zero_;
  commit = commit;
}
answer memset (some p) size zero_ commit meta mem = record {
  extent = some p;
  alloc_meta = meta;
  memory = elim zero_ [ none ↦ mem | some wanted ↦ if wanted then memset p 0 size mem else mem ];
  zero_ = elim zero_ [ none ↦ none | some wanted ↦ some false ];
  commit = elim commit [ none ↦ none | some c ↦ some true ];
}

-- cxlhc_extent_alloc
unfoldable pub cxlhc_extent_alloc :
    Memset → ℕ → ℕ → Option Bool → Option Bool → AllocMeta → (ℕ → ℕ) → Answer
cxlhc_extent_alloc memset size alignment zero_ commit meta mem =
    let (p, pool) = allocate meta.cxlhc_pool size alignment in
    answer memset p size zero_ commit (record meta { cxlhc_pool = pool }) mem

-- cxlnhc_extent_alloc
unfoldable pub cxlnhc_extent_alloc :
    Memset → ℕ → ℕ → Option Bool → Option Bool → AllocMeta → (ℕ → ℕ) → Answer
cxlnhc_extent_alloc memset size alignment zero_ commit meta mem =
    let (p, pool) = allocate meta.cxlnhc_pool size alignment in
    answer memset p size zero_ commit (record meta { cxlnhc_pool = pool }) mem

-- The hooks for freeing an extent opt out, those for splitting and merging allow it.
abbrev pub extent_dalloc : ℕ → ℕ → Bool
extent_dalloc addr size = true

abbrev pub extent_split : ℕ → ℕ → ℕ → Bool
extent_split addr size_a size_b = false

abbrev pub extent_merge : ℕ → ℕ → Bool
extent_merge addr_a addr_b = false

-- CXLHCAllocator::allocate for `n` values of a size; `none` is std::bad_alloc.
abbrev pub allocator_allocate : {H : Type 0} → (ℕ → H → Option ℕ × H) → ℕ → ℕ → H → Option ℕ × H
allocator_allocate cxlhc_malloc sizeof n heap = cxlhc_malloc (n * sizeof % u64_mod) heap

-- CXLHCAllocator::deallocate
abbrev pub allocator_deallocate : {H : Type 0} → (ℕ → ℕ → H → H) → ℕ → ℕ → ℕ → H → H
allocator_deallocate cxlhc_free sizeof p n heap = cxlhc_free p (n * sizeof % u64_mod) heap
