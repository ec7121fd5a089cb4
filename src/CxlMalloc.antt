-- ===== src/CxlMalloc.antt =====
-- src/cxlMalloc.cpp, the default build (USE_GLOBAL_MIMALLOC): how cxl_alloc_process_init divides the
-- memory among the arenas. mi_cxl_meta_region_size of mimalloc is a parameter, and the calls that hand
-- the regions to mimalloc are taken to succeed. `none` is a failed assert.
pub mod Regions
pub mod Hooks
use racoherence.Prelude.{ℕ, ◌+◌, ◌-◌, ◌%◌, Option, none, some, ltb, if◌then◌else◌}
use racoherence.Config.{u64_mod}

-- What mi_manage_os_memory_shared_disjoint gets: the metadata and the memory of an arena.
pub record Arena : Type 0 where
  pub meta : ℕ
  pub meta_size : ℕ
  pub start : ℕ
  pub size : ℕ

pub record Arenas : Type 0 where
  pub hc : Arena
  pub nhc : Arena

unfoldable pub cxl_alloc_process_init : (ℕ → ℕ) → ℕ → ℕ → ℕ → ℕ → Option Arenas
cxl_alloc_process_init region_size hc_buf hc_range nhc_buf nhc_range =
    let nhc_meta_size = region_size nhc_range in
    let hc_meta_size = region_size ((hc_range + u64_mod - nhc_meta_size) % u64_mod) in
    if ltb ((nhc_meta_size + hc_meta_size) % u64_mod) hc_range
    then some (record {
      hc = record {
        meta = hc_buf;
        meta_size = hc_meta_size;
        start = hc_buf + hc_meta_size;
        size = hc_range - hc_meta_size - nhc_meta_size;
      };
      nhc = record {
        meta = hc_buf + hc_range - nhc_meta_size;
        meta_size = nhc_meta_size;
        start = nhc_buf;
        size = nhc_range;
      };
    })
    else none
