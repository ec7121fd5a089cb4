-- ===== src/Config.antt =====
-- The constants of include/config.hpp at their default values, and those that clGroup.hpp,
-- clTracker.hpp and cacheAgent.hpp derive from them. Sizes are in bytes unless their name says
-- otherwise.
use racoherence.Prelude.{ℕ, ◌+◌, ◌-◌, ◌*◌, ◌/◌, ◌^◌}

abbrev pub node_count : ℕ
node_count = 8

-- `2 ^ 32` values of `unsigned`, `2 ^ 64` of `uintptr_t` and `size_t`.
abbrev pub u32_mod : ℕ
u32_mod = 2 ^ 32

abbrev pub u64_mod : ℕ
u64_mod = 2 ^ 64

abbrev pub cache_line_size : ℕ
cache_line_size = 64

abbrev pub cache_line_shift : ℕ
cache_line_shift = 6

abbrev pub virtual_address_bits : ℕ
virtual_address_bits = 48

abbrev pub cl_expand_shift : ℕ
cl_expand_shift = 0

abbrev pub cl_expand_factor : ℕ
cl_expand_factor = 2 ^ cl_expand_shift

abbrev pub virtual_cl_size : ℕ
virtual_cl_size = cache_line_size * cl_expand_factor

abbrev pub virtual_cl_shift : ℕ
virtual_cl_shift = cache_line_shift + cl_expand_shift

abbrev pub cxl_hc_start : ℕ
cxl_hc_start = 2 ^ (virtual_address_bits - 1)

abbrev pub cxl_nhc_start : ℕ
cxl_nhc_start = 3 * 2 ^ (virtual_address_bits - 2)

abbrev pub wbinvd_threshold : ℕ
wbinvd_threshold = 2 * 2 ^ 18

abbrev pub local_cl_table_size : ℕ
local_cl_table_size = 64

abbrev pub local_cl_table_search_iters : ℕ
local_cl_table_search_iters = 5

abbrev pub log_entry_total : ℕ
log_entry_total = 4096

abbrev pub log_size : ℕ
log_size = 64

abbrev pub log_count : ℕ
log_count = log_entry_total / log_size

abbrev pub log_max_batch : ℕ
log_max_batch = 100
