-- ===== src/ExtentPool.antt =====
-- include/extentPool.hpp: a pool of memory that only grows. A call of `allocate` is made whole, so that
-- its compare-exchange succeeds; `~x` on 64 bits is `2 ^ 64 - 1 - x`.
pub mod Allocate
use racoherence.Prelude.{ℕ, ◌+◌, ◌-◌, ◌%◌, ◌^◌, Option, none, some, bit_and, ltb, if◌then◌else◌}
use racoherence.Config.{u64_mod}

-- `base_`, `size_`, `offset_`
pub record ExtentPool : Type 0 where
  pub base : ℕ
  pub size : ℕ
  pub offset : ℕ

unfoldable pub aligned_up : ℕ → ℕ → ℕ
aligned_up start alignment =
    if ltb 1 alignment
    then bit_and ((start + (alignment - 1)) % u64_mod) (u64_mod - 1 - (alignment - 1))
    else start

-- `none` is the null pointer.
unfoldable pub allocate : ExtentPool → ℕ → ℕ → Option ℕ × ExtentPool
unfolding aligned_up
allocate p size alignment =
    let aligned_addr = aligned_up ((p.base + p.offset) % u64_mod) alignment in
    let aligned_offset = (aligned_addr + u64_mod - p.base) % u64_mod in
    if ltb p.size ((aligned_offset + size) % u64_mod)
    then (none, p)
    else (some aligned_addr, record p { offset = (aligned_offset + size) % u64_mod })

-- `deallocate` does nothing.
unfoldable pub deallocate : ExtentPool → ℕ → ℕ → ExtentPool
deallocate p ptr size = p

abbrev pub total_size : ExtentPool → ℕ
total_size p = p.size
