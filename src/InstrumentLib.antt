-- ===== src/InstrumentLib.antt =====
-- src/instrumentLib.cpp: the memory functions that log what they write in memory that is not hardware
-- coherent, with the default build. The functions that instrument_lib finds with dlsym are parameters;
-- `none` is a pointer below 2, with which a loop of bytes runs. Memory is a function of the address.
-- `none` as a result is an exit, undefined behaviour, a wait, or fuel that ran out.
pub mod Copy
pub mod Logged
use racoherence.Prelude.{
  ℕ, zero, suc, ◌+◌, ◌%◌, ◌^◌, Bool, true, false, Option, none, some, ltb, ◌==◌, if◌then◌else◌,
  update,
}
use racoherence.Config.{u32_mod, u64_mod}
use racoherence.CacheInfo.{flush}
use racoherence.ClTracker.{Tracker}
use racoherence.ThreadOps.{State, log_range_store}
use racoherence.Runtime.{in_cxl_nhc_mem, invalidate_boundaries}

abbrev pub Memory : Type 0
Memory = ℕ → ℕ

-- `for (unsigned i = ...; i < n; i++) dst[i] = src[i];`: `i` has 32 bits, and `n` has 64.
unfoldable pub copy_up : ℕ → ℕ → ℕ → ℕ → ℕ → Memory → Option Memory
copy_up zero i dst src n mem = none
copy_up (suc fuel) i dst src n mem =
    let rest = copy_up fuel ((i + 1) % u32_mod) dst src n (update mem (dst + i) (mem (src + i))) in
    if ltb i n then rest else some mem

-- `for (unsigned i = ...; i != 0;) { i--; dst[i] = src[i]; }`
unfoldable pub copy_down : ℕ → ℕ → ℕ → Memory → Memory
copy_down zero dst src mem = mem
copy_down (suc i) dst src mem = copy_down i dst src (update mem (dst + i) (mem (src + i)))

-- `for (i = ...; i < n; i++) dst[i] = c;` with an index of `modulus` values.
unfoldable pub fill_up : ℕ → ℕ → ℕ → ℕ → ℕ → ℕ → Memory → Option Memory
fill_up modulus zero i dst c n mem = none
fill_up modulus (suc fuel) i dst c n mem =
    let rest = fill_up modulus fuel ((i + 1) % modulus) dst c n (update mem (dst + i) c) in
    if ltb i n then rest else some mem

-- The end of each function: what was written is logged.
unfoldable pub log_written : ℕ → ℕ → ℕ → State → Option State
log_written fuel dst n s =
    if in_cxl_nhc_mem dst then log_range_store fuel dst (dst + n) s else some s

-- A result with the state after the log.
abbrev pub and_log {ℓ} :
    {A : Type ℓ} → ℕ → ℕ → ℕ → State → Option (A × Memory) → Option (A × Memory × State)
and_log fuel dst n s none = none
and_log fuel dst n s (some (ret, mem)) = elim (log_written fuel dst n s) [
  | none ↦ none
  | some s' ↦ some (ret, mem, s')
]

-- A function that returns its first argument.
abbrev pub returning : ℕ → Option Memory → Option (ℕ × Memory)
returning dst none = none
returning dst (some mem) = some (dst, mem)

-- What memcpy and memmove of the C library do, with what they return.
abbrev pub CopyReal : Type 0
CopyReal = ℕ → ℕ → ℕ → Memory → ℕ × Memory

abbrev pub copied : ℕ → Option CopyReal → ℕ → ℕ → ℕ → Memory → Option (ℕ × Memory)
copied fuel (some real) dst src n mem = some (real dst src n mem)
copied fuel none dst src n mem = returning dst (copy_up fuel 0 dst src n mem)

unfoldable pub memcpy :
    ℕ → Option CopyReal → ℕ → ℕ → ℕ → Memory → State → Option (ℕ × Memory × State)
memcpy fuel memcpy_real dst src n mem s =
    and_log fuel dst n s (copied fuel memcpy_real dst src n mem)

abbrev pub moved : ℕ → Option CopyReal → ℕ → ℕ → ℕ → Memory → Option (ℕ × Memory)
moved fuel (some real) dst src n mem = some (real dst src n mem)
moved fuel none dst src n mem =
    if ltb dst src
    then returning dst (copy_up fuel 0 dst src n mem)
    else some (dst, copy_down (n % u32_mod) dst src mem)

unfoldable pub memmove :
    ℕ → Option CopyReal → ℕ → ℕ → ℕ → Memory → State → Option (ℕ × Memory × State)
memmove fuel memmove_real dst src n mem s =
    and_log fuel dst n s (moved fuel memmove_real dst src n mem)

abbrev pub filled : ℕ → Option CopyReal → ℕ → ℕ → ℕ → Memory → Option (ℕ × Memory)
filled fuel (some real) dst c n mem = some (real dst c n mem)
filled fuel none dst c n mem = returning dst (fill_up u32_mod fuel 0 dst (c % 2 ^ 8) n mem)

abbrev pub with_tracker {ℓ} :
    {A : Type ℓ} → Tracker → Option (A × Memory × State) → Option (A × Memory × Tracker × State)
with_tracker t none = none
with_tracker t (some (ret, mem, s)) = some (ret, mem, t, s)

-- The boundaries are invalidated: the test of `EAGER_INVALIDAE` is true, since no such macro is defined.
unfoldable pub boundaries_dropped : ℕ → ℕ → Tracker → State → Tracker × State
boundaries_dropped dst n t s =
    let (flushes, t') = invalidate_boundaries dst (dst + n) t in
    if in_cxl_nhc_mem dst then (t', record s { cache = flush s.cache flushes }) else (t, s)

unfoldable pub memset :
    ℕ
    → Option CopyReal
    → ℕ
    → ℕ
    → ℕ
    → Tracker
    → Memory
    → State
    → Option (ℕ × Memory × Tracker × State)
memset fuel memset_real dst c n t mem s =
    let (t', s') = boundaries_dropped dst n t s in
    with_tracker t' (and_log fuel dst n s' (filled fuel memset_real dst c n mem))

abbrev pub zeroed : ℕ → Option (ℕ → ℕ → Memory → Memory) → ℕ → ℕ → Memory → Option (ℕ × Memory)
zeroed fuel (some real) dst n mem = some (dst, real dst n mem)
zeroed fuel none dst n mem = returning dst (fill_up u64_mod fuel 0 dst 0 n mem)

-- bzero, which returns nothing; `dst` stands for that.
unfoldable pub bzero :
    ℕ → Option (ℕ → ℕ → Memory → Memory) → ℕ → ℕ → Memory → State → Option (ℕ × Memory × State)
bzero fuel bzero_real dst n mem s = and_log fuel dst n s (zeroed fuel bzero_real dst n mem)

-- `while (src[n] != '\0') n++;`
unfoldable pub length_from : ℕ → ℕ → ℕ → Memory → Option ℕ
length_from zero src n mem = none
length_from (suc fuel) src n mem =
    let rest = length_from fuel src (n + 1) mem in if mem (src + n) == 0 then some n else rest

-- strcpy. Without `strcpy_real` its loop copies from an index that is not initialised.
unfoldable pub strcpy :
    ℕ → Option (ℕ → ℕ → Memory → ℕ × Memory) → ℕ → ℕ → Memory → State → Option (ℕ × Memory × State)
strcpy fuel none dst src mem s = none
strcpy fuel (some strcpy_real) dst src mem s =
    let (ret, mem') = strcpy_real dst src mem in
    elim (length_from fuel src 0 mem') [
      | none ↦ none
      | some n ↦ and_log fuel dst n s (some (ret, mem'))
    ]

-- read; the whole of the buffer is logged, whatever the number of bytes read.
unfoldable pub read :
    ℕ
    → Option (ℕ → ℕ → ℕ → Memory → ℕ × Memory)
    → ℕ
    → ℕ
    → ℕ
    → Memory
    → State
    → Option (ℕ × Memory × State)
read fuel none fd buf count mem s = none
read fuel (some read_real) fd buf count mem s =
    and_log fuel buf count s (some (read_real fd buf count mem))
