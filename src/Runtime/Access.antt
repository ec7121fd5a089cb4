-- ===== src/Runtime/Access.antt =====
-- Instrumented loads and stores of include/runtime.hpp.
use racoherence.Prelude.{
  ℕ, zero, suc, ◌+◌, ◌*◌, ◌/◌, ◌%◌, ◌^◌, ◌≤◌, ◌<◌, ◌≡◌, ◌⊎◌, refl, sym, ap, ◌∙◌, true, some, arith,
  ℕ_discrete,
}
use mathlib.Core.Path.{subst}
use native.Mathlib.Nat.{div-add-mod, mul-add, mul_assoc, mul_comm, div-div-eq-div-mul}
use racoherence.Prelude.Bits.{pow_add}
use racoherence.Config.{virtual_cl_shift, cache_line_size}
use racoherence.LocalClTable.Covers.{Covered}
use racoherence.LogManager.{LogManager, get_new_log}
use racoherence.ThreadOps.{State}
use racoherence.ThreadOps.Store.{IsConsistent, log_store_lem}
use racoherence.Runtime.{in_cxl_nhc_mem, byte, write_bytes, read_bytes, rac_load, rac_store}

write_bytes-outside :
    (size addr val : ℕ) (mem : ℕ → ℕ) (a : ℕ)
    → (a < addr) ⊎ (addr + size ≤ a)
    → write_bytes size addr val mem a ≡ mem a
unfolding write_bytes
write_bytes-outside zero addr val mem a h = refl
write_bytes-outside (suc size) addr val mem a h =
    ground (arith, write_bytes-outside size addr val mem a (ground arith))

write_bytes-inside :
    (size addr val : ℕ) (mem : ℕ → ℕ) (i : ℕ)
    → i < size
    → write_bytes size addr val mem (addr + i) ≡ byte val i
unfolding write_bytes
write_bytes-inside zero addr val mem i h = absurd (omega arith)
write_bytes-inside (suc size) addr val mem i h = elim (ℕ_discrete size i) [
  | yes e ↦ ground (arith, e)
  | no n ↦ ground (arith, n, write_bytes-inside size addr val mem i (omega arith))
]

read_bytes-ext :
    (size addr : ℕ) (m n : ℕ → ℕ)
    → ((i : ℕ) → i < size → m (addr + i) ≡ n (addr + i))
    → read_bytes size addr m ≡ read_bytes size addr n
unfolding read_bytes
read_bytes-ext zero addr m n h = refl
read_bytes-ext (suc size) addr m n h =
    rw (read_bytes-ext size addr m n (λ i l. h i (omega arith)), h size (omega arith)) refl

-- One more byte of a number.
next_byte : (v p : ℕ) → v % (p * 256) ≡ v % p + v / p % 256 * p
next_byte v p = omega (
  arith,
  div-add-mod v (p * 256),
  div-add-mod v p,
  ap (λ (t : ℕ). p * t) (div-add-mod (v / p) 256),
  mul-add p (256 * (v / p / 256)) (v / p % 256),
  mul_assoc p 256 (v / p / 256),
  ap (λ (t : ℕ). p * 256 * t) (div-div-eq-div-mul v p 256),
  mul_comm p (v / p % 256),
)

next_power : (n : ℕ) → 2 ^ (8 * suc n) ≡ 2 ^ (8 * n) * 256
next_power n =
    ap (λ (t : ℕ). 2 ^ t) {x = 8 * suc n} {y = 8 * n + 8} (omega arith) ∙ pow_add (8 * n) 8

-- The bytes of a number, put together again.
read_bytes-bytes :
    (size addr val : ℕ) (m : ℕ → ℕ)
    → ((i : ℕ) → i < size → m (addr + i) ≡ byte val i)
    → read_bytes size addr m ≡ val % 2 ^ (8 * size)
unfolding read_bytes
read_bytes-bytes zero addr val m h = omega arith
read_bytes-bytes (suc size) addr val m h =
    rw
      (
        read_bytes-bytes size addr val m (λ i l. h i (omega arith)),
        h size (omega arith),
        next_power size,
      )
      (sym (next_byte val (2 ^ (8 * size))))

-- What an instrumented store has done: a load gives the number back, the other bytes are as they
-- were, the thread is consistent, and each line that has a byte of it is dirty.
pub record Written (size addr val : ℕ) (mem mem' : ℕ → ℕ) (s' : State) : Type 0 where
  pub loads : rac_load size addr mem' ≡ val % 2 ^ (8 * size)
  pub kept : (a : ℕ) → (a < addr) ⊎ (addr + size ≤ a) → mem' a ≡ mem a
  pub consistent : IsConsistent s'.thread
  pub dirty :
      (i : ℕ) → i < size → Covered s'.thread.dirty_cls.table ((addr + i) / 2 ^ virtual_cl_shift)

-- An instrumented store by a consistent thread, of a number inside one cache line, at an address of 48
-- bits in memory that is not hardware coherent, while a log is to be had. It comes to its end with the
-- thread consistent; a load gives the number back; the other bytes are as they were; and the line of
-- each byte stored is dirty.
pub rac_store_lem :
    (size addr val : ℕ) (mem : ℕ → ℕ) (s : State) (log : ℕ) (m : LogManager)
    → in_cxl_nhc_mem addr ≡ true
    → IsConsistent s.thread
    → addr < 2 ^ 48
    → addr % cache_line_size + size ≤ cache_line_size
    → get_new_log s.mgr ≡ some (some log, m)
    → (mem' : ℕ → ℕ) × (s' : State) × (rac_store size addr val mem s ≡ some (mem', s'))
      × Written size addr val mem mem' s'
unfolding rac_store
rac_store_lem size addr val mem s log m nhc c w one_line got =
    let (s', runs, stored) = log_store_lem addr s log m c w (ground (arith, nhc)) got in
    (
      write_bytes size addr val mem,
      s',
      rw (nhc, runs) refl,
      record {
        loads =
            read_bytes-bytes size addr val (write_bytes size addr val mem)
              (λ i l. write_bytes-inside size addr val mem i l);
        kept = λ a h. write_bytes-outside size addr val mem a h;
        consistent = stored.consistent;
        dirty = λ i l. subst (Covered s'.thread.dirty_cls.table) (omega arith) stored.dirty;
      },
    )
