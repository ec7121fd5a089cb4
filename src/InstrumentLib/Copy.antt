-- ===== src/InstrumentLib/Copy.antt =====
-- The loops of src/instrumentLib.cpp write what they are to write.
use racoherence.Prelude.{
  ℕ, zero, suc, ◌+◌, ◌%◌, ◌^◌, ◌≤◌, ◌<◌, ◌≡◌, ◌⊎◌, inl, inr, refl, ◌∙◌, true, none, some, arith,
  update, ltb, Bool-cases,
}
use native.Mathlib.Nat.{mod-eq_of_lt}
use racoherence.Config.{u32_mod, u64_mod}
use racoherence.ClTracker.{Tracker}
use racoherence.ThreadOps.{State}
use racoherence.InstrumentLib.{
  Memory, copy_up, copy_down, fill_up, log_written, and_log, boundaries_dropped, memcpy, memmove,
  memset, bzero,
}

-- `n` bytes at `dst` are those that were at `src`, and the others are as they were.
pub record Copied (dst src n : ℕ) (mem mem' : Memory) : Type 0 where
  pub there : (k : ℕ) → k < n → mem' (dst + k) ≡ mem (src + k)
  pub kept : (a : ℕ) → (a < dst) ⊎ (dst + n ≤ a) → mem' a ≡ mem a

copy_up_next :
    (fuel i dst src n : ℕ) (mem : Memory)
    → ltb i n ≡ true
    → i + 1 < u32_mod
    → copy_up (suc fuel) i dst src n mem
      ≡ copy_up fuel (i + 1) dst src n (update mem (dst + i) (mem (src + i)))
unfolding copy_up
copy_up_next fuel i dst src n mem e small =
    let next : (i + 1) % u32_mod ≡ i + 1 = omega arith in rw (e, next) refl

-- The loop upwards from `i`, when what it is still to read lies above what it writes, or apart.
copy_up_lem :
    (fuel i dst src n : ℕ) (mem : Memory)
    → i ≤ n
    → n < i + fuel
    → n < u32_mod
    → (dst ≤ src) ⊎ (src + n ≤ dst)
    → (mem' : Memory) × (copy_up fuel i dst src n mem ≡ some mem')
      × ((k : ℕ) → i ≤ k → k < n → mem' (dst + k) ≡ mem (src + k))
      × ((a : ℕ) → (a < dst + i) ⊎ (dst + n ≤ a) → mem' a ≡ mem a)
unfolding copy_up
copy_up_lem zero i dst src n mem low enough small order = absurd (omega arith)
copy_up_lem (suc fuel) i dst src n mem low enough small order = elim (Bool-cases (ltb i n)) [
  | inr e ↦ (mem, rw e refl, (λ k l h. ground (arith, e)), (λ a h. refl))
  | inl e ↦
      let lt : i < n = ground (arith, e) in
      let (mem', runs, there, kept) =
        copy_up_lem fuel (i + 1) dst src n (update mem (dst + i) (mem (src + i))) (omega arith)
          (omega arith) small order in
      (
        mem',
        copy_up_next fuel i dst src n mem e (omega arith) ∙ runs,
        (λ k l h. ground (arith, there k, kept (dst + k))),
        (λ a h. ground (arith, kept a)),
      )
]

-- The loop downwards, when what it is still to read lies below what it writes, or apart.
copy_down_lem :
    (n dst src : ℕ) (mem : Memory) → src ≤ dst → Copied dst src n mem (copy_down n dst src mem)
unfolding copy_down
copy_down_lem zero dst src mem le = record {
  there = λ k h. absurd (omega arith);
  kept = λ a h. refl;
}
copy_down_lem (suc n) dst src mem le =
    let rest = copy_down_lem n dst src (update mem (dst + n) (mem (src + n))) le in
    record {
      there = λ k h. ground (arith, rest.there k, rest.kept (dst + k));
      kept = λ a h. ground (arith, rest.kept a);
    }

fill_up_next :
    (modulus fuel i dst c n : ℕ) (mem : Memory)
    → ltb i n ≡ true
    → i + 1 < modulus
    → fill_up modulus (suc fuel) i dst c n mem
      ≡ fill_up modulus fuel (i + 1) dst c n (update mem (dst + i) c)
unfolding fill_up
fill_up_next modulus fuel i dst c n mem e small =
    let next : (i + 1) % modulus ≡ i + 1 = mod-eq_of_lt small in rw (e, next) refl

fill_up_lem :
    (modulus fuel i dst c n : ℕ) (mem : Memory)
    → i ≤ n
    → n < i + fuel
    → n < modulus
    → (mem' : Memory) × (fill_up modulus fuel i dst c n mem ≡ some mem')
      × ((k : ℕ) → i ≤ k → k < n → mem' (dst + k) ≡ c)
      × ((a : ℕ) → (a < dst + i) ⊎ (dst + n ≤ a) → mem' a ≡ mem a)
unfolding fill_up
fill_up_lem modulus zero i dst c n mem low enough small = absurd (omega arith)
fill_up_lem modulus (suc fuel) i dst c n mem low enough small = elim (Bool-cases (ltb i n)) [
  | inr e ↦ (mem, rw e refl, (λ k l h. ground (arith, e)), (λ a h. refl))
  | inl e ↦
      let lt : i < n = ground (arith, e) in
      let (mem', runs, there, kept) =
        fill_up_lem modulus fuel (i + 1) dst c n (update mem (dst + i) c) (omega arith)
          (omega arith) small in
      (
        mem',
        fill_up_next modulus fuel i dst c n mem e (omega arith) ∙ runs,
        (λ k l h. ground (arith, there k, kept (dst + k))),
        (λ a h. ground (arith, kept a)),
      )
]

copy_up-Copied :
    (fuel dst src n : ℕ) (mem : Memory)
    → n < fuel
    → n < u32_mod
    → (dst ≤ src) ⊎ (src + n ≤ dst)
    → (mem' : Memory) × (copy_up fuel 0 dst src n mem ≡ some mem') × Copied dst src n mem mem'
copy_up-Copied fuel dst src n mem enough small order =
    let (mem', runs, there, kept) =
      copy_up_lem fuel 0 dst src n mem (omega arith) (omega arith) small order in
    (
      mem',
      runs,
      record { there = λ k h. there k (omega arith) h; kept = λ a h. kept a (ground arith) },
    )

logs :
    (fuel dst n r : ℕ) (mem : Memory) (s s' : State)
    → log_written fuel dst n s ≡ some s'
    → and_log fuel dst n s (some (r, mem)) ≡ some (r, mem, s')
logs fuel dst n r mem s s' h = rw (and_log, h) refl

-- memcpy before instrument_lib, of less than 2 ^ 32 bytes, when the source does not begin below the
-- destination or ends below it, and the log of the destination is made. It comes to its end: it
-- returns the destination, `n` bytes there are those that were at the source, the other bytes are as
-- they were, and the destination is logged if it is not hardware coherent.
memcpy_copies :
    (fuel dst src n : ℕ) (mem : Memory) (s s' : State)
    → n < fuel
    → n < u32_mod
    → (dst ≤ src) ⊎ (src + n ≤ dst)
    → log_written fuel dst n s ≡ some s'
    → (mem' : Memory) × (memcpy fuel none dst src n mem s ≡ some (dst, mem', s'))
      × Copied dst src n mem mem'
unfolding memcpy
memcpy_copies fuel dst src n mem s s' enough small order logged =
    let (mem', runs, ok) = copy_up-Copied fuel dst src n mem enough small order in
    (mem', rw runs (logs fuel dst n dst mem' s s' logged), ok)

-- memmove before instrument_lib, of less than 2 ^ 32 bytes, when the log of the destination is made.
-- It comes to its end, however the two ranges overlap: it returns the destination, `n` bytes there are
-- those that were at the source, the other bytes are as they were, and the destination is logged if it
-- is not hardware coherent.
pub memmove_copies :
    (fuel dst src n : ℕ) (mem : Memory) (s s' : State)
    → n < fuel
    → n < u32_mod
    → log_written fuel dst n s ≡ some s'
    → (mem' : Memory) × (memmove fuel none dst src n mem s ≡ some (dst, mem', s'))
      × Copied dst src n mem mem'
unfolding memmove
memmove_copies fuel dst src n mem s s' enough small logged = elim (Bool-cases (ltb dst src)) [
  | inl e ↦
      let (mem', runs, ok) =
        copy_up-Copied fuel dst src n mem enough small (inl (ground (arith, e))) in
      (mem', rw (e, runs) (logs fuel dst n dst mem' s s' logged), ok)
  | inr e ↦ (
    copy_down n dst src mem,
    (let whole : n % u32_mod ≡ n = omega arith in
        rw (e, whole) (logs fuel dst n dst (copy_down n dst src mem) s s' logged)),
    copy_down_lem n dst src mem (ground (arith, e)),
  )
]

-- `n` bytes at `dst` are `c`, and the others are as they were.
pub record Filled (dst c n : ℕ) (mem mem' : Memory) : Type 0 where
  pub there : (k : ℕ) → k < n → mem' (dst + k) ≡ c
  pub kept : (a : ℕ) → (a < dst) ⊎ (dst + n ≤ a) → mem' a ≡ mem a

fill_up-Filled :
    (modulus fuel dst c n : ℕ) (mem : Memory)
    → n < fuel
    → n < modulus
    → (mem' : Memory) × (fill_up modulus fuel 0 dst c n mem ≡ some mem') × Filled dst c n mem mem'
fill_up-Filled modulus fuel dst c n mem enough small =
    let (mem', runs, there, kept) =
      fill_up_lem modulus fuel 0 dst c n mem (omega arith) (omega arith) small in
    (
      mem',
      runs,
      record { there = λ k h. there k (omega arith) h; kept = λ a h. kept a (ground arith) },
    )

-- bzero and memset before instrument_lib, of less than 2 ^ 32 bytes, when the log of the destination is
-- made, which for memset comes after the boundaries are invalidated. They come to their end: `n` bytes
-- at the destination are zero, or the low byte of `c`; the other bytes are as they were; and the
-- destination is logged if it is not hardware coherent.
fills :
    (fuel dst c n : ℕ) (t : Tracker) (mem : Memory) (s s_bzero s_memset : State)
    → n < fuel
    → n < u32_mod
    → log_written fuel dst n s ≡ some s_bzero
    → log_written fuel dst n (boundaries_dropped dst n t s).1 ≡ some s_memset
    → ((mem' : Memory) × (bzero fuel none dst n mem s ≡ some (dst, mem', s_bzero))
        × Filled dst 0 n mem mem')
      × ((mem' : Memory) × (memset fuel none dst c n t mem s
            ≡ some (dst, mem', (boundaries_dropped dst n t s).0, s_memset))
          × Filled dst (c % 2 ^ 8) n mem mem')
unfolding bzero memset
fills fuel dst c n t mem s s_bzero s_memset enough small logged dropped =
    let (zeros, runs, ok) = fill_up-Filled u64_mod fuel dst 0 n mem enough (omega arith) in
    let (bytes, goes, fine) = fill_up-Filled u32_mod fuel dst (c % 2 ^ 8) n mem enough small in
    (
      (zeros, rw runs (logs fuel dst n dst zeros s s_bzero logged), ok),
      (
        bytes,
        rw (goes, logs fuel dst n dst bytes (boundaries_dropped dst n t s).1 s_memset dropped) refl,
        fine,
      ),
    )
