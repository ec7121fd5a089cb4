-- ===== src/SpmcQueue.antt =====
-- include/spmcQueue.hpp: the bounded queue of LOG_COUNT cells that holds the free logs, one call at
-- a time. The padding is left out; `pos & buffer_mask_` is `% 64`; `intptr_t dif` is the difference
-- on 64 bits, negative from 2 ^ 63 on.
pub mod Refine
use racoherence.Prelude.{
  ℕ, zero, suc, ◌+◌, ◌-◌, ◌%◌, ◌^◌, Bool, true, false, Option, none, some, leb, ◌==◌, if◌then◌else◌,
  update,
}
use racoherence.Config.{u64_mod, log_count}

-- `buffer_[i]` is `sequence i` and `cell i`; the payload `T` is a `Log *`, a number here.
pub record Queue : Type 0 where
  pub sequence : ℕ → ℕ
  pub cell : ℕ → ℕ
  pub enqueue_pos : ℕ
  pub dequeue_pos : ℕ

-- The constructor.
unfoldable pub new : Queue
new = record { sequence = λ i. i; cell = λ i. 0; enqueue_pos = 0; dequeue_pos = 0 }

abbrev pub dif : ℕ → ℕ → ℕ
dif seq pos = (seq + u64_mod - pos) % u64_mod

abbrev pub negative : ℕ → Bool
negative d = leb (2 ^ 63) d

-- The loop of `enqueue`, on fuel: `none` when it runs out.
unfoldable pub enqueue_loop : ℕ → ℕ → Queue → ℕ → Option (Bool × Queue)
enqueue_loop zero pos q data_ = none
enqueue_loop (suc fuel) pos q data_ =
    let index = pos % log_count in
    let d = dif (q.sequence index) pos in
    let rest = enqueue_loop fuel q.enqueue_pos q data_ in
    if d == 0
    then some (
      true,
      record q {
        enqueue_pos = (pos + 1) % u64_mod;
        cell = update q.cell index data_;
        sequence = update q.sequence index ((pos + 1) % u64_mod);
      },
    )
    else if negative d
    then some (false, q)
    else rest

unfoldable pub enqueue : ℕ → Queue → ℕ → Option (Bool × Queue)
unfolding enqueue_loop
enqueue fuel q data_ = enqueue_loop fuel q.enqueue_pos q data_

-- The loop of `dequeue`: the value taken, or `none` for the result `false`. With one call at a time
-- the compare-exchange on `dequeue_pos_` succeeds when `pos` is its value, and else `pos` is reloaded.
unfoldable pub dequeue_loop : ℕ → ℕ → Queue → Option (Option ℕ × Queue)
dequeue_loop zero pos q = none
dequeue_loop (suc fuel) pos q =
    let index = pos % log_count in
    let d = dif (q.sequence index) ((pos + 1) % u64_mod) in
    let rest = dequeue_loop fuel q.dequeue_pos q in
    if d == 0
    then (if q.dequeue_pos == pos
        then some (
          some (q.cell index),
          record q {
            dequeue_pos = (pos + 1) % u64_mod;
            sequence = update q.sequence index ((pos + log_count) % u64_mod);
          },
        )
        else rest)
    else if negative d
    then some (none, q)
    else rest

unfoldable pub dequeue : ℕ → Queue → Option (Option ℕ × Queue)
unfolding dequeue_loop
dequeue fuel q = dequeue_loop fuel q.dequeue_pos q
