-- ===== src/LogManager.antt =====
-- include/logManager.hpp: the broadcast log of one node. A `Log *` is the index of its buffer in
-- `buf`; a `Log` is the list of the entries written since its `size` was set to 0. Every function is
-- one call, made whole; `produce_tail` is its `fetch_add` and its stores, which other calls may come
-- between. `idx_t` is a 32-bit unsigned that wraps. Out of fuel is `none`.
pub mod System
pub mod Gc
pub mod Fresh
pub mod Defs
pub mod Invariant
pub mod Correct
pub mod Tests
use racoherence.Prelude.{
  ℕ, zero, suc, ◌+◌, ◌-◌, ◌%◌, ◌<◌, Bool, true, false, not, ◌&&◌, ◌||◌, Option, none, some, List,
  [], ◌∷◌, ◌++◌, ltb, leb, ◌==◌, if◌then◌else◌, update, length,
}
use racoherence.Config.{u32_mod, log_count, log_size, node_count}
use racoherence.SpmcQueue.{Queue, enqueue, dequeue}
use racoherence.SpmcQueue

abbrev pub Log : Type 0
Log = List ℕ

-- Log::is_full
abbrev pub is_full : Log → Bool
is_full log = length log == log_size

-- Log::write; its assertion is `length log < log_size`.
abbrev pub write : Log → ℕ → Log
write log cl_addr = log ++ cl_addr ∷ []

pub record PubEntry : Type 0 where
  pub log : ℕ
  pub idx : ℕ
  pub is_rel : Bool

pub record SubStatus : Type 0 where
  pub head : ℕ
  pub is_subbed : Bool

pub record LogManager : Type 0 where
  pub buf : ℕ → Log
  pub entries : ℕ → PubEntry
  pub tail : ℕ
  pub subs : ℕ → SubStatus
  pub freelist : Queue
  pub node_id : ℕ
  pub bound : ℕ

abbrev pub next_round : ℕ → ℕ
next_round idx = (idx + log_count) % u32_mod

abbrev pub prev_round : ℕ → ℕ
prev_round idx = (idx + u32_mod - log_count) % u32_mod

abbrev pub get_idx : ℕ → ℕ
get_idx idx = idx % log_count

abbrev pub next_idx : ℕ → ℕ
next_idx idx = (idx + 1) % u32_mod

-- The loop over the subscribers in `perform_gc`: the new bound and whether there is one.
pub gc_bound : ℕ → ℕ → LogManager → ℕ × Bool → ℕ × Bool
gc_bound zero i m (new_b, subscribed) = (new_b, subscribed)
gc_bound (suc rounds) i m (new_b, subscribed) =
    let h = next_round ((m.subs i).head) in
    let lower = if ltb h new_b && leb m.bound h then h else new_b in
    gc_bound rounds (i + 1) m
      (if i == m.node_id || not ((m.subs i).is_subbed) then (new_b, subscribed) else (lower, true))

-- `while(!freelist.enqueue(log));`, with one try left to the fuel.
pub push_free : Queue → ℕ → Option Queue
push_free q log = elim (enqueue 1 q log) [
  | none ↦ none
  | some (ok, q') ↦ if ok then some q' else none
]

-- The loop that frees, with a subscriber.
pub gc_free : ℕ → ℕ → ℕ → (ℕ → PubEntry) → Queue → Option Queue
unfolding push_free
gc_free zero i new_b entries q = none
gc_free (suc fuel) i new_b entries q = elim (i == new_b) [
  | true ↦ some q
  | false ↦ elim (push_free q ((entries (get_idx i)).log)) [
    | none ↦ none
    | some q' ↦ gc_free fuel (next_idx i) new_b entries q'
  ]
]

-- The loop that frees, with no subscriber: it stops at an entry that is not published yet.
pub gc_free_unsubbed : ℕ → ℕ → ℕ → (ℕ → PubEntry) → Queue → Option (ℕ × Queue)
unfolding push_free
gc_free_unsubbed zero i new_b entries q = none
gc_free_unsubbed (suc fuel) i new_b entries q =
    elim (i == new_b || not ((entries (get_idx i)).idx == next_idx (prev_round i))) [
      | true ↦ some (i, q)
      | false ↦ elim (push_free q ((entries (get_idx i)).log)) [
        | none ↦ none
        | some q' ↦ gc_free_unsubbed fuel (next_idx i) new_b entries q'
      ]
    ]

-- The fuel is one more than the LOG_COUNT entries that one collection frees at most.
abbrev pub gc_fuel : ℕ
gc_fuel = log_count + 1

unfoldable pub perform_gc : LogManager → Option LogManager
unfolding gc_bound gc_free gc_free_unsubbed
perform_gc m =
    let (new_b, subscribed) = gc_bound node_count 0 m (next_round m.bound, false) in
    elim subscribed [
      | true ↦ elim (gc_free gc_fuel m.bound new_b m.entries m.freelist) [
        | none ↦ none
        | some q ↦ some (record m { freelist = q; bound = new_b })
      ]
      | false ↦ elim (gc_free_unsubbed gc_fuel m.bound new_b m.entries m.freelist) [
        | none ↦ none
        | some (b, q) ↦ some (record m { freelist = q; bound = b })
      ]
    ]

-- A log taken from the free list, with `log->size = 0`.
pub take_free : LogManager → Option (Option ℕ × LogManager)
take_free m = elim (dequeue 1 m.freelist) [
  | none ↦ none
  | some (none, q) ↦ some (none, record m { freelist = q })
  | some (some log, q) ↦ some (some log, record m { freelist = q; buf = update m.buf log [] })
]

-- `none` inside is the null pointer.
pub get_new_log : LogManager → Option (Option ℕ × LogManager)
unfolding take_free perform_gc
get_new_log m = elim (take_free m) [
  | none ↦ none
  | some (some log, m') ↦ some (some log, m')
  | some (none, m') ↦ elim (take_free m') [
    | none ↦ none
    | some (some log, m'') ↦ some (some log, m'')
    | some (none, m'') ↦ elim (perform_gc m'') [
      | none ↦ none
      | some collected ↦ take_free collected
    ]
  ]
]

-- The `fetch_add` of `produce_tail`.
unfoldable pub claim_tail : LogManager → ℕ × LogManager
claim_tail m = (m.tail, record m { tail = next_idx m.tail })

-- Its stores, for the position that was claimed.
unfoldable pub publish : LogManager → ℕ → ℕ → Bool → LogManager
publish m t log r = record m {
  entries = update m.entries (get_idx t) (record { log = log; idx = next_idx t; is_rel = r });
}

-- The release clock and the new state.
unfoldable pub produce_tail : LogManager → ℕ → Bool → ℕ × LogManager
unfolding claim_tail publish
produce_tail m log r = let (t, m') = claim_tail m in (next_idx t, publish m' t log r)

unfoldable pub is_subscribed : LogManager → ℕ → Bool
is_subscribed m nid = (m.subs nid).is_subbed

unfoldable pub take_head : LogManager → ℕ → Option PubEntry
take_head m nid =
    let h = (m.subs nid).head in
    let entry = m.entries (get_idx h) in if entry.idx == next_idx h then some entry else none

unfoldable pub consume_head : LogManager → ℕ → LogManager
consume_head m nid = record m {
  subs = update m.subs nid (record (m.subs nid) { head = next_idx ((m.subs nid).head) });
}

unfoldable pub remove_subscriber : LogManager → ℕ → LogManager
remove_subscriber m nid = record m {
  subs = update m.subs nid (record (m.subs nid) { is_subbed = false });
}

-- With no call between, the second load of the tail gives the value of the first, and the loop that
-- catches up with the tail is left at once.
unfoldable pub add_subscriber : LogManager → ℕ → ℕ × LogManager
add_subscriber m nid =
    (m.tail, record m { subs = update m.subs nid (record { head = m.tail; is_subbed = true }) })

-- The constructor fills the free list with every buffer.
pub fill_free : ℕ → ℕ → Queue → Option Queue
unfolding push_free
fill_free zero i q = some q
fill_free (suc rounds) i q = elim (push_free q i) [
  | none ↦ none
  | some q' ↦ fill_free rounds (i + 1) q'
]

-- The members after their initialisers, with the free list filled.
abbrev pub fresh : ℕ → Queue → LogManager
fresh nid q = record {
  buf = λ i. [];
  entries = λ i. record { log = i; idx = 0; is_rel = false };
  tail = 0;
  subs = λ i. record { head = 0; is_subbed = true };
  freelist = q;
  node_id = nid;
  bound = next_round 0;
}

pub new : ℕ → Option LogManager
unfolding fill_free
new nid = elim (fill_free log_count 0 SpmcQueue.new) [ none ↦ none | some q ↦ some (fresh nid q) ]
