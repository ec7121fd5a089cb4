-- ===== src/CxlSync.antt =====
-- include/cxlSync.hpp: the synchronisation objects that carry a location clock. A call is made whole,
-- with the lock `mtx` of the object free; the locks are those of include/mcsLock.hpp. The data of a
-- CXLAtomic is an `int`, a number below 2 ^ 32.
pub mod Clocks
pub mod Handover
pub mod Atomic
mod Tests
pub mod Barrier
pub mod Relaxed
use racoherence.Prelude.{
  ℕ, ◌+◌, ◌-◌, ◌%◌, Bool, true, false, Option, none, some, ltb, ◌==◌, if◌then◌else◌, update,
}
use racoherence.Config.{u32_mod}
use racoherence.VectorClock.{VectorClock, merge}
use racoherence.LogManager.{LogManager}
use racoherence.CacheInfo.{CacheInfo}
use racoherence.ThreadOps.{ThreadOps, State, thread_release}
use racoherence.ThreadOps.Consume.{Consumer, thread_acquire}

pub data MemoryOrder : Type 0 where
  relaxed : MemoryOrder
  acquire : MemoryOrder
  release : MemoryOrder
  acq_rel : MemoryOrder
  seq_cst : MemoryOrder

abbrev pub acquires : MemoryOrder → Bool
acquires relaxed = false
acquires acquire = true
acquires release = false
acquires acq_rel = true
acquires seq_cst = true

abbrev pub releases : MemoryOrder → Bool
releases relaxed = false
releases acquire = false
releases release = true
releases acq_rel = true
releases seq_cst = true

-- What `thread_ops` reaches: the thread, the log managers of all nodes, the cache of its node.
pub record World : Type 0 where
  pub thread : ThreadOps
  pub mgrs : ℕ → LogManager
  pub cache : CacheInfo

-- The thread with the manager and the cache of its node, and the world with those put back.
abbrev pub state_of : World → State
state_of w = record { thread = w.thread; mgr = w.mgrs w.thread.node_id; cache = w.cache }

abbrev pub with_state : World → State → World
with_state w s = record {
  thread = s.thread;
  mgrs = update w.mgrs w.thread.node_id s.mgr;
  cache = s.cache;
}

-- thread_ops->thread_release()
unfoldable pub release_of : World → Option World
release_of w =
    elim (thread_release
      (record { thread = w.thread; mgr = w.mgrs w.thread.node_id; cache = w.cache })) [
        | none ↦ none
        | some (released, s) ↦ some (record {
          thread = s.thread;
          mgrs = update w.mgrs w.thread.node_id s.mgr;
          cache = s.cache;
        })
      ]

-- thread_ops->thread_acquire(clock), on fuel.
unfoldable pub acquire_of : ℕ → VectorClock → World → Option World
acquire_of fuel clock w =
    elim (thread_acquire w.thread.node_id fuel clock w.thread.thread_clock
      (record { mgrs = w.mgrs; cache = w.cache })) [
        | none ↦ none
        | some (vc, c) ↦ some (record {
          thread = record (w.thread) { thread_clock = vc };
          mgrs = c.mgrs;
          cache = c.cache;
        })
      ]

-- CXLAtomic::InnerData; a lock's InnerData has the clock only.
pub record InnerData : Type 0 where
  pub atomic_data : ℕ
  pub clock : VectorClock

-- An `int` kept in a `char`.
abbrev pub as_char : ℕ → ℕ
as_char x = if ltb (x % 256) 128 then x % 256 else x % 256 + (u32_mod - 256)

-- CXLAtomic::store; an acq_rel order is not one of a store, and takes the last branch.
unfoldable pub store : ℕ → MemoryOrder → World → InnerData → Option (World × InnerData)
store desired relaxed w i = some (w, record i { atomic_data = desired })
store desired acquire w i = some (w, record i { atomic_data = desired })
store desired acq_rel w i = some (w, record i { atomic_data = desired })
store desired release w i = elim (release_of w) [
  | none ↦ none
  | some w' ↦ some (w', record { atomic_data = desired; clock = w'.thread.thread_clock })
]
store desired seq_cst w i = elim (release_of w) [
  | none ↦ none
  | some w' ↦ some (w', record { atomic_data = desired; clock = w'.thread.thread_clock })
]

-- CXLAtomic::load
unfoldable pub load : ℕ → MemoryOrder → World → InnerData → Option (ℕ × World)
load fuel relaxed w i = some (i.atomic_data, w)
load fuel release w i = some (i.atomic_data, w)
load fuel acq_rel w i = some (i.atomic_data, w)
load fuel acquire w i = elim (acquire_of fuel i.clock w) [
  | none ↦ none
  | some w' ↦ some (as_char i.atomic_data, w')
]
load fuel seq_cst w i = elim (acquire_of fuel i.clock w) [
  | none ↦ none
  | some w' ↦ some (as_char i.atomic_data, w')
]

-- CXLAtomic::fetch_add
unfoldable pub fetch_add : ℕ → ℕ → MemoryOrder → World → InnerData → Option (ℕ × World × InnerData)
fetch_add fuel arg order w i =
    let sum = (i.atomic_data + arg) % u32_mod in
    elim (releases order) [
      | false ↦ elim (acquires order) [
        | false ↦ some (i.atomic_data, w, record i { atomic_data = sum })
        | true ↦ elim (acquire_of fuel i.clock w) [
          | none ↦ none
          | some w' ↦ some (as_char i.atomic_data, w', record i { atomic_data = sum })
        ]
      ]
      | true ↦ elim (release_of w) [
        | none ↦ none
        | some w' ↦
            let after : InnerData = record {
              atomic_data = sum;
              clock = merge i.clock w'.thread.thread_clock;
            } in
            elim (acquires order) [
              | false ↦ some (as_char i.atomic_data, w', after)
              | true ↦ elim (acquire_of fuel (merge i.clock w'.thread.thread_clock) w') [
                | none ↦ none
                | some w'' ↦ some (as_char i.atomic_data, w'', after)
              ]
            ]
      ]
    ]

-- CXLMutex::lock, with the lock obtained.
unfoldable pub lock : ℕ → World → VectorClock → Option World
lock fuel w clock = acquire_of fuel clock w

-- CXLSharedMutex::lock: the clock is acquired under the shared lock, then under the lock.
unfoldable pub lock_exclusive : ℕ → World → VectorClock → Option World
lock_exclusive fuel w clock = elim (acquire_of fuel clock w) [
  | none ↦ none
  | some w' ↦ acquire_of fuel clock w'
]

-- CXLMutex::unlock, with the new location clock.
unfoldable pub unlock : World → VectorClock → Option (World × VectorClock)
unlock w clock = elim (release_of w) [ none ↦ none | some w' ↦ some (w', w'.thread.thread_clock) ]

-- CXLSharedMutex::lock_shared
unfoldable pub lock_shared : ℕ → World → VectorClock → Option World
lock_shared fuel w clock = acquire_of fuel clock w

-- CXLSharedMutex::unlock
unfoldable pub unlock_exclusive : World → VectorClock → Option (World × VectorClock)
unlock_exclusive w clock = elim (release_of w) [
  | none ↦ none
  | some w' ↦ some (w', w'.thread.thread_clock)
]

-- CXLSharedMutex::unlock_shared: it stores the reader's clock as well.
unfoldable pub unlock_shared : World → VectorClock → Option (World × VectorClock)
unlock_shared w clock = elim (release_of w) [
  | none ↦ none
  | some w' ↦ some (w', w'.thread.thread_clock)
]

-- CXLRelaxedAtomic, whose InnerData is the data: fetch_add, exchange and compare_exchange_strong give
-- what they return, and the new data; the last one also `expected` as it is left.
abbrev pub relaxed_fetch_add : ℕ → ℕ → ℕ × ℕ
relaxed_fetch_add arg data_ = (data_, (data_ + arg) % u32_mod)

abbrev pub relaxed_exchange : ℕ → ℕ → ℕ × ℕ
relaxed_exchange arg data_ = (data_, arg)

abbrev pub relaxed_compare_exchange : ℕ → ℕ → ℕ → Bool × ℕ × ℕ
relaxed_compare_exchange expected desired data_ =
    if expected == data_ then (true, expected, desired) else (false, data_, data_)
