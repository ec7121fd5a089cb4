-- ===== src/McsLock.antt =====
-- include/mcsLock.hpp: MCSLock, an atomic access at a time. A call is named by the node that it is
-- given, or that it allocates: no other call has this node until the call's `unlock` is over. A node
-- pointer is a number, and `nullptr` is `none`. A test that fails and yields (sched_yield) changes
-- nothing and is no step.
mod System
mod Shared
mod Unique
mod Invariant
mod Correct
mod Progress
mod Tests
use racoherence.Prelude.{ℕ, ◌≡◌, ◌≢◌, refl, Bool, true, false, Option, none, some, update}

-- The fields of the lock, and of the nodes.
pub record McsLock : Type 0 where
  pub tail : Option ℕ
  pub owner : Option ℕ
  pub next : ℕ → Option ℕ
  pub locked : ℕ → Bool

-- Where a call stands, with its local variables that are live there.
pub data Pc : Type 0 where
  idle : Pc
  -- lock_with_node
  set_next : Pc
  set_locked : Pc
  exchange : Pc
  link : (predecessor : ℕ) → Pc
  spin : Pc
  -- try_lock_with_node
  read_tail : Pc
  try_next : Pc
  try_locked : Pc
  try_exchange : Pc
  -- `owner = node`, in both
  own : Pc
  -- the lock is held
  critical : Pc
  -- unlock_with_node
  read_next : Pc
  compare_tail : Pc
  wait_next : Pc
  hand_over : (successor : ℕ) → Pc

-- What a step is to those who wait.
pub data Event : Type 0 where
  quiet : Event
  arrive : Event
  enter : Event
  leave : Event

-- One step of the call with node `u`.
pub data Move (u : ℕ) (m : McsLock) : Event → Pc → McsLock → Pc → Type 0 where
  call_lock : Move u m quiet idle m set_next
  clear_next : Move u m quiet set_next (record m { next = update m.next u none }) set_locked
  mark_locked : Move u m quiet set_locked (record m { locked = update m.locked u true }) exchange
  exchange_free : m.tail ≡ none → Move u m arrive exchange (record m { tail = some u }) own
  exchange_taken :
      {p : ℕ} → m.tail ≡ some p → Move u m arrive exchange (record m { tail = some u }) (link p)
  store_link : {p : ℕ} → Move u m quiet (link p) (record m { next = update m.next p (some u) }) spin
  stop_spin : m.locked u ≡ false → Move u m quiet spin m own
  set_owner : Move u m enter own (record m { owner = some u }) critical
  call_try : Move u m quiet idle m read_tail
  try_busy : {p : ℕ} → m.tail ≡ some p → Move u m quiet read_tail m idle
  try_free : m.tail ≡ none → Move u m quiet read_tail m try_next
  try_clear : Move u m quiet try_next (record m { next = update m.next u none }) try_locked
  try_mark : Move u m quiet try_locked (record m { locked = update m.locked u true }) try_exchange
  try_win : m.tail ≡ none → Move u m arrive try_exchange (record m { tail = some u }) own
  try_lose : {p : ℕ} → m.tail ≡ some p → Move u m quiet try_exchange m idle
  call_unlock : Move u m quiet critical m read_next
  no_next : m.next u ≡ none → Move u m quiet read_next m compare_tail
  has_next : {n : ℕ} → m.next u ≡ some n → Move u m quiet read_next m (hand_over n)
  compare_win : m.tail ≡ some u → Move u m leave compare_tail (record m { tail = none }) idle
  compare_lose : m.tail ≢ some u → Move u m quiet compare_tail m wait_next
  got_next : {n : ℕ} → m.next u ≡ some n → Move u m quiet wait_next m (hand_over n)
  pass_on :
      {n : ℕ} → Move u m leave (hand_over n) (record m { locked = update m.locked n false }) idle

-- From the exchange on, until the lock is given up.
abbrev pub queued : Pc → Bool
queued (link _) = true
queued spin = true
queued own = true
queued critical = true
queued read_next = true
queued compare_tail = true
queued wait_next = true
queued (hand_over _) = true
queued _ = false

-- The call is the one that the lock is given to.
abbrev pub holding : Pc → Bool
holding own = true
holding critical = true
holding read_next = true
holding compare_tail = true
holding wait_next = true
holding (hand_over _) = true
holding _ = false

-- The call has stored itself in `owner`.
abbrev pub inside : Pc → Bool
inside critical = true
inside read_next = true
inside compare_tail = true
inside wait_next = true
inside (hand_over _) = true
inside _ = false
