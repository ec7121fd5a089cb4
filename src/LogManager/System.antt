-- ===== src/LogManager/System.antt =====
-- One node's log manager with the threads that produce, and the nodes that consume, interleaved call
-- by call. Beside the manager the state holds what the calls mean: the logs that threads hold, and
-- for each position of the log sequence its buffer, its content, whether it is a release, and whether
-- it is published.
use racoherence.Prelude.{
  ℕ, ◌+◌, ◌<◌, ◌≡◌, ◌≢◌, Bool, true, false, none, some, List, [], ◌∷◌, ◌++◌, update, length,
}
use racoherence.Config.{log_size, node_count, u32_mod}
use racoherence.LogManager.{
  Log, LogManager, PubEntry, get_new_log, claim_tail, publish, take_head, consume_head, write,
  is_subscribed, remove_subscriber, add_subscriber, new,
}

pub record System : Type 0 where
  pub mgr : LogManager
  pub hand : List ℕ
  pub assigned : ℕ → ℕ
  pub sent : ℕ → Log
  pub rel : ℕ → Bool
  pub done : ℕ → Bool

pub data Step (s : System) : System → Type 0 where
  get :
      {log : ℕ} {m : LogManager}
      → get_new_log s.mgr ≡ some (some log, m)
      → Step s (record s { mgr = m; hand = log ∷ s.hand })
  get_null : {m : LogManager} → get_new_log s.mgr ≡ some (none, m) → Step s (record s { mgr = m })
  write_log :
      (before after : List ℕ) (log cl : ℕ)
      → s.hand ≡ before ++ log ∷ after
      → length (s.mgr.buf log) < log_size
      → Step s (record s {
        mgr = record (s.mgr) { buf = update (s.mgr.buf) log (write (s.mgr.buf log) cl) };
      })
  claim :
      (before after : List ℕ) (log : ℕ) (r : Bool)
      → s.hand ≡ before ++ log ∷ after
      → Step s (record {
        mgr = (claim_tail s.mgr).1;
        hand = before ++ after;
        assigned = update s.assigned (s.mgr.tail) log;
        sent = update s.sent (s.mgr.tail) (s.mgr.buf log);
        rel = update s.rel (s.mgr.tail) r;
        done = update s.done (s.mgr.tail) false;
      })
  announce :
      (t : ℕ)
      → t < s.mgr.tail
      → s.done t ≡ false
      → Step s
          (record s { mgr = publish s.mgr t (s.assigned t) (s.rel t); done = update s.done t true })
  consume :
      (nid : ℕ) {entry : PubEntry}
      → nid < node_count
      → nid ≢ s.mgr.node_id
      → is_subscribed s.mgr nid ≡ true
      → take_head s.mgr nid ≡ some entry
      → Step s (record s { mgr = consume_head s.mgr nid })
  unsubscribe : (nid : ℕ) → Step s (record s { mgr = remove_subscriber s.mgr nid })
  subscribe : (nid : ℕ) → Step s (record s { mgr = (add_subscriber s.mgr nid).1 })

-- The state after the constructor.
abbrev pub start : LogManager → System
start m = record {
  mgr = m;
  hand = [];
  assigned = λ p. 0;
  sent = λ p. [];
  rel = λ p. false;
  done = λ p. false;
}

-- No position is claimed and not published yet.
abbrev pub AllPublished : System → Type 0
AllPublished s = (t : ℕ) → t < s.mgr.tail → s.done t ≡ true

-- Far enough from the wrap of the 32-bit index for the next calls.
abbrev pub HasRoom : System → Type 0
HasRoom s = s.mgr.tail + 256 < u32_mod

pub data Reach (nid : ℕ) : System → Type 0 where
  init : {m : LogManager} → new nid ≡ some m → Reach nid (start m)
  next : {s t : System} → Reach nid s → Step s t → Reach nid t

-- A call of `add_subscriber` is made while all is published.
abbrev pub SubscribesLate : {s t : System} → Step s t → Type 0
SubscribesLate (get e) = Unit
SubscribesLate (get_null e) = Unit
SubscribesLate (write_log before after log cl e fits) = Unit
SubscribesLate (claim before after log r e) = Unit
SubscribesLate (announce t early pending) = Unit
SubscribesLate (consume nid inside remote subbed e) = Unit
SubscribesLate (unsubscribe nid) = Unit
SubscribesLate {s} (subscribe nid) = AllPublished s

-- Every call so far had room before the wrap of the index, and every subscription was made while all
-- was published.
abbrev pub Calm : {nid : ℕ} {s : System} → Reach nid s → Type 0
Calm (init e) = Unit
Calm (next {s} r st) = Calm r × HasRoom s × SubscribesLate st
