-- ===== src/LogManager/Defs.antt =====
-- The invariant of a log manager. `base` is the oldest position whose buffer is not collected.
use racoherence.Prelude.{ℕ, ◌+◌, ◌-◌, ◌≤◌, ◌<◌, ◌≡◌, ◌⊎◌, true, false, length, count, values}
use racoherence.Config.{log_count}
use racoherence.SpmcQueue.Refine.{contents}
use racoherence.SpmcQueue.Refine
use racoherence.LogManager.{get_idx}
use racoherence.LogManager.Gc.{Reader}
use racoherence.LogManager.System.{System}

abbrev pub base : System → ℕ
base s = s.mgr.bound - log_count

-- The positions from `base` to the tail, whose buffers are in use by the log sequence.
abbrev pub in_flight : System → ℕ
in_flight s = s.mgr.tail + log_count - s.mgr.bound

-- How many references to a buffer there are: in the free list, in a thread's hand, in the sequence.
abbrev pub uses : System → ℕ → ℕ
uses s a =
    count a (contents s.mgr.freelist)
    + count a s.hand
    + count a (values s.assigned (base s) (in_flight s))

-- What keeps a collection from freeing a log: a subscribed remote node that has still to read the
-- oldest position, or, where there is no such node, that the position is not published.
abbrev pub Waits : System → Type 0
Waits s =
    ((j : ℕ) × Reader s.mgr j × ((s.mgr.subs j).head ≡ base s))
    ⊎ (((j : ℕ) → ¬ Reader s.mgr j) × (base s < s.mgr.tail → s.done (base s) ≡ false))

pub record Inv (s : System) : Type 0 where
  pub queue : Refine.IsValid s.mgr.freelist
  pub position : s.mgr.freelist.enqueue_pos ≡ s.mgr.bound
  pub started : log_count ≤ s.mgr.bound
  pub tail_in : s.mgr.tail ≤ s.mgr.bound
  pub bound_in : s.mgr.bound ≤ s.mgr.tail + log_count
  pub buffers : length (contents s.mgr.freelist) + length s.hand + in_flight s ≡ log_count
  pub unique : (a : ℕ) → uses s a ≤ 1
  pub readers :
      (j : ℕ)
      → Reader s.mgr j
      → (s.mgr.bound ≤ (s.mgr.subs j).head + log_count) × ((s.mgr.subs j).head ≤ s.mgr.tail)
  pub passed : (j p : ℕ) → Reader s.mgr j → p < (s.mgr.subs j).head → s.done p ≡ true
  pub behind : (p : ℕ) → p < base s → s.done p ≡ true
  pub announced :
      (p : ℕ) → (s.mgr.entries (get_idx p)).idx ≡ p + 1 → (p < s.mgr.tail) × (s.done p ≡ true)
  pub published :
      (p : ℕ)
      → base s ≤ p
      → p < s.mgr.tail
      → s.done p ≡ true
      → s.mgr.entries (get_idx p) ≡ record { log = s.assigned p; idx = p + 1; is_rel = s.rel p }
  pub content : (p : ℕ) → base s ≤ p → p < s.mgr.tail → s.mgr.buf (s.assigned p) ≡ s.sent p
