-- ===== src/ThreadOps/Consume.antt =====
-- include/threadOps.hpp (help_consume, wait_for_consume) and src/cacheAgent.cpp: how a node reads the
-- logs of the others. A call is made whole, with the node's log-head mutex free, so that `try_lock`
-- succeeds and `help_consume nid` needs one pass; a spin on a log that is not published gives `none`.
pub mod Progress
pub mod CatchUp
pub mod Advance
pub mod Acquire
pub mod Agent
use racoherence.Prelude.{
  ℕ, zero, suc, ◌+◌, ◌-◌, Bool, true, false, not, ◌&&◌, ◌||◌, Option, none, some, List, ltb, leb,
  ◌==◌, if◌then◌else◌, update,
}
use racoherence.Config.{node_count, log_max_batch}
use racoherence.VectorClock.{VectorClock, entry, merge}
use racoherence.LogManager.{LogManager, PubEntry, take_head, consume_head, is_subscribed}
use racoherence.CacheInfo.{CacheInfo, process_log, flush, update_clock, get_clock}

-- The log managers of all nodes, and the cache of the node `nid` that consumes.
pub record Consumer : Type 0 where
  pub mgrs : ℕ → LogManager
  pub cache : CacheInfo

-- Process the log of an entry of node `i`, and consume the head.
unfoldable pub consume_entry : ℕ → Consumer → ℕ → PubEntry → Option Consumer
consume_entry nid c i e = elim (process_log ((c.mgrs i).buf e.log)) [
  | none ↦ none
  | some issued ↦ some (record c {
    mgrs = update c.mgrs i (consume_head (c.mgrs i) nid);
    cache = flush c.cache issued;
  })
]

-- `if (entry->is_rel) clk = entry->idx`
abbrev pub clock_after : ℕ → PubEntry → ℕ
clock_after clk e = if e.is_rel then e.idx else clk

-- `while(clk < target[i])`; each round is of a published log.
unfoldable pub consume_until : ℕ → ℕ → ℕ → ℕ → ℕ → Consumer → Option (ℕ × Consumer)
consume_until nid zero target i clk c = none
consume_until nid (suc fuel) target i clk c = elim (ltb clk target) [
  | false ↦ some (clk, c)
  | true ↦ elim (take_head (c.mgrs i) nid) [
    | none ↦ none
    | some e ↦ elim (consume_entry nid c i e) [
      | none ↦ none
      | some c' ↦ consume_until nid fuel target i (clock_after clk e) c'
    ]
  ]
]

-- The body of the loop over the nodes.
unfoldable pub help_node : ℕ → ℕ → VectorClock → ℕ → Consumer → Option Consumer
help_node nid fuel target i c =
    if i == nid || leb (entry target i) (get_clock c.cache i) || not (is_subscribed (c.mgrs i) nid)
    then some c
    else elim (consume_until nid fuel (entry target i) i (get_clock c.cache i) c) [
      | none ↦ none
      | some (clk, c') ↦ some (record c' { cache = update_clock c'.cache i clk })
    ]

-- `for (unsigned i=NODE_COUNT; i-- > 0;)`, from the `i` nodes left.
unfoldable pub help_nodes : ℕ → ℕ → VectorClock → ℕ → Consumer → Option Consumer
help_nodes nid fuel target zero c = some c
help_nodes nid fuel target (suc i) c = elim (help_node nid fuel target i c) [
  | none ↦ none
  | some c' ↦ help_nodes nid fuel target i c'
]

-- ThreadOps::help_consume
unfoldable pub help_consume : ℕ → ℕ → VectorClock → Consumer → Option Consumer
help_consume nid fuel target c = help_nodes nid fuel target node_count c

-- ThreadOps::wait_for_consume: false while it waits; the rounds that are left, from node `i` on.
wait_nodes : ℕ → ℕ → ℕ → VectorClock → Consumer → Bool
wait_nodes nid zero i target c = true
wait_nodes nid (suc rounds) i target c =
    (i == nid
      || not (is_subscribed (c.mgrs i) nid)
      || not (ltb (get_clock c.cache i) (entry target i)))
    && wait_nodes nid rounds (i + 1) target c

pub wait_for_consume : ℕ → VectorClock → Consumer → Bool
unfolding wait_nodes
wait_for_consume nid target c = wait_nodes nid node_count 0 target c

-- ThreadOps::thread_acquire, of a thread with the clock `thread_clock`.
unfoldable pub thread_acquire :
    ℕ → ℕ → VectorClock → VectorClock → Consumer → Option (VectorClock × Consumer)
thread_acquire nid fuel clock thread_clock c = elim (help_consume nid fuel clock c) [
  | none ↦ none
  | some c' ↦ some (merge thread_clock clock, c')
]

-- The loop over `j` in CacheAgent::run, for the rounds that are left; `none` only if a log cannot be
-- processed. `idle_rounds` is the count that picks between `cpu_pause` and going on.
unfoldable pub agent_batch : ℕ → ℕ → ℕ → ℕ → ℕ → Consumer → Option (ℕ × ℕ × Consumer)
agent_batch nid zero i clk idle_rounds c = some (clk, idle_rounds, c)
agent_batch nid (suc rounds) i clk idle_rounds c = elim (take_head (c.mgrs i) nid) [
  | none ↦
      some (clk, (if leb (node_count - 1) idle_rounds then idle_rounds else idle_rounds + 1), c)
  | some e ↦ elim (consume_entry nid c i e) [
    | none ↦ none
    | some c' ↦ agent_batch nid rounds i (clock_after clk e) 0 c'
  ]
]

-- The body of the loop over the nodes in CacheAgent::run.
unfoldable pub agent_node : ℕ → ℕ → ℕ → Consumer → Option (ℕ × Consumer)
agent_node nid i idle_rounds c =
    if i == nid || not (is_subscribed (c.mgrs i) nid)
    then some (idle_rounds, c)
    else elim (agent_batch nid log_max_batch i 0 idle_rounds c) [
      | none ↦ none
      | some (clk, idle, c') ↦
          some (idle, if clk == 0 then c' else record c' { cache = update_clock c'.cache i clk })
    ]

-- One turn of the loop that runs until the program is complete.
unfoldable pub agent_round : ℕ → ℕ → ℕ → ℕ → Consumer → Option (ℕ × Consumer)
agent_round nid zero i idle_rounds c = some (idle_rounds, c)
agent_round nid (suc rounds) i idle_rounds c = elim (agent_node nid i idle_rounds c) [
  | none ↦ none
  | some (idle, c') ↦ agent_round nid rounds (i + 1) idle c'
]
