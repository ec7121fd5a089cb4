-- ===== src/ThreadOps/Consume/Agent.antt =====
-- CacheAgent::run of src/cacheAgent.cpp: a turn of its loop.
use racoherence.Prelude.{
  ℕ, zero, suc, ◌+◌, ◌-◌, ◌≤◌, ◌<◌, ◌≡◌, ◌≢◌, refl, ap, ◌∙◌, sym, true, not, ◌||◌, none, some,
  contains, arith, ◌==◌, leb, if◌then◌else◌, Bool-cases, inl, inr, ℕ_discrete,
}
use mathlib.Core.Path.{subst}
use racoherence.Config.{u32_mod, node_count, log_max_batch}
use racoherence.LocalClTable.Covers.{IsEntry}
use racoherence.LogManager.{LogManager, PubEntry, take_head, get_idx, is_subscribed}
use racoherence.CacheInfo.{update_clock}
use racoherence.ThreadOps.Consume.{
  Consumer, clock_after, consume_entry, agent_batch, agent_node, agent_round,
}
use racoherence.ThreadOps.Consume.Progress.{
  at, head_of, Readable, Read, Read-refl, Read-one, Read-trans,
}
use racoherence.ThreadOps.Consume.CatchUp.{one_behind}
use racoherence.ThreadOps.Consume.Advance.{
  Advanced, Advanced-refl, Advanced-trans, Read-Advanced, update_clock-Advanced,
}

-- The logs of a node that the next `n` positions may hold are those of valid groups, and the positions
-- are before the wrap of the index.
pub record Orderly (nid n : ℕ) (m : LogManager) : Type 0 where
  pub in_range : head_of m nid + n < u32_mod
  pub valid :
      (p e : ℕ)
      → head_of m nid ≤ p
      → p < head_of m nid + n
      → (at m p).idx ≡ p + 1
      → contains (m.buf (at m p).log) e ≡ true
      → IsEntry e

one-Readable :
    (nid n : ℕ) (m : LogManager)
    → Orderly nid (suc n) m
    → (at m (head_of m nid)).idx ≡ head_of m nid + 1
    → Readable m (head_of m nid) 1
one-Readable nid n m o e = record {
  in_range = omega (arith, o.in_range);
  published =
      λ p a b. subst (λ q. (at m q).idx ≡ q + 1) {x = head_of m nid} {y = p} (omega arith) e;
  valid = λ p w a b.
      o.valid p w a (omega arith)
        (subst (λ q. (at m q).idx ≡ q + 1) {x = head_of m nid} {y = p} (omega arith) e);
}

take_head-not_yet :
    (nid n : ℕ) (m : LogManager)
    → Orderly nid (suc n) m
    → (at m (head_of m nid)).idx ≢ head_of m nid + 1
    → take_head m nid ≡ none
unfolding take_head
take_head-not_yet nid n m o e = ground (arith, e, o.in_range)

-- What is left of the positions after one was read.
rest-Orderly :
    (nid i n : ℕ) (c c' : Consumer)
    → Orderly nid (suc n) (c.mgrs i)
    → Read nid c i 1 c'
    → Orderly nid n (c'.mgrs i)
rest-Orderly nid i n c c' o r = record {
  in_range = omega (arith, r.head, o.in_range);
  valid = λ p w a b e inside.
      o.valid p w (omega (arith, r.head)) (omega (arith, r.head))
        (ap (λ f. (f (get_idx p)).idx) (sym r.log_kept) ∙ e)
        (ap (λ b. contains (b (at (c.mgrs i) p).log) w) (sym r.buf_kept)
          ∙ ap (λ f. contains ((c'.mgrs i).buf (f (get_idx p)).log) w) (sym r.log_kept)
          ∙ inside);
}

-- What the loop over `j` gives: it read some positions, and its clock is not ahead of them.
record Batch (nid i clk : ℕ) (c : Consumer) (clk' : ℕ) (c' : Consumer) : Type 0 where
  count : ℕ
  read : Read nid c i count c'
  behind : clk ≤ head_of (c.mgrs i) nid → clk' ≤ head_of (c'.mgrs i) nid

batch_waits :
    (nid rounds i clk idle : ℕ) (c : Consumer)
    → take_head (c.mgrs i) nid ≡ none
    → (idle' : ℕ) × (agent_batch nid (suc rounds) i clk idle c ≡ some (clk, idle', c))
unfolding agent_batch
batch_waits nid rounds i clk idle c e =
    ((if leb (node_count - 1) idle then idle else idle + 1), rw (agent_batch, e) refl)

batch_reads :
    (nid rounds i clk idle : ℕ) (c c' : Consumer) (e : PubEntry)
    → take_head (c.mgrs i) nid ≡ some e
    → consume_entry nid c i e ≡ some c'
    → agent_batch nid (suc rounds) i clk idle c ≡ agent_batch nid rounds i (clock_after clk e) 0 c'
unfolding agent_batch
batch_reads nid rounds i clk idle c c' e t w = rw (agent_batch, t, w) refl

agent_batch_lem :
    (rounds nid i clk idle : ℕ) (c : Consumer)
    → Orderly nid rounds (c.mgrs i)
    → (clk' : ℕ) × (idle' : ℕ) × (c' : Consumer) × (agent_batch nid rounds i clk idle c
        ≡ some (clk', idle', c'))
      × Batch nid i clk c clk' c'
unfolding agent_batch
agent_batch_lem zero nid i clk idle c o =
    (clk, idle, c, refl, record { count = 0; read = Read-refl nid c i; behind = λ b. b })
agent_batch_lem (suc rounds) nid i clk idle c o =
    let h = head_of (c.mgrs i) nid in
    elim (ℕ_discrete (at (c.mgrs i) h).idx (h + 1)) [
      | no n ↦
          let (idle', runs) =
            batch_waits nid rounds i clk idle c (take_head-not_yet nid rounds (c.mgrs i) o n) in
          (clk, idle', c, runs, record { count = 0; read = Read-refl nid c i; behind = λ b. b })
      | yes e ↦
          let ready = one-Readable nid rounds (c.mgrs i) o e in
          let (c₁, t, w, d) = Read-one nid c i ready in
          let (clk', idle', c', runs, batch) =
            agent_batch_lem rounds nid i (clock_after clk (at (c.mgrs i) h)) 0 c₁
              (rest-Orderly nid i rounds c c₁ o d) in
          (
            clk',
            idle',
            c',
            batch_reads nid rounds i clk idle c c₁ (at (c.mgrs i) h) t w ∙ runs,
            record {
              count = suc batch.count;
              read = Read-trans nid c c₁ c' i batch.count d batch.read;
              behind = λ b. batch.behind (one_behind nid i 0 clk c c₁ ready d b);
            },
          )
    ]

-- What the work on one node does.
record Visited (nid i : ℕ) (c c' : Consumer) : Type 0 where
  advanced : Advanced nid c c'
  others : (j : ℕ) → j ≢ i → c'.mgrs j ≡ c.mgrs j

agent_node_lem :
    (nid i idle : ℕ) (c : Consumer)
    → Orderly nid log_max_batch (c.mgrs i)
    → (idle' : ℕ) × (c' : Consumer) × (agent_node nid i idle c ≡ some (idle', c'))
      × Visited nid i c c'
unfolding agent_node
agent_node_lem nid i idle c o = elim (Bool-cases (i == nid || not (is_subscribed (c.mgrs i) nid))) [
  | inl e ↦ (idle, c, rw e refl, record { advanced = Advanced-refl nid c; others = λ j n. refl })
  | inr e ↦
      let (clk, idle', c', runs, batch) = agent_batch_lem log_max_batch nid i 0 idle c o in
      let adv = Read-Advanced nid i batch.count c c' batch.read in
      elim (Bool-cases (clk == 0)) [
        | inl z ↦
            (idle', c', rw (e, runs, z) refl, record { advanced = adv; others = batch.read.others })
        | inr z ↦ (
          idle',
          record c' { cache = update_clock c'.cache i clk },
          rw (e, runs, z) refl,
          record {
            advanced = update_clock-Advanced nid i clk c c' adv (λ b. batch.behind (omega arith));
            others = batch.read.others;
          },
        )
      ]
]

agent_round_from :
    (nid rounds i idle : ℕ) (c : Consumer)
    → ((j : ℕ) → i ≤ j → j < i + rounds → Orderly nid log_max_batch (c.mgrs j))
    → (idle' : ℕ) × (c' : Consumer) × (agent_round nid rounds i idle c ≡ some (idle', c'))
      × Advanced nid c c'
unfolding agent_round
agent_round_from nid zero i idle c o = (idle, c, refl, Advanced-refl nid c)
agent_round_from nid (suc rounds) i idle c o =
    let (idle₁, c₁, runs, visit) = agent_node_lem nid i idle c (o i (omega arith) (omega arith)) in
    let (idle', c', rest, adv) = agent_round_from nid rounds (i + 1) idle₁ c₁ (λ j a b.
      subst (Orderly nid log_max_batch) (sym (visit.others j (λ e. omega (arith, e))))
        (o j (omega arith) (omega arith))) in
    (idle', c', rw (agent_round, runs, rest) refl, Advanced-trans nid c c₁ c' visit.advanced adv)

-- A turn of the loop of CacheAgent::run, when for each node the logs published at the next
-- LOG_MAX_BATCH positions are those of valid groups, before the wrap of the index. It comes to its end,
-- whatever is published; the logs are as they were; the agent's node drops its copy of every line of
-- each log that it went past; and a clock that was not ahead of the position that the node reads next
-- is not ahead of it afterwards.
pub agent_round_lem :
    (nid idle : ℕ) (c : Consumer)
    → ((i : ℕ) → i < node_count → Orderly nid log_max_batch (c.mgrs i))
    → (idle' : ℕ) × (c' : Consumer) × (agent_round nid node_count 0 idle c ≡ some (idle', c'))
      × Advanced nid c c'
agent_round_lem nid idle c o = agent_round_from nid node_count 0 idle c (λ j a b. o j (omega arith))
