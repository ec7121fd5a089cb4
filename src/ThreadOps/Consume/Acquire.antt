-- ===== src/ThreadOps/Consume/Acquire.antt =====
-- ThreadOps::help_consume and ThreadOps::thread_acquire, over all nodes.
use racoherence.Prelude.{
  ℕ, zero, suc, ◌+◌, ◌≤◌, ◌<◌, ◌≡◌, ◌≢◌, refl, ap, ◌∙◌, sym, true, false, some, arith, update_self,
  update_ne, ◌==◌, ◌||◌, ltb, leb, Bool-cases, inl, inr, ℕ_discrete, not,
}
use mathlib.Core.Path.{subst}
use racoherence.Config.{node_count}
use racoherence.VectorClock.{VectorClock, entry, merge}
use racoherence.LogManager.{LogManager, is_subscribed}
use racoherence.CacheInfo.{get_clock, update_clock}
use racoherence.ThreadOps.Consume.{
  Consumer, help_node, help_nodes, help_consume, wait_for_consume, wait_nodes, thread_acquire,
}
use racoherence.ThreadOps.Consume.Progress.{head_of}
use racoherence.ThreadOps.Consume.Advance.{
  Advanced, Advanced-refl, Advanced-trans, Read-Advanced, update_clock-Advanced,
}
use racoherence.ThreadOps.Consume.CatchUp.{Reaches, consume_until_lem}

-- Of node `i` with the manager `m`, at the clock `clk`: if the reader is subscribed to it and behind
-- the target, enough is published to catch up.
abbrev pub Pending : ℕ → ℕ → VectorClock → ℕ → LogManager → ℕ → Type 0
Pending nid fuel target i m clk =
    i ≢ nid
    → is_subscribed m nid ≡ true
    → clk < entry target i
    → (n : ℕ) × (suc n < fuel) × Reaches m (head_of m nid) n (entry target i)

-- The reader need not wait for node `i`.
abbrev pub Settled : ℕ → VectorClock → ℕ → LogManager → ℕ → Type 0
Settled nid target i m clk = i ≢ nid → is_subscribed m nid ≡ true → entry target i ≤ clk

-- What the work on one node does.
record Helped (nid : ℕ) (target : VectorClock) (i : ℕ) (c c' : Consumer) : Type 0 where
  advanced : Advanced nid c c'
  settled : Settled nid target i (c'.mgrs i) (c'.cache.clock i)
  others : (j : ℕ) → j ≢ i → c'.mgrs j ≡ c.mgrs j
  clocks : (j : ℕ) → j ≢ i → c'.cache.clock j ≡ c.cache.clock j

idle_node :
    (nid fuel : ℕ) (target : VectorClock) (i : ℕ) (c : Consumer)
    → (i == nid || leb (entry target i) (get_clock c.cache i) || not (is_subscribed (c.mgrs i) nid))
      ≡ true
    → (help_node nid fuel target i c ≡ some c) × Helped nid target i c c
unfolding help_node
idle_node nid fuel target i c e = (
  rw (help_node, e) refl,
  record {
    advanced = Advanced-refl nid c;
    settled = λ n s. ground (arith, e, s, n);
    others = λ j m. refl;
    clocks = λ j m. refl;
  },
)

busy_node :
    (nid fuel : ℕ) (target : VectorClock) (i n : ℕ) (c : Consumer)
    → (i == nid || leb (entry target i) (get_clock c.cache i) || not (is_subscribed (c.mgrs i) nid))
      ≡ false
    → suc n < fuel
    → Reaches (c.mgrs i) (head_of (c.mgrs i) nid) n (entry target i)
    → (c' : Consumer) × (help_node nid fuel target i c ≡ some c') × Helped nid target i c c'
unfolding help_node update_clock
busy_node nid fuel target i n c e f r =
    let (clk, c', runs, caught) =
      consume_until_lem n fuel nid (entry target i) i (get_clock c.cache i) c f r in
    (
      record c' { cache = update_clock c'.cache i clk },
      rw (help_node, e, runs) refl,
      record {
        advanced =
            update_clock-Advanced nid i clk c c' (Read-Advanced nid i caught.count c c' caught.read)
              caught.behind;
        settled = λ n s. rw (update_self c'.cache.clock i clk) caught.reached;
        others = caught.read.others;
        clocks = λ j m.
            update_ne c'.cache.clock i j clk (λ q. m (sym q)) ∙ ap (λ k. k j) caught.read.clock;
      },
    )

help_node_lem :
    (nid fuel : ℕ) (target : VectorClock) (i : ℕ) (c : Consumer)
    → Pending nid fuel target i (c.mgrs i) (c.cache.clock i)
    → (c' : Consumer) × (help_node nid fuel target i c ≡ some c') × Helped nid target i c c'
help_node_lem nid fuel target i c pend =
    elim (Bool-cases (
      i == nid
      || leb (entry target i) (get_clock c.cache i)
      || not (is_subscribed (c.mgrs i) nid))) [
        | inl e ↦ let (runs, h) = idle_node nid fuel target i c e in (c, runs, h)
        | inr e ↦
            let (n, f, r) = pend (ground (arith, e)) (ground (arith, e)) (ground (arith, e)) in
            busy_node nid fuel target i n c e f r
      ]

unchanged :
    (P : LogManager → ℕ → Type 0) {m m' : LogManager} {k k' : ℕ} → m' ≡ m → k' ≡ k → P m k → P m' k'
unchanged P {m} {m'} {k} {k'} e f p = subst (λ x. P x k') (sym e) (subst (P m) (sym f) p)

-- The nodes below `i` are settled one after another, and the ones above stay settled.
help_nodes_lem :
    (nid fuel : ℕ) (target : VectorClock) (i : ℕ) (c : Consumer)
    → ((j : ℕ) → j < i → Pending nid fuel target j (c.mgrs j) (c.cache.clock j))
    → (c' : Consumer) × (help_nodes nid fuel target i c ≡ some c')
      × Advanced nid c c'
      × ((j : ℕ) → j < i → Settled nid target j (c'.mgrs j) (c'.cache.clock j))
      × ((j : ℕ) → i ≤ j → (c'.mgrs j ≡ c.mgrs j) × (c'.cache.clock j ≡ c.cache.clock j))
unfolding help_nodes
help_nodes_lem nid fuel target zero c pend =
    (c, refl, Advanced-refl nid c, (λ j h. absurd (omega arith)), λ j h. (refl, refl))
help_nodes_lem nid fuel target (suc i) c pend =
    let (c₁, runs, h) = help_node_lem nid fuel target i c (pend i (omega arith)) in
    let (c₂, runs', adv, settled, above) = help_nodes_lem nid fuel target i c₁ (λ j b.
      unchanged (Pending nid fuel target j) (h.others j (λ e. omega (arith, e)))
        (h.clocks j (λ e. omega (arith, e))) (pend j (omega arith))) in
    (
      c₂,
      rw (help_nodes, runs, runs') refl,
      Advanced-trans nid c c₁ c₂ h.advanced adv,
      λ j b. elim (ℕ_discrete j i) [
        | yes e ↦
            let (m, k) = above j (omega (arith, e)) in
            unchanged (Settled nid target j) m k
              (subst (λ j. Settled nid target j (c₁.mgrs j) (c₁.cache.clock j)) (sym e) h.settled)
        | no n ↦ settled j (omega arith)
      ],
      λ j b.
          let (m, k) = above j (omega arith) in
          (m ∙ h.others j (λ e. omega (arith, e)), k ∙ h.clocks j (λ e. omega (arith, e))),
    )

Settled-here :
    (nid i : ℕ) (target : VectorClock) (c : Consumer)
    → Settled nid target i (c.mgrs i) (c.cache.clock i)
    → (i == nid
        || not (is_subscribed (c.mgrs i) nid)
        || not (ltb (get_clock c.cache i) (entry target i)))
      ≡ true
Settled-here nid i target c h = elim (ℕ_discrete i nid) [
  | yes e ↦ rw e (ground arith)
  | no n ↦ elim (Bool-cases (is_subscribed (c.mgrs i) nid)) [
    | inl s ↦ let ok = h n s in ground (arith, ok)
    | inr s ↦ ground (arith, s)
  ]
]

-- `wait_for_consume` goes through when every node is settled.
wait_nodes_lem :
    (nid rounds i : ℕ) (target : VectorClock) (c : Consumer)
    → ((j : ℕ) → j < i + rounds → Settled nid target j (c.mgrs j) (c.cache.clock j))
    → wait_nodes nid rounds i target c ≡ true
unfolding wait_nodes
wait_nodes_lem nid zero i target c h = refl
wait_nodes_lem nid (suc rounds) i target c h =
    rw
      (
        wait_nodes_lem nid rounds (i + 1) target c (λ j b. h j (omega arith)),
        Settled-here nid i target c (h i (omega arith)),
      )
      refl

-- ThreadOps::thread_acquire, when for each node that it is subscribed to and behind on the logs up to
-- a release at the clock are published and the fuel covers them. It comes to its end; the thread's
-- clock is merged with the one acquired; the node's clocks then satisfy `wait_for_consume`; and its
-- copy of every line of each log that it went past is dropped.
pub thread_acquire_lem :
    (nid fuel : ℕ) (clock thread_clock : VectorClock) (c : Consumer)
    → ((i : ℕ) → i < node_count → Pending nid fuel clock i (c.mgrs i) (c.cache.clock i))
    → (c' : Consumer) × (thread_acquire nid fuel clock thread_clock c
        ≡ some (merge thread_clock clock, c'))
      × (wait_for_consume nid clock c' ≡ true)
      × Advanced nid c c'
unfolding thread_acquire help_consume wait_for_consume
thread_acquire_lem nid fuel clock thread_clock c pend =
    let (c', runs, adv, settled, above) = help_nodes_lem nid fuel clock node_count c pend in
    (c', rw (thread_acquire, runs) refl, wait_nodes_lem nid node_count 0 clock c' settled, adv)

wait_nodes-Settled :
    (nid rounds i j : ℕ) (target : VectorClock) (c : Consumer)
    → wait_nodes nid rounds i target c ≡ true
    → i ≤ j
    → j < i + rounds
    → Settled nid target j (c.mgrs j) (c.cache.clock j)
unfolding wait_nodes
wait_nodes-Settled nid zero i j target c w lo hi = absurd (omega arith)
wait_nodes-Settled nid (suc rounds) i j target c w lo hi = elim (ℕ_discrete i j) [
  | yes e ↦ λ n s.
      subst (λ k. k ≢ nid → is_subscribed (c.mgrs k) nid ≡ true → entry target k ≤ c.cache.clock k)
        e (λ n s. ground (arith, w, n, s)) n s
  | no n ↦
      wait_nodes-Settled nid rounds (i + 1) j target c (ground (arith, w)) (omega arith)
        (omega arith)
]

-- Conversely, a reader that need not wait is at its target for every node.
pub wait_for_consume-Settled :
    (nid i : ℕ) (target : VectorClock) (c : Consumer)
    → i < node_count
    → wait_for_consume nid target c ≡ true
    → Settled nid target i (c.mgrs i) (c.cache.clock i)
unfolding wait_for_consume
wait_for_consume-Settled nid i target c h w =
    wait_nodes-Settled nid node_count 0 i target c w (omega arith) (omega arith)
