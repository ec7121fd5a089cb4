-- ===== src/LogManager/Correct.antt =====
-- What a node's log manager promises to its producers and to the nodes that read it, in every state
-- that the calls reach calmly.
use racoherence.Prelude.{
  ℕ, ◌+◌, ◌-◌, ◌≤◌, ◌<◌, ◌≡◌, ◌≢◌, ap, ◌∙◌, true, none, some, [], ◌∷◌, inl, inr, ◌⊎◌, length, arith,
  count, count-values,
}
use racoherence.Config.{log_count}
use racoherence.LogManager.{LogManager, PubEntry, get_new_log, take_head, get_idx}
use racoherence.LogManager.Gc.{Reader}
use racoherence.LogManager.System.{System, HasRoom, Reach, Calm}
use racoherence.LogManager.Defs.{Inv, Waits}
use racoherence.LogManager.Invariant.Take.{get_new_log-Inv}
use racoherence.LogManager.Invariant.Consume.{take_head_done}
use racoherence.LogManager.Invariant.Steps.{Reach-Inv}

-- In a state reached calmly, by calls that each had 256 positions to go to the wrap of the 32-bit
-- index and with each subscription made while every claimed position was published, the producers
-- have not run over a reader: the tail is at most LOG_COUNT positions past the head of any subscribed
-- remote node, and that head is not past the tail.
pub no_overrun :
    {nid : ℕ} {s : System} (j : ℕ)
    → (r : Reach nid s) → Calm r
    → Reader s.mgr j
    → (s.mgr.tail ≤ (s.mgr.subs j).head + log_count) × ((s.mgr.subs j).head ≤ s.mgr.tail)
no_overrun j reach calm reader =
    let inv = Reach-Inv reach calm in
    let (near, far) = inv.readers j reader in (omega (arith, inv.tail_in), far)

-- In a state reached calmly (each call had 256 positions to go to the wrap of the 32-bit index, and
-- each subscription was made while every claimed position was published), that has as much room
-- itself, a reader sees the log sequence in order and unchanged: what `take_head` gives a subscribed
-- remote node is the entry of the position that its head stands at, with the buffer and the kind
-- that the position was claimed with, and the buffer still holds what it held then.
pub take_head_reads :
    {nid : ℕ} {s : System} (j : ℕ) {entry : PubEntry}
    → (r : Reach nid s) → Calm r
    → HasRoom s
    → Reader s.mgr j
    → take_head s.mgr j ≡ some entry
    → let h = (s.mgr.subs j).head in
      (h < s.mgr.tail)
      × (entry ≡ record { log = s.assigned h; idx = h + 1; is_rel = s.rel h })
      × (s.mgr.buf entry.log ≡ s.sent h)
take_head_reads {s} j {entry} reach calm room reader e =
    let inv = Reach-Inv reach calm in
    let (early, finished, same) = take_head_done s j inv room reader e in
    let (near, far) = inv.readers j reader in
    let is : entry ≡ record {
      log = s.assigned ((s.mgr.subs j).head);
      idx = (s.mgr.subs j).head + 1;
      is_rel = s.rel ((s.mgr.subs j).head);
    } =
      same ∙ inv.published ((s.mgr.subs j).head) (omega arith) early finished in
    (
      early,
      is,
      ap (λ x. s.mgr.buf x.log) is ∙ inv.content ((s.mgr.subs j).head) (omega arith) early,
    )

-- In a state reached calmly (each call had 256 positions to go to the wrap of the 32-bit index, and
-- each subscription was made while every claimed position was published), that has as much room
-- itself, a published position is seen: when the position at a subscribed remote node's head is
-- published, `take_head` gives its entry.
pub take_head_ready :
    {nid : ℕ} {s : System} (j : ℕ)
    → (r : Reach nid s) → Calm r
    → HasRoom s
    → Reader s.mgr j
    → (s.mgr.subs j).head < s.mgr.tail
    → s.done ((s.mgr.subs j).head) ≡ true
    → take_head s.mgr j ≡ some (s.mgr.entries (get_idx ((s.mgr.subs j).head)))
unfolding take_head
take_head_ready {s} j reach calm room reader early finished =
    let inv = Reach-Inv reach calm in
    let (near, far) = inv.readers j reader in
    ground (arith, inv.published ((s.mgr.subs j).head) (omega arith) early finished)

-- In a state reached calmly (each call had 256 positions to go to the wrap of the 32-bit index, and
-- each subscription was made while every claimed position was published), that has as much room itself,
-- `get_new_log` returns. A log that it gives is empty, no thread holds it, and no subscribed remote
-- node has it still to read. When it gives none, the logs that threads hold and those of the positions
-- not yet collected are all LOG_COUNT buffers, and nothing could be collected: a subscribed remote node
-- has still to read the oldest of these positions, or no remote node is subscribed and that position,
-- if there is one, is not published.
pub get_new_log_lem :
    {nid : ℕ} {s : System}
    → (r : Reach nid s) → Calm r
    → HasRoom s
    → ((log : ℕ) × (m : LogManager) × (get_new_log s.mgr ≡ some (some log, m))
        × (m.buf log ≡ [])
        × (count log s.hand ≡ 0)
        × ((j p : ℕ) → Reader m j → (m.subs j).head ≤ p → p < s.mgr.tail → s.assigned p ≢ log))
      ⊎ ((m : LogManager) × (get_new_log s.mgr ≡ some (none, m))
          × (length s.hand + (m.tail + log_count - m.bound) ≡ log_count)
          × Waits s)
get_new_log_lem {s} reach calm room = elim (get_new_log-Inv s (Reach-Inv reach calm) room) [
  | inl (log, m, e, kept, emptied, same) ↦ inl (
    log,
    m,
    e,
    emptied,
    unheld log m kept,
    λ j p reader a b. unread log m kept j p reader a (omega arith),
  )
  | inr (m, e, kept, none_free, same, waits) ↦
      inr (m, e, omega (arith, kept.buffers, ap (λ l. length l) none_free), waits)
]
  where
    unheld :
        (log : ℕ) (m : LogManager)
        → Inv (record s { mgr = m; hand = log ∷ s.hand })
        → count log s.hand ≡ 0
    unheld log m kept = ground (arith, kept.unique log)

    unread :
        (log : ℕ) (m : LogManager)
        → Inv (record s { mgr = m; hand = log ∷ s.hand })
        → (j p : ℕ) → Reader m j
        → (m.subs j).head ≤ p
        → p < m.tail
        → s.assigned p ≢ log
    unread log m kept j p reader a b e =
        let (near, far) = kept.readers j reader in
        ground (
          arith,
          e,
          kept.unique log,
          kept.started,
          kept.bound_in,
          count-values s.assigned (m.bound - log_count) (m.tail + log_count - m.bound) p
              (omega arith) (omega (arith, kept.started, kept.bound_in)),
        )
