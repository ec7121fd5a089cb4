-- ===== src/LogManager/Invariant/Consume.antt =====
-- LogManager::consume_head, remove_subscriber and add_subscriber keep the invariant.
use racoherence.Prelude.{
  ℕ, ◌+◌, ◌≤◌, ◌<◌, ◌≡◌, ◌≢◌, ap, ◌∙◌, sym, true, false, some, arith, update, update_self,
  update_ne, ℕ_discrete,
}
use racoherence.Config.{log_count, node_count}
use racoherence.LogManager.{
  PubEntry, SubStatus, take_head, consume_head, remove_subscriber, add_subscriber, get_idx,
  next_idx,
}
use racoherence.LogManager.Gc.{Reader}
use racoherence.LogManager.System.{System, HasRoom}
use racoherence.LogManager.Defs.{Inv}

-- A change of the subscribers keeps the invariant, if every reader that there is then has a head
-- between the collected positions and the tail, below which all positions are published.
subs-Inv :
    {s : System} (subs : ℕ → SubStatus)
    → Inv s
    → ((j : ℕ)
        → Reader (record (s.mgr) { subs = subs }) j
        → (s.mgr.bound ≤ (subs j).head + log_count)
          × ((subs j).head ≤ s.mgr.tail)
          × ((p : ℕ) → p < (subs j).head → s.done p ≡ true))
    → Inv (record s { mgr = record (s.mgr) { subs = subs } })
subs-Inv subs inv ok = record {
  queue = inv.queue;
  position = inv.position;
  started = inv.started;
  tail_in = inv.tail_in;
  bound_in = inv.bound_in;
  buffers = inv.buffers;
  unique = inv.unique;
  readers = λ j r. let (near, far, seen) = ok j r in (near, far);
  passed = λ j p r. (ok j r).2 p;
  behind = inv.behind;
  announced = inv.announced;
  published = inv.published;
  content = inv.content;
}

-- A head that a reader may have.
abbrev MayStand : System → ℕ → Type 0
MayStand s h =
    (s.mgr.bound ≤ h + log_count) × (h ≤ s.mgr.tail) × ((p : ℕ) → p < h → s.done p ≡ true)

-- A change of one subscriber.
update-Inv :
    {s : System} (nid : ℕ) (st : SubStatus)
    → Inv s
    → (nid < node_count → nid ≢ s.mgr.node_id → st.is_subbed ≡ true → MayStand s st.head)
    → Inv (record s { mgr = record (s.mgr) { subs = update (s.mgr.subs) nid st } })
update-Inv {s} nid st inv ok = subs-Inv (update (s.mgr.subs) nid st) inv (λ j r. stands j r)
  where
    stands :
        (j : ℕ)
        → Reader (record (s.mgr) { subs = update (s.mgr.subs) nid st }) j
        → MayStand s ((update s.mgr.subs nid st j).head)
    stands j r = elim (ℕ_discrete nid j) [
      | yes same ↦
          let here : update s.mgr.subs nid st j ≡ st =
            rw (← same) (update_self s.mgr.subs nid st) in
          rw here
            (ok (rw same r.inside) (rw same r.remote) (sym (ap (λ x. x.is_subbed) here) ∙ r.subbed))
      | no other ↦
          let there : update s.mgr.subs nid st j ≡ s.mgr.subs j =
            update_ne s.mgr.subs nid j st other in
          let old : Reader s.mgr j = record {
            inside = r.inside;
            remote = r.remote;
            subbed = sym (ap (λ x. x.is_subbed) there) ∙ r.subbed;
          } in
          let (near, far) = inv.readers j old in rw there (near, far, λ p. inv.passed j p old)
    ]

-- What a reader finds at its head is a published position.
pub take_head_done :
    (s : System) (nid : ℕ) {entry : PubEntry}
    → Inv s
    → HasRoom s
    → Reader s.mgr nid
    → take_head s.mgr nid ≡ some entry
    → ((s.mgr.subs nid).head < s.mgr.tail)
      × (s.done ((s.mgr.subs nid).head) ≡ true)
      × (entry ≡ s.mgr.entries (get_idx ((s.mgr.subs nid).head)))
unfolding take_head
take_head_done s nid inv room r h =
    ground (arith, inv.announced ((s.mgr.subs nid).head), inv.readers nid r)

pub consume-Inv :
    (s : System) (nid : ℕ) {entry : PubEntry}
    → Inv s
    → HasRoom s
    → Reader s.mgr nid
    → take_head s.mgr nid ≡ some entry
    → Inv (record s { mgr = consume_head s.mgr nid })
unfolding consume_head
consume-Inv s nid inv room reader h =
    let (early, finished, same) = take_head_done s nid inv room reader h in
    let (near, far) = inv.readers nid reader in
    let after : next_idx ((s.mgr.subs nid).head) ≡ (s.mgr.subs nid).head + 1 = omega arith in
    update-Inv nid (record (s.mgr.subs nid) { head = next_idx ((s.mgr.subs nid).head) }) inv
      (λ inside remote subbed. (
        omega arith,
        omega arith,
        λ p below. elim (ℕ_discrete p ((s.mgr.subs nid).head)) [
          | yes e ↦ rw e finished
          | no e ↦ inv.passed nid p reader (omega arith)
        ],
      ))

pub remove-Inv :
    (s : System) (nid : ℕ) → Inv s → Inv (record s { mgr = remove_subscriber s.mgr nid })
unfolding remove_subscriber
remove-Inv s nid inv =
    update-Inv nid (record (s.mgr.subs nid) { is_subbed = false }) inv
      (λ inside remote subbed. absurd (cc subbed))

pub add-Inv :
    (s : System) (nid : ℕ)
    → Inv s
    → ((t : ℕ) → t < s.mgr.tail → s.done t ≡ true)
    → Inv (record s { mgr = (add_subscriber s.mgr nid).1 })
unfolding add_subscriber
add-Inv s nid inv quiet =
    update-Inv nid (record { head = s.mgr.tail; is_subbed = true }) inv
      (λ inside remote subbed. (inv.bound_in, omega arith, quiet))
