-- ===== src/Runtime/Subscribe.antt =====
-- Subscriptions of a node, src/runtime.cpp.
use racoherence.Prelude.{
  ℕ, ◌≤◌, ◌≡◌, ◌≢◌, refl, sym, ap, true, false, [], ◌∷◌, some, arith, update_self, update_ne,
}
use racoherence.LogManager.{SubStatus, is_subscribed, add_subscriber, remove_subscriber}
use racoherence.CacheInfo.{update_clock_monotonic, flush, wbinvd}
use racoherence.CacheInfo.Process.{drops, drops-append}
use racoherence.Runtime.{
  Node, rac_subscribe_to_node, rac_unsubscribe_from_node, rac_is_subscribed_to_node,
}

-- A node that has subscribed to node `target`.
pub record Subscribed (target : ℕ) (s s' : Node) : Type 0 where
  pub answers : rac_is_subscribed_to_node target s' ≡ some true
  pub from_tail : ((s'.mgrs target).subs s.node_id).head ≡ (s.mgrs target).tail
  pub up_to_date : (s.mgrs target).tail ≤ s'.cache.clock target
  pub not_lowered : (i : ℕ) → s.cache.clock i ≤ s'.cache.clock i
  pub dropped : (addr : ℕ) → drops s'.cache.flushes addr ≡ true
  pub others : (i : ℕ) → i ≢ target → s'.mgrs i ≡ s.mgrs i

monotonic :
    (c : racoherence.CacheInfo.CacheInfo) (i val j : ℕ)
    → (c.clock j ≤ (update_clock_monotonic c i val).clock j)
      × (val ≤ (update_clock_monotonic c i val).clock i)
      × ((update_clock_monotonic c i val).flushes ≡ c.flushes)
unfolding update_clock_monotonic
monotonic c i val j = ground arith

-- rac_subscribe_to_node, which accepts node 0 alone. The node is then subscribed; it will consume the
-- logs from the tail on, and its clock is not behind the tail; no clock has been lowered, every copy
-- that its cache had is dropped, and the other log managers are as they were. A later
-- rac_unsubscribe_from_node ends the subscription.
subscribe_lem :
    (s : Node)
    → (s' : Node) × (rac_subscribe_to_node 0 s ≡ some s')
      × Subscribed 0 s s'
      × ((s'' : Node) × (rac_unsubscribe_from_node 0 s' ≡ some s'')
          × (rac_is_subscribed_to_node 0 s'' ≡ some false))
unfolding rac_subscribe_to_node rac_unsubscribe_from_node rac_is_subscribed_to_node add_subscriber
    remove_subscriber is_subscribed flush
subscribe_lem s = (
  _,
  refl,
  record {
    answers =
        ap (λ (st : SubStatus). some st.is_subbed)
          (update_self (s.mgrs 0).subs s.node_id
            (record { head = (s.mgrs 0).tail; is_subbed = true }));
    from_tail =
        ap (λ (st : SubStatus). st.head)
          (update_self (s.mgrs 0).subs s.node_id
            (record { head = (s.mgrs 0).tail; is_subbed = true }));
    up_to_date = (monotonic (flush s.cache (wbinvd ∷ [])) 0 (s.mgrs 0).tail 0).1;
    not_lowered = λ i. (monotonic (flush s.cache (wbinvd ∷ [])) 0 (s.mgrs 0).tail i).0;
    dropped = λ addr.
        rw
          (
            (monotonic (flush s.cache (wbinvd ∷ [])) 0 (s.mgrs 0).tail 0).2,
            drops-append s.cache.flushes (wbinvd ∷ []) addr,
          )
          (ground arith);
    others = λ i n. update_ne s.mgrs 0 i (add_subscriber (s.mgrs 0) s.node_id).1 (λ e. n (sym e));
  },
  (_, refl, ground arith),
)
