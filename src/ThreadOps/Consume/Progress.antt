-- ===== src/ThreadOps/Consume/Progress.antt =====
-- Reading the published logs of a node one after another.
use racoherence.Prelude.{
  ℕ, suc, ◌+◌, ◌*◌, ◌≤◌, ◌<◌, ◌≡◌, ◌≢◌, refl, ap, ◌∙◌, sym, true, some, List, contains, arith,
  update, update_self, ℕ_discrete,
}
use mathlib.Core.Path.{subst}
use racoherence.Config.{u32_mod, cache_line_size}
use racoherence.LocalClTable.Covers.{covers, IsEntry}
use racoherence.LogManager.{LogManager, PubEntry, take_head, consume_head, get_idx, next_idx}
use racoherence.CacheInfo.{Flush, process_log, flush}
use racoherence.CacheInfo.Process.{drops, drops-append, process_log-drops}
use racoherence.ThreadOps.Consume.{Consumer, consume_entry}

-- The entry at a position of a node's log sequence, and the head that node `nid` reads at.
abbrev pub at : LogManager → ℕ → PubEntry
at m p = m.entries (get_idx p)

abbrev pub head_of : LogManager → ℕ → ℕ
head_of m nid = (m.subs nid).head

-- The `n` positions from `h` on are published, with valid logs, before the index wraps.
pub record Readable (m : LogManager) (h n : ℕ) : Type 0 where
  pub in_range : h + n < u32_mod
  pub published : (p : ℕ) → h ≤ p → p < h + n → (at m p).idx ≡ p + 1
  pub valid : (p e : ℕ) → h ≤ p → p < h + n → contains (m.buf (at m p).log) e ≡ true → IsEntry e

-- The reader has come from `c` to `c'` through `n` positions of node `i`, and dropped its copy of
-- every line of their logs.
pub record Read (nid : ℕ) (c : Consumer) (i n : ℕ) (c' : Consumer) : Type 0 where
  pub head : head_of (c'.mgrs i) nid ≡ head_of (c.mgrs i) nid + n
  pub log_kept : (c'.mgrs i).entries ≡ (c.mgrs i).entries
  pub buf_kept : (c'.mgrs i).buf ≡ (c.mgrs i).buf
  pub others : (j : ℕ) → j ≢ i → c'.mgrs j ≡ c.mgrs j
  pub subbed : ((c'.mgrs i).subs nid).is_subbed ≡ ((c.mgrs i).subs nid).is_subbed
  pub clock : c'.cache.clock ≡ c.cache.clock
  pub kept : (addr : ℕ) → drops c.cache.flushes addr ≡ true → drops c'.cache.flushes addr ≡ true
  pub dropped :
      (p e cl : ℕ)
      → head_of (c.mgrs i) nid ≤ p
      → p < head_of (c.mgrs i) nid + n
      → contains ((c.mgrs i).buf (at (c.mgrs i) p).log) e ≡ true
      → covers e cl ≡ true
      → drops c'.cache.flushes (cl * cache_line_size) ≡ true

pub Read-refl : (nid : ℕ) (c : Consumer) (i : ℕ) → Read nid c i 0 c
Read-refl nid c i = record {
  head = omega arith;
  log_kept = refl;
  buf_kept = refl;
  others = λ j n. refl;
  subbed = refl;
  clock = refl;
  kept = λ addr h. h;
  dropped = λ p e cl a b. absurd (omega arith);
}

take_head_next :
    (m : LogManager) (nid : ℕ)
    → head_of m nid + 1 < u32_mod
    → (at m (head_of m nid)).idx ≡ head_of m nid + 1
    → take_head m nid ≡ some (at m (head_of m nid))
unfolding take_head
take_head_next m nid r e = ground (arith, e)

head_of-consume_head :
    (m : LogManager) (nid : ℕ)
    → head_of m nid + 1 < u32_mod
    → head_of (consume_head m nid) nid ≡ head_of m nid + 1
unfolding consume_head
head_of-consume_head m nid r =
    ap (λ x. x.head)
      (update_self m.subs nid (record (m.subs nid) { head = next_idx (head_of m nid) }))
    ∙ omega (arith, r)

subbed-consume_head :
    (m : LogManager) (nid : ℕ) → ((consume_head m nid).subs nid).is_subbed ≡ (m.subs nid).is_subbed
unfolding consume_head
subbed-consume_head m nid =
    ap (λ x. x.is_subbed)
      (update_self m.subs nid (record (m.subs nid) { head = next_idx (head_of m nid) }))

-- The state once the log at the head is processed with the instructions `issued`.
after_one : ℕ → Consumer → ℕ → List Flush → Consumer
after_one nid c i issued = record c {
  mgrs = update c.mgrs i (consume_head (c.mgrs i) nid);
  cache = flush c.cache issued;
}

after_one-Read :
    (nid : ℕ) (c : Consumer) (i : ℕ) (fs : List Flush)
    → head_of (c.mgrs i) nid + 1 < u32_mod
    → ((e cl : ℕ)
        → contains ((c.mgrs i).buf (at (c.mgrs i) (head_of (c.mgrs i) nid)).log) e ≡ true
        → covers e cl ≡ true
        → drops fs (cl * cache_line_size) ≡ true)
    → Read nid c i 1 (after_one nid c i fs)
unfolding after_one flush consume_head
after_one-Read nid c i fs r d =
    let here = update_self c.mgrs i (consume_head (c.mgrs i) nid) in
    record {
      head = ap (λ m. head_of m nid) here ∙ head_of-consume_head (c.mgrs i) nid r;
      log_kept = ap (λ m. m.entries) here;
      buf_kept = ap (λ m. m.buf) here;
      others = λ j n. ground (arith, n);
      subbed = ap (λ m. (m.subs nid).is_subbed) here ∙ subbed-consume_head (c.mgrs i) nid;
      clock = refl;
      kept = λ addr h. rw (drops-append c.cache.flushes fs addr, h) refl;
      dropped = λ p e cl a b inside cov.
          let same : p ≡ head_of (c.mgrs i) nid = omega arith in
          rw (drops-append c.cache.flushes fs (cl * cache_line_size)) (
            ground (
              arith,
              d e cl
                  (subst (λ q. contains ((c.mgrs i).buf (at (c.mgrs i) q).log) e ≡ true) same
                    inside)
                  cov,
            ));
    }

one_runs :
    (nid : ℕ) (c : Consumer) (i : ℕ) (entry : PubEntry) (fs : List Flush)
    → process_log ((c.mgrs i).buf entry.log) ≡ some fs
    → consume_entry nid c i entry ≡ some (after_one nid c i fs)
unfolding consume_entry after_one
one_runs nid c i entry fs e = rw (consume_entry, e) refl

-- One published log is read.
pub Read-one :
    (nid : ℕ) (c : Consumer) (i : ℕ)
    → Readable (c.mgrs i) (head_of (c.mgrs i) nid) 1
    → (c' : Consumer) × (take_head (c.mgrs i) nid ≡ some (at (c.mgrs i) (head_of (c.mgrs i) nid)))
      × (consume_entry nid c i (at (c.mgrs i) (head_of (c.mgrs i) nid)) ≡ some c')
      × Read nid c i 1 c'
Read-one nid c i r =
    let h = head_of (c.mgrs i) nid in
    let (fs, e, d) =
      process_log-drops ((c.mgrs i).buf (at (c.mgrs i) h).log)
        (λ entry. r.valid h entry (omega arith) (omega arith)) in
    (
      after_one nid c i fs,
      take_head_next (c.mgrs i) nid r.in_range (r.published h (omega arith) (omega arith)),
      one_runs nid c i (at (c.mgrs i) h) fs e,
      after_one-Read nid c i fs r.in_range d,
    )

-- What is left to read after the first position.
pub Readable-rest :
    (nid : ℕ) (c c' : Consumer) (i n : ℕ)
    → Readable (c.mgrs i) (head_of (c.mgrs i) nid) (suc n)
    → Read nid c i 1 c'
    → Readable (c'.mgrs i) (head_of (c'.mgrs i) nid) n
Readable-rest nid c c' i n r d = record {
  in_range = omega (arith, d.head, r.in_range);
  published = λ p a b.
      ap (λ f. (f (get_idx p)).idx) d.log_kept
      ∙ r.published p (omega (arith, d.head)) (omega (arith, d.head));
  valid = λ p e a b inside.
      r.valid p e (omega (arith, d.head)) (omega (arith, d.head)) (same_log p e inside);
}
  where
    same_log :
        (p e : ℕ)
        → contains ((c'.mgrs i).buf (at (c'.mgrs i) p).log) e ≡ true
        → contains ((c.mgrs i).buf (at (c.mgrs i) p).log) e ≡ true
    same_log p e inside =
        ap (λ b. contains (b (at (c.mgrs i) p).log) e) (sym d.buf_kept)
        ∙ ap (λ f. contains ((c'.mgrs i).buf (f (get_idx p)).log) e) (sym d.log_kept)
        ∙ inside

-- Reading on.
pub Read-trans :
    (nid : ℕ) (c c' c'' : Consumer) (i n : ℕ)
    → Read nid c i 1 c'
    → Read nid c' i n c''
    → Read nid c i (suc n) c''
Read-trans nid c c' c'' i n a b = record {
  head = omega (arith, a.head, b.head);
  log_kept = b.log_kept ∙ a.log_kept;
  buf_kept = b.buf_kept ∙ a.buf_kept;
  others = λ j n. b.others j n ∙ a.others j n;
  subbed = b.subbed ∙ a.subbed;
  clock = b.clock ∙ a.clock;
  kept = λ addr h. b.kept addr (a.kept addr h);
  dropped = λ p e cl lo hi inside cov. elim (ℕ_discrete p (head_of (c.mgrs i) nid)) [
    | yes first ↦ b.kept (cl * cache_line_size) (a.dropped p e cl lo (omega arith) inside cov)
    | no later ↦
        b.dropped p e cl (omega (arith, a.head)) (omega (arith, a.head)) (same_log p e inside) cov
  ];
}
  where
    same_log :
        (p e : ℕ)
        → contains ((c.mgrs i).buf (at (c.mgrs i) p).log) e ≡ true
        → contains ((c'.mgrs i).buf (at (c'.mgrs i) p).log) e ≡ true
    same_log p e inside =
        ap (λ f. contains ((c'.mgrs i).buf (f (get_idx p)).log) e) a.log_kept
        ∙ ap (λ b. contains (b (at (c.mgrs i) p).log) e) a.buf_kept
        ∙ inside
