-- ===== src/ThreadOps/Consume/Advance.antt =====
-- What a node has done when it has read logs: they are as they were, and copies are dropped.
use racoherence.Prelude.{
  ℕ, ◌*◌, ◌≤◌, ◌<◌, ◌≡◌, refl, ap, ◌∙◌, sym, true, contains, arith, update, update_self, update_ne,
  ℕ_discrete, dec_lt,
}
use mathlib.Core.Path.{subst}
use racoherence.Config.{cache_line_size}
use racoherence.LocalClTable.Covers.{covers}
use racoherence.LogManager.{is_subscribed, get_idx}
use racoherence.CacheInfo.{update_clock}
use racoherence.CacheInfo.Process.{drops}
use racoherence.ThreadOps.Consume.{Consumer}
use racoherence.ThreadOps.Consume.Progress.{at, head_of, Read}

-- The logs are the same, and the reader dropped its copy of each line of the logs that it went past.
pub record Advanced (nid : ℕ) (c c' : Consumer) : Type 0 where
  pub log_kept : (i : ℕ) → (c'.mgrs i).entries ≡ (c.mgrs i).entries
  pub buf_kept : (i : ℕ) → (c'.mgrs i).buf ≡ (c.mgrs i).buf
  pub subbed : (i : ℕ) → is_subscribed (c'.mgrs i) nid ≡ is_subscribed (c.mgrs i) nid
  pub kept : (addr : ℕ) → drops c.cache.flushes addr ≡ true → drops c'.cache.flushes addr ≡ true
  pub dropped :
      (i p e cl : ℕ)
      → head_of (c.mgrs i) nid ≤ p
      → p < head_of (c'.mgrs i) nid
      → contains ((c.mgrs i).buf (at (c.mgrs i) p).log) e ≡ true
      → covers e cl ≡ true
      → drops c'.cache.flushes (cl * cache_line_size) ≡ true
  pub behind :
      (i : ℕ)
      → c.cache.clock i ≤ head_of (c.mgrs i) nid
      → c'.cache.clock i ≤ head_of (c'.mgrs i) nid

pub Advanced-refl : (nid : ℕ) (c : Consumer) → Advanced nid c c
Advanced-refl nid c = record {
  log_kept = λ i. refl;
  buf_kept = λ i. refl;
  subbed = λ i. refl;
  kept = λ addr h. h;
  dropped = λ i p e cl a b. absurd (omega arith);
  behind = λ i b. b;
}

pub Advanced-trans :
    (nid : ℕ) (a b c : Consumer) → Advanced nid a b → Advanced nid b c → Advanced nid a c
Advanced-trans nid a b c f g = record {
  log_kept = λ i. g.log_kept i ∙ f.log_kept i;
  buf_kept = λ i. g.buf_kept i ∙ f.buf_kept i;
  subbed = λ i. g.subbed i ∙ f.subbed i;
  kept = λ addr h. g.kept addr (f.kept addr h);
  dropped = λ i p e cl lo hi inside cov. elim (dec_lt p (head_of (b.mgrs i) nid)) [
    | yes early ↦ g.kept (cl * cache_line_size) (f.dropped i p e cl lo early inside cov)
    | no late ↦ g.dropped i p e cl (omega arith) hi (same_log i p e inside) cov
  ];
  behind = λ i b. g.behind i (f.behind i b);
}
  where
    same_log :
        (i p e : ℕ)
        → contains ((a.mgrs i).buf (at (a.mgrs i) p).log) e ≡ true
        → contains ((b.mgrs i).buf (at (b.mgrs i) p).log) e ≡ true
    same_log i p e inside =
        ap (λ f. contains ((b.mgrs i).buf (f (get_idx p)).log) e) (f.log_kept i)
        ∙ ap (λ m. contains (m (at (a.mgrs i) p).log) e) (f.buf_kept i)
        ∙ inside

pub Read-Advanced : (nid i n : ℕ) (c c' : Consumer) → Read nid c i n c' → Advanced nid c c'
unfolding is_subscribed
Read-Advanced nid i n c c' r = record {
  log_kept = λ j. elim (ℕ_discrete j i) [
    | yes e ↦ subst (λ k. (c'.mgrs k).entries ≡ (c.mgrs k).entries) (sym e) r.log_kept
    | no m ↦ ap (λ m. m.entries) (r.others j m)
  ];
  buf_kept = λ j. elim (ℕ_discrete j i) [
    | yes e ↦ subst (λ k. (c'.mgrs k).buf ≡ (c.mgrs k).buf) (sym e) r.buf_kept
    | no m ↦ ap (λ m. m.buf) (r.others j m)
  ];
  subbed = λ j. elim (ℕ_discrete j i) [
    | yes e ↦
        subst (λ k. ((c'.mgrs k).subs nid).is_subbed ≡ ((c.mgrs k).subs nid).is_subbed) (sym e)
          r.subbed
    | no m ↦ ap (λ m. (m.subs nid).is_subbed) (r.others j m)
  ];
  kept = r.kept;
  dropped = λ j p e cl lo hi inside cov. elim (ℕ_discrete j i) [
    | yes same ↦
        r.dropped p e cl (subst (λ k. head_of (c.mgrs k) nid ≤ p) same lo)
          (omega (arith, r.head, subst (λ k. p < head_of (c'.mgrs k) nid) same hi))
          (subst (λ k. contains ((c.mgrs k).buf (at (c.mgrs k) p).log) e ≡ true) same inside) cov
    | no m ↦ absurd (omega (arith, lo, subst (λ m. p < head_of m nid) (r.others j m) hi))
  ];
  behind = λ j b. elim (ℕ_discrete j i) [
    | yes same ↦
        subst (λ k. c'.cache.clock k ≤ head_of (c'.mgrs k) nid) (sym same)
          (omega (
            arith,
            subst (λ k. c.cache.clock k ≤ head_of (c.mgrs k) nid) same b,
            r.head,
            ap (λ k. k i) r.clock,
          ))
    | no m ↦ omega (arith, b, ap (λ k. k j) r.clock, ap (λ m. head_of m nid) (r.others j m))
  ];
}

-- A new clock that is not ahead of what was read.
pub update_clock-Advanced :
    (nid i clk : ℕ) (c c' : Consumer)
    → Advanced nid c c'
    → (c.cache.clock i ≤ head_of (c.mgrs i) nid → clk ≤ head_of (c'.mgrs i) nid)
    → Advanced nid c (record c' { cache = update_clock c'.cache i clk })
unfolding update_clock
update_clock-Advanced nid i clk c c' a near = record {
  log_kept = a.log_kept;
  buf_kept = a.buf_kept;
  subbed = a.subbed;
  kept = a.kept;
  dropped = a.dropped;
  behind = λ j b. elim (ℕ_discrete j i) [
    | yes same ↦
        subst (λ k. update c'.cache.clock i clk k ≤ head_of (c'.mgrs k) nid) (sym same)
          (rw (update_self c'.cache.clock i clk)
            (near (subst (λ k. c.cache.clock k ≤ head_of (c.mgrs k) nid) same b)))
    | no m ↦ rw (update_ne c'.cache.clock i j clk (λ q. m (sym q))) (a.behind j b)
  ];
}
