-- ===== src/ThreadOps/Consume/CatchUp.antt =====
-- An acquire catches up with the clock that it is given; the cache agent keeps its promise.
use racoherence.Prelude.{
  ℕ, zero, suc, ◌+◌, ◌≤◌, ◌<◌, ◌≡◌, refl, ap, ◌∙◌, true, false, some, arith, ltb, dec_lt,
}
use mathlib.Core.Path.{subst}
use racoherence.LogManager.{LogManager, PubEntry, take_head, get_idx}
use racoherence.ThreadOps.Consume.{Consumer, consume_entry, consume_until, clock_after}
use racoherence.ThreadOps.Consume.Progress.{
  at, head_of, Readable, Read, Read-refl, Read-one, Readable-rest, Read-trans,
}

-- Among the positions to read the last one is a release that reaches the target.
pub record Reaches (m : LogManager) (h n target : ℕ) : Type 0 where
  pub readable : Readable m h (suc n)
  pub release : (at m (h + n)).is_rel ≡ true
  pub enough : target ≤ h + n + 1

-- What `consume_until` gives from the clock `before`: it read some positions, its clock is at the
-- target, and it is not ahead of what was read.
pub record Caught (nid target : ℕ) (c : Consumer) (i n : ℕ) (before clk : ℕ) (c' : Consumer)
    : Type 0 where
  pub count : ℕ
  pub at_most : count ≤ suc n
  pub read : Read nid c i count c'
  pub reached : target ≤ clk
  pub behind : before ≤ head_of (c.mgrs i) nid → clk ≤ head_of (c'.mgrs i) nid

until_done :
    (fuel nid target i clk : ℕ) (c : Consumer)
    → target ≤ clk
    → consume_until nid (suc fuel) target i clk c ≡ some (clk, c)
unfolding consume_until
until_done fuel nid target i clk c h =
    let e : ltb clk target ≡ false = ground arith in rw (consume_until, e) refl

until_step :
    (fuel nid target i clk : ℕ) (c c' : Consumer) (e : PubEntry)
    → clk < target
    → take_head (c.mgrs i) nid ≡ some e
    → consume_entry nid c i e ≡ some c'
    → consume_until nid (suc fuel) target i clk c
      ≡ consume_until nid fuel target i (clock_after clk e) c'
unfolding consume_until
until_step fuel nid target i clk c c' e h t w =
    let l : ltb clk target ≡ true = ground arith in rw (consume_until, l, t, w) refl

first-Readable : (m : LogManager) (h n : ℕ) → Readable m h (suc n) → Readable m h 1
first-Readable m h n r = record {
  in_range = omega (arith, r.in_range);
  published = λ p a b. r.published p a (omega arith);
  valid = λ p e a b. r.valid p e a (omega arith);
}

-- The last position of the rest is the last one.
rest-Reaches :
    (nid target i n : ℕ) (c c' : Consumer)
    → Reaches (c.mgrs i) (head_of (c.mgrs i) nid) (suc n) target
    → Read nid c i 1 c'
    → Reaches (c'.mgrs i) (head_of (c'.mgrs i) nid) n target
rest-Reaches nid target i n c c' r d = record {
  readable = Readable-rest nid c c' i (suc n) r.readable d;
  release =
      let same : head_of (c'.mgrs i) nid + n ≡ head_of (c.mgrs i) nid + suc n =
        omega (arith, d.head) in
      ap (λ f. (f (get_idx (head_of (c'.mgrs i) nid + n))).is_rel) d.log_kept
      ∙ ap (λ p. (at (c.mgrs i) p).is_rel) same
      ∙ r.release;
  enough = omega (arith, d.head, r.enough);
}

-- The last position is a release at the target.
last_clock :
    (m : LogManager) (h target clk : ℕ) → Reaches m h 0 target → target ≤ clock_after clk (at m h)
last_clock m h target clk r =
    let same : h + 0 ≡ h = omega arith in
    let rel : (at m h).is_rel ≡ true = subst (λ p. (at m p).is_rel ≡ true) same r.release in
    rw rel (omega (arith, r.enough, r.readable.published h (omega arith) (omega arith)))

-- A clock that is not ahead of the head stays so over one position.
pub one_behind :
    (nid i n clk : ℕ) (c c' : Consumer)
    → Readable (c.mgrs i) (head_of (c.mgrs i) nid) (suc n)
    → Read nid c i 1 c'
    → clk ≤ head_of (c.mgrs i) nid
    → clock_after clk (at (c.mgrs i) (head_of (c.mgrs i) nid)) ≤ head_of (c'.mgrs i) nid
one_behind nid i n clk c c' r d b =
    let p = r.published (head_of (c.mgrs i) nid) (omega arith) (omega arith) in
    ground (arith, p, d.head)

pub consume_until_lem :
    (n fuel nid target i clk : ℕ) (c : Consumer)
    → suc n < fuel
    → Reaches (c.mgrs i) (head_of (c.mgrs i) nid) n target
    → (clk' : ℕ) × (c' : Consumer) × (consume_until nid fuel target i clk c ≡ some (clk', c'))
      × Caught nid target c i n clk clk' c'
consume_until_lem n zero nid target i clk c f r = absurd (omega arith)
consume_until_lem zero (suc zero) nid target i clk c f r = absurd (omega arith)
consume_until_lem zero (suc (suc fuel)) nid target i clk c f r = elim (dec_lt clk target) [
  | no e ↦ (
    clk,
    c,
    until_done (suc fuel) nid target i clk c (omega arith),
    record {
      count = 0;
      at_most = omega arith;
      read = Read-refl nid c i;
      reached = omega arith;
      behind = λ b. b;
    },
  )
  | yes e ↦
      let (c', t, w, d) =
        Read-one nid c i (first-Readable (c.mgrs i) (head_of (c.mgrs i) nid) 0 r.readable) in
      let there = last_clock (c.mgrs i) (head_of (c.mgrs i) nid) target clk r in
      (
        clock_after clk (at (c.mgrs i) (head_of (c.mgrs i) nid)),
        c',
        until_step (suc fuel) nid target i clk c c' (at (c.mgrs i) (head_of (c.mgrs i) nid)) e t w
            ∙ until_done fuel nid target i
                (clock_after clk (at (c.mgrs i) (head_of (c.mgrs i) nid))) c' there,
        record {
          count = 1;
          at_most = omega arith;
          read = d;
          reached = there;
          behind = one_behind nid i 0 clk c c' r.readable d;
        },
      )
]
consume_until_lem (suc n) (suc fuel) nid target i clk c f r = elim (dec_lt clk target) [
  | no e ↦ (
    clk,
    c,
    until_done fuel nid target i clk c (omega arith),
    record {
      count = 0;
      at_most = omega arith;
      read = Read-refl nid c i;
      reached = omega arith;
      behind = λ b. b;
    },
  )
  | yes e ↦
      let (c', t, w, d) =
        Read-one nid c i (first-Readable (c.mgrs i) (head_of (c.mgrs i) nid) (suc n) r.readable) in
      let (clk', c'', runs, caught) =
        consume_until_lem n fuel nid target i
          (clock_after clk (at (c.mgrs i) (head_of (c.mgrs i) nid))) c' (omega arith)
          (rest-Reaches nid target i n c c' r d) in
      (
        clk',
        c'',
        until_step fuel nid target i clk c c' (at (c.mgrs i) (head_of (c.mgrs i) nid)) e t w ∙ runs,
        record {
          count = suc caught.count;
          at_most = omega (arith, caught.at_most);
          read = Read-trans nid c c' c'' i caught.count d caught.read;
          reached = caught.reached;
          behind = λ b. caught.behind (one_behind nid i (suc n) clk c c' r.readable d b);
        },
      )
]
