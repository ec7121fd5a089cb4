-- ===== src/CxlSync/Barrier/Invariant.antt =====
-- What holds of a CXLBarrier and its threads in a round.
use racoherence.Prelude.{
  ℕ, Option, none, some, ◌+◌, ◌%◌, ◌≤◌, ◌<◌, ◌≡◌, ◌≢◌, ◌⊎◌, inl, inr, refl, arith, sum, sum_room,
  update, ltb, if◌then◌else◌,
}
use racoherence.Config.{u32_mod}
use racoherence.CxlSync.{as_char}
use racoherence.CxlSync.Barrier.{
  Barrier, Pc, outside, loaded, counted, last, reset, waiting, Thread,
}

-- The thread has arrived in round `r`, from 0 on.
abbrev pub in_round : ℕ → Thread → ℕ
in_round r t = if ltb r t.arrivals then 1 else 0

pub in_round_le : (r : ℕ) (t : Thread) → in_round r t ≤ 1
in_round_le r t = ground arith

-- The value of `arrived` that a thread got last, while its round goes on.
abbrev pub slot : ℕ → Pc → Option ℕ
slot n (counted p a) = some a
slot n last = some n
slot n reset = some n
slot n _ = none

-- A thread that got the last value of `arrived` in round `r` and has not begun the next one.
abbrev pub Closer : ℕ → ℕ → (ℕ → Thread) → Type 0
Closer n r threads =
    (v : ℕ) × (v < n) × (slot n (threads v).pc ≡ some n) × ((threads v).returns ≡ r)

-- In round `r`, with `n` threads of which `c` have arrived.
pub record Inv (n r c : ℕ) (b : Barrier) (threads : ℕ → Thread) : Type 0 where
  pub few : n ≤ 128
  pub some_thread : 0 < n
  pub target : b.target ≡ n
  pub phase : b.phase ≡ r % u32_mod
  pub count : sum (in_round r) threads n ≡ c
  pub at_most : c ≤ n
  pub arrived : c < n → b.arrived ≡ c
  pub cleared : (u : ℕ) → u < n → (threads u).pc ≡ reset → b.arrived ≡ 0
  pub out :
      (u : ℕ)
      → u < n
      → (threads u).pc ≡ outside
      → ((threads u).returns ≡ r) × ((threads u).arrivals ≡ r)
  pub load :
      (u p : ℕ)
      → u < n
      → (threads u).pc ≡ loaded p
      → ((threads u).returns ≡ r) × ((threads u).arrivals ≡ r) × (p ≡ as_char (r % u32_mod))
  pub counts :
      (u p a : ℕ)
      → u < n
      → (threads u).pc ≡ counted p a
      → ((threads u).arrivals ≡ (threads u).returns + 1)
        × (p ≡ as_char ((threads u).returns % u32_mod))
        × (((threads u).returns ≡ r) × (a ≤ c) ⊎ ((threads u).returns + 1 ≡ r) × (a ≢ n))
  pub finishes :
      (u : ℕ)
      → u < n
      → ((threads u).pc ≡ last) ⊎ ((threads u).pc ≡ reset)
      → ((threads u).returns ≡ r) × ((threads u).arrivals ≡ r + 1) × (c ≡ n)
  pub waits :
      (u p : ℕ)
      → u < n
      → (threads u).pc ≡ waiting p
      → ((threads u).arrivals ≡ (threads u).returns + 1)
        × (p ≡ as_char ((threads u).returns % u32_mod))
        × (((threads u).returns ≡ r) ⊎ ((threads u).returns + 1 ≡ r))
  pub unique :
      (u v a : ℕ)
      → u < n
      → v < n
      → (threads u).returns ≡ r
      → (threads v).returns ≡ r
      → slot n (threads u).pc ≡ some a
      → slot n (threads v).pc ≡ some a
      → u ≡ v
  pub closes : c ≡ n → Closer n r threads

-- The step of a thread leaves one that will close the round.
pub keep :
    (n r : ℕ) (threads : ℕ → Thread) (u : ℕ) (t : Thread)
    → (slot n (threads u).pc ≡ some n
        → (threads u).returns ≡ r
        → (slot n t.pc ≡ some n) × (t.returns ≡ r))
    → Closer n r threads
    → Closer n r (update threads u t)
keep n r threads u t h (v, l, s, e) = (v, l, ground (arith, s, e, h), ground (arith, s, e, h))

module _ {n r c : ℕ} {b : Barrier} {threads : ℕ → Thread} (inv : Inv n r c b threads) (u : ℕ)
    (lt : u < n) where
  -- A thread that has not arrived leaves room.
  pub room : (p : ℕ) → (threads u).pc ≡ loaded p → c < n
  room p at =
      ground
        (arith, inv.count, inv.load u p lt at, sum_room (in_round r) (in_round_le r) threads u n lt)

  -- Those who have arrived in this round had at most `c`.
  pub slot_le :
      (v : ℕ) → v < n → (a : ℕ) → slot n (threads v).pc ≡ some a → (threads v).returns ≡ r → (a ≤ c)
  slot_le v l a h e = at_place (threads v).pc refl h
    where
      at_place : (q : Pc) → (threads v).pc ≡ q → slot n (threads v).pc ≡ some a → a ≤ c
      at_place (counted p a') at h = ground (arith, inv.counts v p a' l at)
      at_place last at h = ground (arith, inv.finishes v l (inl at))
      at_place reset at h = ground (arith, inv.finishes v l (inr at))
      at_place q at h = absurd (cc)
