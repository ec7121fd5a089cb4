-- ===== src/ExtentPool/Allocate.antt =====
-- ExtentPool::allocate: blocks are aligned, inside the pool, and after the earlier ones.
use racoherence.Prelude.{
  ℕ, zero, suc, ◌+◌, ◌-◌, ◌*◌, ◌/◌, ◌%◌, ◌^◌, ◌≤◌, ◌<◌, ◌≡◌, refl, ap, ◌∙◌, none, some, bit_and,
  ltb, arith, ◌⊎◌, inl, inr, Bool-cases,
}
use native.Mathlib.Nat.{pow-suc, one-le-pow, div-add-mod, mul-mod_right, mod-lt}
use racoherence.Prelude.Bits.{bit_and_low, mod_pow}
use racoherence.Config.{u64_mod}
use racoherence.ExtentPool.{ExtentPool, aligned_up, allocate}

-- A mask of the bits from `k` on rounds a word of `w` bits down to a multiple of `2 ^ k`.
bit_and-high : (w k x : ℕ) → k ≤ w → x < 2 ^ w → bit_and x (2 ^ w - 2 ^ k) ≡ x - x % 2 ^ k
bit_and-high zero zero x h b = let e : x ≡ 0 = omega arith in rw e refl
bit_and-high zero (suc k) x h b = absurd (omega arith)
bit_and-high (suc w) zero x h b =
    let half : (2 ^ suc w - 1) / 2 ≡ 2 ^ w - 1 = omega (arith, pow-suc 2 w, one-le-pow w 2) in
    bit_and_low x (2 ^ suc w - 1)
    ∙ omega (
      arith,
      pow-suc 2 w,
      one-le-pow w 2,
      ap (λ y. bit_and (x / 2) y) half,
      bit_and-high w zero (x / 2) (omega arith) (omega (arith, pow-suc 2 w)),
    )
bit_and-high (suc w) (suc k) x h b =
    let half : (2 ^ suc w - 2 ^ suc k) / 2 ≡ 2 ^ w - 2 ^ k =
      omega (arith, pow-suc 2 w, pow-suc 2 k) in
    bit_and_low x (2 ^ suc w - 2 ^ suc k)
    ∙ omega (
      arith,
      pow-suc 2 w,
      pow-suc 2 k,
      ap (λ y. bit_and (x / 2) y) half,
      bit_and-high w k (x / 2) (omega arith) (omega (arith, pow-suc 2 w)),
      mod_pow x k,
    )

-- Rounding down to a multiple.
rounded : (x p : ℕ) → 0 < p → (x - x % p) % p ≡ 0
rounded x p h =
    let e : x - x % p ≡ p * (x / p) = omega (arith, div-add-mod x p) in
    ap (λ y. y % p) e ∙ mul-mod_right p (x / p)

-- The next multiple of the alignment.
aligned_up_lem :
    (start k : ℕ)
    → k ≤ 63
    → start + 2 ^ k < u64_mod
    → (start ≤ aligned_up start (2 ^ k))
      × (aligned_up start (2 ^ k) < start + 2 ^ k)
      × (aligned_up start (2 ^ k) % 2 ^ k ≡ 0)
unfolding aligned_up
aligned_up_lem start k h b = elim (Bool-cases (ltb 1 (2 ^ k))) [
  | inl e ↦
      let x : ℕ = start + (2 ^ k - 1) in
      let wrap : x % u64_mod ≡ x = omega arith in
      let mask : u64_mod - 1 - (2 ^ k - 1) ≡ 2 ^ 64 - 2 ^ k = omega (arith, one-le-pow k 2) in
      rw (e, wrap, mask, bit_and-high 64 k x (omega arith) (omega arith))
        (
          omega (arith, mod-lt x (one-le-pow k 2 (omega arith)), one-le-pow k 2),
          omega (arith, one-le-pow k 2),
          rounded x (2 ^ k) (one-le-pow k 2 (omega arith)),
        )
  | inr e ↦
      let one : 2 ^ k ≡ 1 = ground (arith, e, one-le-pow k 2) in
      rw e (omega arith, omega (arith, one-le-pow k 2), (rw one (omega arith)))
]

-- ExtentPool::allocate with an alignment of `2 ^ k`, on a pool that is inside the address space with
-- room to spare. Either the rounded block does not fit, and null is returned and the pool is as it
-- was; or the address returned is aligned, the block starts at or after everything given out before,
-- ends where the next one may start, and ends inside the pool.
pub allocate_lem :
    (p : ExtentPool) (size k : ℕ)
    → k ≤ 63
    → p.offset ≤ p.size
    → p.base + p.size + size + 2 ^ k < u64_mod
    → ((allocate p size (2 ^ k) ≡ (none, p)) × (p.size < p.offset + 2 ^ k + size))
      ⊎ ((addr : ℕ) × (p' : ExtentPool) × (allocate p size (2 ^ k) ≡ (some addr, p'))
          × (addr % 2 ^ k ≡ 0)
          × (p.base + p.offset ≤ addr)
          × (addr + size ≡ p.base + p'.offset)
          × (p'.offset ≤ p.size)
          × (p'.base ≡ p.base)
          × (p'.size ≡ p.size))
unfolding allocate
allocate_lem p size k h inside room =
    let start : (p.base + p.offset) % u64_mod ≡ p.base + p.offset = omega arith in
    let (low, high, round) = aligned_up_lem (p.base + p.offset) k h (omega arith) in
    let a : ℕ = aligned_up (p.base + p.offset) (2 ^ k) in
    let off : (a + u64_mod - p.base) % u64_mod ≡ a - p.base = omega arith in
    let next : (a - p.base + size) % u64_mod ≡ a - p.base + size = omega arith in
    elim (Bool-cases (ltb p.size (a - p.base + size))) [
      | inl e ↦ inl (rw (start, off, next, e) refl, ground (arith, e))
      | inr e ↦ inr (
        a,
        record p { offset = a - p.base + size },
        rw (start, off, next, e) refl,
        round,
        low,
        omega arith,
        ground (arith, e),
        refl,
        refl,
      )
    ]
