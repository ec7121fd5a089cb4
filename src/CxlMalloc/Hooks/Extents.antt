-- ===== src/CxlMalloc/Hooks/Extents.antt =====
-- The extents that the hooks of src/cxlMalloc.cpp give out, one after another.
use racoherence.Prelude.{
  ℕ, ◌+◌, ◌-◌, ◌%◌, ◌^◌, ◌≤◌, ◌<◌, ◌≡◌, ap, sym, ◌∙◌, Bool, false, Option, none, some, List, [],
  ◌∷◌, arith, inl, inr,
}
use mathlib.Core.Path.{subst}
use racoherence.Config.{u64_mod}
use racoherence.ExtentPool.{ExtentPool, allocate}
use racoherence.ExtentPool.Allocate.{allocate_lem}
use racoherence.CxlMalloc.Hooks.{
  AllocMeta, Answer, Memset, answer, cxlhc_extent_alloc, cxlnhc_extent_alloc,
}

-- A request of jemalloc for coherent memory or for the other: the size, the logarithm of the alignment,
-- and whether the extent is to be zeroed.
pub data Request : Type 0 where
  for_hc : ℕ → ℕ → Bool → Request
  for_nhc : ℕ → ℕ → Bool → Request

abbrev pub ask : Memset → Request → AllocMeta → (ℕ → ℕ) → Answer
ask memset (for_hc size k z) meta mem =
    cxlhc_extent_alloc memset size (2 ^ k) (some z) (some false) meta mem
ask memset (for_nhc size k z) meta mem =
    cxlnhc_extent_alloc memset size (2 ^ k) (some z) (some false) meta mem

-- The answers to a sequence of requests, each with its request; `none` is the null pointer.
unfoldable pub serve : Memset → List Request → AllocMeta → (ℕ → ℕ) → List (Request × Option ℕ)
serve memset [] meta mem = []
serve memset (r ∷ rs) meta mem =
    let a = ask memset r meta mem in (r, a.extent) ∷ serve memset rs a.alloc_meta a.memory

-- The extent is aligned, lies in the pool, and starts where the pool has got to or later.
abbrev pub Fits : ExtentPool → ℕ → ℕ → ℕ → Type 0
Fits pool size k p =
    (p % 2 ^ k ≡ 0) × (pool.base + pool.offset ≤ p) × (p + size ≤ pool.base + pool.size)

-- The request, with what its alignment may take, is more than is left of the pool.
abbrev pub IsFull : ExtentPool → ℕ → ℕ → Type 0
IsFull pool size k = pool.size < pool.offset + 2 ^ k + size

abbrev pub upto : ExtentPool → ℕ → ExtentPool
upto pool end = record pool { offset = end - pool.base }

-- The extents of each pool fit one after another, and a request is refused only by a full pool.
abbrev pub Placed : ExtentPool → ExtentPool → List (Request × Option ℕ) → Type 0
Placed hc nhc [] = Unit
Placed hc nhc ((for_hc size k z, none) ∷ es) = IsFull hc size k × Placed hc nhc es
Placed hc nhc ((for_hc size k z, some p) ∷ es) =
    Fits hc size k p × Placed (upto hc (p + size)) nhc es
Placed hc nhc ((for_nhc size k z, none) ∷ es) = IsFull nhc size k × Placed hc nhc es
Placed hc nhc ((for_nhc size k z, some p) ∷ es) =
    Fits nhc size k p × Placed hc (upto nhc (p + size)) es

-- The alignment is a power of two of 64 bits, and the pool ends early enough for the request's sum not
-- to wrap.
abbrev pub Sound : ℕ → ℕ → Request → Type 0
Sound hc_end nhc_end (for_hc size k z) = (k ≤ 63) × (hc_end + size + 2 ^ k < u64_mod)
Sound hc_end nhc_end (for_nhc size k z) = (k ≤ 63) × (nhc_end + size + 2 ^ k < u64_mod)

abbrev pub AllSound : ℕ → ℕ → List Request → Type 0
AllSound hc_end nhc_end [] = Unit
AllSound hc_end nhc_end (r ∷ rs) = Sound hc_end nhc_end r × AllSound hc_end nhc_end rs

-- What is given out from an answer on.
abbrev after : Memset → Request → List Request → Answer → List (Request × Option ℕ)
after memset r rs a = (r, a.extent) ∷ serve memset rs a.alloc_meta a.memory

step :
    (memset : Memset) (r : Request) (rs : List Request) (meta : AllocMeta) (mem : ℕ → ℕ)
    (a : Answer)
    → ask memset r meta mem ≡ a
    → serve memset (r ∷ rs) meta mem ≡ after memset r rs a
unfolding serve
step memset r rs meta mem a e = ap (after memset r rs) e

hc_asked :
    (memset : Memset) (size k : ℕ) (z : Bool) (meta : AllocMeta) (mem : ℕ → ℕ) (o : Option ℕ)
    (pool : ExtentPool)
    → allocate meta.cxlhc_pool size (2 ^ k) ≡ (o, pool)
    → ask memset (for_hc size k z) meta mem
      ≡ answer memset o size (some z) (some false) (record meta { cxlhc_pool = pool }) mem
unfolding cxlhc_extent_alloc
hc_asked memset size k z meta mem o pool e =
    ap (λ x. answer memset x.0 size (some z) (some false) (record meta { cxlhc_pool = x.1 }) mem) e

nhc_asked :
    (memset : Memset) (size k : ℕ) (z : Bool) (meta : AllocMeta) (mem : ℕ → ℕ) (o : Option ℕ)
    (pool : ExtentPool)
    → allocate meta.cxlnhc_pool size (2 ^ k) ≡ (o, pool)
    → ask memset (for_nhc size k z) meta mem
      ≡ answer memset o size (some z) (some false) (record meta { cxlnhc_pool = pool }) mem
unfolding cxlnhc_extent_alloc
nhc_asked memset size k z meta mem o pool e =
    ap (λ x. answer memset x.0 size (some z) (some false) (record meta { cxlnhc_pool = x.1 }) mem) e

-- The pool after an extent is the pool up to its end.
pool_upto :
    (pool pool' : ExtentPool) (end : ℕ)
    → pool'.base ≡ pool.base
    → pool'.size ≡ pool.size
    → end ≡ pool.base + pool'.offset
    → pool' ≡ upto pool end
pool_upto pool pool' end b s e =
    let o : pool'.offset ≡ end - pool.base = omega (arith, e) in
    ap (λ x. record pool' { offset = x }) o
    ∙ ap (λ x. record { base = x; size = pool'.size; offset = end - pool.base }) b
    ∙ ap (λ x. record { base = pool.base; size = x; offset = end - pool.base }) s

-- The hooks of src/cxlMalloc.cpp, for requests to them in a row, each for an alignment of 2 ^ 63 at
-- most and with a size that, added to its alignment and to the end of its pool, stays below 2 ^ 64,
-- and for pools that begin with an offset within their size. A request is refused only when its size
-- and its alignment together are more than is left of its pool. Otherwise the extent is aligned as
-- asked, lies in the pool that it was asked from, and starts where the earlier extents of that pool
-- have ended or later, so that no two overlap.
pub serve-Placed :
    (memset : Memset) (rs : List Request) (hc nhc : ExtentPool) (mem : ℕ → ℕ)
    → hc.offset ≤ hc.size
    → nhc.offset ≤ nhc.size
    → AllSound (hc.base + hc.size) (nhc.base + nhc.size) rs
    → Placed hc nhc (serve memset rs (record { cxlhc_pool = hc; cxlnhc_pool = nhc }) mem)
unfolding serve
serve-Placed memset [] hc nhc mem h n s = tt
serve-Placed memset (for_hc size k z ∷ rs) hc nhc mem h n ((small, room), s) =
    let meta : AllocMeta = record { cxlhc_pool = hc; cxlnhc_pool = nhc } in
    elim (allocate_lem hc size k small h room) [
      | inl (e, full) ↦
          subst (Placed hc nhc)
            (sym (
              step memset (for_hc size k z) rs meta mem _
                (hc_asked memset size k z meta mem none hc e)))
            (full, serve-Placed memset rs hc nhc mem h n s)
      | inr (p, pool, e, aligned, low, next, inside, base, same) ↦
          let mem' = (answer memset (some p) size (some z) (some false) meta mem).memory in
          let end = pool_upto hc pool (p + size) base same next in
          subst (Placed hc nhc)
            (sym (
              step memset (for_hc size k z) rs meta mem _
                (hc_asked memset size k z meta mem (some p) pool e)))
            (
              (aligned, low, omega (arith, next, inside)),
              subst
                  (λ q.
                    Placed q nhc
                      (serve memset rs (record { cxlhc_pool = pool; cxlnhc_pool = nhc }) mem'))
                  end
                  (serve-Placed memset rs pool nhc mem' (omega (arith, inside, same)) n (
                    subst (λ l. AllSound l (nhc.base + nhc.size) rs) {x = hc.base + hc.size}
                      {y = pool.base + pool.size} (omega (arith, base, same)) s)),
            )
    ]
serve-Placed memset (for_nhc size k z ∷ rs) hc nhc mem h n ((small, room), s) =
    let meta : AllocMeta = record { cxlhc_pool = hc; cxlnhc_pool = nhc } in
    elim (allocate_lem nhc size k small n room) [
      | inl (e, full) ↦
          subst (Placed hc nhc)
            (sym (
              step memset (for_nhc size k z) rs meta mem _
                (nhc_asked memset size k z meta mem none nhc e)))
            (full, serve-Placed memset rs hc nhc mem h n s)
      | inr (p, pool, e, aligned, low, next, inside, base, same) ↦
          let mem' = (answer memset (some p) size (some z) (some false) meta mem).memory in
          let end = pool_upto nhc pool (p + size) base same next in
          subst (Placed hc nhc)
            (sym (
              step memset (for_nhc size k z) rs meta mem _
                (nhc_asked memset size k z meta mem (some p) pool e)))
            (
              (aligned, low, omega (arith, next, inside)),
              subst
                  (λ q.
                    Placed hc q
                      (serve memset rs (record { cxlhc_pool = hc; cxlnhc_pool = pool }) mem'))
                  end
                  (serve-Placed memset rs hc pool mem' h (omega (arith, inside, same)) (
                    subst (λ l. AllSound (hc.base + hc.size) l rs) {x = nhc.base + nhc.size}
                      {y = pool.base + pool.size} (omega (arith, base, same)) s)),
            )
    ]
