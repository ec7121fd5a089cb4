-- ===== src/CxlMalloc/Hooks/Tests.antt =====
-- Two extents of coherent memory and one of the other.
use racoherence.Prelude.{
  some, ◌+◌, ◌*◌, ◌^◌, ◌≡◌, refl, true, false, ◌&&◌, [], ◌∷◌, arith, ltb, leb, if◌then◌else◌, List,
}
use racoherence.ExtentPool.{ExtentPool, allocate}
use racoherence.CxlMalloc.Hooks.{Memset, new_pool, cxlhc_extent_alloc, cxlnhc_extent_alloc}
use racoherence.CxlMalloc.Hooks.Extents.{Request, for_hc, for_nhc, serve, Placed, serve-Placed}

abbrev fill : Memset
fill p v n mem a = if leb p a && ltb a (p + n) then v else mem a

abbrev requests : List Request
requests = for_hc 100 12 true ∷ for_nhc 8192 12 false ∷ for_hc 4096 12 false ∷ []

abbrev hc_pool : ExtentPool
hc_pool = new_pool (2 ^ 47) (2 ^ 26)

abbrev nhc_pool : ExtentPool
nhc_pool = new_pool (3 * 2 ^ 46) (2 ^ 34)

served :
    serve fill requests (record { cxlhc_pool = hc_pool; cxlnhc_pool = nhc_pool }) (λ a. 1)
    ≡ (for_hc 100 12 true, some (2 ^ 47))
      ∷ (for_nhc 8192 12 false, some (3 * 2 ^ 46))
      ∷ (for_hc 4096 12 false, some (2 ^ 47 + 4096))
      ∷ []
unfolding serve cxlhc_extent_alloc cxlnhc_extent_alloc allocate
served = refl

serve-Placed_example :
    Placed hc_pool nhc_pool
      (serve fill requests (record { cxlhc_pool = hc_pool; cxlnhc_pool = nhc_pool }) (λ a. 1))
serve-Placed_example =
    serve-Placed fill requests hc_pool nhc_pool (λ a. 1) (omega arith) (omega arith)
      ((omega arith, omega arith), ((omega arith, omega arith), ((omega arith, omega arith), tt)))
