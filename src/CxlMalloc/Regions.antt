-- ===== src/CxlMalloc/Regions.antt =====
-- The regions of memory of a process that has started: rac_init and cxl_alloc_process_init together.
use racoherence.Prelude.{
  ℕ, ◌+◌, ◌-◌, ◌%◌, ◌≤◌, ◌<◌, ◌≡◌, ◌∙◌, sym, inl, inr, refl, some, arith, Bool-cases, ltb,
}
use mathlib.Core.Path.{subst}
use mathlib.Core.Option.{some-injective}
use racoherence.Config.{cxl_hc_start, u64_mod}
use racoherence.Runtime.{Layout, layout}
use racoherence.Runtime.Start.{Apart, layout-Apart}
use racoherence.CxlMalloc.{Arenas, cxl_alloc_process_init}

-- The regions in their order, each where the one before it ends.
pub record Ordered (meta_size root_size hc_range nhc_range : ℕ) (l : Layout) (a : Arenas)
    : Type 0 where
  pub root : l.meta + meta_size ≡ l.user_root
  pub hc_meta : l.user_root + root_size ≤ a.hc.meta
  pub hc_memory : a.hc.meta + a.hc.meta_size ≡ a.hc.start
  pub some_memory : 0 < a.hc.size
  pub nhc_meta : a.hc.start + a.hc.size ≡ a.nhc.meta
  pub buffer_end : a.nhc.meta + a.nhc.meta_size ≡ l.hc_buf + hc_range
  pub nhc_memory : l.hc_buf + hc_range < a.nhc.start
  pub nhc_all : a.nhc.size ≡ nhc_range

module _ (region_size : ℕ → ℕ) (meta_size root_size hc_range nhc_range : ℕ) (l : Layout) where
  abbrev nhc_meta_size : ℕ
  nhc_meta_size = region_size nhc_range

  abbrev hc_meta_size : ℕ
  hc_meta_size = region_size ((l.alloc_hc_range + u64_mod - nhc_meta_size) % u64_mod)

  abbrev arenas : Arenas
  arenas = record {
    hc = record {
      meta = l.alloc_hc;
      meta_size = hc_meta_size;
      start = l.alloc_hc + hc_meta_size;
      size = l.alloc_hc_range - hc_meta_size - nhc_meta_size;
    };
    nhc = record {
      meta = l.alloc_hc + l.alloc_hc_range - nhc_meta_size;
      meta_size = nhc_meta_size;
      start = l.nhc_buf;
      size = nhc_range;
    };
  }

  arenas-Ordered :
      nhc_meta_size + hc_meta_size < l.alloc_hc_range
      → Apart meta_size hc_range root_size l
      → Ordered meta_size root_size hc_range nhc_range l arenas
  arenas-Ordered room ok = record {
    root = ok.root;
    hc_meta = ok.alloc;
    hc_memory = refl;
    some_memory = omega arith;
    nhc_meta = omega arith;
    buffer_end = omega (arith, ok.inside);
    nhc_memory = ok.below;
    nhc_all = refl;
  }

-- rac_init and cxl_alloc_process_init with ranges that do not wrap, on any node. Either an assert fails,
-- or the regions stand one behind the other in the hardware-coherent buffer: the metadata, the user's
-- root, the metadata of the coherent arena, its memory, which is not empty, and the metadata of the
-- other arena, to the end of the buffer; and the memory that is not coherent begins behind it.
pub regions-Ordered :
    (region_size : ℕ → ℕ) (meta_size root_size hc_range nhc_range : ℕ) (l : Layout) (a : Arenas)
    → meta_size + root_size < u64_mod
    → cxl_hc_start + hc_range < u64_mod
    → region_size nhc_range
        + region_size ((l.alloc_hc_range + u64_mod - region_size nhc_range) % u64_mod)
      < u64_mod
    → layout meta_size hc_range root_size ≡ some l
    → cxl_alloc_process_init region_size l.alloc_hc l.alloc_hc_range l.nhc_buf nhc_range ≡ some a
    → Ordered meta_size root_size hc_range nhc_range l a
unfolding cxl_alloc_process_init
regions-Ordered region_size meta_size root_size hc_range nhc_range l a small fits no_wrap laid
      runs =
    elim (Bool-cases (ltb (sizes % u64_mod) l.alloc_hc_range)) [
      | inr e ↦ absurd (cc (rw e at runs))
      | inl e ↦ elim (layout-Apart meta_size hc_range root_size small fits) [
        | inr (failed, why) ↦ absurd (cc (failed, laid))
        | inl (l', made, ok) ↦
            let same : l' ≡ l = some-injective l' l (sym made ∙ laid) in
            let taken : arenas region_size meta_size root_size hc_range nhc_range l ≡ a =
              some-injective _ _ (rw e at runs) in
            subst (Ordered meta_size root_size hc_range nhc_range l) taken (
              arenas-Ordered region_size meta_size root_size hc_range nhc_range l
                (ground (arith, e)) (subst (Apart meta_size hc_range root_size) same ok))
      ]
    ]
  where
    sizes : ℕ
    sizes =
        region_size nhc_range
        + region_size ((l.alloc_hc_range + u64_mod - region_size nhc_range) % u64_mod)
