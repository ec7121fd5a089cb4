-- ===== src/Runtime/Start.antt =====
-- The hardware-coherent buffer of rac_init, and the nodes that start.
use racoherence.Prelude.{
  ℕ, ◌+◌, ◌-◌, ◌%◌, ◌≤◌, ◌<◌, ◌≡◌, ◌⊎◌, inl, inr, refl, some, arith, Bool-cases, ltb, none,
}
use racoherence.Config.{cxl_hc_start, cxl_nhc_start, u64_mod}
use racoherence.Runtime.{Layout, layout, alloc_cxl_memory}

-- The parts stand one behind the other: the metadata, the user's root, and the allocator's part, which
-- is not empty and ends below the memory that is not coherent.
pub record Apart (meta_size hc_range root_size : ℕ) (l : Layout) : Type 0 where
  pub root : l.meta + meta_size ≡ l.user_root
  pub alloc : l.user_root + root_size ≤ l.alloc_hc
  pub some_room : 0 < l.alloc_hc_range
  pub inside : l.alloc_hc + l.alloc_hc_range ≡ l.hc_buf + hc_range
  pub below : l.hc_buf + hc_range < l.nhc_buf

abbrev parts : ℕ → ℕ → ℕ → Layout
parts meta_size hc_range root_size =
    let off = (meta_size + root_size) % u64_mod in
    record {
      hc_buf = cxl_hc_start;
      nhc_buf = cxl_nhc_start;
      meta = cxl_hc_start;
      user_root = cxl_hc_start + meta_size;
      alloc_hc = cxl_hc_start + off;
      alloc_hc_range = hc_range - off;
    }

-- The layout of a buffer with ranges that do not wrap: when the asserts hold, the parts stand apart;
-- and they hold exactly when the buffer ends below the memory that is not coherent and the metadata
-- and the root leave room in it.
pub layout-Apart :
    (meta_size hc_range root_size : ℕ)
    → meta_size + root_size < u64_mod
    → cxl_hc_start + hc_range < u64_mod
    → ((l : Layout) × (layout meta_size hc_range root_size ≡ some l)
        × Apart meta_size hc_range root_size l)
      ⊎ ((layout meta_size hc_range root_size ≡ none)
          × ((cxl_nhc_start ≤ cxl_hc_start + hc_range) ⊎ (hc_range ≤ meta_size + root_size)))
unfolding layout alloc_cxl_memory
layout-Apart meta_size hc_range root_size small fits =
    elim (Bool-cases (ltb ((cxl_hc_start + hc_range) % u64_mod) cxl_nhc_start)) [
      | inr e ↦ inr (rw (layout, alloc_cxl_memory, e) refl, inl (ground (arith, e)))
      | inl e ↦ elim (Bool-cases (ltb ((meta_size + root_size) % u64_mod) hc_range)) [
        | inr f ↦ inr (rw (layout, alloc_cxl_memory, e, f) refl, inr (ground (arith, f)))
        | inl f ↦ inl (
          parts meta_size hc_range root_size,
          rw (layout, alloc_cxl_memory, e, f) refl,
          record {
            root = refl;
            alloc = omega arith;
            some_room = ground (arith, f);
            inside = ground (arith, f);
            below = ground (arith, e);
          },
        )
      ]
    ]
