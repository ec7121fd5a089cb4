-- ===== src/CacheInfo/Process.antt =====
-- CacheInfo::process_log invalidates every line of every entry.
use racoherence.Prelude.{
  ℕ, ◌+◌, ◌-◌, ◌*◌, ◌/◌, ◌%◌, ◌≤◌, ◌<◌, ◌≡◌, refl, ap, ◌∙◌, sym, Bool, true, false, ◌||◌, some,
  List, [], ◌∷◌, ◌++◌, map, contains, contains-append, contains-map, arith, leb, ◌==◌, Bool-cases,
  inl, inr, ℕ_discrete, contains-values,
}
use mathlib.Core.Path.{subst}
use racoherence.Prelude.Bits.{test_bit}
use racoherence.Config.{
  wbinvd_threshold, u64_mod, u32_mod, cache_line_size, cl_expand_factor, virtual_cl_shift,
}
use racoherence.ClGroup.{
  is_length_based, get_length, get_index, get_ptr, get_mask16, group_size, shl64,
}
use racoherence.ClGroup.Ranges.{mask_range_lem, set_bits, contains-set_bits}
use racoherence.LocalClTable.Covers.{covers, IsEntry}
use racoherence.CacheInfo.{
  Flush, writeback, invalidate, wbinvd, lines_at, each, mask_lines, process_log,
}

-- The instructions drop the node's copy of the line at an address.
abbrev pub drops : List Flush → ℕ → Bool
drops [] addr = false
drops (writeback a ∷ fs) addr = drops fs addr
drops (invalidate a ∷ fs) addr = a == addr || drops fs addr
drops (wbinvd ∷ fs) addr = true

pub drops-append :
    (fs gs : List Flush) (addr : ℕ) → drops (fs ++ gs) addr ≡ (drops fs addr || drops gs addr)
drops-append [] gs addr = refl
drops-append (writeback a ∷ fs) gs addr = drops-append fs gs addr
drops-append (invalidate a ∷ fs) gs addr = ground (arith, drops-append fs gs addr)
drops-append (wbinvd ∷ fs) gs addr = refl

pub drops-invalidate : (ps : List ℕ) (addr : ℕ) → drops (map invalidate ps) addr ≡ contains ps addr
drops-invalidate [] addr = refl
drops-invalidate (p ∷ ps) addr = ap (λ b. p == addr || b) (drops-invalidate ps addr)

pub contains-each :
    (lines : ℕ → List ℕ) (ps : List ℕ) (p addr : ℕ)
    → contains ps p ≡ true
    → contains (lines p) addr ≡ true
    → contains (each lines ps) addr ≡ true
contains-each lines [] p addr h c = h
contains-each lines (q ∷ ps) p addr h c =
    rw (contains-append (lines q) (each lines ps) addr) (elim (ℕ_discrete q p) [
      | yes e ↦ rw (e, c)
      | no n ↦ ground (arith, contains-each lines ps p addr (ground (arith, h)))
    ])

-- The address of a line that a mask-based group covers, among those that the iteration visits.
mask_addr :
    (entry cl : ℕ)
    → is_length_based entry ≡ false
    → covers entry cl ≡ true
    → (get_ptr entry + shl64 (cl % group_size) virtual_cl_shift) % u64_mod ≡ cl * cache_line_size
unfolding covers get_index get_ptr
mask_addr entry cl m c = ground (arith, c)

mask_bit :
    (entry cl : ℕ)
    → is_length_based entry ≡ false
    → covers entry cl ≡ true
    → (test_bit (get_mask16 entry) (cl % group_size) == 1) ≡ true
unfolding covers
mask_bit entry cl m c = ground (arith, c)

line_itself :
    (cl : ℕ)
    → cl * cache_line_size < u64_mod
    → contains (lines_at 1 (cl * cache_line_size)) (cl * cache_line_size) ≡ true
line_itself cl h = ground arith

get_mask16-bound : (entry : ℕ) → entry < u64_mod → get_mask16 entry < u64_mod
unfolding get_mask16
get_mask16-bound entry w = omega arith

-- The lines of a mask-based group are those that it covers.
pub mask_lines_lem :
    (entry : ℕ)
    → entry < u64_mod
    → is_length_based entry ≡ false
    → (ps : List ℕ) × (mask_lines entry ≡ some ps)
      × ((cl : ℕ) → covers entry cl ≡ true → contains ps (cl * cache_line_size) ≡ true)
unfolding mask_lines get_mask16
mask_lines_lem entry w m =
    let small : get_mask16 entry < u64_mod = get_mask16-bound entry w in
    let visited : List ℕ =
      map (λ p. (get_ptr entry + shl64 p virtual_cl_shift) % u64_mod)
        (set_bits (get_mask16 entry)) in
    (
      each (lines_at 1) visited,
      rw (mask_lines, mask_range_lem (get_ptr entry) (get_mask16 entry) small) refl,
      λ cl c.
          let addr = mask_addr entry cl m c in
          contains-each (lines_at 1) visited (cl * cache_line_size) (cl * cache_line_size)
            (subst (λ a. contains visited a ≡ true) addr
              (contains-map (λ p. (get_ptr entry + shl64 p virtual_cl_shift) % u64_mod)
                (set_bits (get_mask16 entry)) (cl % group_size)
                (contains-set_bits (get_mask16 entry) (cl % group_size) small
                  ∙ mask_bit entry cl m c)))
            (line_itself cl (omega (arith, addr))),
    )

-- The lines of a length-based group.
pub length_lines_at :
    (n ptr cl : ℕ)
    → ptr % cache_line_size ≡ 0
    → ptr ≤ cl * cache_line_size
    → cl * cache_line_size < ptr + n * cache_line_size
    → cl * cache_line_size < u64_mod
    → contains (lines_at n ptr) (cl * cache_line_size) ≡ true
length_lines_at n ptr cl a l u w =
    let e : (ptr + (cl - ptr / cache_line_size) * cache_line_size) % u64_mod
        ≡ cl * cache_line_size =
      omega arith in
    subst (λ a. contains (lines_at n ptr) a ≡ true) e
      (contains-values (λ i. (ptr + i * cache_line_size) % u64_mod) 0 n (cl - ptr / cache_line_size)
        (omega arith) (omega arith))

pub length_lines :
    (entry cl : ℕ)
    → is_length_based entry ≡ true
    → covers entry cl ≡ true
    → contains
        (lines_at (get_length entry % u32_mod * group_size * cl_expand_factor) (get_ptr entry))
        (cl * cache_line_size)
      ≡ true
unfolding covers get_index get_ptr get_length
length_lines entry cl m c =
    length_lines_at (get_length entry % u32_mod * group_size * cl_expand_factor) (get_ptr entry) cl
      (omega arith) (ground (arith, c)) (ground (arith, c)) (ground (arith, c))

-- One more entry: the lines that it invalidates, then those of the rest.
drops_cons :
    (e : ℕ) (log ps : List ℕ) (fs : List Flush)
    → ((cl : ℕ) → covers e cl ≡ true → contains ps (cl * cache_line_size) ≡ true)
    → ((entry cl : ℕ)
        → contains log entry ≡ true
        → covers entry cl ≡ true
        → drops fs (cl * cache_line_size) ≡ true)
    → (entry cl : ℕ) → contains (e ∷ log) entry ≡ true
    → covers entry cl ≡ true
    → drops (map invalidate ps ++ fs) (cl * cache_line_size) ≡ true
drops_cons e log ps fs here rest entry cl h c =
    rw
      (
        drops-append (map invalidate ps) fs (cl * cache_line_size),
        drops-invalidate ps (cl * cache_line_size),
      )
      (elim (ℕ_discrete e entry) [
        | yes same ↦ rw (here cl (subst (λ v. covers v cl ≡ true) (sym same) c)) refl
        | no n ↦ ground (arith, rest entry cl (ground (arith, h)) c)
      ])

-- `process_log` on a log of valid entries comes to its end, and for each entry and each line that
-- the entry covers, it drops the node's copy of the line.
pub process_log-drops :
    (log : List ℕ)
    → ((entry : ℕ) → contains log entry ≡ true → IsEntry entry)
    → (fs : List Flush) × (process_log log ≡ some fs)
      × ((entry cl : ℕ)
          → contains log entry ≡ true
          → covers entry cl ≡ true
          → drops fs (cl * cache_line_size) ≡ true)
unfolding process_log
process_log-drops [] valid = ([], refl, λ entry cl h c. absurd (cc h))
process_log-drops (e ∷ log) valid =
    let (fs, eq, rest) = process_log-drops log (λ entry h. valid entry (ground (arith, h))) in
    elim (Bool-cases (is_length_based e)) [
      | inl m ↦ elim (Bool-cases (leb wbinvd_threshold (get_length e % u32_mod))) [
        | inl long ↦ (wbinvd ∷ [], rw (m, long) refl, λ entry cl h c. refl)
        | inr short ↦
            let ps : List ℕ =
              lines_at (get_length e % u32_mod * group_size * cl_expand_factor) (get_ptr e) in
            (
              map invalidate ps ++ fs,
              rw (m, short, eq) refl,
              drops_cons e log ps fs (λ cl. length_lines e cl m) rest,
            )
      ]
      | inr m ↦
          let (ps, eq', here) = mask_lines_lem e (valid e (ground arith)).word m in
          (map invalidate ps ++ fs, rw (m, eq', eq) refl, drops_cons e log ps fs here rest)
    ]
