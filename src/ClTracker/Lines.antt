-- ===== src/ClTracker/Lines.antt =====
-- What the tracker says of a line after it is marked, cleared or invalidated.
use racoherence.Prelude.{
  ℕ, ◌/◌, ◌%◌, ◌^◌, ◌≡◌, refl, ap, ◌∙◌, sym, Bool, true, false, not, ◌&&◌, ◌||◌, Option, none, some,
  List, [], ◌∷◌, ◌==◌, arith, if◌then◌else◌, ℕ_discrete, Bool-cases, inl, inr, ==_iff,
}
use racoherence.Config.{virtual_cl_shift}
use racoherence.CacheInfo.{Flush, invalidate}
use racoherence.ClTracker.{
  Tracker, split_va, find_leaf, put_leaf, get_or_create_leaf, mark_dirty, is_dirty,
  invalidate_if_dirty, leaf_is_dirty, leaf_mark_dirty, leaf_clear_dirty, or_new_leaf, or_new_l2,
  TableL2,
}
use racoherence.ClTracker.Bits.{leaf_mark_dirty_lem, leaf_clear_dirty_lem, leaf_empty}

-- The addresses are in one line, among the 39 bits that the tracker looks at.
abbrev pub same_line : ℕ → ℕ → Bool
same_line va wa = va / 2 ^ virtual_cl_shift % 2 ^ 33 == wa / 2 ^ virtual_cl_shift % 2 ^ 33

or_new_l2_lem :
    (o : Option TableL2) (j : ℕ) → or_new_l2 o j ≡ elim o [ none ↦ none | some l2 ↦ l2 j ]
or_new_l2_lem none j = refl
or_new_l2_lem (some l2) j = refl

find_leaf-put_leaf :
    (t : Tracker) (i j m k l : ℕ)
    → find_leaf (put_leaf t i j m) k l ≡ (if i == k && j == l then some m else find_leaf t k l)
unfolding find_leaf put_leaf
find_leaf-put_leaf t i j m k l = elim (ℕ_discrete i k) [
  | yes e ↦
      let here : (i == k) ≡ true = (==_iff i k).1 e in
      rw (find_leaf, put_leaf, here)
        (ap (λ o. if j == l then some m else o)
          (or_new_l2_lem (t i) l ∙ ap (λ q. find_leaf t q l) e))
  | no n ↦
      let differ : (i == k) ≡ false = ground (arith, n) in rw (find_leaf, put_leaf, differ) refl
]

-- What `is_dirty` says of a leaf that may be null.
unfoldable pub leaf_says : Option ℕ → ℕ → Bool
leaf_says none k = false
leaf_says (some m) k = leaf_is_dirty m k

pub leaf_says-new : (o : Option ℕ) (k : ℕ) → leaf_is_dirty (or_new_leaf o) k ≡ leaf_says o k
unfolding leaf_says
leaf_says-new none k = leaf_empty k
leaf_says-new (some m) k = refl

is_dirty-says :
    (t : Tracker) (va : ℕ)
    → is_dirty t va ≡ leaf_says (find_leaf t (split_va va).l1 (split_va va).l2) (split_va va).line
unfolding is_dirty leaf_says
is_dirty-says t va = go (find_leaf t (split_va va).l1 (split_va va).l2)
  where
    go :
        (o : Option ℕ)
        → elim o [ none ↦ false | some dirty ↦ leaf_is_dirty dirty (split_va va).line ]
          ≡ leaf_says o (split_va va).line
    go none = refl
    go (some m) = refl

leaf_says-if :
    (b : Bool) (m : ℕ) (o : Option ℕ) (k : ℕ)
    → leaf_says (if b then some m else o) k ≡ (if b then leaf_is_dirty m k else leaf_says o k)
unfolding leaf_says
leaf_says-if true m o k = refl
leaf_says-if false m o k = refl

pub same_leaf : ℕ → ℕ → Bool
same_leaf va wa = (split_va va).l1 == (split_va wa).l1 && (split_va va).l2 == (split_va wa).l2

pub same_leaf_at : (va wa : ℕ) → va / 2 ^ 12 ≡ wa / 2 ^ 12 → same_leaf va wa ≡ true
unfolding same_leaf
same_leaf_at va wa e = ground (arith, e)

pub other_leaf :
    (va wa : ℕ)
    → va / 2 ^ 39 ≡ wa / 2 ^ 39
    → (va / 2 ^ 12 == wa / 2 ^ 12) ≡ false
    → same_leaf va wa ≡ false
unfolding same_leaf
other_leaf va wa b n = ground (arith, b, n)

-- A store to the leaf of an address changes what is said of that leaf's lines only.
pub is_dirty-put_leaf :
    (t : Tracker) (va wa m : ℕ)
    → is_dirty (put_leaf t (split_va va).l1 (split_va va).l2 m) wa
      ≡ (if same_leaf va wa then leaf_is_dirty m (split_va wa).line else is_dirty t wa)
unfolding leaf_says same_leaf
is_dirty-put_leaf t va wa m =
    is_dirty-says (put_leaf t (split_va va).l1 (split_va va).l2 m) wa
    ∙ ap (λ o. leaf_says o (split_va wa).line)
        (find_leaf-put_leaf t (split_va va).l1 (split_va va).l2 m (split_va wa).l1 (split_va wa).l2)
    ∙ leaf_says-if ((split_va va).l1 == (split_va wa).l1 && (split_va va).l2 == (split_va wa).l2) m
        (find_leaf t (split_va wa).l1 (split_va wa).l2) (split_va wa).line
    ∙ ap
        (λ b.
          if (split_va va).l1 == (split_va wa).l1 && (split_va va).l2 == (split_va wa).l2
          then leaf_is_dirty m (split_va wa).line
          else b)
        (sym (is_dirty-says t wa))

same_line_lem :
    (va wa : ℕ) → same_line va wa ≡ (same_leaf va wa && (split_va va).line == (split_va wa).line)
unfolding same_leaf
same_line_lem va wa = ground arith

same_line_in :
    (va wa : ℕ) (b : Bool)
    → same_leaf va wa ≡ b
    → same_line va wa ≡ (b && (split_va va).line == (split_va wa).line)
same_line_in va wa b e =
    same_line_lem va wa ∙ ap (λ c. c && (split_va va).line == (split_va wa).line) e

-- In the same leaf, the tracker says of an address what the leaf says.
pub same_leaf-says :
    (t : Tracker) (va wa : ℕ)
    → same_leaf va wa ≡ true
    → leaf_says (find_leaf t (split_va va).l1 (split_va va).l2) (split_va wa).line ≡ is_dirty t wa
unfolding same_leaf
same_leaf-says t va wa h =
    let one : (split_va va).l1 ≡ (split_va wa).l1 = ground (arith, h) in
    let two : (split_va va).l2 ≡ (split_va wa).l2 = ground (arith, h) in
    ap (λ i. leaf_says (find_leaf t i (split_va va).l2) (split_va wa).line) one
    ∙ ap (λ j. leaf_says (find_leaf t (split_va wa).l1 j) (split_va wa).line) two
    ∙ sym (is_dirty-says t wa)

-- CacheLineTracker::mark_dirty, of any tracker and address: afterwards the lines that are dirty are
-- those that were, and the line of the address.
is_dirty-mark_dirty :
    (t : Tracker) (va wa : ℕ) → is_dirty (mark_dirty t va) wa ≡ (same_line va wa || is_dirty t wa)
unfolding mark_dirty get_or_create_leaf
is_dirty-mark_dirty t va wa =
    let d = or_new_leaf (find_leaf t (split_va va).l1 (split_va va).l2) in
    let first = is_dirty-put_leaf t va wa d in
    let second =
      is_dirty-put_leaf (put_leaf t (split_va va).l1 (split_va va).l2 d) va wa
        (leaf_mark_dirty d (split_va va).line) in
    elim (Bool-cases (same_leaf va wa)) [
      | inl e ↦
          rw e at second
          ∙ leaf_mark_dirty_lem d (split_va va).line (split_va wa).line
          ∙ ap (λ b. (split_va va).line == (split_va wa).line || b)
              (leaf_says-new (find_leaf t (split_va va).l1 (split_va va).l2) (split_va wa).line
                ∙ same_leaf-says t va wa e)
          ∙ ap (λ b. b || is_dirty t wa) (sym (same_line_in va wa true e))
      | inr e ↦
          rw e at second
          ∙ rw e at first
          ∙ ap (λ b. b || is_dirty t wa) (sym (same_line_in va wa false e))
    ]

-- Clearing one line of the leaf of an address.
is_dirty-cleared :
    (t : Tracker) (va wa m : ℕ)
    → find_leaf t (split_va va).l1 (split_va va).l2 ≡ some m
    → is_dirty
        (put_leaf t (split_va va).l1 (split_va va).l2 (leaf_clear_dirty m (split_va va).line))
        wa
      ≡ (not (same_line va wa) && is_dirty t wa)
unfolding leaf_says
is_dirty-cleared t va wa m f =
    let stored = is_dirty-put_leaf t va wa (leaf_clear_dirty m (split_va va).line) in
    elim (Bool-cases (same_leaf va wa)) [
      | inl e ↦
          rw e at stored
          ∙ leaf_clear_dirty_lem m (split_va va).line (split_va wa).line (omega arith) (omega arith)
          ∙ ap (λ b. not ((split_va va).line == (split_va wa).line) && b)
              (ap (λ o. leaf_says o (split_va wa).line) (sym f) ∙ same_leaf-says t va wa e)
          ∙ ap (λ b. not b && is_dirty t wa) (sym (same_line_in va wa true e))
      | inr e ↦ rw e at stored ∙ ap (λ b. not b && is_dirty t wa) (sym (same_line_in va wa false e))
    ]

-- What `invalidate_if_dirty` gives for an address.
pub record Invalidated (t : Tracker) (va : ℕ) (r : Bool × List Flush × Tracker) : Type 0 where
  pub was_dirty : r.0 ≡ is_dirty t va
  pub issued : r.1 ≡ (if is_dirty t va then invalidate va ∷ [] else [])
  pub left : (wa : ℕ) → is_dirty r.2 wa ≡ (not (same_line va wa) && is_dirty t wa)

one_line : (t : Tracker) (va wa : ℕ) → same_line va wa ≡ true → is_dirty t wa ≡ is_dirty t va
one_line t va wa h =
    let one : (split_va va).l1 ≡ (split_va wa).l1 = ground (arith, h) in
    let two : (split_va va).l2 ≡ (split_va wa).l2 = ground (arith, h) in
    let three : (split_va va).line ≡ (split_va wa).line = ground (arith, h) in
    sym (
      is_dirty-says t va
      ∙ ap (λ i. leaf_says (find_leaf t i (split_va va).l2) (split_va va).line) one
      ∙ ap (λ j. leaf_says (find_leaf t (split_va wa).l1 j) (split_va va).line) two
      ∙ ap (λ k. leaf_says (find_leaf t (split_va wa).l1 (split_va wa).l2) k) three
      ∙ sym (is_dirty-says t wa))

-- Nothing to clear: the line was not dirty.
not_dirty : (t : Tracker) (va : ℕ) → is_dirty t va ≡ false → Invalidated t va (false, [], t)
not_dirty t va e = record {
  was_dirty = sym e;
  issued = rw e refl;
  left = λ wa. elim (Bool-cases (same_line va wa)) [
    | inl s ↦ rw (s, one_line t va wa s, e) refl
    | inr s ↦ rw s refl
  ];
}

found :
    (t : Tracker) (va : ℕ) (o : Option ℕ)
    → find_leaf t (split_va va).l1 (split_va va).l2 ≡ o
    → is_dirty t va ≡ leaf_says o (split_va va).line
found t va o f = is_dirty-says t va ∙ ap (λ o. leaf_says o (split_va va).line) f

-- CacheLineTracker::invalidate_if_dirty, of any tracker and address: it returns whether the line was
-- dirty, issues one invalidation of the address exactly then, and afterwards the lines that are dirty
-- are those that were, without the line of the address.
pub invalidate_if_dirty_lem : (t : Tracker) (va : ℕ) → Invalidated t va (invalidate_if_dirty t va)
unfolding invalidate_if_dirty leaf_says
invalidate_if_dirty_lem t va = go (find_leaf t (split_va va).l1 (split_va va).l2) refl
  where
    go :
        (o : Option ℕ)
        → find_leaf t (split_va va).l1 (split_va va).l2 ≡ o
        → Invalidated t va (elim o [
          | none ↦ (false, [], t)
          | some dirty ↦
              if leaf_is_dirty dirty (split_va va).line
              then (
                true,
                invalidate va ∷ [],
                put_leaf t
                    (split_va va).l1
                    (split_va va).l2
                    (leaf_clear_dirty dirty (split_va va).line),
              )
              else (false, [], t)
        ])
    go none f = not_dirty t va (found t va none f)
    go (some m) f = elim (Bool-cases (leaf_is_dirty m (split_va va).line)) [
      | inl e ↦ rw e (record {
        was_dirty = sym (found t va (some m) f ∙ e);
        issued = rw (found t va (some m) f ∙ e) refl;
        left = λ wa. is_dirty-cleared t va wa m f;
      })
      | inr e ↦ rw e (not_dirty t va (found t va (some m) f ∙ e))
    ]
