-- ===== src/Figtree/Iterate/Find.antt =====
-- The value that the figs of a range have for a byte is the one that the tree gives it.
use gdpfs.Base.{
  ℕ, ◌+◌, ◌-◌, ◌<◌, ◌≤◌, ◌≡◌, refl, ap, ◌∙◌, sym, inl, inr, Bool, true, false, none, List, [], ◌++◌,
  arith, ltb, max, min, if◌then◌else◌,
}
use native.Mathlib.Decide.{dec_lt}
use gdpfs.Interval
use gdpfs.Figtree.Heap.{Entry}
use gdpfs.Figtree.Tree.{Tree, leaf, node, Forest, last, more, find, find_in}
use gdpfs.Figtree.Iterate.Figs.{Ordered, OrderedFrom, clip, figs, figs_from}
use gdpfs.Figtree.Iterate.Values.{
  value_in, figs-AllWithin, figs_from-AllWithin, value_in-outside, value_in-append_behind,
  value_in-append_before, value_in-clip,
}

-- Where a byte is with respect to an entry.
data Side (e : Entry) (x : ℕ) : Type 0 where
  in_entry :
      Interval.contains_val e.irange x ≡ true → e.irange.left ≤ x → x ≤ e.irange.right → Side e x
  before_entry :
      Interval.contains_val e.irange x ≡ false
      → ltb x e.irange.left ≡ true
      → x < e.irange.left
      → Side e x
  behind_entry :
      Interval.contains_val e.irange x ≡ false
      → ltb x e.irange.left ≡ false
      → e.irange.right < x
      → Side e x

Side-cases : (e : Entry) (x : ℕ) → e.irange.left ≤ e.irange.right → Side e x
unfolding Interval.contains_val
Side-cases e x h = elim (dec_lt x e.irange.left) [
  | yes b ↦ before_entry (ground arith) (ground arith) b
  | no nb ↦ elim (dec_lt e.irange.right x) [
    | yes p ↦ behind_entry (ground arith) (ground arith) p
    | no np ↦ in_entry (ground arith) (omega arith) (omega arith)
  ]
]

chosen : (t : Bool) (gs : List Entry) → t ≡ true → (if t then gs else []) ≡ gs
chosen true gs e = refl
chosen false gs e = absurd cc

if_none :
    (t : Bool) (gs : List Entry) (x : ℕ)
    → (t ≡ true → value_in gs x ≡ none)
    → value_in (if t then gs else []) x ≡ none
unfolding value_in
if_none true gs x h = h refl
if_none false gs x h = refl

-- The figs between the entries of a node.
abbrev gap_figs : Tree → Entry → (lo hi : ℕ) → List Entry
gap_figs t e lo hi = if ltb lo e.irange.left then figs t lo (min hi (e.irange.left - 1)) else []

abbrev later_figs : Forest → Entry → (lo hi : ℕ) → List Entry
later_figs f e lo hi =
    if ltb e.irange.right hi then figs_from f (max lo (e.irange.right + 1)) hi else []

gap_figs-missed :
    (t : Tree) (e : Entry) (lo hi x : ℕ)
    → Ordered t
    → lo ≤ hi
    → e.irange.left ≤ x
    → value_in (gap_figs t e lo hi) x ≡ none
gap_figs-missed t e lo hi x o h k =
    if_none (ltb lo e.irange.left) (figs t lo (min hi (e.irange.left - 1))) x (λ lt.
      value_in-outside lo (min hi (e.irange.left - 1)) x _
        (figs-AllWithin t lo (min hi (e.irange.left - 1)) o (gap lt)) (inr (past lt)))
  where
    gap : ltb lo e.irange.left ≡ true → lo ≤ min hi (e.irange.left - 1)
    gap lt = ground arith

    past : ltb lo e.irange.left ≡ true → min hi (e.irange.left - 1) < x
    past lt = ground arith

later_figs-missed :
    (b : ℕ) (f : Forest) (e : Entry) (lo hi x : ℕ)
    → OrderedFrom b f
    → lo ≤ hi
    → x ≤ e.irange.right
    → value_in (later_figs f e lo hi) x ≡ none
later_figs-missed b f e lo hi x o h k =
    if_none (ltb e.irange.right hi) (figs_from f (max lo (e.irange.right + 1)) hi) x (λ lt.
      value_in-outside (max lo (e.irange.right + 1)) hi x _
        (figs_from-AllWithin b f (max lo (e.irange.right + 1)) hi o (beyond lt))
        (inl (omega arith)))
  where
    beyond : ltb e.irange.right hi ≡ true → max lo (e.irange.right + 1) ≤ hi
    beyond lt = ground arith

mutual
  unfolding figs find Ordered value_in

  -- In a tree whose nodes have valid, disjoint entries in ascending order, the figs of a range give
  -- each of its bytes the value that the tree gives it.
  pub figs-find :
      (t : Tree) (lo hi x : ℕ) → Ordered t → lo ≤ x → x ≤ hi → value_in (figs t lo hi) x ≡ find t x
  figs-find leaf lo hi x o h k = refl
  figs-find (node a j d f) lo hi x o h k = figs_from-find_in 0 f lo hi x o h k

  figs_from-find_in :
      (b : ℕ) (f : Forest) (lo hi x : ℕ)
      → OrderedFrom b f
      → lo ≤ x
      → x ≤ hi
      → value_in (figs_from f lo hi) x ≡ find_in f x
  figs_from-find_in b (last s t) lo hi x o h k = figs-find t lo hi x o h k
  figs_from-find_in b (more s t e f) lo hi x (ot, le, v, of) h k =
      elim (Side-cases e x v.in_order) [
        | in_entry c l r ↦
            value_in-append_behind (gap_figs t e lo hi) (clip e lo hi ++ later_figs f e lo hi) x
              (gap_figs-missed t e lo hi x ot (omega arith) l)
            ∙ value_in-append_before (clip e lo hi) (later_figs f e lo hi) x
                (later_figs-missed (e.irange.right + 1) f e lo hi x of (omega arith) r)
            ∙ value_in-clip e lo hi x h k
            ∙ rw c refl
        | before_entry c l lt ↦
            value_in-append_before (gap_figs t e lo hi) (clip e lo hi ++ later_figs f e lo hi) x (
              value_in-append_behind (clip e lo hi) (later_figs f e lo hi) x
                (value_in-clip e lo hi x h k ∙ rw c refl)
              ∙ later_figs-missed (e.irange.right + 1) f e lo hi x of (omega arith)
                  (omega (arith, v.in_order)))
            ∙ ap (λ gs. value_in gs x)
                (chosen (ltb lo e.irange.left) (figs t lo (min hi (e.irange.left - 1)))
                  (test lo e.irange.left (omega arith)))
            ∙ figs-find t lo (min hi (e.irange.left - 1)) x ot h (omega arith)
            ∙ sym (rw (c, l) refl)
        | behind_entry c l lt ↦
            value_in-append_behind (gap_figs t e lo hi) (clip e lo hi ++ later_figs f e lo hi) x
              (gap_figs-missed t e lo hi x ot (omega arith) (omega (arith, v.in_order)))
            ∙ value_in-append_behind (clip e lo hi) (later_figs f e lo hi) x
                (value_in-clip e lo hi x h k ∙ rw c refl)
            ∙ ap (λ gs. value_in gs x)
                (chosen (ltb e.irange.right hi) (figs_from f (max lo (e.irange.right + 1)) hi)
                  (test e.irange.right hi (omega arith)))
            ∙ figs_from-find_in (e.irange.right + 1) f (max lo (e.irange.right + 1)) hi x of
                (omega arith) k
            ∙ sym (rw (c, l) refl)
      ]
    where
      test : (m n : ℕ) → m < n → ltb m n ≡ true
      test m n lt = ground arith
