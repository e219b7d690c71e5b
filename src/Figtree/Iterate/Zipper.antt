-- ===== src/Figtree/Iterate/Zipper.antt =====
-- Positions in the nodes of src/figtree, and what the scans of a node find.
use native.Mathlib.Decide.{dec_lt}
use gdpfs.Base.{
  ℕ, ◌+◌, ◌^◌, ◌<◌, ◌≤◌, ◌≡◌, ◌≢◌, refl, ap, ◌∙◌, sym, true, false, Option, none, some, List, [],
  ◌∷◌, ◌++◌, arith, ltb, leb, ◌&&◌, max, length, length-append, get_elem?,
}
use gdpfs.Interval
use gdpfs.Interval.{Interval}
use gdpfs.Figtree.Heap.{null, Entry, Subtree, Node, Heap, done, Images, load-done}
use gdpfs.Figtree.Node.{subtree_get}
use gdpfs.Figtree.Tree.{
  Tree, Forest, last, more, root, entries, subtrees, LeadsTo, Holds, HoldsAll, HasLevels, AllLevels,
}
use gdpfs.Figtree.Insert.{gap_left}
use gdpfs.Figtree.Iterate.{skip_left}
use gdpfs.Figtree.Iterate.Figs.{ValidEntry, Ordered, OrderedFrom, clip, figs, figs_from}

-- What lies left of a position in a node.
abbrev pub Piece : Type 0
Piece = Subtree × Tree × Entry

abbrev pub plug : List Piece → Forest → Forest
plug [] f = f
plug ((s, t, e) ∷ ps) f = more s t e (plug ps f)

abbrev pub first_entry : Forest → Option Entry
first_entry (last s t) = none
first_entry (more s t e f) = some e

abbrev pub first_subtree : Forest → Subtree
first_subtree (last s t) = s
first_subtree (more s t e f) = s

pub plug-snoc :
    (ps : List Piece) (s : Subtree) (t : Tree) (e : Entry) (f : Forest)
    → plug (ps ++ ((s, t, e) ∷ [])) f ≡ plug ps (more s t e f)
plug-snoc [] s t e f = refl
plug-snoc ((s', t', e') ∷ ps) s t e f = ap (more s' t' e') (plug-snoc ps s t e f)

pub entries-plug :
    (ps : List Piece) (f : Forest) → get_elem? (entries (plug ps f)) (length ps) ≡ first_entry f
entries-plug [] (last s t) = refl
entries-plug [] (more s t e f) = refl
entries-plug ((s, t, e) ∷ ps) f = entries-plug ps f

pub subtrees-plug :
    (ps : List Piece) (f : Forest)
    → get_elem? (subtrees (plug ps f)) (length ps) ≡ some (first_subtree f)
subtrees-plug [] (last s t) = refl
subtrees-plug [] (more s t e f) = refl
subtrees-plug ((s, t, e) ∷ ps) f = subtrees-plug ps f

pub length-plug :
    (ps : List Piece) (f : Forest) → length (entries (plug ps f)) ≡ length ps + length (entries f)
length-plug [] f = omega arith
length-plug ((s, t, e) ∷ ps) f = omega (arith, length-plug ps f)

pub length-snoc : (ps : List Piece) (p : Piece) → length (ps ++ (p ∷ [])) ≡ length ps + 1
length-snoc ps p = omega (arith, length-append ps (p ∷ []))

-- A pointer in memory is followed without a change of the heap.
pub subtree_get-held :
    (log : Images) (h : Heap) (a i : ℕ) (n : Node) (s : Subtree) (t : Tree)
    → a ≢ null
    → h.cell a ≡ some n
    → get_elem? n.subtrees i ≡ some s
    → LeadsTo s t
    → subtree_get log a i h ≡ done (root t) h
unfolding subtree_get
subtree_get-held log h a i n s t ne cell at (here, there) =
    rw (load-done a n h ne cell, at, here, there) refl

-- The position that `skip_left` finds from another one, in a range from `lo` to `hi`: the entry there
-- ends in the range or behind it, the one before it ends before the range, and the figs are those from
-- the other position.
pub record Skipped (h : Heap) (n lo hi : ℕ) (ps : List Piece) (f : Forest)
    (result : ℕ × Option Entry × Option Entry) : Type 0 where
  pub pieces : List Piece
  pub rest : Forest
  pub before : Option Entry
  pub bound : ℕ
  pub given : result ≡ (length pieces, before, first_entry rest)
  pub same_node : plug pieces rest ≡ plug ps f
  pub same_figs : figs_from f lo hi ≡ figs_from rest lo hi
  pub held : HoldsAll h rest
  pub levels : AllLevels n rest
  pub ordered : OrderedFrom bound rest
  pub ends_before : gap_left before ≤ lo
  pub ends_inside : (e : Entry) → first_entry rest ≡ some e → lo ≤ e.irange.right

-- The figs from an entry that lies left of a range.
figs_from-skip :
    (s : Subtree) (t : Tree) (e : Entry) (f : Forest) (lo hi : ℕ)
    → ValidEntry e
    → e.irange.right < lo
    → lo ≤ hi
    → figs_from (more s t e f) lo hi ≡ figs_from f lo hi
unfolding figs clip
figs_from-skip s t e f lo hi v lt le = rw (no_gap (v.in_order), no_clip, on, first) refl
  where
    no_gap : e.irange.left ≤ e.irange.right → ltb lo e.irange.left ≡ false
    no_gap h = ground arith

    no_clip : (leb lo e.irange.right && leb e.irange.left hi) ≡ false
    no_clip = ground arith

    on : ltb e.irange.right hi ≡ true
    on = ground arith

    first : max lo (e.irange.right + 1) ≡ lo
    first = omega arith

pub skip_left-Skipped :
    (h : Heap) (n lo hi b : ℕ) (ps : List Piece) (f : Forest) (before : Option Entry)
    → HoldsAll h f
    → AllLevels n f
    → OrderedFrom b f
    → lo ≤ hi
    → hi < 2 ^ 32
    → gap_left before ≤ lo
    → Skipped h n lo hi ps f (skip_left (Interval.init lo hi) (entries f) (length ps) before)
unfolding skip_left Holds HasLevels Ordered Interval.left_of_int Interval.left_of_val
skip_left-Skipped h n lo hi b ps (last s t) before held levels ordered le lt left = record {
  pieces = ps;
  rest = last s t;
  before = before;
  bound = b;
  given = refl;
  same_node = refl;
  same_figs = refl;
  held = held;
  levels = levels;
  ordered = ordered;
  ends_before = left;
  ends_inside = λ e h. absurd cc;
}
skip_left-Skipped h n lo hi b ps (more s t e f) before held levels (ot, bound, v, of) le lt left =
    elim (dec_lt e.irange.right lo) [
      | yes past ↦
          let rest =
            skip_left-Skipped h n lo hi (e.irange.right + 1) (ps ++ ((s, t, e) ∷ [])) f (some e)
              held.2 levels.1 of le lt (omega arith) in
          record {
            pieces = rest.pieces;
            rest = rest.rest;
            before = rest.before;
            bound = rest.bound;
            given = rw (passed v.not_empty past) (
                ap (λ k. skip_left (Interval.init lo hi) (entries f) k (some e))
                  (sym (length-snoc ps (s, t, e)))
                ∙ rest.given);
            same_node = rest.same_node ∙ plug-snoc ps s t e f;
            same_figs = figs_from-skip s t e f lo hi v past le ∙ rest.same_figs;
            held = rest.held;
            levels = rest.levels;
            ordered = rest.ordered;
            ends_before = rest.ends_before;
            ends_inside = rest.ends_inside;
          }
      | no here ↦ record {
        pieces = ps;
        rest = more s t e f;
        before = before;
        bound = b;
        given = rw (stopped here) refl;
        same_node = refl;
        same_figs = refl;
        held = held;
        levels = levels;
        ordered = (ot, bound, v, of);
        ends_before = left;
        ends_inside = λ e' same. omega (arith, ap right_of same);
      }
    ]
  where
    right_of : Option Entry → ℕ
    right_of none = 0
    right_of (some e') = e'.irange.right

    passed :
        e.irange.nonempty ≡ true
        → e.irange.right < lo
        → (e.irange.nonempty && ltb e.irange.right lo) ≡ true
    passed ne past = ground (arith, ne)

    stopped : ¬ (e.irange.right < lo) → (e.irange.nonempty && ltb e.irange.right lo) ≡ false
    stopped here = ground arith
