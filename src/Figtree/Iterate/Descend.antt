-- ===== src/Figtree/Iterate/Descend.antt =====
-- The descent of `fti_next` of src/figtree/figtree.c, through the subtrees in a gap.
use mathlib.Core.Path.{subst}
use mathlib.Core.List.{append_assoc}
use native.Mathlib.Decide.{dec_le}
use gdpfs.Base.{
  ℕ, zero, suc, ◌-◌, ◌^◌, ◌<◌, ◌≤◌, ◌≡◌, refl, ap, ◌∙◌, sym, Bool, true, false, Option, none, some,
  List, [], ◌∷◌, ◌++◌, arith, ltb, leb, ◌&&◌, max, min, if◌then◌else◌, length, get_elem?,
}
use gdpfs.Interval
use gdpfs.Interval.{Interval, byte_index_max}
use gdpfs.Figtree.Heap.{Ptr, Entry, Heap, Cmd, done, Images, load-done, ne_null}
use gdpfs.Figtree.Node.{subtree_get}
use gdpfs.Figtree.Tree.{
  Tree, leaf, node, Forest, last, more, root, subtrees, image, LeadsTo, Holds, HasLevels,
}
use gdpfs.Figtree.Insert.{gap_left, prev_index}
use gdpfs.Figtree.Iterate.{Frame, begins_inside, drill_at, drill}
use gdpfs.Figtree.Iterate.Figs.{Ordered, figs, figs_from, figs_after}
use gdpfs.Figtree.Iterate.Zipper.{
  plug, first_entry, first_subtree, subtrees-plug, subtree_get-held, skip_left-Skipped,
}
use gdpfs.Figtree.Iterate.Frames.{
  On, Suspended, at_entry, restrict-init, Descended, mark, unmark, figs_from-last, figs_from-more,
}

module _ (log : Images) (h : Heap) where
  -- What a descent does, for trees of a height.
  abbrev pub Goes : ℕ → (Ptr → (l r : ℕ) → Interval → List Frame → Cmd (List Frame)) → Type 0
  Goes n onward =
      (lo hi l r : ℕ) (t : Tree) (below : List Frame) (gs : List Entry)
      → Holds h t
      → HasLevels n t
      → Ordered t
      → max lo l ≤ min hi r
      → hi < 2 ^ 32
      → Suspended h below gs
      → Descended h (figs t (max lo l) (min hi r) ++ gs)
          (onward (root t) l r (Interval.init lo hi) below h)

  pub subtree_get-On :
      (s : Frame) (f : Forest) (lo hi : ℕ) (t : Tree)
      → On h s f lo hi
      → LeadsTo (first_subtree f) t
      → subtree_get log s.node s.pos h ≡ done (root t) h
  subtree_get-On s f lo hi t on leads =
      subtree_get-held log h s.node s.pos (image on.height on.dirty (plug on.pieces f))
        (first_subtree f) t on.not_null on.cell
        (ap (get_elem? (subtrees (plug on.pieces f))) on.at ∙ subtrees-plug on.pieces f) leads

  pub gap_figs_taken :
      (t : Tree) (e : Entry) (lo hi : ℕ)
      → lo < e.irange.left
      → (if ltb lo e.irange.left then figs t lo (min hi (e.irange.left - 1)) else [])
        ≡ figs t lo (min hi (e.irange.left - 1))
  gap_figs_taken t e lo hi lt = mark (ltb lo e.irange.left) _ _ (test lt)
    where
      test : lo < e.irange.left → ltb lo e.irange.left ≡ true
      test lt = ground arith

  drill_at-Descended :
      (onward : Ptr → (l r : ℕ) → Interval → List Frame → Cmd (List Frame)) (s : Frame) (f : Forest)
      (lo hi : ℕ) (before : Option Entry) (below : List Frame) (gs : List Entry)
      → (on : On h s f lo hi) → Goes on.height onward
      → gap_left before ≤ lo
      → Suspended h below gs
      → Descended h
          (figs_from f lo hi ++ gs)
          (drill_at log onward s.node s.valid (s.pos, before, first_entry f) below h)
  unfolding drill_at begins_inside Holds HasLevels Ordered Interval.left_overlaps
      Interval.contains_val figs_after
  drill_at-Descended onward s (last p t) lo hi before below gs on goes left susp =
      let low : max lo (gap_left before) ≡ lo = omega arith in
      let high : min hi byte_index_max ≡ hi = omega (arith, on.bounded) in
      let d =
        goes lo hi (gap_left before) byte_index_max t (s ∷ below) gs on.held.1 on.levels on.ordered
          (omega (arith, on.not_empty, low, high)) on.bounded
          (at_entry s (last p t) lo hi below gs on susp) in
      record {
        states = d.states;
        given = rw (subtree_get-On s (last p t) lo hi t on on.held.0) (
            ap (λ v. onward (root t) (gap_left before) byte_index_max v (s ∷ below) h) on.range
            ∙ d.given);
        suspended =
            subst (Suspended h d.states)
              (ap (λ ks. ks ++ gs)
                ((λ i. figs t (low i) (high i)) ∙ sym (figs_from-last p t lo hi)))
              d.suspended;
      }
  drill_at-Descended onward s (more p t e f) lo hi before below gs on goes left susp =
      elim (dec_le e.irange.left lo) [
        | yes covered ↦ record {
          states = s ∷ below;
          given = rw (begins s.valid on.range (inside covered (on.ends_inside e refl))) refl;
          suspended =
              subst (Suspended h (s ∷ below))
                (ap (λ ks. ks ++ gs)
                  (sym (
                    figs_from-more p t e f lo hi
                    ∙ ap (λ ks. ks ++ figs_after (more p t e f) lo hi)
                        (unmark (ltb lo e.irange.left) _ _ (no_gap covered)))))
                (at_entry s (more p t e f) lo hi below gs on susp);
        }
        | no open_gap ↦
            let right_limit : prev_index e.irange.left ≡ e.irange.left - 1 =
              omega (arith, on.ordered.2.in_order, on.ordered.2.in_range) in
            let low : max lo (gap_left before) ≡ lo = omega arith in
            let high : min hi (prev_index e.irange.left) ≡ min hi (e.irange.left - 1) =
              omega (arith, right_limit) in
            let d =
              goes lo hi (gap_left before) (prev_index e.irange.left) t (s ∷ below)
                (figs_after (more p t e f) lo hi ++ gs) on.held.1 on.levels.0 on.ordered.0
                (omega (arith, on.not_empty, low, high)) on.bounded
                (at_entry s (more p t e f) lo hi below gs on susp) in
            record {
              states = d.states;
              given =
                  rw
                    (
                      begins s.valid on.range (outside open_gap),
                      subtree_get-On s (more p t e f) lo hi t on on.held.0,
                    )
                    (ap
                        (λ v.
                          onward (root t) (gap_left before) (prev_index e.irange.left) v (s ∷ below)
                            h)
                        on.range
                      ∙ d.given);
              suspended =
                  subst (Suspended h d.states)
                    (ap (λ ks. ks ++ (figs_after (more p t e f) lo hi ++ gs))
                        ((λ i. figs t (low i) (high i))
                          ∙ sym (gap_figs_taken t e lo hi (omega arith)))
                      ∙ sym (
                          append_assoc
                            (if ltb lo e.irange.left
                              then figs t lo (min hi (e.irange.left - 1))
                              else [])
                            (figs_after (more p t e f) lo hi) gs)
                      ∙ ap (λ ks. ks ++ gs) (sym (figs_from-more p t e f lo hi)))
                    d.suspended;
            }
      ]
    where
      begins :
          {b : Bool} (v : Interval)
          → v ≡ Interval.init lo hi
          → (leb e.irange.left lo && leb lo e.irange.right) ≡ b
          → (v.nonempty && (leb e.irange.left v.left && leb v.left e.irange.right)) ≡ b
      begins v same e' =
          ap (λ v. v.nonempty && (leb e.irange.left v.left && leb v.left e.irange.right)) same ∙ e'

      inside :
          e.irange.left ≤ lo
          → lo ≤ e.irange.right
          → (leb e.irange.left lo && leb lo e.irange.right) ≡ true
      inside l r = ground arith

      outside : ¬ (e.irange.left ≤ lo) → (leb e.irange.left lo && leb lo e.irange.right) ≡ false
      outside n = ground arith

      no_gap : e.irange.left ≤ lo → ltb lo e.irange.left ≡ false
      no_gap l = ground arith

  pub drill-Goes : (fuel n : ℕ) → n < fuel → Goes n (drill log fuel)
  unfolding drill Holds HasLevels Ordered figs
  drill-Goes zero n lt lo hi l r t below gs held levels ordered fits bounded susp =
      absurd (omega arith)
  drill-Goes (suc fuel) n lt lo hi l r leaf below gs held levels ordered fits bounded susp =
      record { states = below; given = refl; suspended = susp }
  drill-Goes (suc fuel) zero lt lo hi l r (node a k d f) below gs held levels ordered fits bounded
        susp =
      absurd levels
  drill-Goes (suc fuel) (suc n) lt lo hi l r (node a k d f) below gs (ne, cell, held) (same, levels)
        ordered fits bounded susp =
      let v = Interval.init (max lo l) (min hi r) in
      let sk =
        skip_left-Skipped h n (max lo l) (min hi r) 0 [] f none held levels ordered fits
          (omega (arith, bounded)) (omega arith) in
      let s : Frame = record { node = a; pos = length sk.pieces; valid = v } in
      let on : On h s sk.rest (max lo l) (min hi r) = record {
        pieces = sk.pieces;
        height = n;
        dirty = d;
        bound = sk.bound;
        not_null = ne;
        cell = cell ∙ (λ i. some (image (same i) d (sym sk.same_node i)));
        held = sk.held;
        levels = sk.levels;
        ordered = sk.ordered;
        at = refl;
        range = refl;
        not_empty = fits;
        bounded = omega (arith, bounded);
        ends_inside = sk.ends_inside;
      } in
      let d' =
        drill_at-Descended (drill log fuel) s sk.rest (max lo l) (min hi r) sk.before below gs on
          (drill-Goes fuel n (omega arith)) sk.ends_before susp in
      record {
        states = d'.states;
        given =
            rw (ne_null a ne, restrict-init lo hi l r fits, load-done a (image k d f) h ne cell)
              (ap (λ o. drill_at log (drill log fuel) a v o below h) sk.given ∙ d'.given);
        suspended =
            subst (Suspended h d'.states) (ap (λ ks. ks ++ gs) (sym sk.same_figs)) d'.suspended;
      }
