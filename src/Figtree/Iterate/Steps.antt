-- ===== src/Figtree/Iterate/Steps.antt =====
-- One step of the iterator of src/figtree: down behind an entry, and up to the next one.
use mathlib.Core.Path.{subst}
use mathlib.Core.List.{append_assoc}
use native.Mathlib.Decide.{dec_le}
use gdpfs.Base.{
  ℕ, ◌+◌, ◌-◌, ◌<◌, ◌≤◌, ◌≡◌, refl, ap, ◌∙◌, sym, true, false, List, [], ◌∷◌, ◌++◌, arith, ltb, leb,
  max, min, if◌then◌else◌, length,
}
use gdpfs.Interval.{byte_index_max}
use gdpfs.Figtree.Heap.{Entry, Subtree, Heap, Outcome, Images}
use gdpfs.Figtree.Tree.{Tree, Forest, last, more, root, entries, image, Holds, HasLevels}
use gdpfs.Figtree.Insert.{next_index, prev_index}
use gdpfs.Figtree.Iterate.{Frame, drill, enter_gap, go_down}
use gdpfs.Figtree.Iterate.Figs.{Ordered, OrderedFrom, figs, figs_from, figs_after}
use gdpfs.Figtree.Iterate.Zipper.{plug, first_entry}
use gdpfs.Figtree.Iterate.Frames.{
  On, Suspended, at_end, at_entry, Descended, unmark, mark, figs_from-last, figs_from-more,
}
use gdpfs.Figtree.Iterate.Moved.{figs_after-later, later_figs, moved_on, next_entry, right_end}
use gdpfs.Figtree.Iterate.Descend.{gap_figs_taken, subtree_get-On, drill-Goes}

module _ (log : Images) (h : Heap) where
  for_figs :
      {gs gs' : List Entry} {r : Outcome (List Frame)}
      → gs ≡ gs'
      → Descended h gs r
      → Descended h gs' r
  for_figs same d = record {
    states = d.states;
    given = d.given;
    suspended = subst (Suspended h d.states) same d.suspended;
  }

  -- The gap behind an entry that ends in the range.
  enter_gap-Descended :
      (e : Entry) (s : Frame) (f : Forest) (lo hi : ℕ) (below : List Frame) (gs : List Entry)
      → (on : On h s f lo hi) → OrderedFrom (e.irange.right + 1) f
      → lo ≤ e.irange.right
      → e.irange.right < hi
      → Suspended h below gs
      → Descended h
          (figs_from f (e.irange.right + 1) hi ++ gs)
          (enter_gap log on.height e (first_entry f) s below h)
  unfolding enter_gap Holds HasLevels Ordered figs_after
  enter_gap-Descended e s (last p t) lo hi below gs on o starts ends susp =
      let next : next_index e.irange.right ≡ e.irange.right + 1 = omega (arith, on.bounded) in
      let low : max lo (next_index e.irange.right) ≡ e.irange.right + 1 = omega arith in
      let high : min hi byte_index_max ≡ hi = omega (arith, on.bounded) in
      let d =
        drill-Goes log h (on.height + 2) on.height (omega arith) lo hi (next_index e.irange.right)
          byte_index_max t (s ∷ below) gs on.held.1 on.levels on.ordered (omega (arith, low, high))
          on.bounded (at_entry s (last p t) lo hi below gs on susp) in
      record {
        states = d.states;
        given =
            rw
              (
                gap_open next (omega (arith, on.bounded)),
                subtree_get-On log h s (last p t) lo hi t on on.held.0,
              )
              (ap
                  (λ v.
                    drill log (on.height + 2) (root t) (next_index e.irange.right) byte_index_max v
                      (s ∷ below) h)
                  on.range
                ∙ d.given);
        suspended =
            subst (Suspended h d.states)
              (ap (λ ks. ks ++ gs)
                ((λ i. figs t (low i) (high i)) ∙ sym (figs_from-last p t (e.irange.right + 1) hi)))
              d.suspended;
      }
    where
      gap_open :
          next_index e.irange.right ≡ e.irange.right + 1
          → e.irange.right < byte_index_max
          → leb (next_index e.irange.right) byte_index_max ≡ true
      gap_open n l = ground arith
  enter_gap-Descended e s (more p t e' f) lo hi below gs on o starts ends susp =
      let next : next_index e.irange.right ≡ e.irange.right + 1 = omega (arith, on.bounded) in
      let prev : prev_index e'.irange.left ≡ e'.irange.left - 1 =
        omega (arith, o.1, o.2.in_order, o.2.in_range) in
      let later : figs_after (more p t e' f) (e.irange.right + 1) hi
          ≡ figs_after (more p t e' f) lo hi =
        figs_after-later (e.irange.right + 1) (more p t e' f) lo (e.irange.right + 1) hi o
          (omega arith) (omega arith) in
      elim (dec_le e'.irange.left (e.irange.right + 1)) [
        | yes adjacent ↦ record {
          states = s ∷ below;
          given = rw (shut next prev adjacent) refl;
          suspended =
              subst (Suspended h (s ∷ below))
                (ap (λ ks. ks ++ gs)
                  (sym (
                    figs_from-more p t e' f (e.irange.right + 1) hi
                    ∙ ap (λ ks. ks ++ figs_after (more p t e' f) (e.irange.right + 1) hi)
                        (unmark (ltb (e.irange.right + 1) e'.irange.left) _ _ (no_gap adjacent))
                    ∙ later)))
                (at_entry s (more p t e' f) lo hi below gs on susp);
        }
        | no apart ↦
            let low : max lo (next_index e.irange.right) ≡ e.irange.right + 1 = omega arith in
            let high : min hi (prev_index e'.irange.left) ≡ min hi (e'.irange.left - 1) =
              omega (arith, prev) in
            let d =
              drill-Goes log h (on.height + 2) on.height (omega arith) lo hi
                (next_index e.irange.right) (prev_index e'.irange.left) t (s ∷ below)
                (figs_after (more p t e' f) lo hi ++ gs) on.held.1 on.levels.0 on.ordered.0
                (omega (arith, low, high)) on.bounded
                (at_entry s (more p t e' f) lo hi below gs on susp) in
            record {
              states = d.states;
              given =
                  rw
                    (
                      open_gap next prev apart,
                      subtree_get-On log h s (more p t e' f) lo hi t on on.held.0,
                    )
                    (ap
                        (λ v.
                          drill log (on.height + 2) (root t) (next_index e.irange.right)
                            (prev_index e'.irange.left) v (s ∷ below) h)
                        on.range
                      ∙ d.given);
              suspended =
                  subst (Suspended h d.states)
                    (ap (λ ks. ks ++ (figs_after (more p t e' f) lo hi ++ gs))
                        ((λ i. figs t (low i) (high i))
                          ∙ sym (gap_figs_taken log h t e' (e.irange.right + 1) hi (omega arith)))
                      ∙ sym (
                          append_assoc
                            (if ltb (e.irange.right + 1) e'.irange.left
                              then figs t (e.irange.right + 1) (min hi (e'.irange.left - 1))
                              else [])
                            (figs_after (more p t e' f) lo hi) gs)
                      ∙ ap (λ ks. ks ++ gs)
                          (ap
                              (λ ks.
                                (if ltb (e.irange.right + 1) e'.irange.left
                                  then figs t (e.irange.right + 1) (min hi (e'.irange.left - 1))
                                  else [])
                                ++ ks)
                              (sym later)
                            ∙ sym (figs_from-more p t e' f (e.irange.right + 1) hi)))
                    d.suspended;
            }
      ]
    where
      shut :
          next_index e.irange.right ≡ e.irange.right + 1
          → prev_index e'.irange.left ≡ e'.irange.left - 1
          → e'.irange.left ≤ e.irange.right + 1
          → leb (next_index e.irange.right) (prev_index e'.irange.left) ≡ false
      shut n q a = ground (arith, o.1)

      open_gap :
          next_index e.irange.right ≡ e.irange.right + 1
          → prev_index e'.irange.left ≡ e'.irange.left - 1
          → ¬ (e'.irange.left ≤ e.irange.right + 1)
          → leb (next_index e.irange.right) (prev_index e'.irange.left) ≡ true
      open_gap n q a = ground arith

      no_gap : e'.irange.left ≤ e.irange.right + 1 → ltb (e.irange.right + 1) e'.irange.left ≡ false
      no_gap a = ground arith

  pub go_down-Descended :
      (s : Frame) (p : Subtree) (t : Tree) (e : Entry) (f : Forest) (lo hi : ℕ) (below : List Frame)
      (gs : List Entry)
      → (on : On h s (more p t e f) lo hi) → Suspended h below gs
      → Descended h
          (later_figs e f lo hi ++ gs)
          (go_down log (image on.height on.dirty (plug on.pieces (more p t e f))) e s below h)
  unfolding go_down Holds HasLevels Ordered moved_on
  go_down-Descended s p t e f lo hi below gs on susp = elim (dec_le hi e.irange.right) [
    | yes past ↦ record {
      states = record s { pos = length (entries (plug on.pieces (more p t e f))) } ∷ below;
      given = rw (right_end log h s.valid lo hi e.irange.right on.range (is_past past)) refl;
      suspended =
          subst
            (Suspended h
              (record s { pos = length (entries (plug on.pieces (more p t e f))) } ∷ below))
            (ap (λ ks. ks ++ gs) (sym (unmark (ltb e.irange.right hi) _ _ (not_before past))))
            (at_end (record s { pos = length (entries (plug on.pieces (more p t e f))) })
              (image on.height on.dirty (plug on.pieces (more p t e f))) below gs on.not_null
              on.cell refl susp);
    }
    | no inside ↦
        let low : max lo (e.irange.right + 1) ≡ e.irange.right + 1 =
          omega (arith, on.ends_inside e refl) in
        rw
          (
            right_end log h s.valid lo hi e.irange.right on.range (is_inside inside),
            next_entry log h s p t e f lo hi on,
          )
          (for_figs
            (ap (λ ks. ks ++ gs)
              (ap (λ k. figs_from f k hi) (sym low)
                ∙ sym (
                    mark (ltb e.irange.right hi) (figs_from f (max lo (e.irange.right + 1)) hi) []
                      (before inside))))
            (enter_gap-Descended e (record s { pos = s.pos + 1 }) f lo hi below gs
              (moved_on log h s p t e f lo hi on) on.ordered.3 (on.ends_inside e refl) (omega arith)
              susp))
  ]
    where
      is_past : hi ≤ e.irange.right → leb hi e.irange.right ≡ true
      is_past h = ground arith

      not_before : hi ≤ e.irange.right → ltb e.irange.right hi ≡ false
      not_before h = ground arith

      is_inside : ¬ (hi ≤ e.irange.right) → leb hi e.irange.right ≡ false
      is_inside h = ground arith

      before : ¬ (hi ≤ e.irange.right) → ltb e.irange.right hi ≡ true
      before h = ground arith
