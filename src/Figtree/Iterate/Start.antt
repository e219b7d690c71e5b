-- ===== src/Figtree/Iterate/Start.antt =====
-- `ft_read` of src/figtree/figtree.c: the way down to the start of the range, and up to the first fig.
use mathlib.Core.Path.{subst}
use mathlib.Core.List.{append_assoc}
use native.Mathlib.Decide.{dec_le}
use gdpfs.Base.{
  ℕ, zero, suc, ◌+◌, ◌-◌, ◌^◌, ◌<◌, ◌≤◌, ◌≡◌, refl, ap, ◌∙◌, sym, true, false, Option, none, some,
  List, [], ◌∷◌, ◌++◌, arith, ltb, leb, max, min, if◌then◌else◌, length,
}
use gdpfs.Interval
use gdpfs.Interval.{Interval, byte_index_max}
use gdpfs.Figtree.Heap.{Ptr, null, Entry, Heap, Outcome, Cmd, done, Images, load-done, ne_null}
use gdpfs.Figtree.Tree.{Tree, leaf, node, Forest, last, more, root, image, Holds, HasLevels}
use gdpfs.Figtree.Insert.{gap_left, prev_index}
use gdpfs.Figtree.Iterate.{Frame, read_at, read_down, read_up, ft_read}
use gdpfs.Figtree.Iterate.Figs.{Ordered, figs, figs_from, figs_after}
use gdpfs.Figtree.Iterate.Zipper.{first_entry, skip_left-Skipped}
use gdpfs.Figtree.Iterate.Frames.{
  On, Suspended, nothing, at_entry, unmark, figs_from-last, figs_from-more,
}
use gdpfs.Figtree.Iterate.Next.{Resumed}
use gdpfs.Figtree.Iterate.Place.{place, find_start-skip_left}
use gdpfs.Figtree.Iterate.Up.{read_up-Resumed, read_up-null, range_is}
use gdpfs.Figtree.Iterate.Descend.{gap_figs_taken, subtree_get-On}

-- The way down ends, and the way up from there comes to the figs.
pub record Started (h : Heap) (gs : List Entry) (result : Outcome (List Frame)) : Type 0 where
  pub states : List Frame
  pub given : result ≡ done states h
  pub resumed : Resumed h gs (read_up states h)

module _ (log : Images) (h : Heap) where
  for_figs :
      {gs gs' : List Entry} {r : Outcome (List Frame)} → gs ≡ gs' → Started h gs r → Started h gs' r
  for_figs same d = record {
    states = d.states;
    given = d.given;
    resumed = subst (λ ks. Resumed h ks (read_up d.states h)) same d.resumed;
  }

  -- What a way down to `x` does, for trees of a height.
  abbrev Starts : ℕ → (x : ℕ) → (Ptr → Interval → List Frame → Cmd (List Frame)) → Type 0
  Starts n x onward =
      (hi : ℕ) (t : Tree) (below : List Frame) (gs : List Entry)
      → Holds h t
      → HasLevels n t
      → Ordered t
      → x ≤ hi
      → hi < 2 ^ 32
      → Suspended h below gs
      → Started h (figs t x hi ++ gs) (onward (root t) (Interval.init x hi) below h)

  read_at-Started :
      (onward : Ptr → Interval → List Frame → Cmd (List Frame)) (s : Frame) (f : Forest) (x hi : ℕ)
      (before : Option Entry) (below : List Frame) (gs : List Entry)
      → (on : On h s f x hi) → Starts on.height x onward
      → gap_left before ≤ x
      → Suspended h below gs
      → Started h
          (figs_from f x hi ++ gs)
          (read_at log onward s.node s.valid (place x (s.pos, before, first_entry f)) below h)
  unfolding read_at place Holds HasLevels Ordered figs_after
  read_at-Started onward s (last p t) x hi before below gs on starts left susp =
      let low : max x (gap_left before) ≡ x = omega arith in
      let high : min hi byte_index_max ≡ hi = omega (arith, on.bounded) in
      let d =
        starts hi t (s ∷ below) gs on.held.1 on.levels on.ordered on.not_empty on.bounded
          (at_entry s (last p t) x hi below gs on susp) in
      record {
        states = d.states;
        given =
            rw
              (
                subtree_get-On log h s (last p t) x hi t on on.held.0,
                range_is x hi (gap_left before) byte_index_max hi s.valid on.range low high
                    on.not_empty,
              )
              d.given;
        resumed =
            subst (λ ks. Resumed h ks (read_up d.states h))
              (ap (λ ks. ks ++ gs) (sym (figs_from-last p t x hi))) d.resumed;
      }
  read_at-Started onward s (more p t e f) x hi before below gs on starts left susp =
      elim (dec_le e.irange.left x) [
        | yes covers ↦ record {
          states = s ∷ below;
          given = rw (at_start covers) refl;
          resumed =
              subst (λ ks. Resumed h ks (read_up (s ∷ below) h))
                (ap (λ ks. ks ++ gs)
                  (sym (
                    figs_from-more p t e f x hi
                    ∙ ap (λ ks. ks ++ figs_after (more p t e f) x hi)
                        (unmark (ltb x e.irange.left) _ _ (no_gap covers)))))
                (read_up-Resumed h (s ∷ below) (figs_after (more p t e f) x hi ++ gs)
                  (at_entry s (more p t e f) x hi below gs on susp));
        }
        | no behind ↦
            let prev : prev_index e.irange.left ≡ e.irange.left - 1 =
              omega (arith, on.ordered.2.in_order, on.ordered.2.in_range) in
            let low : max x (gap_left before) ≡ x = omega arith in
            let high : min hi (prev_index e.irange.left) ≡ min hi (e.irange.left - 1) =
              omega (arith, prev) in
            let d =
              starts (min hi (e.irange.left - 1)) t (s ∷ below)
                (figs_after (more p t e f) x hi ++ gs) on.held.1 on.levels.0 on.ordered.0
                (omega (arith, on.not_empty)) (omega (arith, on.bounded))
                (at_entry s (more p t e f) x hi below gs on susp) in
            record {
              states = d.states;
              given =
                  rw
                    (
                      no_start behind,
                      subtree_get-On log h s (more p t e f) x hi t on on.held.0,
                      range_is x hi (gap_left before) (prev_index e.irange.left)
                          (min hi (e.irange.left - 1)) s.valid on.range low high
                          (omega (arith, on.not_empty)),
                    )
                    d.given;
              resumed =
                  subst (λ ks. Resumed h ks (read_up d.states h))
                    (ap (λ ks. ks ++ (figs_after (more p t e f) x hi ++ gs))
                        (sym (gap_figs_taken log h t e x hi (omega arith)))
                      ∙ sym (
                          append_assoc
                            (if ltb x e.irange.left
                              then figs t x (min hi (e.irange.left - 1))
                              else [])
                            (figs_after (more p t e f) x hi) gs)
                      ∙ ap (λ ks. ks ++ gs) (sym (figs_from-more p t e f x hi)))
                    d.resumed;
            }
      ]
    where
      at_start : e.irange.left ≤ x → leb e.irange.left x ≡ true
      at_start k = ground arith

      no_start : ¬ (e.irange.left ≤ x) → leb e.irange.left x ≡ false
      no_start k = ground arith

      no_gap : e.irange.left ≤ x → ltb x e.irange.left ≡ false
      no_gap k = ground arith

  read_down-Started : (fuel n x : ℕ) → n < fuel → Starts n x (read_down log fuel x)
  unfolding read_down Holds HasLevels Ordered figs
  read_down-Started zero n x lt hi t below gs held levels ordered le bounded susp =
      absurd (omega arith)
  read_down-Started (suc fuel) n x lt hi leaf below gs held levels ordered le bounded susp =
      record {
        states = record { node = null; pos = 0; valid = Interval.init x hi } ∷ below;
        given = refl;
        resumed = read_up-null h x hi below gs susp;
      }
  read_down-Started (suc fuel) zero x lt hi (node a k d f) below gs held levels ordered le bounded
        susp =
      absurd levels
  read_down-Started (suc fuel) (suc n) x lt hi (node a k d f) below gs (ne, cell, held)
        (same, levels) ordered le bounded susp =
      let sk =
        skip_left-Skipped h n x hi 0 [] f none held levels ordered le bounded (omega arith) in
      let s : Frame = record { node = a; pos = length sk.pieces; valid = Interval.init x hi } in
      let on : On h s sk.rest x hi = record {
        pieces = sk.pieces;
        height = n;
        dirty = d;
        bound = sk.bound;
        not_null = ne;
        cell = cell ∙ (λ i. some (image (same i) d (sym sk.same_node i)));
        held = sk.held;
        levels = sk.levels;
        ordered = sk.ordered;
        at = refl;
        range = refl;
        not_empty = le;
        bounded = bounded;
        ends_inside = sk.ends_inside;
      } in
      let d' =
        read_at-Started (read_down log fuel x) s sk.rest x hi sk.before below gs on
          (read_down-Started fuel n x (omega arith)) sk.ends_before susp in
      for_figs (ap (λ ks. ks ++ gs) (sym sk.same_figs)) (record {
        states = d'.states;
        given =
            rw (ne_null a ne, load-done a (image k d f) h ne cell)
              (ap (λ o. read_at log (read_down log fuel x) a (Interval.init x hi) o below h)
                  (find_start-skip_left x hi 0 f 0 none ordered ∙ ap (place x) sk.given)
                ∙ d'.given);
        resumed = d'.resumed;
      })

  pub ft_read-Resumed :
      (n : ℕ) (t : Tree) (start end : ℕ)
      → Holds h t
      → HasLevels (suc n) t
      → Ordered t
      → start ≤ end
      → end < 2 ^ 32
      → Resumed h (figs t start end ++ []) (ft_read log (root t) start end h)
  unfolding ft_read Holds HasLevels
  ft_read-Resumed n leaf start end held levels ordered le bounded = absurd levels
  ft_read-Resumed n (node a k dirty f) start end (ne, cell, held) (same, levels) ordered le
        bounded =
      let d =
        read_down-Started (k + 2) (suc n) start (omega arith) end (node a k dirty f) [] []
          (ne, cell, held) (same, levels) ordered le bounded nothing in
      record {
        states = d.resumed.states;
        given = rw (load-done a (image k dirty f) h ne cell, d.given) d.resumed.given;
        active = d.resumed.active;
      }
