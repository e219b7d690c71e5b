-- ===== src/Figtree/Iterate/Next.antt =====
-- `fti_next` of src/figtree/figtree.c: what it yields, and the loop of a reader.
use mathlib.Core.Path.{subst}
use native.Mathlib.Decide.{dec_le}
use gdpfs.Base.{
  ℕ, zero, suc, ◌<◌, ◌≤◌, ◌≡◌, ◌≢◌, refl, ap, ◌∙◌, sym, true, false, Option, none, some, List, [],
  ◌∷◌, ◌++◌, arith, ltb, leb, ◌&&◌, max, min, ◌==◌, length,
}
use gdpfs.Interval
use gdpfs.Interval.{Interval}
use gdpfs.Figtree.Heap.{
  null, Entry, Subtree, Node, Heap, Outcome, done, continue, Images, load-done,
}
use gdpfs.Figtree.Tree.{Tree, Forest, last, more, entries, image}
use gdpfs.Figtree.Iterate.{Frame, is_done, go_up, fti_next, read_next, read_all}
use gdpfs.Figtree.Iterate.Figs.{Ordered, OrderedFrom, clip, figs_after}
use gdpfs.Figtree.Iterate.Zipper.{plug, length-plug}
use gdpfs.Figtree.Iterate.Frames.{On, Suspended, nothing, at_end, at_entry, restrict-init}
use gdpfs.Figtree.Iterate.Steps.{go_down-Descended}
use gdpfs.Figtree.Iterate.Moved.{entry_at, later_figs}

-- The figs that are still to come from an iterator: it is at an end, or at an entry of its range.
pub data Active (h : Heap) : List Frame → List Entry → Type 0 where
  ended : Active h [] []
  on_entry :
      (s : Frame) (p : Subtree) (t : Tree) (e : Entry) (f : Forest) (lo hi : ℕ) (below : List Frame)
      (gs : List Entry)
      → On h s (more p t e f) lo hi
      → e.irange.left ≤ hi
      → Suspended h below gs
      → Active h (s ∷ below) (figs_after (more p t e f) lo hi ++ gs)

-- A way up from suspended states ends in an iterator with the same figs.
pub record Resumed (h : Heap) (gs : List Entry) (result : Outcome (List Frame)) : Type 0 where
  pub states : List Frame
  pub given : result ≡ done states h
  pub active : Active h states gs

-- What a call yields: nothing, if there are no figs, or the first of them.
pub data Yields (h : Heap) : List Entry → Outcome (Option (Entry × List Frame)) → Type 0 where
  finished : Yields h [] (done none h)
  yielded :
      (g : Entry) (gs : List Entry) (states : List Frame)
      → Active h states gs
      → Yields h (g ∷ gs) (done (some (g, states)) h)

module _ (h : Heap) where
  pub is_done-end :
      (s : Frame) (n : Node)
      → s.node ≢ null
      → h.cell s.node ≡ some n
      → s.pos ≡ length n.entries
      → is_done s h ≡ done true h
  unfolding is_done
  is_done-end s n ne cell at = rw (load-done s.node n h ne cell, ended_here) refl
    where
      ended_here : (s.pos == length n.entries) ≡ true
      ended_here = ground arith

  pub at_end-last :
      (s : Frame) (p : Subtree) (t : Tree) (lo hi : ℕ)
      → (on : On h s (last p t) lo hi) → s.pos ≡ length (entries (plug on.pieces (last p t)))
  at_end-last s p t lo hi on = omega (arith, on.at, length-plug on.pieces (last p t))

  pub is_done-entry :
      (s : Frame) (p : Subtree) (t : Tree) (e : Entry) (f : Forest) (lo hi : ℕ)
      → (on : On h s (more p t e f) lo hi) → is_done s h ≡ done (ltb hi e.irange.left) h
  unfolding is_done Interval.left_of_int Interval.left_of_val
  is_done-entry s p t e f lo hi on =
      rw
        (
          load-done s.node (image on.height on.dirty (plug on.pieces (more p t e f))) h on.not_null
              on.cell,
          before_end,
          entry_at (λ _ _. none) h s (more p t e f) lo hi on,
        )
        (ap (λ v. done (v.nonempty && ltb v.right e.irange.left) h) on.range)
    where
      before_end : (s.pos == length (entries (plug on.pieces (more p t e f)))) ≡ false
      before_end = ground (arith, on.at, length-plug on.pieces (more p t e f))

  -- The figs behind an entry that lies behind the range.
  figs_after-beyond :
      (p : Subtree) (t : Tree) (e : Entry) (f : Forest) (lo hi b : ℕ)
      → OrderedFrom b (more p t e f)
      → hi < e.irange.left
      → figs_after (more p t e f) lo hi ≡ []
  unfolding figs_after clip Ordered
  figs_after-beyond p t e f lo hi b (ot, le, v, of) lt = rw (no_clip, no_more (v.in_order)) refl
    where
      no_clip : (leb lo e.irange.right && leb e.irange.left hi) ≡ false
      no_clip = ground arith

      no_more : e.irange.left ≤ e.irange.right → ltb e.irange.right hi ≡ false
      no_more k = ground arith

  pub go_up-Resumed :
      (stack : List Frame) (gs : List Entry) → Suspended h stack gs → Resumed h gs (go_up stack h)
  unfolding go_up figs_after
  go_up-Resumed _ _ nothing = record { states = []; given = refl; active = ended }
  go_up-Resumed _ _ (at_end s n below gs ne cell at susp) =
      let rest = go_up-Resumed below gs susp in
      record {
        states = rest.states;
        given = rw (is_done-end s n ne cell at) rest.given;
        active = rest.active;
      }
  go_up-Resumed _ _ (at_entry s (last p t) lo hi below gs on susp) =
      let rest = go_up-Resumed below gs susp in
      record {
        states = rest.states;
        given =
            rw
              (is_done-end s (image on.height on.dirty (plug on.pieces (last p t))) on.not_null
                on.cell (at_end-last s p t lo hi on))
              rest.given;
        active = rest.active;
      }
  go_up-Resumed _ _ (at_entry s (more p t e f) lo hi below gs on susp) =
      elim (dec_le e.irange.left hi) [
        | yes inside ↦ record {
          states = s ∷ below;
          given = rw (is_done-entry s p t e f lo hi on, not_past inside) refl;
          active = on_entry s p t e f lo hi below gs on inside susp;
        }
        | no past ↦
            let rest = go_up-Resumed below gs susp in
            record {
              states = rest.states;
              given = rw (is_done-entry s p t e f lo hi on, is_past past) rest.given;
              active =
                  subst (Active h rest.states)
                    (ap (λ ks. ks ++ gs)
                      (sym (figs_after-beyond p t e f lo hi on.bound on.ordered (omega arith))))
                    rest.active;
            }
      ]
    where
      not_past : e.irange.left ≤ hi → ltb hi e.irange.left ≡ false
      not_past k = ground arith

      is_past : ¬ (e.irange.left ≤ hi) → ltb hi e.irange.left ≡ true
      is_past k = ground arith

  yields :
      {ks : List Entry} {result : Outcome (Option (Entry × List Frame))} (g : Entry)
      (gs : List Entry) (states : List Frame)
      → Active h states gs
      → ks ≡ g ∷ gs
      → result ≡ done (some (g, states)) h
      → Yields h ks result
  yields {ks} {result} g gs states active same given =
      subst (λ r. Yields h ks r) (sym given)
        (subst (λ l. Yields h l (done (some (g, states)) h)) (sym same)
          (yielded g gs states active))

  -- The part of an entry that is in the range of a state.
  restricted :
      (e : Entry) (v : Interval) (lo hi : ℕ)
      → v ≡ Interval.init lo hi
      → e.irange.nonempty ≡ true
      → max e.irange.left lo ≤ min e.irange.right hi
      → Interval.restrict_int e.irange v false
        ≡ some (Interval.init (max e.irange.left lo) (min e.irange.right hi))
  unfolding Interval.restrict_int
  restricted e v lo hi same ne fits =
      ap (λ v. Interval.restrict_int e.irange v false) same
      ∙ ap (λ b. Interval.restrict_range (record e.irange { nonempty = b }) lo hi false) ne
      ∙ restrict-init e.irange.left e.irange.right lo hi fits

  pub fti_next-Yields :
      (log : Images) (stack : List Frame) (gs : List Entry)
      → Active h stack gs
      → Yields h gs (fti_next log stack h)
  unfolding fti_next figs_after clip Interval.restrict_int Ordered
  fti_next-Yields log _ _ ended = finished
  fti_next-Yields log _ _ (on_entry s p t e f lo hi below gs on inside susp) =
      let d = go_down-Descended log h s p t e f lo hi below gs on susp in
      let up = go_up-Resumed d.states (later_figs e f lo hi ++ gs) d.suspended in
      yields (record e { irange = Interval.init (max e.irange.left lo) (min e.irange.right hi) })
        (later_figs e f lo hi ++ gs) up.states up.active
        (rw (has_clip (on.ends_inside e refl)) refl)
        (rw
          (
            load-done s.node (image on.height on.dirty (plug on.pieces (more p t e f))) h
                on.not_null on.cell,
            has_entry,
            entry_at log h s (more p t e f) lo hi on,
            restricted e s.valid lo hi on.range on.ordered.2.not_empty
                (fits (on.ends_inside e refl) on.ordered.2.in_order),
            d.given,
            up.given,
          )
          refl)
    where
      has_clip : lo ≤ e.irange.right → (leb lo e.irange.right && leb e.irange.left hi) ≡ true
      has_clip k = ground arith

      has_entry : ltb s.pos (length (entries (plug on.pieces (more p t e f)))) ≡ true
      has_entry = ground (arith, on.at, length-plug on.pieces (more p t e f))

      fits :
          lo ≤ e.irange.right
          → e.irange.left ≤ e.irange.right
          → max e.irange.left lo ≤ min e.irange.right hi
      fits k l = omega (arith, on.not_empty)

  -- The loop of a reader ends, and gets the figs in their order.
  pub read_all-Active :
      (log : Images) (fuel : ℕ) (stack : List Frame) (gs : List Entry)
      → length gs < fuel
      → Active h stack gs
      → read_all log fuel stack h ≡ done gs h
  unfolding read_all read_next
  read_all-Active log zero stack gs lt active = absurd (omega arith)
  read_all-Active log (suc fuel) stack gs lt active =
      each (read_all-Active log fuel) (fti_next log stack h) gs
        (fti_next-Yields log stack gs active) lt
    where
      each :
          ((stack : List Frame) (gs : List Entry)
            → length gs < fuel
            → Active h stack gs
            → read_all log fuel stack h ≡ done gs h)
          → (result : Outcome (Option (Entry × List Frame))) (gs : List Entry) → Yields h gs result
          → length gs < suc fuel
          → continue result (read_next (read_all log fuel)) ≡ done gs h
      each onward _ _ finished lt = refl
      each onward _ _ (yielded g gs states active) lt =
          rw (onward states gs (omega arith) active) refl
