-- ===== src/Figtree/Iterate/Moved.antt =====
-- A state of the iterator of src/figtree/figtree.c that is moved on by one entry.
use gdpfs.Base.{
  ℕ, ◌+◌, ◌≤◌, ◌≡◌, refl, ap, ◌∙◌, sym, Bool, Option, none, some, List, [], ◌∷◌, ◌++◌, arith, ltb,
  leb, max, if◌then◌else◌, get_elem?,
}
use gdpfs.Interval
use gdpfs.Interval.{Interval, byte_index_max}
use gdpfs.Figtree.Heap.{Entry, Subtree, Heap, Images}
use gdpfs.Figtree.Tree.{Tree, Forest, last, more, entries, image, Holds, HasLevels}
use gdpfs.Figtree.Iterate.{Frame}
use gdpfs.Figtree.Iterate.Figs.{Ordered, OrderedFrom, clip, figs_from, figs_after}
use gdpfs.Figtree.Iterate.Zipper.{plug, plug-snoc, first_entry, entries-plug, length-snoc}
use gdpfs.Figtree.Iterate.Frames.{On}

-- The first entry of an ordered forest lies behind its bound.
pub first_entry-behind :
    (b : ℕ) (f : Forest) (e : Entry) → OrderedFrom b f → first_entry f ≡ some e → b ≤ e.irange.right
unfolding Ordered
first_entry-behind b (last s t) e o h = absurd cc
first_entry-behind b (more s t e' f) e (ot, le, v, of) h = omega (arith, v.in_order, ap right_of h)
  where
    right_of : Option Entry → ℕ
    right_of none = 0
    right_of (some e) = e.irange.right

-- The figs behind an entry do not depend on whether the range begins before it or at its end.
pub figs_after-later :
    (b : ℕ) (f : Forest) (lo lo' hi : ℕ)
    → OrderedFrom b f
    → lo ≤ lo'
    → lo' ≤ b
    → figs_after f lo' hi ≡ figs_after f lo hi
unfolding figs_after clip Ordered
figs_after-later b (last s t) lo lo' hi o h k = refl
figs_after-later b (more s t e f) lo lo' hi (ot, le, v, of) h k = rw (both, starts, goes_on) refl
  where
    both : leb lo' e.irange.right ≡ leb lo e.irange.right
    both = ground (arith, v.in_order)

    starts : max e.irange.left lo' ≡ max e.irange.left lo
    starts = omega arith

    goes_on : max lo' (e.irange.right + 1) ≡ max lo (e.irange.right + 1)
    goes_on = omega (arith, v.in_order)

-- The figs that come behind an entry of its node.
abbrev pub later_figs : Entry → Forest → (lo hi : ℕ) → List Entry
later_figs e f lo hi =
    if ltb e.irange.right hi then figs_from f (max lo (e.irange.right + 1)) hi else []

module _ (log : Images) (h : Heap) where
  -- The state moved on by one entry.
  unfoldable pub moved_on :
      (s : Frame) (p : Subtree) (t : Tree) (e : Entry) (f : Forest) (lo hi : ℕ)
      → On h s (more p t e f) lo hi
      → On h (record s { pos = s.pos + 1 }) f lo hi
  unfolding Holds HasLevels Ordered
  moved_on s p t e f lo hi on = record {
    pieces = on.pieces ++ ((p, t, e) ∷ []);
    height = on.height;
    dirty = on.dirty;
    bound = e.irange.right + 1;
    not_null = on.not_null;
    cell =
        on.cell ∙ ap (λ g. some (image on.height on.dirty g)) (sym (plug-snoc on.pieces p t e f));
    held = on.held.2;
    levels = on.levels.1;
    ordered = on.ordered.3;
    at = omega (arith, on.at, length-snoc on.pieces (p, t, e));
    range = on.range;
    not_empty = on.not_empty;
    bounded = on.bounded;
    ends_inside = λ e' same. omega (
      arith,
      on.ends_inside e refl,
      first_entry-behind (e.irange.right + 1) f e' on.ordered.3 same,
    );
  }

  -- The entry at a position.
  pub entry_at :
      (s : Frame) (f : Forest) (lo hi : ℕ)
      → (on : On h s f lo hi) → get_elem? (entries (plug on.pieces f)) s.pos ≡ first_entry f
  entry_at s f lo hi on =
      ap (get_elem? (entries (plug on.pieces f))) on.at ∙ entries-plug on.pieces f

  pub next_entry :
      (s : Frame) (p : Subtree) (t : Tree) (e : Entry) (f : Forest) (lo hi : ℕ)
      → (on : On h s (more p t e f) lo hi)
      → get_elem? (entries (plug on.pieces (more p t e f))) (s.pos + 1) ≡ first_entry f
  unfolding moved_on
  next_entry s p t e f lo hi on =
      ap (λ g. get_elem? (entries g) (s.pos + 1)) (sym (plug-snoc on.pieces p t e f))
      ∙ entry_at (record s { pos = s.pos + 1 }) f lo hi (moved_on s p t e f lo hi on)

  pub right_end :
      {b : Bool} (v : Interval) (lo hi x : ℕ)
      → v ≡ Interval.init lo hi
      → leb hi x ≡ b
      → leb v.right x ≡ b
  right_end v lo hi x same e = ap (λ v. leb v.right x) same ∙ e
