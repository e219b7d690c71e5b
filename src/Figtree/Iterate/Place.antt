-- ===== src/Figtree/Iterate/Place.antt =====
-- The first scan of `ft_read` of src/figtree/figtree.c, as the one of `fti_next`.
use native.Mathlib.Decide.{dec_le, dec_lt}
use gdpfs.Base.{
  ℕ, ◌+◌, ◌<◌, ◌≤◌, ◌≡◌, refl, true, false, Option, none, some, arith, ltb, leb, ◌&&◌,
  if◌then◌else◌,
}
use gdpfs.Interval
use gdpfs.Interval.{Interval, byte_index_max}
use gdpfs.Figtree.Heap.{Entry}
use gdpfs.Figtree.Tree.{Forest, last, more, entries}
use gdpfs.Figtree.Iterate.{StartPlace, inside, between, find_start, skip_left}
use gdpfs.Figtree.Iterate.Figs.{Ordered, OrderedFrom}

-- The place of a start `x`, from what a scan for the range from `x` on finds.
unfoldable pub place : (x : ℕ) → ℕ × Option Entry × Option Entry → StartPlace
place x (i, before, none) = between i before none
place x (i, before, some e) = if leb e.irange.left x then inside i else between i before (some e)

pub find_start-skip_left :
    (x hi b : ℕ) (f : Forest) (i : ℕ) (before : Option Entry)
    → OrderedFrom b f
    → find_start x (entries f) i before
      ≡ place x (skip_left (Interval.init x hi) (entries f) i before)
unfolding find_start place skip_left Ordered Interval.contains_val Interval.right_of_val
    Interval.left_of_int Interval.left_of_val
find_start-skip_left x hi b (last s t) i before o = refl
find_start-skip_left x hi b (more s t e f) i before (ot, le, v, of) =
    elim (dec_lt e.irange.right x) [
      | yes past ↦
          rw (misses past, not_behind past v.in_order, passed past v.not_empty)
            (find_start-skip_left x hi (e.irange.right + 1) f (i + 1) (some e) of)
      | no here ↦ rw (stopped here) (elim (dec_le e.irange.left x) [
        | yes covers ↦ rw (hits here covers, starts covers) refl
        | no behind ↦ rw (no_hit behind, is_behind behind v.not_empty, no_start behind) refl
      ])
    ]
  where
    misses : e.irange.right < x → (leb e.irange.left x && leb x e.irange.right) ≡ false
    misses p = ground arith

    not_behind :
        e.irange.right < x
        → e.irange.left ≤ e.irange.right
        → (e.irange.nonempty && ltb x e.irange.left) ≡ false
    not_behind p q = ground arith

    passed :
        e.irange.right < x
        → e.irange.nonempty ≡ true
        → (e.irange.nonempty && ltb e.irange.right x) ≡ true
    passed p ne = ground (arith, ne)

    stopped : ¬ (e.irange.right < x) → (e.irange.nonempty && ltb e.irange.right x) ≡ false
    stopped n = ground arith

    hits :
        ¬ (e.irange.right < x)
        → e.irange.left ≤ x
        → (leb e.irange.left x && leb x e.irange.right) ≡ true
    hits n c = ground arith

    starts : e.irange.left ≤ x → leb e.irange.left x ≡ true
    starts c = ground arith

    no_hit : ¬ (e.irange.left ≤ x) → (leb e.irange.left x && leb x e.irange.right) ≡ false
    no_hit n = ground arith

    is_behind :
        ¬ (e.irange.left ≤ x)
        → e.irange.nonempty ≡ true
        → (e.irange.nonempty && ltb x e.irange.left) ≡ true
    is_behind n ne = ground (arith, ne)

    no_start : ¬ (e.irange.left ≤ x) → leb e.irange.left x ≡ false
    no_start n = ground arith
