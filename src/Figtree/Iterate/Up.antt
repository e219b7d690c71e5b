-- ===== src/Figtree/Iterate/Up.antt =====
-- The way up in `ft_read` of src/figtree/figtree.c.
use mathlib.Core.Path.{subst}
use gdpfs.Base.{
  ℕ, ◌≤◌, ◌≡◌, ◌≢◌, refl, ap, ◌∙◌, sym, Bool, true, false, some, List, ◌∷◌, arith, ltb, max, min,
  if◌then◌else◌,
}
use gdpfs.Interval
use gdpfs.Interval.{Interval, byte_index_max}
use gdpfs.Figtree.Heap.{null, Entry, Heap, done, ne_null}
use gdpfs.Figtree.Tree.{last, more, image}
use gdpfs.Figtree.Iterate.{Frame, is_done, go_up, read_up}
use gdpfs.Figtree.Iterate.Figs.{figs_after}
use gdpfs.Figtree.Iterate.Zipper.{plug}
use gdpfs.Figtree.Iterate.Frames.{Suspended, nothing, at_end, at_entry, restrict-init}
use gdpfs.Figtree.Iterate.Next.{Resumed, is_done-end, at_end-last, is_done-entry, go_up-Resumed}

module _ (h : Heap) where
  -- Where no state is at `NULL`, the two ways up are one.
  up_alike :
      (s : Frame) (below : List Frame) (b : Bool)
      → s.node ≢ null
      → is_done s h ≡ done b h
      → read_up below h ≡ go_up below h
      → read_up (s ∷ below) h ≡ go_up (s ∷ below) h
  unfolding read_up go_up
  up_alike s below b ne is same = rw (ne_null s.node ne, is) (both b)
    where
      both :
          (b : Bool)
          → (if b then read_up below else done (s ∷ below)) h
            ≡ (if b then go_up below else done (s ∷ below)) h
      both true = same
      both false = refl

  read_up-go_up :
      (stack : List Frame) (gs : List Entry)
      → Suspended h stack gs
      → read_up stack h ≡ go_up stack h
  unfolding read_up go_up figs_after
  read_up-go_up _ _ nothing = refl
  read_up-go_up _ _ (at_end s n below gs ne cell at susp) =
      up_alike s below true ne (is_done-end h s n ne cell at) (read_up-go_up below gs susp)
  read_up-go_up _ _ (at_entry s (last p t) lo hi below gs on susp) =
      up_alike s below true on.not_null
        (is_done-end h s (image on.height on.dirty (plug on.pieces (last p t))) on.not_null on.cell
          (at_end-last h s p t lo hi on))
        (read_up-go_up below gs susp)
  read_up-go_up _ _ (at_entry s (more p t e f) lo hi below gs on susp) =
      up_alike s below (ltb hi e.irange.left) on.not_null (is_done-entry h s p t e f lo hi on)
        (read_up-go_up below gs susp)

  pub read_up-Resumed :
      (stack : List Frame) (gs : List Entry) → Suspended h stack gs → Resumed h gs (read_up stack h)
  read_up-Resumed stack gs susp =
      subst (Resumed h gs) (sym (read_up-go_up stack gs susp)) (go_up-Resumed h stack gs susp)

  -- A state at `NULL` is passed.
  pub read_up-null :
      (x hi : ℕ) (below : List Frame) (gs : List Entry)
      → Suspended h below gs
      → Resumed h gs
          (read_up (record { node = null; pos = 0; valid = Interval.init x hi } ∷ below) h)
  unfolding read_up
  read_up-null x hi below gs susp = read_up-Resumed below gs susp

-- A range that begins in a gap, cut to the gap.
pub range_is :
    (x hi l r hi' : ℕ) (v : Interval)
    → v ≡ Interval.init x hi
    → max x l ≡ x
    → min hi r ≡ hi'
    → x ≤ hi'
    → Interval.restrict_range v l r false ≡ some (Interval.init x hi')
range_is x hi l r hi' v same low high fits =
    ap (λ v. Interval.restrict_range v l r false) same
    ∙ restrict-init x hi l r (omega arith)
    ∙ (λ i. some (Interval.init (low i) (high i)))
