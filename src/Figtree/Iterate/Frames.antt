-- ===== src/Figtree/Iterate/Frames.antt =====
-- The states of an iterator of src/figtree, and the figs that are still to come from them.
use gdpfs.Base.{
  ℕ, ◌-◌, ◌^◌, ◌<◌, ◌≤◌, ◌≡◌, ◌≢◌, refl, Bool, true, false, some, List, [], ◌∷◌, ◌++◌, arith, ltb,
  leb, max, min, if◌then◌else◌, length,
}
use gdpfs.Interval
use gdpfs.Interval.{Interval, byte_index_max}
use gdpfs.Figtree.Heap.{null, Entry, Subtree, Node, Heap, Outcome, done}
use gdpfs.Figtree.Tree.{Tree, Forest, last, more, image, HoldsAll, AllLevels}
use gdpfs.Figtree.Iterate.{Frame}
use gdpfs.Figtree.Iterate.Figs.{OrderedFrom, figs, figs_from, figs_after}
use gdpfs.Figtree.Iterate.Zipper.{Piece, plug, first_entry}

-- A state at a position of a node in a range from `lo` to `hi`: the subtree at the position has been
-- read, and the entry there is the next to look at.
pub record On (h : Heap) (s : Frame) (f : Forest) (lo hi : ℕ) : Type 0 where
  pub pieces : List Piece
  pub height : ℕ
  pub dirty : Bool
  pub bound : ℕ
  pub not_null : s.node ≢ null
  pub cell : h.cell s.node ≡ some (image height dirty (plug pieces f))
  pub held : HoldsAll h f
  pub levels : AllLevels height f
  pub ordered : OrderedFrom bound f
  pub at : s.pos ≡ length pieces
  pub range : s.valid ≡ Interval.init lo hi
  pub not_empty : lo ≤ hi
  pub bounded : hi < 2 ^ 32
  pub ends_inside : (e : Entry) → first_entry f ≡ some e → lo ≤ e.irange.right

-- The figs that are still to come from a stack of states.
pub data Suspended (h : Heap) : List Frame → List Entry → Type 0 where
  nothing : Suspended h [] []
  at_end :
      (s : Frame) (n : Node) (below : List Frame) (gs : List Entry)
      → s.node ≢ null
      → h.cell s.node ≡ some n
      → s.pos ≡ length n.entries
      → Suspended h below gs
      → Suspended h (s ∷ below) gs
  at_entry :
      (s : Frame) (f : Forest) (lo hi : ℕ) (below : List Frame) (gs : List Entry)
      → On h s f lo hi
      → Suspended h below gs
      → Suspended h (s ∷ below) (figs_after f lo hi ++ gs)

pub restrict-init :
    (lo hi l r : ℕ)
    → max lo l ≤ min hi r
    → Interval.restrict_range (Interval.init lo hi) l r false
      ≡ some (Interval.init (max lo l) (min hi r))
unfolding Interval.restrict_range
restrict-init lo hi l r h =
    let low : (if ltb l lo then lo else l) ≡ max lo l = ground arith in
    let high : (if ltb hi r then hi else r) ≡ min hi r = ground arith in
    let fits : leb (max lo l) (min hi r) ≡ true = ground arith in rw (low, high, fits) refl

-- A descent into a tree adds states from which its figs come.
pub record Descended (h : Heap) (gs : List Entry) (result : Outcome (List Frame)) : Type 0 where
  pub states : List Frame
  pub given : result ≡ done states h
  pub suspended : Suspended h states gs

pub unmark : (t : Bool) {A : Type 0} → (x y : A) → t ≡ false → (if t then x else y) ≡ y
unmark true x y e = absurd cc
unmark false x y e = refl

pub mark : (t : Bool) {A : Type 0} → (x y : A) → t ≡ true → (if t then x else y) ≡ x
mark true x y e = refl
mark false x y e = absurd cc

-- The figs from a position, those of the subtree there first.
pub figs_from-last :
    (s : Subtree) (t : Tree) (lo hi : ℕ) → figs_from (last s t) lo hi ≡ figs t lo hi
unfolding figs
figs_from-last s t lo hi = refl

pub figs_from-more :
    (s : Subtree) (t : Tree) (e : Entry) (f : Forest) (lo hi : ℕ)
    → figs_from (more s t e f) lo hi
      ≡ (if ltb lo e.irange.left then figs t lo (min hi (e.irange.left - 1)) else [])
        ++ figs_after (more s t e f) lo hi
unfolding figs figs_after
figs_from-more s t e f lo hi = refl
