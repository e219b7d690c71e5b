-- ===== src/Figtree/Iterate/Figs.antt =====
-- The figs that a tree of src/figtree has in a range, in their order.
use gdpfs.Base.{
  ℕ, ◌+◌, ◌-◌, ◌^◌, ◌<◌, ◌≤◌, ◌≡◌, true, List, [], ◌∷◌, ◌++◌, ltb, leb, ◌&&◌, max, min,
  if◌then◌else◌,
}
use gdpfs.Interval
use gdpfs.Figtree.Heap.{Entry}
use gdpfs.Figtree.Tree.{Tree, leaf, node, Forest, last, more}

-- An interval of the 32-bit byte indices that is not empty.
pub record ValidEntry (e : Entry) : Type 0 where
  pub not_empty : e.irange.nonempty ≡ true
  pub in_order : e.irange.left ≤ e.irange.right
  pub in_range : e.irange.right < 2 ^ 32

-- The entries of each node are valid and disjoint, in ascending order, those of a forest from `b` on.
-- Nothing is said of the entries below an entry that has been written over.
unfoldable mutual
  pub Ordered : Tree → Type 0
  Ordered leaf = Unit
  Ordered (node a k d f) = OrderedFrom 0 f

  pub OrderedFrom : ℕ → Forest → Type 0
  OrderedFrom b (last s t) = Ordered t
  OrderedFrom b (more s t e f) =
      Ordered t × (b ≤ e.irange.left) × ValidEntry e × OrderedFrom (e.irange.right + 1) f

-- The part of an entry that lies in a range, where there is one.
unfoldable pub clip : Entry → (lo hi : ℕ) → List Entry
clip e lo hi =
    if leb lo e.irange.right && leb e.irange.left hi
    then record e { irange = Interval.init (max e.irange.left lo) (min e.irange.right hi) } ∷ []
    else []

-- The figs of a tree in a range from `lo` to `hi`, which is not empty: the subtrees are read in the
-- gaps between the entries only.
unfoldable mutual
  pub figs : Tree → (lo hi : ℕ) → List Entry
  figs leaf lo hi = []
  figs (node a k d f) lo hi = figs_from f lo hi

  pub figs_from : Forest → (lo hi : ℕ) → List Entry
  figs_from (last s t) lo hi = figs t lo hi
  figs_from (more s t e f) lo hi =
      (if ltb lo e.irange.left then figs t lo (min hi (e.irange.left - 1)) else [])
      ++ (clip e lo hi
          ++ (if ltb e.irange.right hi then figs_from f (max lo (e.irange.right + 1)) hi else []))

-- The figs of a forest but for those of its first subtree.
unfoldable pub figs_after : Forest → (lo hi : ℕ) → List Entry
unfolding figs_from
figs_after (last s t) lo hi = []
figs_after (more s t e f) lo hi =
    clip e lo hi
    ++ (if ltb e.irange.right hi then figs_from f (max lo (e.irange.right + 1)) hi else [])
