-- ===== src/Figtree/Tree.antt =====
-- What a heap of src/figtree stands for: a tree of nodes with their addresses, and the value that
-- the tree gives each byte.
use gdpfs.Base.{
  ℕ, zero, suc, ◌≡◌, ◌≢◌, Bool, true, Option, none, some, List, [], ◌∷◌, ltb, if◌then◌else◌,
}
use gdpfs.Interval
use gdpfs.Figtree.Heap.{Ptr, null, Entry, Subtree, Node, Heap}

-- A node with its address, height and dirty flag. A forest alternates subtrees, each with the
-- pointer that leads to it, and entries.
mutual
  pub data Tree : Type 0 where
    leaf : Tree
    node : Ptr → (height : ℕ) → (dirty : Bool) → Forest → Tree

  pub data Forest : Type 0 where
    last : Subtree → Tree → Forest
    more : Subtree → Tree → Entry → Forest → Forest

abbrev pub root : Tree → Ptr
root leaf = null
root (node a k d f) = a

abbrev pub entries : Forest → List Entry
entries (last s t) = []
entries (more s t e f) = e ∷ entries f

abbrev pub subtrees : Forest → List Subtree
subtrees (last s t) = s ∷ []
subtrees (more s t e f) = s ∷ subtrees f

-- the node that a heap holds at the root of a tree
abbrev pub image : ℕ → Bool → Forest → Node
image k d f = record { entries = entries f; subtrees = subtrees f; height = k; dirty = d }

-- The value of a byte: that of the first entry that contains it on the way down.
unfoldable mutual
  pub find : Tree → ℕ → Option ℕ
  find leaf x = none
  find (node a k d f) x = find_in f x

  pub find_in : Forest → ℕ → Option ℕ
  find_in (last s t) x = find t x
  find_in (more s t e f) x =
      if Interval.contains_val e.irange x
      then some e.value
      else if ltb x e.irange.left
      then find t x
      else find_in f x

-- A pointer that leads to a tree in memory.
abbrev pub LeadsTo : Subtree → Tree → Type 0
LeadsTo s t = (s.inmemory ≡ true) × (s.st ≡ root t)

-- The heap holds the nodes of the tree at their addresses.
unfoldable mutual
  pub Holds : Heap → Tree → Type 0
  Holds h leaf = Unit
  Holds h (node a k d f) = (a ≢ null) × (h.cell a ≡ some (image k d f)) × HoldsAll h f

  pub HoldsAll : Heap → Forest → Type 0
  HoldsAll h (last s t) = LeadsTo s t × Holds h t
  HoldsAll h (more s t e f) = LeadsTo s t × Holds h t × HoldsAll h f

-- All leaves are `n` levels down, and each node knows its height.
unfoldable mutual
  pub HasLevels : ℕ → Tree → Type 0
  HasLevels zero leaf = Unit
  HasLevels zero (node a k d f) = ⊥
  HasLevels (suc n) leaf = ⊥
  HasLevels (suc n) (node a k d f) = (k ≡ n) × AllLevels n f

  pub AllLevels : ℕ → Forest → Type 0
  AllLevels n (last s t) = HasLevels n t
  AllLevels n (more s t e f) = HasLevels n t × AllLevels n f
