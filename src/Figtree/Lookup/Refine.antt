-- ===== src/Figtree/Lookup/Refine.antt =====
-- `ft_lookup` on a heap computes the value that its tree gives a byte.
use gdpfs.Base.{
  ℕ, zero, suc, ◌+◌, ◌<◌, ◌≡◌, ◌≢◌, refl, ◌∙◌, ap, ◌⊎◌, inl, inr, Bool, some, arith, ltb,
  Bool-cases, get_elem?,
}
use native.Mathlib.Nat.{zero-add}
use gdpfs.Interval
use gdpfs.Figtree.Heap.{null, Subtree, Heap, done, load, Images, load-done, ne_null}
use gdpfs.Figtree.Node.{subtree_get}
use gdpfs.Figtree.Lookup.{hit, child, scan, lookup_from, ft_lookup}
use gdpfs.Figtree.Tree.{
  Tree, leaf, node, Forest, last, more, root, entries, subtrees, image, find, find_in, LeadsTo,
  Holds, HoldsAll, HasLevels, AllLevels,
}

-- What is known of the `j`-th subtree of a forest.
pub record Picked (h : Heap) (n : ℕ) (f : Forest) (j : ℕ) : Type 0 where
  pub pointer : Subtree
  pub tree : Tree
  pub at_index : get_elem? (subtrees f) j ≡ some pointer
  pub leads : LeadsTo pointer tree
  pub holds : Holds h tree
  pub levels : HasLevels n tree

-- The scan of a node hits an entry that decides the value, or picks the subtree that decides it.
scan_lem :
    (h : Heap) (n : ℕ) (f : Forest) (x i : ℕ)
    → HoldsAll h f
    → AllLevels n f
    → ((v : ℕ) × (scan x (entries f) i ≡ hit v) × (find_in f x ≡ some v))
      ⊎ ((j : ℕ) × (p : Picked h n f j) × (scan x (entries f) i ≡ child (i + j))
          × (find_in f x ≡ find p.tree x))
unfolding scan find HoldsAll AllLevels
scan_lem h n (last s t) x i held lv = inr (
  0,
  record { pointer = s; tree = t; at_index = refl; leads = held.0; holds = held.1; levels = lv },
  ap child (omega arith),
  refl,
)
scan_lem h n (more s t e f) x i held lv = elim (Bool-cases (Interval.contains_val e.irange x)) [
  | inl c ↦ inl (e.value, rw c, rw c)
  | inr c ↦ rw c (elim (Bool-cases (ltb x e.irange.left)) [
    | inl l ↦ rw l (
        inr (
          0,
          record {
            pointer = s;
            tree = t;
            at_index = refl;
            leads = held.0;
            holds = held.1;
            levels = lv.0;
          },
          ap child (omega arith),
          refl,
        ))
    | inr l ↦ rw l (elim (scan_lem h n f x (i + 1) held.2 lv.1) [
      | inl found ↦ inl found
      | inr (j, p, down, same) ↦ inr (
        suc j,
        record {
          pointer = p.pointer;
          tree = p.tree;
          at_index = p.at_index;
          leads = p.leads;
          holds = p.holds;
          levels = p.levels;
        },
        down ∙ ap child (omega arith),
        same,
      )
    ])
  ])
]

-- Reading a pointer in memory.
subtree_get_held :
    (log : Images) (h : Heap) (a k : ℕ) (d : Bool) (f : Forest) (n j : ℕ)
    → a ≢ null
    → h.cell a ≡ some (image k d f)
    → (p : Picked h n f j) → subtree_get log a j h ≡ done (root p.tree) h
unfolding subtree_get load
subtree_get_held log h a k d f n j ne cell p =
    rw (load-done a (image k d f) h ne cell, p.at_index, p.leads.0, p.leads.1)

lookup_from_lem :
    (log : Images) (h : Heap) (fuel n : ℕ) (t : Tree) (x : ℕ)
    → Holds h t
    → HasLevels n t
    → n < fuel
    → lookup_from log fuel (root t) x h ≡ done (find t x) h
unfolding lookup_from find Holds HasLevels
lookup_from_lem log h zero n t x held lv lt = absurd (omega arith)
lookup_from_lem log h (suc fuel) n leaf x held lv lt = refl
lookup_from_lem log h (suc fuel) zero (node a k d f) x held lv lt = absurd lv
lookup_from_lem log h (suc fuel) (suc n) (node a k d f) x held lv lt =
    rw (ne_null a held.0, load-done a (image k d f) h held.0 held.1)
      (elim (scan_lem h n f x 0 held.2 lv.1) [
        | inl (v, e, g) ↦ rw (e, g)
        | inr (j, p, e, g) ↦
            rw (e, zero-add j, subtree_get_held log h a k d f n j held.0 held.1 p, g)
              (lookup_from_lem log h fuel n p.tree x p.holds p.levels (omega arith))
      ])

-- On a heap that holds a tree in memory whose leaves are all on one level, `ft_lookup` returns,
-- leaves the heap as it is, and its result is the value that the tree gives the byte.
pub ft_lookup_refines :
    (log : Images) (h : Heap) (n : ℕ) (t : Tree) (x : ℕ)
    → Holds h t
    → HasLevels (suc n) t
    → ft_lookup log (root t) x h ≡ done (find t x) h
unfolding ft_lookup Holds HasLevels
ft_lookup_refines log h n leaf x held lv = absurd lv
ft_lookup_refines log h n (node a k d f) x held lv =
    rw (load-done a (image k d f) h held.0 held.1)
      (lookup_from_lem log h (k + 2) (suc n) (node a k d f) x held lv (omega (arith, lv.0)))
