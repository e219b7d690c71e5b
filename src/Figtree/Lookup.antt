-- ===== src/Figtree/Lookup.antt =====
-- `ft_lookup` of src/figtree/figtree.c, and `ft_init`.
pub mod Refine
use gdpfs.Base.{
  ℕ, zero, suc, ◌+◌, Bool, true, false, Option, none, some, List, [], ◌∷◌, ltb, ◌==◌, if◌then◌else◌,
}
use gdpfs.Interval
use gdpfs.Figtree.Heap.{Ptr, null, Entry, Node, Cmd, return, ◌>>=◌, ◌>>◌, out_of_fuel, load, Images}
use gdpfs.Figtree.Node.{ftn_new, subtree_get}

-- `ft_init`: the root of a new tree
unfoldable pub ft_init : Cmd Ptr
unfolding ftn_new
ft_init = ftn_new 0 true

-- What the inner loop of `ft_lookup` finds in a node: a value, or the subtree to go on with.
pub data Found : Type 0 where
  hit : ℕ → Found
  child : ℕ → Found

unfoldable pub scan : (location : ℕ) → List Entry → (i : ℕ) → Found
scan x [] i = child i
scan x (e ∷ es) i =
    let rest = scan x es (i + 1) in
    if Interval.contains_val e.irange x
    then hit e.value
    else if ltb x e.irange.left
    then child i
    else rest

-- What the outer loop does with it: return the value, or go on in the subtree.
unfoldable pub follow : Images → Ptr → (Ptr → Cmd (Option ℕ)) → Found → Cmd (Option ℕ)
follow log p onward (hit v) = return (some v)
follow log p onward (child i) = do q ← subtree_get log p i; onward q

-- The outer loop, one round to a level.
unfoldable pub lookup_from : Images → (fuel : ℕ) → Ptr → (location : ℕ) → Cmd (Option ℕ)
unfolding follow
lookup_from log zero p x = out_of_fuel
lookup_from log (suc fuel) p x =
    if p == null
    then return none
    else do n ← load p; follow log p (λ q. lookup_from log fuel q x) (scan x n.entries 0)

-- `ft_lookup`. A root of height `h` has `h + 1` levels, and one round more sees `NULL`.
unfoldable pub ft_lookup : Images → (root : Ptr) → (location : ℕ) → Cmd (Option ℕ)
unfolding lookup_from scan subtree_get
ft_lookup log root x = do n ← load root; lookup_from log (n.height + 2) root x
