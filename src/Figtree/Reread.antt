-- ===== src/Figtree/Reread.antt =====
-- `subtree_get` of src/figtree/utils.c, for a pointer that is not in memory.
use gdpfs.Base.{
  ℕ, zero, suc, ◌<◌, ◌≡◌, ◌≢◌, refl, true, false, Option, some, List, [], ◌∷◌, arith, ◌==◌,
  get_elem?, set,
}
use gdpfs.Figtree.Heap.{
  Ptr, null, Subtree, Node, Heap, done, ◌>>=◌, Images, load, load-done, store, alloc, update,
}
use gdpfs.Figtree.Node.{subtree_get}

get_elem?-set :
    (ss : List Subtree) (i : ℕ) (s t : Subtree)
    → get_elem? ss i ≡ some s
    → get_elem? (set ss i t) i ≡ some t
get_elem?-set [] i s t e = absurd cc
get_elem?-set (x ∷ ss) zero s t e = refl
get_elem?-set (x ∷ ss) (suc i) s t e = get_elem?-set ss i s t e

-- The heap after a node is read from the log.
abbrev loaded : Heap → Ptr → Node → ℕ → Subtree → (image : Node) → Heap
loaded h p n i s image = record {
  next = suc h.next;
  cell =
      update (update h.cell h.next (some image)) p
        (some (record n { subtrees = set n.subtrees i (record s { st = h.next }) }));
}

subtree_get-loaded :
    (log : Images) (h : Heap) (p i : ℕ) (n : Node) (s : Subtree) (image : Node)
    → p ≢ null
    → h.cell p ≡ some n
    → get_elem? n.subtrees i ≡ some s
    → s.inmemory ≡ false
    → log s.recno s.offset ≡ some image
    → subtree_get log p i h ≡ done h.next (loaded h p n i s image)
unfolding subtree_get alloc store
subtree_get-loaded log h p i n s image ne cell at outside logged =
    rw (load-done p n h ne cell, at, outside, logged) refl

-- Where a pointer is not in memory, and the log has its node, `subtree_get` gives a node as the log has it,
-- and gives such a node again after that one has been overwritten by any other: the change is lost.
pub subtree_get-subtree_get :
    (log : Images) (h : Heap) (p i : ℕ) (n : Node) (s : Subtree) (image changed : Node)
    → p ≢ null
    → p < h.next
    → h.cell p ≡ some n
    → get_elem? n.subtrees i ≡ some s
    → s.inmemory ≡ false
    → log s.recno s.offset ≡ some image
    → (after : Heap) × ((do
      q ← subtree_get log p i
      stored ← store q changed
      again ← subtree_get log p i
      load again)
          h
        ≡ done image after)
unfolding store
subtree_get-subtree_get log h p i n s image changed ne old cell at outside logged =
    let one = loaded h p n i s image in
    let two : Heap = record one { cell = update one.cell h.next (some changed) } in
    let n' : Node = record n { subtrees = set n.subtrees i (record s { st = h.next }) } in
    (
      loaded two p n' i (record s { st = h.next }) image,
      rw
          (
            subtree_get-loaded log h p i n s image ne cell at outside logged,
            subtree_get-loaded log two p i n' (record s { st = h.next }) image ne (at_p h.next old)
                (get_elem?-set n.subtrees i s (record s { st = h.next }) at) outside logged,
          )
          (load-done two.next image (loaded two p n' i (record s { st = h.next }) image)
            (λ e. absurd (omega arith)) (at_new two.cell _ h.next old)),
    )
  where
    itself : (q : ℕ) → (q == q) ≡ true
    itself q = ground arith

    differs : (q : ℕ) → p < q → (p == q) ≡ false
    differs q lt = ground arith

    behind : (q : ℕ) → p < q → (suc q == p) ≡ false
    behind q lt = ground arith

    at_p :
        (q : ℕ)
        → p < q
        → update (loaded h p n i s image).cell q (some changed) p
          ≡ some (record n { subtrees = set n.subtrees i (record s { st = h.next }) })
    at_p q lt = rw (differs q lt, itself p) refl

    at_new :
        (cells : Ptr → Option Node) (x : Option Node) (q : ℕ)
        → p < q
        → update (update cells (suc q) (some image)) p x (suc q) ≡ some image
    at_new cells x q lt = rw (behind q lt, itself (suc q)) refl
