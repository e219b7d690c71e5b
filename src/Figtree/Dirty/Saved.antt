-- ===== src/Figtree/Dirty/Saved.antt =====
-- What a checkpoint of a tree of src/figtree has, and what becomes of the tree.
use gdpfs.Base.{ℕ, ◌+◌, ◌-◌, ◌*◌, true, false, List, [], ◌∷◌, ◌++◌, ◌==◌, if◌then◌else◌, length}
use gdpfs.Figtree.Heap.{null, Subtree, Node}
use gdpfs.Figtree.Tree.{Tree, leaf, node, Forest, last, more, entries, subtrees}

-- A pointer as it is stored.
abbrev pub detached : Subtree → Subtree
detached s = if s.st == null then s else record s { inmemory = false; st = null }

abbrev pub all_detached : List Subtree → List Subtree
all_detached [] = []
all_detached (s ∷ ss) = detached s ∷ all_detached ss

-- A node as it is stored.
abbrev pub stored_node : ℕ → Forest → Node
stored_node k f = record {
  entries = entries f;
  subtrees = all_detached (subtrees f);
  height = k;
  dirty = false;
}

module _ (size recno : ℕ) where
  -- The pointer to a tree, where the buffer has `end` nodes behind its nodes.
  abbrev pub placed : Subtree → Tree → (end : ℕ) → Subtree
  placed s leaf end = s
  placed s (node a k false f) end = s
  placed s (node a k true f) end = record s { recno = recno; offset = (end - 1) * size }

  -- The tree afterwards and its nodes, where the buffer has `start` nodes before them. Nothing is done
  -- below a node that is not changed.
  unfoldable mutual
    pub saved : Tree → (start : ℕ) → Tree × List Node
    saved leaf start = (leaf, [])
    saved (node a k false f) start = (node a k false f, [])
    saved (node a k true f) start =
        let r = saved_all f start in (node a k false r.0, r.1 ++ (stored_node k r.0 ∷ []))

    pub saved_all : Forest → (start : ℕ) → Forest × List Node
    saved_all (last s t) start =
        let r = saved t start in (last (placed s t (start + length r.1)) r.0, r.1)
    saved_all (more s t e f) start =
        let r = saved t start in
        let q = saved_all f (start + length r.1) in
        (more (placed s t (start + length r.1)) r.0 e q.0, r.1 ++ q.1)
