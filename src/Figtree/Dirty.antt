-- ===== src/Figtree/Dirty.antt =====
-- `get_dirty` of src/figtree/utils.c: the changed nodes of a tree, as a checkpoint stores them.
pub mod Saved
pub mod Heaps
pub mod Children
pub mod Runs
pub mod Stored
pub mod Reload
mod Tests
use gdpfs.Base.{
  ℕ, zero, suc, ◌+◌, ◌*◌, Bool, true, false, List, [], ◌∷◌, ◌++◌, not, ◌||◌, ◌==◌, if◌then◌else◌,
  length,
}
use gdpfs.Figtree.Heap.{
  Ptr, null, Subtree, Node, Cmd, return, ◌>>=◌, ◌>>◌, out_of_fuel, assert, load, store,
}
use gdpfs.Figtree.Node.{no_subtree, subtree_set}

-- The loop over the children, given the call for one of them: the pointers as they are afterwards, and
-- the buffer.
unfoldable pub dirty_children :
    (Subtree → List Node → Cmd (Subtree × List Node))
    → List Subtree
    → List Node
    → Cmd (List Subtree × List Node)
dirty_children get [] buffer = return ([], buffer)
dirty_children get (s ∷ ss) buffer = do
  one ← get s buffer
  rest ← dirty_children get ss one.1
  return (one.0 ∷ rest.0, rest.1)

-- "Handle subtree pointers among node's children."
unfoldable pub detach : List Subtree → Cmd (List Subtree)
detach [] = return []
detach (s ∷ ss) =
    if s.st == null
    then (do checked ← assert s.inmemory; rest ← detach ss; return (s ∷ rest))
    else (do rest ← detach ss; return (record s { inmemory = false; st = null } ∷ rest))

-- `get_dirty_helper`: the pointer as it is afterwards, and the buffer, which `ep_mem_realloc` makes as
-- long as it has to be; `node_size` is the size of a node. The fuel is the height of the tree, plus one.
unfoldable pub get_dirty_helper :
    (node_size recno : ℕ) → (fuel : ℕ) → Subtree → List Node → Cmd (Subtree × List Node)
unfolding dirty_children detach
get_dirty_helper size recno zero s buffer = out_of_fuel
get_dirty_helper size recno (suc fuel) s buffer =
    if not s.inmemory || s.st == null then return (s, buffer) else do
      n ← load s.st
      if not n.dirty then return (s, buffer) else do
        below ← dirty_children (get_dirty_helper size recno fuel) n.subtrees buffer
        stored ← store s.st (record n { subtrees = below.0; dirty = false })
        pointers ← detach below.0
        return (
          record s { recno = recno; offset = length below.1 * size },
          below.1 ++ (record n { subtrees = pointers; dirty = false } ∷ []),
        )

-- `get_dirty`: the nodes. The local `root` is dropped.
unfoldable pub get_dirty : (node_size : ℕ) → (root : Ptr) → (chkpt_recno : ℕ) → Cmd (List Node)
unfolding get_dirty_helper
get_dirty size root recno = do
  n ← load root
  r ← get_dirty_helper size recno (n.height + 2) (subtree_set no_subtree root) []
  return r.1
