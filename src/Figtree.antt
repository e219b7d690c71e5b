-- ===== src/Figtree.antt =====
-- src/figtree/: the index of a file, a B-tree of byte intervals on a heap of nodes.
pub mod Heap
pub mod Node
pub mod Prune
pub mod Lookup
pub mod Insert
pub mod Write
pub mod Tree
pub mod Iterate
pub mod Dirty
pub mod Reread
mod Tests
