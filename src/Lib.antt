-- ===== src/Lib.antt =====
-- GDPFS, a file system over append-only logs (src/ of the repository).
--
-- Parts, from the bottom up, and the files that model them:
--
-- - Interval.antt: src/figtree/interval.c. An interval is a record of two byte indices and a flag;
--   a failed assertion is `none`.
-- - Figtree/: src/figtree/figtree.c, figtreenode.c and utils.c, the index of a file. Nodes live on an
--   explicit heap (Figtree/Heap.antt). A function that follows pointers is a command: it runs on a
--   heap and ends with a result and a heap, with a failed assertion or bad access, or out of fuel.
--   An array with its length field is the list of its live elements. Node.antt has the `ftn_`
--   functions but for `ftn_pruneTo`, which is Prune.antt; Lookup.antt has `ft_lookup`; Insert.antt
--   the way down of `_ft_insert`, Write.antt its way up and `ft_write`. Tree.antt says what a heap
--   stands for. Iterate.antt has the iterator, `ft_read` and `fti_next`, as the list of its states from
--   `depth` down; Iterate/Figs.antt says which figs a tree has in a range. Dirty.antt has `get_dirty`;
--   the size of a node in bytes is a parameter there. Reread.antt is about pointers to nodes in the log.
-- - Bitmap.antt: src/bitmap.c, which hands out the file handles. `bitmap_reserve`, `bitmap_release` and
--   `bitmap_set` hold the mutex of the bitmap while they use its bytes, so each is one step;
--   `bitmap_is_set` takes none and is one step only where no other thread changes them.
-- - Stat.antt: src/gdpfs_stat.h.
-- - Dir/: src/gdpfs_dir.c over the operations of src/gdpfs_file.h that it calls, as an interface
--   (Dir/Files.antt), with what the functions that read a directory rely on: what a read of an entry
--   returns, and that it changes nothing. File/DirReads.antt shows it of `do_read` for a file in the
--   cache. Entry.antt has the entry of a directory as the bytes of its struct, Table.antt the functions
--   on the entries of an open directory, Create.antt `gdpfs_dir_create_file_at_path` from where its
--   parent directory is open, Path.antt the resolution of paths and AtPath.antt the operations at
--   paths.
-- - Fuse.antt: the handlers of src/gdpfs.c over the operations at paths, with their error numbers;
--   Fuse/Listing.antt: `gdpfs_readdir`; Fuse/Modes.antt: the mode in `gdpfs_getattr`.
--
-- - Log/Queue.antt: the queue of precreated logs of src/gdpfs_log.c. What a thread does with the mutex
--   held is one step of a relation between states of all threads; a wait on the condition variable
--   gives up the mutex and may end without a signal. Log/Entry.antt: the entries of a log, over an
--   interface for the buffers of the GDP library and for local files.
-- - File.antt: src/gdpfs_file.c, the functions on one file object, whose locks are held throughout
--   each; File/Replay.antt: how `open_file` builds the index from the log. They run over an interface
--   (File/Parts.antt) for the log, the index and the file of the cache. `gdpfs_log_append` is
--   asynchronous: an append is here the handing over of a record, with the status of that, and the log
--   has the appends that are under way; whether one fails later is told to its callback. What the index
--   gives is not relied on: a tree whose nodes were read from the log does not keep what is written to
--   it (Figtree/Reread.antt). File/Simple.antt fills the interface for tests.
--   File/Checkpoint.antt: `_file_chkpt`; File/Open.antt: the rest of `open_file` on a file object;
--   File/OpenFiles.antt: the file objects with their reference counts and the list of recently closed
--   files, a relation between states whose steps are whole operations. File/Handles.antt: the bitmap of
--   handles and the array behind it, on top of the file objects, with `open_file`, `gdpfs_file_create`
--   and `gdpfs_file_close` as their callers see them. There, what a checkpoint meets (`Chkpt`) and what
--   `open_file` finds of the file (`Opening`) are parameters. A checkpoint that cannot be made ends the
--   program; the two files Stored.antt show that its outcome makes no other difference.
--
-- Recursion on pointers takes fuel: the height of a node bounds the levels below it, so `ftn_free`
-- gets the height of the freed node plus one, `ft_lookup`, `ft_read` and `get_dirty` the height of the
-- root plus two, the descent of `fti_next` the height of its node plus two, and `ft_write` the height of
-- the root plus three, since a write may raise the tree by one level.
--
-- The loops over the entries of a directory take fuel, too: more than the directory has entries. The
-- programs of Dir/ and Fuse.antt have no result (Base/Prog.antt) where their fuel runs out, an
-- assertion fails, or C leaves the behaviour open, as where a name is written past its buffer.
--
-- The log from which a subtree is loaded is a parameter: a function from record number and offset to
-- the node stored there. Numbers are natural numbers; the 32-bit arithmetic of byte indices wraps
-- where the source computes with them.
--
-- The way down through a log ends at entry number 0. The chunks in which an entry goes into the cache
-- take fuel, the number of its bytes, which is more than it has chunks.
--
-- Not modelled: the GDP library, FUSE, the local file system, and memory exhaustion in the index.
-- The functions of src/gdpfs_log.c on whole logs, which only call the library, the handlers that only
-- hand on to the files, and the bitmap files (src/bitmap_file.c, which are not compiled in) have no
-- model here. src/list.c is a copy of another project's library, and src/main.c parses options.
pub mod Base
pub mod Interval
pub mod Bitmap
pub mod Figtree
pub mod Stat
pub mod Dir
pub mod Log
pub mod File
pub mod Fuse
