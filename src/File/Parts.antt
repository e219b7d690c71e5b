-- ===== src/File/Parts.antt =====
-- What a file of src/gdpfs_file.c is made of: the records of its log, and what it uses of the log
-- (src/gdpfs_log.c over the GDP library), of the index (src/figtree) and of the local file system.
use gdpfs.Base.{ℕ, Bool, Option, List, ◌==◌, length}
use gdpfs.Stat.{Stat}
use gdpfs.Dir.Entry.{Bytes}
use gdpfs.Dir.Files.{FileType}

-- `gdpfs_logent_type_t`
pub data EntryType : Type 0 where
  content chkpt : EntryType

-- `gdpfs_fmeta_t`, less the magic number, which is written and never read
pub record Meta : Type 0 where
  pub file_size : ℕ
  pub file_perm : ℕ
  pub file_type : FileType
  pub logent_type : EntryType
  pub ent_offset : ℕ
  pub ent_size : ℕ

-- A record of the log: the struct, and the bytes behind it.
pub record Record : Type 0 where
  pub meta : Meta
  pub payload : Bytes

-- `data_size == sizeof(gdpfs_fmeta_t) + entry.ent_size`
abbrev pub is_intact : Record → Bool
is_intact r = length r.payload == r.meta.ent_size

-- What opening a log entry and reading the struct gives: there is no such entry, an error, an entry
-- that is shorter than the struct, or the number of the entry and its record.
pub data Fetch : Type 0 where
  absent : Fetch
  unreadable : Stat → Fetch
  short : Fetch
  fetched : (recno : ℕ) → Record → Fetch

-- `struct fig`: bytes from `left` to `right` are in the record `value`.
pub record Fig : Type 0 where
  pub left : ℕ
  pub right : ℕ
  pub value : ℕ

pub record Platform : Type 1 where
  -- the log, with the appends that are under way: `gdpfs_log_append` with a callback, whose status is that
  -- of handing the record over, while that of the append itself is told to the callback; and `gdpfs_log_ent_open` of the last entry and of a numbered one
  pub Log : Type 0
  pub append : Record → Log → Stat × Log
  pub latest : Log → Fetch
  pub fetch : (recno : ℕ) → Log → Fetch
  -- the index: `ft_init`, `ft_write`, the figs that `ft_read` and `fti_next` give, and
  -- `ft_init_with_root` of the last node of a checkpoint
  pub Tree : Type 0
  pub ft_init : Tree
  pub ft_write : (start end value : ℕ) → Tree → Tree
  pub figs : (start end : ℕ) → Tree → List Fig
  pub restored : Record → Tree
  pub node_size : ℕ
  -- `get_dirty`: the changed nodes, as they are stored under the number of a record, and the index
  -- with none changed; no result where its assertion on a child that is not in memory fails
  pub get_dirty : (recno : ℕ) → Tree → Option (Bytes × Tree)
  -- the file of the cache: a write of all the bytes at an offset, or its failure; a read; and
  -- `lseek` to the next hole
  pub Local : Type 0
  pub pwrite : Bytes → (offset : ℕ) → Local → Bool × Local
  pub pread : (size offset : ℕ) → Local → Bytes
  pub next_hole : (offset : ℕ) → Local → Option ℕ
  pub use_cache : Bool
  -- what `gdpfs_log_ent_recno` reads in an entry that could not be opened
  pub freed_recno : ℕ
