-- ===== src/Dir/Files.antt =====
-- What src/gdpfs_dir.c uses of src/gdpfs_file.h, as operations on a state, and what it relies on.
use gdpfs.Base.{ℕ, ◌≤◌, ◌≡◌, length, take, drop}
use gdpfs.Stat.{Stat}
use gdpfs.Dir.Entry.{Bytes, entry_size}

-- `gdpfs_file_type_t`
pub data FileType : Type 0 where
  regular dir new unknown : FileType

-- `gdpfs_file_info_t`
pub record Info : Type 0 where
  pub file_size : ℕ
  pub file_type : FileType
  pub file_perm : ℕ

-- A call returns its result and the state after it.
pub record Files : Type 1 where
  pub State : Type 0
  -- `gdpfs_file_read`: the bytes that it puts into the buffer; their number is its result
  pub read : (fh size offset : ℕ) → State → Bytes × State
  -- `gdpfs_file_write`
  pub write : (fh : ℕ) → Bytes → (offset : ℕ) → State → ℕ × State
  pub open_type : Bytes → FileType → State → (Stat × ℕ) × State
  pub close : ℕ → State → State
  -- `gdpfs_file_create`: its status, `*fhp` and `log_iname`
  pub create : FileType → (perm : ℕ) → State → (Stat × ℕ × Bytes) × State
  -- `gdpfs_file_open`
  pub open_any : Bytes → State → (Stat × ℕ) × State
  -- `gdpfs_file_gname` and `gdpfs_file_get_info`
  pub gname_of : ℕ → State → Bytes
  pub get_info : ℕ → State → Stat × Info
  pub set_perm : (fh perm : ℕ) → State → Stat × State

-- A handle that is read an entry at a time, each no further than the end: while it is open, its content is
-- what reads return parts of, and they do not change it.
pub record Reads (F : Files) (fh : ℕ) : Type 1 where
  pub Open : F.State → Type 0
  pub content : F.State → Bytes
  pub read_bytes :
      (offset : ℕ) (s : F.State)
      → Open s
      → offset ≤ length (content s)
      → (F.read fh entry_size offset s).0 ≡ take entry_size (drop offset (content s))
  pub read_keeps :
      (offset : ℕ) (s : F.State)
      → Open s
      → offset ≤ length (content s)
      → Open (F.read fh entry_size offset s).1
        × (content (F.read fh entry_size offset s).1 ≡ content s)
