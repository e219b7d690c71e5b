-- ===== src/Dir/Create.antt =====
-- src/gdpfs_dir.c: `gdpfs_dir_create_file_at_path` in the opened parent directory.
use gdpfs.Base.{ℕ, Bool, true, false, Option, none, some, if◌then◌else◌}
use gdpfs.Base.Prog.{Prog, give, call, ◌>>=◌}
use gdpfs.Stat.{Stat, is_ok}
use gdpfs.Dir.Entry.{Bytes}
use gdpfs.Dir.Files.{Files, FileType}
use gdpfs.Dir.Table.{Search, exists, vacant, damaged, find_insert_offset, add_at_offset}

-- The status, `*fh` where `gdpfs_file_create` was called, and `gname_if_exists` where it was set.
pub record Creation : Type 0 where
  pub estat : Stat
  pub handle : Option ℕ
  pub existing : Option Bytes

module _ (F : Files) where
  open F use {State, create, close}

  -- After `gdpfs_file_create`, given whether its status is OK.
  unfoldable pub enter_created :
      (dirfh offset : ℕ)
      → (file : Bytes) → (fine : Bool) → Stat
      → (fh : ℕ) → (gname : Bytes) → Prog State Creation
  enter_created dirfh offset file false estat fh gname =
      give (record { estat = estat; handle = some fh; existing = none })
  enter_created dirfh offset file true estat fh gname = do
    added ← add_at_offset F dirfh offset file gname
    tt ← call (λ s. (tt, close dirfh s))
    give (record {
      estat = if is_ok added then Stat.ok else added;
      handle = some fh;
      existing = none;
    })

  -- What is done with what the search found; a failure leaves the directory open.
  unfoldable pub create_found :
      (dirfh : ℕ) → (file : Bytes) → FileType → (perm : ℕ) → Search → Prog State Creation
  unfolding enter_created
  create_found dirfh file type perm (exists offset e) =
      give (record { estat = Stat.file_exists; handle = none; existing = some e.gname })
  create_found dirfh file type perm damaged =
      give (record { estat = Stat.corrupt; handle = none; existing = none })
  create_found dirfh file type perm (vacant offset) = do
    made ← call (create type perm)
    enter_created dirfh offset file (is_ok made.0) made.0 made.1 made.2

  -- `gdpfs_dir_create_file_at_path`, from where the parent directory is open
  unfoldable pub create_in :
      (fuel dirfh : ℕ) → (file : Bytes) → FileType → (perm : ℕ) → Prog State Creation
  unfolding find_insert_offset create_found
  create_in fuel dirfh file type perm = do
    found ← find_insert_offset F fuel dirfh file
    create_found dirfh file type perm found
