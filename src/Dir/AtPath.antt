-- ===== src/Dir/AtPath.antt =====
-- src/gdpfs_dir.c: the creation, the replacement and the removal of a file at a path.
use gdpfs.Base.{ℕ, Bool, true, false, Option, none, some, not, if◌then◌else◌}
use gdpfs.Base.Prog.{Prog, stuck, give, call, ◌>>=◌}
use gdpfs.Stat.{Stat, is_ok}
use gdpfs.Dir.Entry.{Bytes}
use gdpfs.Dir.Files.{FileType, Info}
use gdpfs.Dir.Table.{
  Search, exists, vacant, damaged, find_insert_offset, dir_remove, add_at_offset, is_empty, is_dir,
}
use gdpfs.Dir.Create.{Creation, create_in}
use gdpfs.Dir.Path.{System, open_parent_dir}

-- equality of types
unfoldable pub same_type : FileType → FileType → Bool
same_type FileType.regular FileType.regular = true
same_type FileType.dir FileType.dir = true
same_type FileType.new FileType.new = true
same_type FileType.unknown FileType.unknown = true
same_type _ _ = false

-- The status where the types of the two files differ, given the type of the existing one.
unfoldable pub other_type : FileType → Stat
other_type FileType.regular = Stat.file_exists
other_type FileType.dir = Stat.dir_exists
other_type FileType.new = Stat.dir_exists
other_type FileType.unknown = Stat.dir_exists

module _ (system : System) where
  open system use {fuel, files}
  open files use {State, close, open_any, gname_of, get_info}

  -- A creation that finds the name copies the log's name, through a null pointer where the caller
  -- passes one.
  unfoldable pub copy_existing : (wants_gname : Bool) → Creation → Prog State Creation
  copy_existing true c = give c
  copy_existing false c = elim c.existing [ none ↦ give c | some g ↦ stuck ]

  -- `gdpfs_dir_create_file_at_path`; `wants_gname`: `gname_if_exists` is not `NULL`
  unfoldable pub create_file_at_path :
      (allocated wants_gname : Bool)
      → (filepath : Bytes) → FileType
      → (perm : ℕ) → Prog State Creation
  unfolding open_parent_dir create_in copy_existing
  create_file_at_path allocated wants_gname filepath type perm = do
    (estat, dirfh, file) ← open_parent_dir system allocated filepath
    if not (is_ok estat)
        then give (record { estat = estat; handle = none; existing = none })
        else do made ← create_in files fuel dirfh file type perm; copy_existing wants_gname made

  -- The checks of `gdpfs_dir_replace_file_at_path` on the opened existing file: an error status, or
  -- whether the entry may be replaced.
  unfoldable pub check_replaced :
      (type : FileType) → (fh2 : ℕ) → Stat × Info → Prog State (Option Stat)
  unfolding same_type other_type is_empty
  check_replaced type fh2 (estat, info) =
      if not (is_ok estat)
      then give (some estat)
      else if not (same_type type info.file_type)
      then give (some (other_type info.file_type))
      else if is_dir info.file_type
      then (do
        (estat', empty) ← is_empty files fuel fh2
        give (
            if not (is_ok estat')
            then some estat'
            else if not empty
            then some Stat.dir_not_empty
            else none))
      else give none

  -- `_add_at_offset` and the status after it
  unfoldable pub enter_replacement : (dirfh offset : ℕ) → (file gname : Bytes) → Prog State Stat
  unfolding add_at_offset
  enter_replacement dirfh offset file gname = do
    estat ← add_at_offset files dirfh offset file gname
    give (if not (is_ok estat) then estat else Stat.ok)

  -- After the checks the existing file is closed.
  unfoldable pub after_checks : (fh2 : ℕ) → Prog State Stat → Option Stat → Prog State Stat
  after_checks fh2 onward failure = do
    tt ← call (λ s. (tt, close fh2 s))
    elim failure [ some estat ↦ give estat | none ↦ onward ]

  unfoldable pub replace_found :
      (dirfh : ℕ) → (file gname : Bytes) → (type : FileType) → Search → Prog State Stat
  unfolding check_replaced after_checks enter_replacement
  replace_found dirfh file gname type damaged = give Stat.corrupt
  replace_found dirfh file gname type (vacant offset) = enter_replacement dirfh offset file gname
  replace_found dirfh file gname type (exists offset e) = do
    (estat, fh2) ← call (open_any e.gname)
    if not (is_ok estat) then give estat else do
      info ← call (λ s. (get_info fh2 s, s))
      failure ← check_replaced type fh2 info
      after_checks fh2 (enter_replacement dirfh offset file gname) failure

  -- `gdpfs_dir_replace_file_at_path`; the parent directory stays open
  unfoldable pub replace_file_at_path :
      (allocated : Bool) → (fh : ℕ) → (filepath2 : Bytes) → Prog State Stat
  unfolding open_parent_dir find_insert_offset replace_found
  replace_file_at_path allocated fh filepath2 = do
    gname ← call (λ s. (gname_of fh s, s))
    (estat, info) ← call (λ s. (get_info fh s, s))
    if not (is_ok estat) then give estat else do
      (estat', dirfh, file) ← open_parent_dir system allocated filepath2
      if not (is_ok estat') then give estat' else do
        found ← find_insert_offset files fuel dirfh file
        replace_found dirfh file gname info.file_type found

  -- `gdpfs_dir_remove_file_at_path`
  unfoldable pub remove_file_at_path :
      (allocated : Bool) → (filepath : Bytes) → FileType → Prog State Stat
  unfolding open_parent_dir dir_remove
  remove_file_at_path allocated filepath type = do
    (estat, fh, file) ← open_parent_dir system allocated filepath
    if not (is_ok estat) then give estat else do
      estat' ← dir_remove files fuel fh file type
      tt ← call (λ s. (tt, close fh s))
      give estat'
