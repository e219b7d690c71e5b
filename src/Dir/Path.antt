-- ===== src/Dir/Path.antt =====
-- src/gdpfs_dir.c: from paths to directories, and the operations at paths.
pub mod Walk
use gdpfs.Base.{
  ℕ, zero, suc, ◌-◌, ◌^◌, Bool, true, false, List, [], ◌∷◌, ltb, ◌==◌, not, if◌then◌else◌, length,
}
use gdpfs.Base.Prog.{Prog, stuck, give, call, ◌>>=◌}
use gdpfs.Stat.{Stat, is_ok, is_file_exists, ep_ok}
use gdpfs.Dir.Entry.{Bytes, name_max}
use gdpfs.Dir.Files.{Files, FileType, Info}
use gdpfs.Dir.Table.{
  Search, exists, vacant, damaged, find_insert_offset, dir_remove, add_at_offset, is_empty, is_dir,
}
use gdpfs.Dir.Create.{Creation, create_in}

-- `'/'`
abbrev pub slash : ℕ
slash = 47

-- `-1`, as a file handle
abbrev pub no_handle : ℕ
no_handle = 2 ^ 64 - 1

-- The part of a path before the first slash, and the part from there on.
unfoldable pub component : Bytes → Bytes
component [] = []
component (c ∷ cs) = if c == slash then [] else c ∷ component cs

unfoldable pub behind : Bytes → Bytes
behind [] = []
behind (c ∷ cs) = if c == slash then c ∷ cs else behind cs

abbrev pub is_end : Bytes → Bool
is_end [] = true
is_end (c ∷ cs) = false

abbrev pub starts_with_slash : Bytes → Bool
starts_with_slash [] = false
starts_with_slash (c ∷ cs) = c == slash

-- The environment of the operations: the fuel for a search of a directory, the files, the log of
-- the root, and `dirname` and `basename`.
pub record System : Type 1 where
  pub fuel : ℕ
  pub files : Files
  pub root : Bytes
  pub dirname : Bytes → Bytes
  pub basename : Bytes → Bytes

module _ (system : System) where
  open system use {fuel, files, root, dirname, basename}
  open files use {State, open_type, close, open_any, gname_of, get_info}

  -- A component has been looked up in its directory.
  unfoldable pub enter :
      (onward : ℕ → Prog State (Stat × ℕ))
      → FileType
      → (last : Bool) → Search
      → Prog State (Stat × ℕ)
  enter onward type last (vacant offset) = give (Stat.badpath, no_handle)
  enter onward type last damaged = give (Stat.corrupt, no_handle)
  enter onward type last (exists offset e) = do
    (estat, fh) ← call (open_type e.gname (if last then type else FileType.dir))
    if is_ok estat then onward fh else give (estat, no_handle)

  -- A component of the path; one that is longer than the buffer for it is written past its end.
  unfoldable pub walk_component :
      (onward : ℕ → Prog State (Stat × ℕ))
      → FileType
      → (name : Bytes) → (last : Bool) → (fh : ℕ) → Prog State (Stat × ℕ)
  unfolding enter
  walk_component onward type name last fh = if ltb name_max (length name) then stuck else do
    found ← find_insert_offset files fuel fh name
    tt ← call (λ s. (tt, close fh s))
    enter onward type last found

  -- The loop of `gdpfs_dir_open_file_at_path`.
  unfoldable pub walk : (rounds : ℕ) → FileType → (path : Bytes) → (fh : ℕ) → Prog State (Stat × ℕ)
  walk zero type path fh = stuck
  walk (suc rounds) type [] fh = give (ep_ok, fh)
  walk (suc rounds) type (c ∷ cs) fh =
      if c == slash
      then walk rounds type cs fh
      else walk_component (walk rounds type (behind (c ∷ cs))) type (component (c ∷ cs))
          (is_end (behind (c ∷ cs))) fh

  -- `gdpfs_dir_open_file_at_path`: `*ret_stat` and the handle. A failed assertion gets stuck.
  unfoldable pub open_file_at_path : (path : Bytes) → FileType → Prog State (Stat × ℕ)
  open_file_at_path path type =
      if not (starts_with_slash path)
      then (if is_end path then from_root else give (Stat.badpath, no_handle))
      else from_root
    where
      from_root : Prog State (Stat × ℕ)
      from_root = do
        (estat, fh) ← call (open_type root FileType.dir)
        if not (is_ok estat)
            then give (estat, no_handle)
            else if fh == no_handle
            then stuck
            else walk (suc (length path)) type path fh

  -- `_open_parent_dir`, less the copy of the path, given whether that can be allocated: the status,
  -- the handle, and `*file`
  unfoldable pub open_parent_dir :
      (allocated : Bool) → (filepath : Bytes) → Prog State (Stat × ℕ × Bytes)
  unfolding open_file_at_path
  open_parent_dir allocated filepath =
      if not (starts_with_slash filepath)
      then give (Stat.badpath, no_handle, [])
      else if not allocated
      then give (Stat.oomem, no_handle, [])
      else do
        (estat, fh) ← open_file_at_path (dirname filepath) FileType.dir
        give (estat, fh, basename filepath)
