-- ===== src/File/Open.antt =====
-- `open_file` of src/gdpfs_file.c from where the file object is there: its type is checked or set,
-- and its index is made.
pub mod Laws
mod Tests
use gdpfs.Base.{ℕ, Bool, true, false, Option, none, some, [], ◌||◌, not, if◌then◌else◌}
use gdpfs.Stat.{Stat, is_ok}
use gdpfs.Dir.Files.{FileType, Info}
use gdpfs.Dir.AtPath.{same_type}
use gdpfs.File.Parts.{Platform}
use gdpfs.File.{File, get_info_raw, do_write}
use gdpfs.File.Replay.{open_index}

-- The information that a new file gets.
abbrev pub new_info : FileType → (perm : ℕ) → Info
new_info type perm = record { file_size = 0; file_type = type; file_perm = perm }

module _ (P : Platform) where
  -- The cached information is set, and goes into the log without data.
  unfoldable pub init_new : (entry_made : Bool) → Info → File P → File P
  unfolding do_write
  init_new entry_made info f =
      (do_write P entry_made [] 0 info (record f { info_cache = some info })).1

  -- With the information that the file has.
  unfoldable pub check_type :
      (entry_made : Bool)
      → FileType
      → (perm : ℕ) → (init strict_init : Bool) → Info
      → File P
      → Stat × File P
  unfolding init_new same_type
  check_type entry_made type perm init strict_init info f =
      if init
      then (if same_type info.file_type FileType.new
          then (Stat.ok, init_new entry_made (new_info type perm) f)
          else if same_type info.file_type FileType.unknown || strict_init
          then (Stat.invldftype, f)
          else (Stat.ok, f))
      else if same_type info.file_type type
      then (Stat.ok, f)
      else (Stat.invldftype, f)

  unfoldable pub mark_new : (strict_init : Bool) → File P → File P
  mark_new strict_init f = if strict_init then record f { new_file = true } else f

  unfoldable pub open_typed :
      (entry_made : Bool)
      → FileType
      → (perm : ℕ) → (init strict_init : Bool) → File P
      → Stat × File P
  unfolding get_info_raw check_type mark_new
  open_typed entry_made type perm init strict_init f =
      let f' = mark_new strict_init f in
      if same_type type FileType.unknown
      then (Stat.ok, f')
      else (let ((estat, info), f'') = get_info_raw P f' in
          if not (is_ok estat)
          then (estat, f'')
          else check_type entry_made type perm init strict_init info f'')

  -- The status and the file; no result where the program ends.
  unfoldable pub open_object :
      (entry_made : Bool)
      → FileType
      → (perm : ℕ) → (init strict_init : Bool) → File P
      → Option (Stat × File P)
  unfolding open_typed open_index
  open_object entry_made type perm init strict_init f =
      let (estat, f') = open_typed entry_made type perm init strict_init f in
      if not (is_ok estat)
      then some (estat, f')
      else elim (open_index P strict_init f') [ none ↦ none | some g ↦ some (Stat.ok, g) ]
