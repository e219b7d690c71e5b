-- ===== src/Fuse.antt =====
-- src/gdpfs.c: the handlers of the FUSE operations.
pub mod Listing
pub mod Modes
mod Tests
use Prim.Native.Nat.{bit_and, bit_or}
use gdpfs.Base.{
  ℕ, zero, suc, ◌-◌, ◌%◌, ◌/◌, ◌^◌, Bool, true, false, Option, none, some, List, [], ◌∷◌, ◌&&◌,
  ◌||◌, ◌==◌, not, if◌then◌else◌,
}
use gdpfs.Base.Int.{ℤ, pos, negsuc}
use gdpfs.Base.Prog.{Prog, stuck, give, call, ◌>>=◌}
use gdpfs.Stat.{Stat, is_ok, is_file_exists, is_dir_exists, is_dir_not_empty}
use gdpfs.Dir.Entry.{Bytes}
use gdpfs.Dir.Files.{Files, FileType, Info}
use gdpfs.Dir.Create.{Creation}
use gdpfs.Dir.Path.{System, slash, no_handle, open_file_at_path}
use gdpfs.Dir.AtPath.{create_file_at_path, replace_file_at_path, remove_file_at_path}

-- Results: success, `-1`, and the negated error numbers of errno.h.
abbrev pub success : ℤ
success = pos 0

abbrev pub minus_one : ℤ
minus_one = negsuc 0

-- `-ENOENT`
abbrev pub no_entry : ℤ
no_entry = negsuc 1

-- `-EACCES`
abbrev pub no_access : ℤ
no_access = negsuc 12

-- `-ENOTDIR`
abbrev pub not_a_dir : ℤ
not_a_dir = negsuc 19

-- `-EISDIR`
abbrev pub is_a_dir : ℤ
is_a_dir = negsuc 20

-- `-ENOTEMPTY`
abbrev pub not_empty : ℤ
not_empty = negsuc 38

-- `gdpfs_file_mode_t`
pub data FileMode : Type 0 where
  ro rw wo : FileMode

-- `gdpfs_extract_perm`: `mode & (S_IRWXU | S_IRWXG | S_IRWXO)`
abbrev pub extract_perm : ℕ → ℕ
extract_perm mode = mode % 2 ^ 9

-- a permission bit of the owner: 8 to read, 7 to write, 6 to execute
abbrev pub owner_may : (bit perm : ℕ) → Bool
owner_may bit perm = perm / 2 ^ bit % 2 == 1

-- The type bits of `st_mode`: `S_IFREG`, `S_IFDIR`, or an error.
unfoldable pub type_bits : FileType → Option ℕ
type_bits FileType.regular = some (2 ^ 15)
type_bits FileType.dir = some (2 ^ 14)
type_bits FileType.new = none
type_bits FileType.unknown = none

-- `st_mode & ~mask` on 32 bits
abbrev pub without : (mask mode : ℕ) → ℕ
without mask mode = bit_and mode (2 ^ 32 - 1 - mask)

-- `S_IWUSR | S_IWGRP | S_IWOTH`, and the same for reading
abbrev pub write_mask : ℕ
write_mask = 146

abbrev pub read_mask : ℕ
read_mask = 292

unfoldable pub restrict_mode : FileMode → ℕ → ℕ
restrict_mode ro mode = without write_mask mode
restrict_mode rw mode = mode
restrict_mode wo mode = without read_mask mode

-- `st_mode`
unfoldable pub mode_of : FileMode → Info → Option ℕ
unfolding type_bits restrict_mode
mode_of fs_mode info = elim (type_bits info.file_type) [
  | none ↦ none
  | some bits ↦ some (restrict_mode fs_mode (bit_or bits info.file_perm))
]

-- `stbuf`, as far as it depends on the file
pub record Attributes : Type 0 where
  pub st_size : ℕ
  pub st_mode : ℕ

unfoldable pub attributes : FileMode → Stat × Info → ℤ × Option Attributes
unfolding mode_of
attributes fs_mode (estat, info) =
    if not (is_ok estat) then (no_entry, none) else elim (mode_of fs_mode info) [
      | none ↦ (no_entry, none)
      | some mode ↦ (success, some (record { st_size = info.file_size; st_mode = mode }))
    ]

-- The test of `_check_open_flags`, given the information on the file.
unfoldable pub may_open : Stat × Info → (flags : ℕ) → Bool
may_open (estat, info) flags =
    if not (is_ok estat)
    then false
    else if flags % 4 == 0
    then owner_may 8 info.file_perm
    else if flags % 4 == 1
    then owner_may 7 info.file_perm
    else if flags % 4 == 2
    then owner_may 8 info.file_perm && owner_may 7 info.file_perm
    else false

-- The test of `gdpfs_access`: the bits 2, 1 and 0 of the mode ask for reading, writing, executing.
unfoldable pub may_access : Stat × Info → (mode : ℕ) → Bool
may_access (estat, info) mode =
    is_ok estat
    && (not (mode / 4 % 2 == 1) || owner_may 8 info.file_perm)
    && (not (mode / 2 % 2 == 1) || owner_may 7 info.file_perm)
    && (not (mode % 2 == 1) || owner_may 6 info.file_perm)

-- the last byte of a path is a slash
unfoldable pub ends_with_slash : Bytes → Bool
ends_with_slash [] = false
ends_with_slash (c ∷ []) = c == slash
ends_with_slash (c ∷ (d ∷ cs)) = ends_with_slash (d ∷ cs)

abbrev pub is_empty_path : Bytes → Bool
is_empty_path [] = true
is_empty_path (c ∷ cs) = false

-- the result of `gdpfs_rename` where the replacement failed
unfoldable pub rename_error : Stat → ℤ
rename_error estat =
    if is_file_exists estat
    then not_a_dir
    else if is_dir_exists estat
    then is_a_dir
    else if is_dir_not_empty estat
    then not_empty
    else no_entry

unfoldable pub rmdir_result : Stat → ℤ
rmdir_result estat =
    if is_dir_not_empty estat then not_empty else if not (is_ok estat) then no_entry else success

abbrev pub ok_or_no_entry : Stat → ℤ
ok_or_no_entry estat = if not (is_ok estat) then no_entry else success

module _ (system : System) (fs_mode : FileMode) where
  open system use {files}
  open files use {State, open_type, close, get_info, set_perm}

  -- `_open`: the result and the handle
  unfoldable pub open_path : (path : Bytes) → FileType → Prog State (ℤ × ℕ)
  unfolding open_file_at_path
  open_path path type = do
    (estat, fh) ← open_file_at_path system path type
    give (ok_or_no_entry estat, fh)

  -- a call of `gdpfs_file_close`
  abbrev pub closing : (fh : ℕ) → ℤ → Prog State ℤ
  closing fh result = do tt ← call (λ s. (tt, close fh s)); give result

  -- `gdpfs_getattr`
  unfoldable pub getattr : (path : Bytes) → Prog State (ℤ × Option Attributes)
  unfolding open_file_at_path attributes
  getattr path = do
    (estat, fh) ← open_file_at_path system path FileType.unknown
    if not (is_ok estat) then give (no_entry, none) else do
      info ← call (λ s. (get_info fh s, s))
      tt ← call (λ s. (tt, close fh s))
      give (attributes fs_mode info)

  -- `gdpfs_open`, and `gdpfs_opendir` for the type of directories: the result and `fi->fh`
  unfoldable pub open_handler : (path : Bytes) → FileType → (flags : ℕ) → Prog State (ℤ × ℕ)
  unfolding open_path may_open
  open_handler path type flags = do
    (estat, fh) ← open_file_at_path system path type
    if not (is_ok estat) then give (no_entry, fh) else do
      info ← call (λ s. (get_info fh s, s))
      if may_open info flags
          then give (success, fh)
          else do result ← closing fh no_access; give (result, fh)

  -- `gdpfs_create`: the result, and `fi->fh` where that is set
  unfoldable pub create_handler :
      (allocated : Bool) → (filepath : Bytes) → (mode : ℕ) → Prog State (ℤ × Option ℕ)
  unfolding create_file_at_path
  create_handler allocated filepath mode =
      if is_empty_path filepath
      then give (no_entry, none)
      else if ends_with_slash filepath
      then give (is_a_dir, none)
      else do
        made ←
            create_file_at_path system allocated true filepath FileType.regular (extract_perm mode)
        if not (is_file_exists made.estat)
            then give (ok_or_no_entry made.estat, if is_ok made.estat then made.handle else none)
            else elim made.existing [
              | none ↦ stuck
              | some g ↦ do
                (estat, fh) ← call (open_type g FileType.regular)
                give (ok_or_no_entry estat, if is_ok estat then some fh else none)
            ]

  -- `gdpfs_mkdir`
  unfoldable pub mkdir : (allocated : Bool) → (filepath : Bytes) → (mode : ℕ) → Prog State ℤ
  unfolding create_file_at_path
  mkdir allocated filepath mode = if is_empty_path filepath then give no_entry else do
    made ← create_file_at_path system allocated false filepath FileType.dir (extract_perm mode)
    give (ok_or_no_entry made.estat)

  -- `gdpfs_unlink`
  unfoldable pub unlink : (allocated : Bool) → (filepath : Bytes) → Prog State ℤ
  unfolding remove_file_at_path
  unlink allocated filepath = if is_empty_path filepath then give no_entry else do
    estat ← remove_file_at_path system allocated filepath FileType.regular
    give (ok_or_no_entry estat)

  -- `gdpfs_rmdir`
  unfoldable pub rmdir : (allocated : Bool) → (filepath : Bytes) → Prog State ℤ
  unfolding remove_file_at_path rmdir_result
  rmdir allocated filepath = if is_empty_path filepath then give no_entry else do
    estat ← remove_file_at_path system allocated filepath FileType.dir
    give (rmdir_result estat)

  -- `gdpfs_rename`
  unfoldable pub rename : (allocated : Bool) → (filepath1 filepath2 : Bytes) → Prog State ℤ
  unfolding open_file_at_path replace_file_at_path remove_file_at_path rename_error
  rename allocated filepath1 filepath2 = do
    (opened, fh) ← open_file_at_path system filepath1 FileType.unknown
    if not (is_ok opened) then give no_entry else do
      estat ← replace_file_at_path system allocated fh filepath2
      tt ← call (λ s. (tt, close fh s))
      if not (is_ok estat) then give (rename_error estat) else do
        estat' ← remove_file_at_path system allocated filepath1 FileType.unknown
        give (ok_or_no_entry estat')

  -- `gdpfs_access`
  unfoldable pub access : (filepath : Bytes) → (mode : ℕ) → Prog State ℤ
  unfolding open_file_at_path may_access
  access filepath mode = do
    (opened, fh) ← open_file_at_path system filepath FileType.unknown
    if not (is_ok opened) then give minus_one else do
      info ← call (λ s. (get_info fh s, s))
      closing fh (if may_access info mode then success else minus_one)

  -- `gdpfs_chmod`
  unfoldable pub chmod : (filepath : Bytes) → (mode : ℕ) → Prog State ℤ
  unfolding open_file_at_path
  chmod filepath mode = do
    (opened, fh) ← open_file_at_path system filepath FileType.unknown
    if not (is_ok opened)
        then give no_entry
        else do estat ← call (set_perm fh (extract_perm mode)); closing fh success
