-- ===== src/Dir/Table.antt =====
-- The table of entries of a directory: the functions of src/gdpfs_dir.c that read and write it.
pub mod Layout
pub mod Find
pub mod Empty
use gdpfs.Base.{
  ℕ, zero, suc, ◌+◌, ◌≡◌, Bool, true, false, Option, none, some, List, [], ◌∷◌, ◌++◌, not, ◌&&◌,
  ◌==◌, if◌then◌else◌, length,
}
use gdpfs.Base.Prog.{Prog, stuck, give, call, ◌>>=◌}
use gdpfs.Stat
use gdpfs.Stat.{Stat, is_ok}
use gdpfs.Dir.Entry.{
  Bytes, name_max, entry_size, c_string, strncpy, same_bytes, PhysEntry, to_bytes, of_bytes,
}
use gdpfs.Dir.Files.{Files, FileType}

-- What a read of one entry gives: no bytes, a part of an entry, or an entry.
pub data Look : Type 0 where
  at_end broken : Look
  entry : PhysEntry → Look

unfoldable pub look_at : Bytes → Look
unfolding of_bytes
look_at bs =
    if length bs == 0
    then at_end
    else if length bs == entry_size
    then entry (of_bytes bs)
    else broken

-- What `_find_insert_offset` returns: `GDPFS_STAT_FILE_EXISTS` with the offset and the entry,
-- `GDPFS_STAT_OK` with an offset to insert at, or `GDPFS_STAT_CORRUPT`.
pub data Search : Type 0 where
  exists : ℕ → PhysEntry → Search
  vacant : ℕ → Search
  damaged : Search

abbrev pub status : Search → Stat
status (exists offset e) = Stat.file_exists
status (vacant offset) = Stat.ok
status damaged = Stat.corrupt

-- `insert_offset` and `insert_offset_set`
abbrev pub insert_at : Option ℕ → ℕ → ℕ
insert_at none offset = offset
insert_at (some first) offset = first

-- What `gdpfs_dir_read` returns: an entry's name with the offset behind it, or why there is none.
pub data Listed : Type 0 where
  listed : Bytes → ℕ → Listed
  finished : Listed
  broken_off : Listed

abbrev pub listed_status : Listed → Stat
listed_status (listed name offset) = Stat.ok
listed_status finished = Stat.eof
listed_status broken_off = Stat.corrupt

-- The status of `gdpfs_dir_isempty`, and `*isempty` where that is set.
unfoldable pub emptiness : Listed → Stat × Bool
emptiness r =
    if not (is_ok (listed_status r))
    then (listed_status r, false)
    else (Stat.ok, Stat.is_eof (listed_status r))

-- the status of a write of an entry
abbrev pub write_status : ℕ → Stat
write_status size =
    if size == 0 then Stat.rw_failed else if size == entry_size then Stat.ok else Stat.corrupt

-- the entry that `_add_at_offset` writes
unfoldable pub new_entry : (name gname : Bytes) → PhysEntry
unfolding strncpy
new_entry name gname = record {
  gname = gname;
  in_use = true;
  name = strncpy name name_max ++ (0 ∷ []);
}

abbrev pub is_dir : FileType → Bool
is_dir FileType.dir = true
is_dir _ = false

abbrev pub is_unknown : FileType → Bool
is_unknown FileType.unknown = true
is_unknown _ = false

module _ (F : Files) where
  open F use {State, read, write, open_type, close}

  -- One round of the loop of `_find_insert_offset`.
  unfoldable pub find_round :
      (name : Bytes)
      → (offset : ℕ) → (first : Option ℕ) → (onward : ℕ → Option ℕ → Prog State Search) → Look
      → Prog State Search
  unfolding c_string same_bytes
  find_round name offset first onward at_end = give (vacant (insert_at first offset))
  find_round name offset first onward broken = give damaged
  find_round name offset first onward (entry e) =
      if e.in_use
      then (if same_bytes (c_string e.name) name
          then give (exists offset e)
          else onward (offset + entry_size) first)
      else onward (offset + entry_size) (some (insert_at first offset))

  unfoldable pub find_from :
      (fuel fh : ℕ) → (name : Bytes) → (offset : ℕ) → (first : Option ℕ) → Prog State Search
  unfolding find_round look_at
  find_from zero fh name offset first = stuck
  find_from (suc fuel) fh name offset first = do
    bs ← call (read fh entry_size offset)
    find_round name offset first (find_from fuel fh name) (look_at bs)

  -- `_find_insert_offset`
  unfoldable pub find_insert_offset : (fuel fh : ℕ) → (name : Bytes) → Prog State Search
  unfolding find_from
  find_insert_offset fuel fh name = find_from fuel fh name 0 none

  -- `_add_at_offset`
  unfoldable pub add_at_offset : (fh offset : ℕ) → (name gname : Bytes) → Prog State Stat
  unfolding new_entry to_bytes
  add_at_offset fh offset name gname = do
    size ← call (write fh (to_bytes (new_entry name gname)) offset)
    give (write_status size)

  -- One round of the loop of `gdpfs_dir_read`.
  unfoldable pub read_round :
      (offset : ℕ) → (onward : ℕ → Prog State Listed) → Look → Prog State Listed
  unfolding c_string
  read_round offset onward at_end = give finished
  read_round offset onward broken = give broken_off
  read_round offset onward (entry e) =
      if e.in_use
      then give (listed (c_string e.name) (offset + entry_size))
      else onward (offset + entry_size)

  -- `gdpfs_dir_read`
  unfoldable pub dir_read : (fuel fh offset : ℕ) → Prog State Listed
  unfolding read_round look_at
  dir_read zero fh offset = stuck
  dir_read (suc fuel) fh offset = do
    bs ← call (read fh entry_size offset)
    read_round offset (dir_read fuel fh) (look_at bs)

  -- `gdpfs_dir_isempty`
  unfoldable pub is_empty : (fuel fh : ℕ) → Prog State (Stat × Bool)
  unfolding emptiness
  is_empty fuel fh = do r ← dir_read fuel fh 0; give (emptiness r)

  -- The check of the removed file's type in `gdpfs_dir_remove`, up to the last close; a status that
  -- is not OK ends the call.
  unfoldable pub check_emptiness : (fuel filefh : ℕ) → Prog State Stat
  unfolding is_empty
  check_emptiness fuel filefh = do
    (estat, empty) ← is_empty fuel filefh
    give (if not (is_ok estat) then estat else if not empty then Stat.dir_not_empty else estat)

  unfoldable pub check_removable : (fuel : ℕ) → (gname : Bytes) → FileType → Prog State Stat
  check_removable fuel gname type = if is_unknown type then give Stat.ok else do
    (estat, filefh) ← call (open_type gname type)
    if not (is_ok estat) then give estat else do
      estat' ← (if is_dir type then check_emptiness fuel filefh else give estat)
      tt ← call (λ s. (tt, close filefh s))
      give estat'

  -- What `gdpfs_dir_remove` does with what the search found.
  unfoldable pub remove_found : (fuel fh : ℕ) → FileType → Search → Prog State Stat
  unfolding to_bytes
  remove_found fuel fh type (vacant offset) = give Stat.ok
  remove_found fuel fh type damaged = give Stat.corrupt
  remove_found fuel fh type (exists offset e) = do
    estat ← check_removable fuel e.gname type
    if not (is_ok estat) then give estat else do
      size ← call (write fh (to_bytes (record e { in_use = false })) offset)
      give
          (if size == 0 then Stat.rw_failed else if size == entry_size then estat else Stat.corrupt)

  -- `gdpfs_dir_remove`
  unfoldable pub dir_remove : (fuel fh : ℕ) → (name : Bytes) → FileType → Prog State Stat
  unfolding find_insert_offset remove_found
  dir_remove fuel fh name type = do
    found ← find_insert_offset fuel fh name
    remove_found fuel fh type found
