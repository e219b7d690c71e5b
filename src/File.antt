-- ===== src/File.antt =====
-- src/gdpfs_file.c: a file is a log of records, an index of them, and a local cache. Its functions
-- on one file object, whose locks are held throughout each.
pub mod Parts
pub mod Replay
pub mod Checkpoint
pub mod Open
pub mod OpenFiles
pub mod Handles
pub mod RoundTrip
pub mod DirReads
pub mod Submitted
pub mod Described
pub mod Simple
pub mod Samples
mod Tests
use gdpfs.Base.{
  ℕ, zero, suc, ◌+◌, ◌-◌, ◌%◌, ◌^◌, Bool, true, false, Option, none, some, List, [], ◌∷◌, ◌++◌,
  ◌==◌, ltb, leb, not, ◌&&◌, if◌then◌else◌, max, length, take, drop, replicate,
}
use gdpfs.Base.Prog.{Prog, stuck, give, call, ◌>>=◌}
use gdpfs.Stat.{Stat, is_ok}
use gdpfs.Dir.Entry.{Bytes}
use gdpfs.Dir.Files.{FileType, Info}
use gdpfs.File.Parts.{
  EntryType, content, chkpt, Meta, Record, is_intact, Fetch, absent, unreadable, short, fetched,
  Fig, Platform,
}

-- `byte_index_t` of the index has 32 bits.
abbrev pub index_of : ℕ → ℕ
index_of offset = offset % 2 ^ 32

-- `_file_load_info_cache`: the status, and the information that is set.
unfoldable pub load_info : Fetch → Stat × Info
load_info absent = (Stat.ok, record { file_size = 0; file_type = FileType.new; file_perm = 0 })
load_info (unreadable estat) =
    (estat, record { file_size = 0; file_type = FileType.unknown; file_perm = 0 })
load_info short =
    (Stat.corrupt, record { file_size = 0; file_type = FileType.unknown; file_perm = 0 })
load_info (fetched recno r) = (
  Stat.ok,
  record {
    file_size = r.meta.file_size;
    file_type = r.meta.file_type;
    file_perm = r.meta.file_perm;
  },
)

-- The metadata of a record of data.
unfoldable pub meta_of : Info → (offset size : ℕ) → Meta
meta_of info offset size = record {
  file_size = info.file_size;
  file_perm = info.file_perm;
  file_type = info.file_type;
  logent_type = content;
  ent_offset = offset;
  ent_size = size;
}

-- The bytes written into the buffer at a position; none where that is outside it.
unfoldable pub put : (buf : Bytes) → (position : ℕ) → Bytes → Option Bytes
put buf position bs =
    if leb (position + length bs) (length buf)
    then some (take position buf ++ (bs ++ drop (position + length bs) buf))
    else none

-- Goes on with the buffer, where the program has not ended.
abbrev pub and_then : {A : Type 0} → Option A → (A → Option A) → Option A
and_then none onward = none
and_then (some a) onward = onward a

module _ (P : Platform) where
  open P use {
    Log, append, latest, fetch, Tree, ft_write, figs, Local, pwrite, pread, next_hole, use_cache,
  }

  -- `gdpfs_file_t`, less its locks and handles; `info_cache` is `none` where it is not valid.
  pub record File : Type 0 where
    pub log_handle : Log
    pub figtree : Tree
    pub figtree_initialized : Bool
    pub cache_file : Local
    pub new_file : Bool
    pub info_cache : Option Info
    pub last_recno : ℕ
    pub ref_count : ℕ
    pub outstanding_reqs : ℕ
    pub index_flush_reqs : ℕ

  -- `gdpfs_file_fill_cache`, which is called with `overwrite`
  unfoldable pub fill_cache : Bytes → (offset : ℕ) → File → Stat × File
  fill_cache buffer offset f =
      if not use_cache
      then (Stat.invldmode, f)
      else (let (written, cache) = pwrite buffer offset f.cache_file in
          (if written then Stat.ok else Stat.oomem, record f { cache_file = cache }))

  -- `_file_get_info_raw`, given `info_cache`; where it fails `*info` is not set.
  unfoldable pub info_from : Option Info → File → (Stat × Info) × File
  unfolding load_info
  info_from (some info) f = ((Stat.ok, info), f)
  info_from none f =
      let (estat, info) = load_info (latest f.log_handle) in
      ((estat, info), if is_ok estat then record f { info_cache = some info } else f)

  unfoldable pub get_info_raw : File → (Stat × Info) × File
  unfolding info_from
  get_info_raw f = info_from f.info_cache f

  -- The file after the cache has been filled, where there is one.
  abbrev pub cache_written : Bytes → (offset : ℕ) → File → File
  cache_written buf offset f = if use_cache then (fill_cache buf offset f).1 else f

  -- The new number, and the index with the bytes that are written, where there are any.
  unfoldable pub index_written : (size offset : ℕ) → File → File
  index_written size offset f = record f {
    last_recno = f.last_recno + 1;
    figtree =
        if ltb 0 size
        then ft_write (index_of offset) (index_of (offset + size - 1)) (f.last_recno + 1) f.figtree
        else f.figtree;
  }

  -- `gdpfs_log_append` hands the record over, with `free_fileref` as its callback, and tells what `do_write`
  -- returns. Where the append fails later, `free_fileref` learns of it (`append_finished`).
  unfoldable pub record_appended : Record → (size : ℕ) → File → ℕ × File
  record_appended r size f =
      let (estat, log) = append r f.log_handle in
      (if is_ok estat then size else 0, record f { log_handle = log })

  -- `do_write` of an open file; `entry_made` is the outcome of making the log entry.
  unfoldable pub do_write : (entry_made : Bool) → Bytes → (offset : ℕ) → Info → File → ℕ × File
  unfolding fill_cache index_written record_appended meta_of
  do_write entry_made buf offset info f =
      let size = length buf in
      if not entry_made
      then (0, f)
      else record_appended (record { meta = meta_of info offset size; payload = buf }) size
          (index_written size offset (
            cache_written buf offset (record f {
              ref_count = f.ref_count + 1;
              outstanding_reqs = f.outstanding_reqs + 1;
            })))

  -- The counts after `free_fileref` has run for an append, whatever its status, which is only logged; the
  -- reference is given up with `_file_unref`.
  unfoldable pub append_finished : File → File
  append_finished f = record f { outstanding_reqs = f.outstanding_reqs - 1 }

  -- `gdpfs_file_write`: the size is kept in the cached information, to which `info` points.
  unfoldable pub file_write : (entry_made : Bool) → Bytes → (offset : ℕ) → File → ℕ × File
  unfolding get_info_raw do_write
  file_write entry_made buf offset f =
      let ((estat, info), f') = get_info_raw f in
      if not (is_ok estat)
      then (0, f')
      else (let larger = record info {
        file_size = max info.file_size ((offset + length buf) % 2 ^ 64);
      } in
          do_write entry_made buf offset larger (record f' { info_cache = some larger }))

  -- `gdpfs_file_ftruncate`, which sets the size to 0 whatever `file_size` is
  unfoldable pub file_ftruncate : (entry_made : Bool) → (file_size : ℕ) → File → ℕ × File
  unfolding get_info_raw do_write
  file_ftruncate entry_made file_size f =
      let ((estat, info), f') = get_info_raw f in
      if not (is_ok estat)
      then (0, f')
      else (let empty = record info { file_size = 0 } in
          do_write entry_made [] 0 empty (record f' { info_cache = some empty }))

  -- `gdpfs_file_set_perm`
  unfoldable pub file_set_perm : (entry_made : Bool) → (perm : ℕ) → File → Stat × File
  unfolding get_info_raw do_write
  file_set_perm entry_made perm f =
      let ((estat, info), f') = get_info_raw f in
      if not (is_ok estat)
      then (estat, f')
      else (let changed = record info { file_perm = perm } in
          (Stat.ok, (do_write entry_made [] 0 changed (record f' { info_cache = some changed })).1))

  -- `gdpfs_file_set_info`
  unfoldable pub file_set_info : (entry_made : Bool) → Info → File → Stat × File
  unfolding do_write
  file_set_info entry_made info f = (Stat.ok, (do_write entry_made [] 0 info f).1)

  -- `gdpfs_file_get_cache`: the bytes, on a hit. Whether there is a hit is told by the next hole of
  -- the cache, but for a new file.
  unfoldable pub cache_hit : (size offset : ℕ) → File → Bool
  cache_hit size offset f = if f.new_file then true else elim (next_hole offset f.cache_file) [
    | none ↦ false
    | some hole ↦ leb (offset + size) hole
  ]

  unfoldable pub get_cache : (size offset : ℕ) → File → Option Bytes
  unfolding cache_hit
  get_cache size offset f =
      if not use_cache
      then none
      else if not f.new_file && (size == 0)
      then some []
      else if not (cache_hit size offset f)
      then none
      else (let bs = pread size offset f.cache_file in if length bs == size then some bs else none)

  -- The bytes from `left` on that an entry of the log has, where they are as many as `size`: else an
  -- assertion fails.
  unfoldable pub entry_bytes : (left size : ℕ) → Fetch → Option Bytes
  entry_bytes left size absent = none
  entry_bytes left size (unreadable estat) = none
  entry_bytes left size short = none
  entry_bytes left size (fetched recno r) =
      if not (is_intact r)
      then none
      else if ltb left r.meta.ent_offset
      then none
      else (let bs = take size (drop (left - r.meta.ent_offset) r.payload) in
          if length bs == size then some bs else none)

  -- A fig's bytes, copied into the buffer, which holds the bytes from `offset` on.
  unfoldable pub copy_fig : (offset : ℕ) → Fig → File → Bytes → Option Bytes
  unfolding get_cache entry_bytes put
  copy_fig offset g f buf =
      let size = g.right - g.left + 1 in
      if ltb g.left offset
      then none
      else elim (if g.value == 0
          then get_cache size g.left f
          else entry_bytes g.left size (fetch g.value f.log_handle)) [
            | none ↦ none
            | some bs ↦ put buf (g.left - offset) bs
          ]

  unfoldable pub copy_figs : (offset : ℕ) → List Fig → File → Bytes → Option Bytes
  copy_figs offset [] f buf = some buf
  copy_figs offset (g ∷ gs) f buf =
      and_then (copy_fig offset g f buf) (λ buf'. copy_figs offset gs f buf')

  -- A read that misses the cache: through the index, and into the cache.
  unfoldable pub read_log : (size offset : ℕ) → Prog File Bytes
  unfolding copy_figs copy_fig fill_cache
  read_log size offset f =
      if size == 0
      then some ([], f)
      else elim (copy_figs offset (figs (index_of offset) (index_of (offset + size - 1)) f.figtree)
          f (replicate size 0)) [ none ↦ none | some buf ↦ some (buf, (fill_cache buf offset f).1) ]

  -- The size that is left of a read within the file; none where it begins past the end.
  unfoldable pub clipped : (file_size size offset : ℕ) → Option ℕ
  clipped file_size size offset =
      if ltb file_size ((size + offset) % 2 ^ 64)
      then (if ltb file_size offset then none else some (file_size - offset))
      else some size

  unfoldable pub read_clipped : (offset : ℕ) → Option ℕ → Prog File Bytes
  unfolding get_cache read_log
  read_clipped offset none f = some ([], f)
  read_clipped offset (some size) f = elim (get_cache size offset f) [
    | some bs ↦ some (bs, f)
    | none ↦ read_log size offset f
  ]

  -- `do_read`: the bytes that it puts into the buffer; their number is its result.
  unfoldable pub do_read : (size offset : ℕ) → Prog File Bytes
  unfolding get_info_raw clipped read_clipped
  do_read size offset f =
      let ((estat, info), f') = get_info_raw f in
      if not (is_ok estat)
      then some ([], f')
      else read_clipped offset (clipped info.file_size size offset) f'
