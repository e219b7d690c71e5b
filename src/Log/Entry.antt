-- ===== src/Log/Entry.antt =====
-- src/gdpfs_log.c: the entries of a log, read from the log or from a file that caches one entry.
pub mod Laws
mod Tests
use gdpfs.Base.{
  ℕ, ◌+◌, ◌-◌, ◌≤◌, ◌≡◌, Bool, true, false, Option, none, some, List, [], ◌++◌, ◌==◌, not, ◌&&◌,
  if◌then◌else◌, length, take, drop,
}
use gdpfs.Stat.{Stat, is_ok}
use gdpfs.Dir.Entry.{Bytes}

-- What is used of the GDP library and of the local file system.
pub record Library : Type 1 where
  -- `gdp_buf_t`: its length, a read that takes bytes, a read that leaves them, and bytes dropped or
  -- added at its end, or a failure
  pub Buf : Type 0
  pub getlength : Buf → ℕ
  pub buf_read : (size : ℕ) → Buf → Bytes × Buf
  pub buf_peek : (size : ℕ) → Buf → Bytes × Buf
  pub buf_drain : (size : ℕ) → Buf → Bool × Buf
  pub buf_write : Bytes → Buf → Bool × Buf
  -- An open file: its size, a read at its position, the position, and a new position
  pub Fd : Type 0
  pub fd_size : Fd → ℕ
  pub fd_read : (size : ℕ) → Fd → Bytes × Fd
  pub tell : Fd → ℕ
  pub seek : (position : ℕ) → Fd → Fd
  -- Opened for reading, with a content.
  pub opened_fd : Bytes → Fd
  -- `gdp_gcl_read`: whether the entry is there, with the buffer that it fills
  pub Log : Type 0
  pub gcl_read : (recno : Option ℕ) → Log → Stat × Buf
  -- `EP_STAT_DETAIL(estat) == _GDP_CCODE_NOTFOUND`
  pub is_missing : Stat → Bool

-- The laws of the documented behaviour: a buffer and a file are bytes to read.
pub record LibraryLaws (B : Library) : Type 1 where
  pub contents : B.Buf → Bytes
  pub file_bytes : B.Fd → Bytes
  pub getlength_law : (b : B.Buf) → B.getlength b ≡ length (contents b)
  pub read_law :
      (n : ℕ) (b : B.Buf)
      → ((B.buf_read n b).0 ≡ take n (contents b))
        × (contents (B.buf_read n b).1 ≡ drop n (contents b))
  pub peek_law :
      (n : ℕ) (b : B.Buf)
      → ((B.buf_peek n b).0 ≡ take n (contents b)) × (contents (B.buf_peek n b).1 ≡ contents b)
  pub drain_law :
      (n : ℕ) (b : B.Buf)
      → n ≤ length (contents b)
      → ((B.buf_drain n b).0 ≡ true) × (contents (B.buf_drain n b).1 ≡ drop n (contents b))
  pub write_law :
      (bs : Bytes) (b : B.Buf)
      → (B.buf_write bs b).0 ≡ true
      → contents (B.buf_write bs b).1 ≡ contents b ++ bs
  pub fd_size_law : (f : B.Fd) → B.fd_size f ≡ length (file_bytes f)
  pub fd_read_law :
      (n : ℕ) (f : B.Fd)
      → ((B.fd_read n f).0 ≡ take n (drop (B.tell f) (file_bytes f)))
        × (file_bytes (B.fd_read n f).1 ≡ file_bytes f)
        × (B.tell (B.fd_read n f).1 ≡ B.tell f + length (B.fd_read n f).0)
  pub seek_law :
      (n : ℕ) (f : B.Fd) → (file_bytes (B.seek n f) ≡ file_bytes f) × (B.tell (B.seek n f) ≡ n)
  pub opened_law : (bs : Bytes) → (file_bytes (B.opened_fd bs) ≡ bs) × (B.tell (B.opened_fd bs) ≡ 0)

-- `gcl_mode`
pub data LogMode : Type 0 where
  read_only read_append append_only : LogMode

-- The cache file of an entry, where there is one.
pub data CacheFile : Type 0 where
  cache_file : Bytes → CacheFile
  no_cache_file : CacheFile

-- How the making of an entry fares: `gdp_datum_new` gives a datum, the new cache file is opened, and
-- all bytes are written to it.
pub record Making : Type 0 where
  pub datum_made : Bool
  pub file_opened : Bool
  pub file_written : Bool

module _ (B : Library) where
  open B use {
    Buf, getlength, buf_read, buf_peek, buf_drain, buf_write, Fd, fd_size, fd_read, tell, seek,
    opened_fd, Log, gcl_read, is_missing,
  }

  -- `gdpfs_log_ent_t`
  pub data LogEntry : Type 0 where
    in_datum : (recno : Option ℕ) → Buf → LogEntry
    in_cache : (recno : ℕ) → Fd → LogEntry

  -- `gdpfs_log_ent_length`
  unfoldable pub ent_length : LogEntry → ℕ
  ent_length (in_datum recno b) = getlength b
  ent_length (in_cache recno f) = fd_size f

  -- `gdpfs_log_ent_read` into a buffer
  unfoldable pub ent_read : (size : ℕ) → LogEntry → Bytes × LogEntry
  ent_read size (in_datum recno b) = let (bs, b') = buf_read size b in (bs, in_datum recno b')
  ent_read size (in_cache recno f) = let (bs, f') = fd_read size f in (bs, in_cache recno f')

  -- `gdpfs_log_ent_peek`
  unfoldable pub ent_peek : (size : ℕ) → LogEntry → Bytes × LogEntry
  ent_peek size (in_datum recno b) = let (bs, b') = buf_peek size b in (bs, in_datum recno b')
  ent_peek size (in_cache recno f) =
      let current = tell f in
      let (bs, f') = fd_read size f in (bs, in_cache recno (seek current f'))

  -- `gdpfs_log_ent_drain`: whether it succeeds
  unfoldable pub ent_drain : (size : ℕ) → LogEntry → Bool × LogEntry
  ent_drain size (in_datum recno b) = let (fine, b') = buf_drain size b in (fine, in_datum recno b')
  ent_drain size (in_cache recno f) = (true, in_cache recno (seek (tell f + size) f))

  -- `gdpfs_log_ent_write`; no result where its assertion fails
  unfoldable pub ent_write : Bytes → LogEntry → Option (Bool × LogEntry)
  ent_write bs (in_datum recno b) =
      let (fine, b') = buf_write bs b in some (fine, in_datum recno b')
  ent_write bs (in_cache recno f) = none

  -- The cache files of a log's entries, by their numbers.
  abbrev pub Caches : Type 0
  Caches = ℕ → CacheFile

  unfoldable pub set_cache : ℕ → CacheFile → Caches → Caches
  set_cache n c caches m = if m == n then c else caches m

  -- The status of a read of the log that failed.
  unfoldable pub read_error : Stat → Stat
  read_error estat = if is_missing estat then Stat.notfound else estat

  -- What was read of the log is the entry, or it is freed.
  unfoldable pub from_log : Option ℕ → Stat × Buf → Stat × Option LogEntry
  from_log recno (estat, b) =
      if is_ok estat then (estat, some (in_datum recno b)) else (read_error estat, none)

  -- The cache file was made before the log is read. It is filled, or stays empty where that fails; no
  -- result where an assertion fails.
  unfoldable pub fill_cache_file :
      Making → ℕ → Stat × Buf → Caches → Option ((Stat × Option LogEntry) × Caches)
  fill_cache_file m n (estat, b) caches =
      if is_ok estat
      then (let bs = (buf_read (getlength b) b).0 in
          if (length bs == getlength b) && m.file_written
          then some
              ((Stat.ok, some (in_cache n (opened_fd bs))), set_cache n (cache_file bs) caches)
          else none)
      else some ((read_error estat, none), set_cache n (cache_file []) caches)

  -- A cache file that is there is taken to be opened.
  unfoldable pub open_cached :
      Making → ℕ → CacheFile → Log → Caches → Option ((Stat × Option LogEntry) × Caches)
  unfolding fill_cache_file
  open_cached m n (cache_file bs) l caches =
      some ((Stat.ok, some (in_cache n (opened_fd bs))), caches)
  open_cached m n no_cache_file l caches =
      if not m.datum_made
      then some ((Stat.oomem, none), caches)
      else if not m.file_opened
      then none
      else fill_cache_file m n (gcl_read (some n) l) caches

  -- Without a cache file.
  unfoldable pub open_datum : Making → Option ℕ → Log → Stat × Option LogEntry
  unfolding from_log
  open_datum m recno l =
      if m.datum_made then from_log recno (gcl_read recno l) else (Stat.oomem, none)

  unfoldable pub open_numbered :
      Making
      → (bypass_cache : Bool) → Option ℕ
      → Log
      → Caches
      → Option ((Stat × Option LogEntry) × Caches)
  unfolding open_datum open_cached
  open_numbered m bypass_cache none l caches = some (open_datum m none l, caches)
  open_numbered m bypass_cache (some n) l caches =
      if bypass_cache
      then some (open_datum m (some n) l, caches)
      else open_cached m n (caches n) l caches

  -- `gdpfs_log_ent_open`; `none` is the last entry, -1
  unfoldable pub ent_open :
      Making
      → LogMode
      → (bypass_cache : Bool) → Option ℕ
      → Log
      → Caches
      → Option ((Stat × Option LogEntry) × Caches)
  unfolding open_numbered
  ent_open m append_only bypass_cache recno l caches = some ((Stat.badlogmode, none), caches)
  ent_open m read_only bypass_cache recno l caches = open_numbered m bypass_cache recno l caches
  ent_open m read_append bypass_cache recno l caches = open_numbered m bypass_cache recno l caches
