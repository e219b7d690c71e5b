-- ===== src/File/RoundTrip.antt =====
-- What `gdpfs_file_write` of src/gdpfs_file.c writes is read again through the cache.
use gdpfs.Base.{
  ℕ, ◌+◌, ◌%◌, ◌^◌, ◌<◌, ◌≡◌, refl, ap, ◌∙◌, true, none, some, arith, ◌==◌, max, length,
}
use gdpfs.Dir.Entry.{Bytes}
use gdpfs.Dir.Files.{Info}
use gdpfs.File.Parts.{Platform}
use gdpfs.File.{
  File, fill_cache, index_written, record_appended, do_write, file_write, cache_hit, get_cache,
  read_log, clipped, read_clipped, do_read,
}
use gdpfs.File.Submitted.{get_info_raw-known}

module _ (P : Platform) where
  open P use {use_cache, pwrite, pread}

  abbrev larger : Bytes → (offset : ℕ) → Info → Info
  larger buf offset info = record info {
    file_size = max info.file_size ((offset + length buf) % 2 ^ 64);
  }

  -- The file after a write through the cache.
  record Cached (buf : Bytes) (offset : ℕ) (info : Info) (f g : File P) : Type 0 where
    info_cache : g.info_cache ≡ some (larger buf offset info)
    new_file : g.new_file ≡ f.new_file
    cache_file : g.cache_file ≡ (pwrite buf offset f.cache_file).1

  file_write-Cached :
      (buf : Bytes) (offset : ℕ) (info : Info) (f : File P)
      → use_cache ≡ true
      → f.info_cache ≡ some info
      → Cached buf offset info f (file_write P true buf offset f).1
  unfolding file_write do_write record_appended index_written fill_cache
  file_write-Cached buf offset info f cached known =
      rw (get_info_raw-known P info f known, cached)
        (record { info_cache = refl; new_file = refl; cache_file = refl })

  -- A new file is taken to be in the cache as a whole.
  pub get_cache-hit :
      (buf : Bytes) (offset : ℕ) (f : File P)
      → use_cache ≡ true
      → f.new_file ≡ true
      → pread (length buf) offset f.cache_file ≡ buf
      → get_cache P (length buf) offset f ≡ some buf
  unfolding get_cache cache_hit
  get_cache-hit buf offset f cached fresh there = rw (cached, fresh, there, same (length buf)) refl
    where
      same : (n : ℕ) → (n == n) ≡ true
      same n = ground arith

  pub read_clipped-hit :
      (size offset : ℕ) (bs : Bytes) (f : File P)
      → get_cache P size offset f ≡ some bs
      → read_clipped P offset (some size) f ≡ some (bs, f)
  unfolding read_clipped
  read_clipped-hit size offset bs f e =
      ap (λ o. elim o [ some bs ↦ some (bs, f) | none ↦ read_log P size offset f ]) e

  clipped-whole :
      (size offset file_size : ℕ)
      → offset + size < 2 ^ 64
      → clipped P (max file_size ((offset + size) % 2 ^ 64)) size offset ≡ some size
  unfolding clipped
  clipped-whole size offset file_size h = ground (arith, h)

  -- With the cache in use, and the log entry made, what `gdpfs_file_write` writes to a new file whose
  -- information is known, within the first 2^64 bytes, is what `do_read` then gives of the same range,
  -- where the file of the cache gives the bytes that were written to it; whether the log takes the
  -- record makes no difference.
  pub do_read-file_write :
      (buf : Bytes) (offset : ℕ) (info : Info) (f : File P)
      → use_cache ≡ true
      → f.new_file ≡ true
      → f.info_cache ≡ some info
      → offset + length buf < 2 ^ 64
      → pread (length buf) offset (pwrite buf offset f.cache_file).1 ≡ buf
      → do_read P (length buf) offset (file_write P true buf offset f).1
        ≡ some (buf, (file_write P true buf offset f).1)
  unfolding do_read
  do_read-file_write buf offset info f cached fresh known within there =
      let g = (file_write P true buf offset f).1 in
      let c = file_write-Cached buf offset info f cached known in
      rw
        (
          get_info_raw-known P (larger buf offset info) g c.info_cache,
          clipped-whole (length buf) offset info.file_size within,
        )
        (read_clipped-hit (length buf) offset buf g (
          get_cache-hit buf offset g cached (c.new_file ∙ fresh)
            (ap (pread (length buf) offset) c.cache_file ∙ there)))
