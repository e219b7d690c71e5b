-- ===== src/File/Described.antt =====
-- The information on a file of src/gdpfs_file.c, in the cache and in the log.
use gdpfs.Base.{
  ℕ, ◌+◌, ◌^◌, ◌<◌, ◌≡◌, refl, ap, ◌∙◌, ◌⊎◌, inl, inr, Bool, true, false, Option, none, some, [],
  ◌∷◌, arith, not, ◌&&◌, ◌==◌, if◌then◌else◌, length,
}
use gdpfs.Stat.{Stat}
use gdpfs.Dir.Entry.{Bytes}
use gdpfs.Dir.Files.{Info}
use gdpfs.File.Parts.{fetched, Platform}
use gdpfs.File.{
  File, load_info, meta_of, get_info_raw, do_write, file_ftruncate, file_set_info, cache_hit,
  get_cache, read_log, clipped, read_clipped, do_read,
}
use gdpfs.File.Submitted.{info_record, Submitted, do_write-Submitted, get_info_raw-known}

module _ (P : Platform) where
  -- `gdpfs_file_set_info` of a file whose information is known, with the log entry made, returns OK and
  -- hands over to the log one record, from which an opening would load the new information; but what
  -- `_file_get_info_raw` returns of the file stays the old information.
  pub file_set_info-Submitted :
      (info known : Info) (f : File P)
      → f.info_cache ≡ some known
      → ((file_set_info P true info f).0 ≡ Stat.ok)
        × Submitted P info f (file_set_info P true info f).1
        × ((n : ℕ) → load_info (fetched n (info_record info)) ≡ (Stat.ok, info))
        × (get_info_raw P (file_set_info P true info f).1
            ≡ ((Stat.ok, known), (file_set_info P true info f).1))
  unfolding file_set_info load_info meta_of
  file_set_info-Submitted info known f e =
      let s = do_write-Submitted P info f in
      (refl, s, λ n. refl, get_info_raw-known P known _ (s.info_cache ∙ e))

  -- A read of no bytes from the cache gives none, or misses.
  get_cache-empty :
      (offset : ℕ) (f : File P)
      → (get_cache P 0 offset f ≡ none) ⊎ (get_cache P 0 offset f ≡ some [])
  unfolding get_cache
  get_cache-empty offset f =
      by_tests P.use_cache (not f.new_file && (0 == 0)) (cache_hit P 0 offset f)
        (P.pread 0 offset f.cache_file)
    where
      by_tests :
          (cached none_asked hit : Bool) (bs : Bytes)
          → ((if not cached
                then none
                else if none_asked
                then some []
                else if not hit
                then none
                else if length bs == 0
                then some bs
                else none)
              ≡ none)
            ⊎ ((if not cached
                  then none
                  else if none_asked
                  then some []
                  else if not hit
                  then none
                  else if length bs == 0
                  then some bs
                  else none)
                ≡ some [])
      by_tests false none_asked hit bs = inl refl
      by_tests true true hit bs = inr refl
      by_tests true false false bs = inl refl
      by_tests true false true [] = inr refl
      by_tests true false true (b ∷ bs) = inl (ground arith)

  read_clipped-empty : (offset : ℕ) (f : File P) → read_clipped P offset (some 0) f ≡ some ([], f)
  unfolding read_clipped read_log
  read_clipped-empty offset f = elim (get_cache-empty offset f) [
    | inl e ↦ ap read_found e
    | inr e ↦ ap read_found e
  ]
    where
      read_found : Option Bytes → Option (Bytes × File P)
      read_found o = elim o [ none ↦ read_log P 0 offset f | some bs ↦ some (bs, f) ]

  clipped-empty :
      (size offset : ℕ)
      → size + offset < 2 ^ 64
      → (clipped P 0 size offset ≡ none) ⊎ (clipped P 0 size offset ≡ some 0)
  unfolding clipped
  clipped-empty size offset h = ground (arith, h)

  do_read-empty :
      (size offset : ℕ) (info : Info) (g : File P)
      → g.info_cache ≡ some info
      → info.file_size ≡ 0
      → size + offset < 2 ^ 64
      → do_read P size offset g ≡ some ([], g)
  unfolding do_read
  do_read-empty size offset info g known none_left h =
      rw (get_info_raw-known P info g known, none_left)
        (elim (clipped-empty size offset h) [
          | inl past ↦ rw past (unfold read_clipped in refl)
          | inr zero_left ↦ rw zero_left (read_clipped-empty offset g)
        ])

  -- `gdpfs_file_ftruncate` of a file whose information is known, with the log entry made, hands over to
  -- the log one record with the size 0, whatever size it was asked for, and leaves the index as it is;
  -- every read within the first 2^64 bytes then gives no bytes and leaves the file as it is.
  pub file_ftruncate-do_read :
      (file_size size offset : ℕ) (info : Info) (f : File P)
      → f.info_cache ≡ some info
      → size + offset < 2 ^ 64
      → Submitted P
          (record info { file_size = 0 })
          (record f { info_cache = some (record info { file_size = 0 }) })
          (file_ftruncate P true file_size f).1
        × (do_read P size offset (file_ftruncate P true file_size f).1
            ≡ some ([], (file_ftruncate P true file_size f).1))
  unfolding file_ftruncate
  file_ftruncate-do_read file_size size offset info f e h =
      let empty = record info { file_size = 0 } in
      let f' = record f { info_cache = some empty } in
      let s = do_write-Submitted P empty f' in
      rw (get_info_raw-known P info f e)
        (s, do_read-empty size offset empty (do_write P true [] 0 empty f').1 s.info_cache refl h)
