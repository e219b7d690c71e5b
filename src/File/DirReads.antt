-- ===== src/File/DirReads.antt =====
-- src/gdpfs_dir.c reads its directories with `gdpfs_file_read` of src/gdpfs_file.c: a file in the cache
-- is one that a directory can be read from.
use mathlib.Core.Path.{subst}
use native.Mathlib.Decide.{dec_le}
use gdpfs.Base.{
  ℕ, ◌+◌, ◌-◌, ◌%◌, ltb, min, false, [], ◌^◌, ◌<◌, ◌≤◌, ◌≡◌, refl, ap, ◌∙◌, sym, true, Option, none,
  some, arith, length, take, drop, take_all, length-take, length-drop,
}
use gdpfs.Stat.{Stat}
use gdpfs.Dir.Entry.{Bytes, entry_size}
use gdpfs.Dir.Files.{FileType, Info, Files, Reads}
use gdpfs.File.Parts.{Platform}
use gdpfs.File.{File, file_write, clipped, do_read}
use gdpfs.File.Submitted.{get_info_raw-known}
use gdpfs.File.RoundTrip.{get_cache-hit, read_clipped-hit}

module _ (P : Platform) where
  open P use {use_cache, pread}

  -- The state after a call is none where the program has ended.
  abbrev pub after_read : Option (Bytes × File P) → Bytes × Option (File P)
  after_read none = ([], none)
  after_read (some (bs, f)) = (bs, some f)

  abbrev pub read_file : (size offset : ℕ) → Option (File P) → Bytes × Option (File P)
  read_file size offset none = ([], none)
  read_file size offset (some f) = after_read (do_read P size offset f)

  abbrev pub write_file : Bytes → (offset : ℕ) → Option (File P) → ℕ × Option (File P)
  write_file bs offset none = (0, none)
  write_file bs offset (some f) = let (size, f') = file_write P true bs offset f in (size, some f')

  -- One file that is open, under every handle; no other is opened or created.
  abbrev pub one_file : Files
  one_file = record {
    State = Option (File P);
    read = λ fh size offset s. read_file size offset s;
    write = λ fh bs offset s. write_file bs offset s;
    open_type = λ g t s. ((Stat.badfh, 0), s);
    close = λ fh s. s;
    create = λ t perm s. ((Stat.badfh, 0, []), s);
    open_any = λ g s. ((Stat.badfh, 0), s);
    gname_of = λ fh s. [];
    get_info =
        λ fh s. (Stat.badfh, record { file_size = 0; file_type = FileType.dir; file_perm = 0 });
    set_perm = λ fh perm s. (Stat.badfh, s);
  }

  -- A new file that is in the cache as a whole, with a content.
  pub record IsCached (c : Bytes) (f : File P) : Type 0 where
    pub info : Info
    pub known : f.info_cache ≡ some info
    pub sized : info.file_size ≡ length c
    pub fresh : f.new_file ≡ true
    pub held : (size offset : ℕ) → pread size offset f.cache_file ≡ take size (drop offset c)

  -- The part of a content that a read asks for.
  abbrev pub part : Bytes → (size offset : ℕ) → Bytes
  part c size offset = take size (drop offset c)

  take_part : (size : ℕ) (bs : Bytes) → take (length (take size bs)) bs ≡ take size bs
  take_part size bs = elim (dec_le size (length bs)) [
    | yes fits ↦ ap (λ k. take k bs) {y = size} (omega (arith, length-take size bs))
    | no over ↦
        take_all bs (length (take size bs)) (omega (arith, length-take size bs))
        ∙ sym (take_all bs size (omega arith))
  ]

  clipped-part :
      (file_size size offset k : ℕ)
      → offset ≤ file_size
      → file_size + size < 2 ^ 64
      → k ≡ min size (file_size - offset)
      → clipped P file_size size offset ≡ some k
  unfolding clipped
  clipped-part file_size size offset k le small e = elim (dec_le (size + offset) file_size) [
    | yes fits ↦ rw (within fits) (ap some (omega arith))
    | no over ↦ rw (past over, inside) (ap some (omega arith))
  ]
    where
      within : size + offset ≤ file_size → ltb file_size ((size + offset) % 2 ^ 64) ≡ false
      within fits = ground (arith, small)

      past : ¬ (size + offset ≤ file_size) → ltb file_size ((size + offset) % 2 ^ 64) ≡ true
      past over = ground (arith, small, le)

      inside : ltb file_size offset ≡ false
      inside = ground (arith, le)

  module _ (cached : use_cache ≡ true) (c : Bytes) (small : length c + entry_size < 2 ^ 64) where
    do_read-part :
        (offset : ℕ) (f : File P)
        → IsCached c f
        → offset ≤ length c
        → do_read P entry_size offset f ≡ some (part c entry_size offset, f)
    unfolding do_read
    do_read-part offset f h le =
        let bs = part c entry_size offset in
        rw
          (
            get_info_raw-known P h.info f h.known,
            clipped-part h.info.file_size entry_size offset (length bs) (omega (arith, le, h.sized))
                (omega (arith, small, h.sized))
                (omega
                  (arith, length-take entry_size (drop offset c), length-drop offset c, h.sized)),
          )
          (read_clipped-hit P (length bs) offset bs f (
            get_cache-hit P bs offset f cached h.fresh
              (h.held (length bs) offset ∙ take_part entry_size (drop offset c))))

    -- The file is there, and in the cache.
    abbrev pub OpenCached : Option (File P) → Type 0
    OpenCached none = ⊥
    OpenCached (some f) = IsCached c f

    pub read_file-part :
        (offset : ℕ) (s : Option (File P))
        → OpenCached s
        → offset ≤ length c
        → read_file entry_size offset s ≡ (part c entry_size offset, s)
    read_file-part offset none h le = absurd h
    read_file-part offset (some f) h le = ap after_read (do_read-part offset f h le)

    -- A directory can be read from the file: `do_read` gives what a directory relies on.
    abbrev pub cached_reads : (fh : ℕ) → Reads one_file fh
    cached_reads fh = record {
      Open = OpenCached;
      content = λ s. c;
      read_bytes = λ offset s h le. ap (λ r. r.0) (read_file-part offset s h le);
      read_keeps = λ offset s h le.
          (subst OpenCached (sym (ap (λ r. r.1) (read_file-part offset s h le))) h, refl);
    }
