-- ===== src/File/Submitted.antt =====
-- What the functions of src/gdpfs_file.c that write no bytes hand over to the log, through `do_write`.
use gdpfs.Base.{◌+◌, ◌≡◌, refl, ap, inl, inr, true, Bool-cases, some, []}
use gdpfs.Stat.{Stat}
use gdpfs.Dir.Files.{Info}
use gdpfs.File.Parts.{Record, Platform}
use gdpfs.File.{
  File, meta_of, info_from, get_info_raw, fill_cache, index_written, record_appended, do_write,
}

-- A record of a file's information alone.
abbrev pub info_record : Info → Record
info_record info = record { meta = meta_of info 0 0; payload = [] }

module _ (P : Platform) where
  open P use {append}

  -- The information has been handed over to the log as a record, under the next number and with a
  -- reference for the append; the index and what is known of the file are as before.
  pub record Submitted (info : Info) (f g : File P) : Type 0 where
    pub handed_over : g.log_handle ≡ (append (info_record info) f.log_handle).1
    pub numbered : g.last_recno ≡ f.last_recno + 1
    pub referred : g.ref_count ≡ f.ref_count + 1
    pub under_way : g.outstanding_reqs ≡ f.outstanding_reqs + 1
    pub figtree : g.figtree ≡ f.figtree
    pub info_cache : g.info_cache ≡ f.info_cache
    pub new_file : g.new_file ≡ f.new_file

  pub do_write-Submitted :
      (info : Info) (f : File P) → Submitted info f (do_write P true [] 0 info f).1
  unfolding do_write record_appended index_written fill_cache
  do_write-Submitted info f = elim (Bool-cases P.use_cache) [
    | inl u ↦ rw u (record {
      handed_over = refl;
      numbered = refl;
      referred = refl;
      under_way = refl;
      figtree = refl;
      info_cache = refl;
      new_file = refl;
    })
    | inr u ↦ rw u (record {
      handed_over = refl;
      numbered = refl;
      referred = refl;
      under_way = refl;
      figtree = refl;
      info_cache = refl;
      new_file = refl;
    })
  ]

  pub get_info_raw-known :
      (info : Info) (f : File P)
      → f.info_cache ≡ some info
      → get_info_raw P f ≡ ((Stat.ok, info), f)
  unfolding get_info_raw info_from
  get_info_raw-known info f e = ap (λ o. info_from P o f) e
