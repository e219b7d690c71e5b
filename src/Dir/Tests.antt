-- ===== src/Dir/Tests.antt =====
-- A directory in a file that is in the cache, read with the operations of src/gdpfs_file.c.
use gdpfs.Base.{
  ℕ, ◌≡◌, ◌++◌, ◌+◌, ◌^◌, ◌<◌, refl, true, false, some, List, [], ◌∷◌, arith, length,
  length-replicate, get_or, set, take, drop, replicate, Option,
}
use gdpfs.Stat.{Stat}
use gdpfs.Dir.Entry.{Bytes, PhysEntry, gname_size, entry_size, c_string, strncpy, same_bytes}
use gdpfs.Dir.Files.{Info, Files, FileType, Reads}
use gdpfs.Dir.Table.{new_entry, dir_remove, is_empty, dir_read}
use gdpfs.Dir.Table.Layout.{IsEntry, AreEntries, table, length-table, new_entry-IsEntry}
use gdpfs.Dir.Table.Find.{Same, named, first_used, dir_read-first}
use gdpfs.Dir.Names.{dir_remove-missing}
use gdpfs.Dir.Table.Empty.{none_used, is_empty-none_used}
use gdpfs.File.{File}
use gdpfs.File.Simple.{simple}
use gdpfs.File.Samples.{opened_file}
use gdpfs.File.DirReads.{one_file, IsCached, cached_reads}

abbrev some_gname : Bytes
some_gname = replicate gname_size 7

abbrev some_info : Info
some_info = record { file_size = 0; file_type = FileType.regular; file_perm = 420 }

-- Bytes `bs` written over `c` at `offset`, where that is not past the end.
abbrev overwrite : Bytes → (offset : ℕ) → Bytes → Bytes
overwrite c offset bs = take offset c ++ bs ++ drop (offset + length bs) c

-- Files that are kept in a list of contents, indexed by their handles.
abbrev pub ram : Files
ram = record {
  State = List Bytes;
  read = λ fh size offset s. (take size (drop offset (get_or s fh [])), s);
  write = λ fh bs offset s. (length bs, set s fh (overwrite (get_or s fh []) offset bs));
  open_type = λ g t s. ((Stat.ok, length s), s ++ ([] ∷ []));
  close = λ fh s. s;
  create = λ t perm s. ((Stat.ok, length s, some_gname), s ++ ([] ∷ []));
  open_any = λ g s. ((Stat.ok, length s), s ++ ([] ∷ []));
  gname_of = λ fh s. some_gname;
  get_info = λ fh s. (Stat.ok, some_info);
  set_perm = λ fh perm s. (Stat.ok, s);
}

-- Names "a", "b" and "c"; the entry of "b" is unused.
abbrev pub entries : List PhysEntry
entries =
    new_entry (97 ∷ []) some_gname
    ∷ record (new_entry (98 ∷ []) some_gname) { in_use = false }
    ∷ new_entry (99 ∷ []) some_gname
    ∷ []

one_char-IsEntry : (c : ℕ) → IsEntry (new_entry (c ∷ []) some_gname)
one_char-IsEntry c = new_entry-IsEntry (c ∷ []) some_gname (length-replicate {A = ℕ} gname_size 7)

pub entries-AreEntries : AreEntries entries
entries-AreEntries =
    let b = one_char-IsEntry 98 in
    (
      one_char-IsEntry 97,
      (record { gname_fits = b.gname_fits; name_fits = b.name_fits }, (one_char-IsEntry 99, tt)),
    )

-- A new directory with these entries, in the cache.
abbrev pub directory : File (simple true)
directory = record (opened_file true) {
  cache_file = table entries;
  new_file = true;
  info_cache =
      some (record { file_size = length (table entries); file_type = FileType.dir; file_perm = 6 });
}

pub entries_fit : length (table entries) + entry_size < 2 ^ 64
entries_fit = omega (arith, length-table entries entries-AreEntries)

abbrev pub disk : Option (File (simple true))
disk = some directory

abbrev pub disk_reads : Reads (one_file (simple true)) 0
disk_reads = cached_reads (simple true) refl (table entries) entries_fit 0

-- The directory is open.
pub opened : IsCached (simple true) (table entries) directory
opened = record {
  info = record { file_size = length (table entries); file_type = FileType.dir; file_perm = 6 };
  known = refl;
  sized = refl;
  fresh = refl;
  held = λ size offset. refl;
}

is_empty-none_used_example :
    (t : Option (File (simple true))) × (is_empty (one_file (simple true)) 4 0 disk
      ≡ some ((Stat.ok, none_used entries), t))
    × Same (one_file (simple true)) 0 disk_reads disk t
is_empty-none_used_example =
    is_empty-none_used (one_file (simple true)) 0 disk_reads 4 entries disk entries-AreEntries
      opened refl (omega arith)

dir_read-first_example :
    (t : Option (File (simple true))) × (dir_read (one_file (simple true)) 4 0 0 disk
      ≡ some (first_used entries 0, t))
    × Same (one_file (simple true)) 0 disk_reads disk t
dir_read-first_example =
    dir_read-first (one_file (simple true)) 0 disk_reads 4 [] entries 0 disk tt entries-AreEntries
      opened refl refl (omega arith)

dir_remove-missing_example :
    (t : Option (File (simple true))) × (dir_remove
        (one_file (simple true))
        4
        0
        (98 ∷ [])
        FileType.regular
        disk
      ≡ some (Stat.ok, t))
    × Same (one_file (simple true)) 0 disk_reads disk t
dir_remove-missing_example =
    dir_remove-missing (one_file (simple true)) 0 disk_reads 4 entries (98 ∷ []) FileType.regular
      disk entries-AreEntries opened refl (omega arith) (other_a, (unused_b, (other_c, tt)))
  where
    other_a : named (new_entry (97 ∷ []) some_gname) (98 ∷ []) ≡ false
    other_a = unfold named new_entry c_string strncpy same_bytes in refl

    unused_b : named (record (new_entry (98 ∷ []) some_gname) { in_use = false }) (98 ∷ []) ≡ false
    unused_b = unfold named new_entry c_string strncpy same_bytes in refl

    other_c : named (new_entry (99 ∷ []) some_gname) (98 ∷ []) ≡ false
    other_c = unfold named new_entry c_string strncpy same_bytes in refl

abbrev entry_a : PhysEntry
entry_a = new_entry (97 ∷ []) some_gname

abbrev entries_behind : List PhysEntry
entries_behind =
    record (new_entry (98 ∷ []) some_gname) { in_use = false } ∷ new_entry (99 ∷ []) some_gname ∷ []
