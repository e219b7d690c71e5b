-- ===== src/File/Open/Tests.antt =====
-- Openings of a file of src/gdpfs_file.c.
use gdpfs.Base.{◌≡◌, refl, true, false, none, some, List, [], ◌∷◌}
use gdpfs.Stat.{Stat}
use gdpfs.Dir.Files.{FileType}
use gdpfs.Dir.AtPath.{same_type}
use gdpfs.File.Parts.{content, Record}
use gdpfs.File.{File}
use gdpfs.File.Simple.{simple}
use gdpfs.File.Open.{new_info, open_object}
use gdpfs.File.Open.Laws.{NewFile, open_object-NewFile, open_object-log}

-- A file object with a log that has not been looked at.
abbrev fresh_object : List Record → File (simple true)
fresh_object rs = record {
  log_handle = rs;
  figtree = [];
  figtree_initialized = false;
  cache_file = [];
  new_file = false;
  info_cache = none;
  last_recno = 0;
  ref_count = 1;
  outstanding_reqs = 0;
  index_flush_reqs = 0;
}

abbrev dir_record : Record
dir_record = record {
  meta = record {
    file_size = 0;
    file_perm = 7;
    file_type = FileType.dir;
    logent_type = content;
    ent_offset = 0;
    ent_size = 0;
  };
  payload = [];
}

open_object-NewFile_example :
    (g : File (simple true)) × (open_object
        (simple true)
        true
        FileType.regular
        6
        true
        true
        (fresh_object [])
      ≡ some (Stat.ok, g))
    × NewFile
        (simple true)
        (new_info FileType.regular 6)
        (record (fresh_object []) {
          new_file = true;
          info_cache = some (new_info FileType.regular 6);
        })
        g
open_object-NewFile_example =
    open_object-NewFile (simple true) FileType.regular 6 (fresh_object [])
      (unfold same_type in refl) refl refl

-- A directory, opened as a regular file.
abbrev mistaken : File (simple true)
mistaken = record (fresh_object (dir_record ∷ [])) { info_cache = some (new_info FileType.dir 7) }

open_mistaken :
    open_object (simple true) true FileType.regular 0 false false (fresh_object (dir_record ∷ []))
    ≡ some (Stat.invldftype, mistaken)
unfolding open_object same_type
open_mistaken = refl

open_object-log_example : mistaken.log_handle ≡ dir_record ∷ []
open_object-log_example =
    open_object-log (simple true) true FileType.regular 0 false (fresh_object (dir_record ∷ []))
      mistaken Stat.invldftype open_mistaken
