-- ===== src/File/Samples.antt =====
-- Files of src/gdpfs_file.c with a few bytes.
use gdpfs.Base.{ℕ, Bool, true, false, none, some, [], ◌∷◌}
use gdpfs.Dir.Entry.{Bytes}
use gdpfs.Dir.Files.{FileType, Info}
use gdpfs.File.Parts.{content, Record}
use gdpfs.File.{File}
use gdpfs.File.Simple.{simple}

abbrev pub regular : (file_size : ℕ) → Info
regular file_size = record { file_size = file_size; file_type = FileType.regular; file_perm = 6 }

abbrev pub data_record : (offset size file_size : ℕ) → Bytes → Record
data_record offset size file_size bs = record {
  meta = record {
    file_size = file_size;
    file_perm = 6;
    file_type = FileType.regular;
    logent_type = content;
    ent_offset = offset;
    ent_size = size;
  };
  payload = bs;
}

abbrev pub four_bytes : Record
four_bytes = data_record 0 4 4 (1 ∷ (2 ∷ (3 ∷ (4 ∷ []))))

abbrev pub two_bytes : Record
two_bytes = data_record 2 2 4 (8 ∷ (9 ∷ []))

-- A file with one record; its cache is empty.
abbrev pub opened_file : (use_cache : Bool) → File (simple use_cache)
opened_file use_cache = record {
  log_handle = four_bytes ∷ [];
  figtree = record { left = 0; right = 3; value = 1 } ∷ [];
  figtree_initialized = true;
  cache_file = [];
  new_file = false;
  info_cache = some (regular 4);
  last_recno = 1;
  ref_count = 1;
  outstanding_reqs = 0;
  index_flush_reqs = 0;
}

-- A file with two records that has no index yet.
abbrev pub closed_file : (use_cache : Bool) → File (simple use_cache)
closed_file use_cache = record (opened_file use_cache) {
  log_handle = four_bytes ∷ (two_bytes ∷ []);
  figtree = [];
  figtree_initialized = false;
  info_cache = none;
  last_recno = 0;
}
