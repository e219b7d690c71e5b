-- ===== src/File/Checkpoint/Tests.antt =====
-- Checkpoints of src/gdpfs_file.c.
use gdpfs.Base.{◌≡◌, refl, true, false, none, some, [], ◌∷◌}
use gdpfs.File.Parts.{Platform, Record}
use gdpfs.File.{File, get_info_raw}
use gdpfs.File.Checkpoint.{chkpt_record, file_chkpt}
use gdpfs.File.Simple.{simple}
use gdpfs.File.Samples.{regular, four_bytes, opened_file}

-- The record of the checkpoint of the file with one record.
abbrev stored_index : Record
stored_index = chkpt_record (regular 4) (0 ∷ (3 ∷ (1 ∷ [])))

abbrev saved_file : File (simple true)
saved_file = record (opened_file true) {
  log_handle = four_bytes ∷ (stored_index ∷ []);
  last_recno = 2;
  index_flush_reqs = 1;
}

saves : file_chkpt (simple true) (opened_file true) ≡ some saved_file
unfolding file_chkpt get_info_raw
saves = refl

-- An index with a child that is not in memory.
abbrev partial : Platform
partial = record (simple true) { get_dirty = λ n t. none }

abbrev partial_file : File partial
partial_file = record {
  log_handle = four_bytes ∷ [];
  figtree = [];
  figtree_initialized = true;
  cache_file = [];
  new_file = false;
  info_cache = some (regular 4);
  last_recno = 1;
  ref_count = 1;
  outstanding_reqs = 0;
  index_flush_reqs = 0;
}

stops : file_chkpt partial partial_file ≡ none
unfolding file_chkpt get_info_raw
stops = refl
