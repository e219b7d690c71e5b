-- ===== src/File/Checkpoint.antt =====
-- `_file_chkpt` of src/gdpfs_file.c: the changed nodes of the index go into the log as one record.
mod Tests
use gdpfs.Base.{ℕ, ◌+◌, ◌-◌, ◌^◌, Bool, Option, none, some, ◌==◌, not, if◌then◌else◌, length}
use gdpfs.Stat.{Stat, is_ok}
use gdpfs.Dir.Entry.{Bytes}
use gdpfs.Dir.Files.{Info}
use gdpfs.File.Parts.{chkpt, Meta, Record, Platform}
use gdpfs.File.{File, get_info_raw}

-- The metadata of a checkpoint; its offset is -1.
unfoldable pub chkpt_meta : Info → (size : ℕ) → Meta
chkpt_meta info size = record {
  file_size = info.file_size;
  file_perm = info.file_perm;
  file_type = info.file_type;
  logent_type = chkpt;
  ent_offset = 2 ^ 64 - 1;
  ent_size = size;
}

abbrev pub chkpt_record : Info → Bytes → Record
chkpt_record info nodes = record { meta = chkpt_meta info (length nodes); payload = nodes }

module _ (P : Platform) where
  open P use {Tree, get_dirty, append}

  -- The record is handed over to the log; a failure of that ends the program.
  unfoldable pub chkpt_appended : Record → File P → Option (File P)
  chkpt_appended r f =
      let (estat, log) = append r f.log_handle in
      if is_ok estat
      then some (record f { log_handle = log; index_flush_reqs = f.index_flush_reqs + 1 })
      else none

  -- With the changed nodes and the index in which none is changed.
  unfoldable pub chkpt_nodes : Bytes × Tree → Info → File P → Option (File P)
  unfolding chkpt_appended
  chkpt_nodes (nodes, tree) info f =
      let f' = record f { last_recno = f.last_recno + 1; figtree = tree } in
      if length nodes == 0 then some f' else chkpt_appended (chkpt_record info nodes) f'

  -- No result where `get_dirty` fails an assertion.
  unfoldable pub chkpt_found : Option (Bytes × Tree) → Info → File P → Option (File P)
  unfolding chkpt_nodes
  chkpt_found none info f = none
  chkpt_found (some found) info f = chkpt_nodes found info f

  -- `_file_chkpt`
  unfoldable pub file_chkpt : File P → Option (File P)
  unfolding chkpt_found
  file_chkpt f =
      let ((estat, info), f') = get_info_raw P f in
      if not (is_ok estat)
      then none
      else chkpt_found (get_dirty (f'.last_recno + 1) f'.figtree) info f'
