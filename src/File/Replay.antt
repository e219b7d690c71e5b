-- ===== src/File/Replay.antt =====
-- `open_file` of src/gdpfs_file.c: how the index of a file is built from its log.
pub mod Uncached
use gdpfs.Base.{
  ℕ, zero, suc, ◌+◌, ◌-◌, ◌%◌, Bool, true, false, Option, none, some, List, [], ◌∷◌, ◌==◌, ltb, not,
  ◌&&◌, if◌then◌else◌, length, take, drop,
}
use gdpfs.Stat.{Stat, is_ok}
use gdpfs.Dir.Entry.{Bytes}
use gdpfs.File.Parts.{
  EntryType, content, chkpt, Record, is_intact, Fetch, absent, unreadable, short, fetched, Platform,
}
use gdpfs.File.{and_then, File, fill_cache, index_of}

-- An entry with its number.
abbrev pub Numbered : Type 0
Numbered = ℕ × Record

-- `bounce`
abbrev pub chunk : ℕ
chunk = 1024

module _ (P : Platform) where
  open P use {Log, latest, fetch, Tree, ft_init, ft_write, restored, node_size, freed_recno}

  -- What the way down finds: the checkpoint where it stops, and the entries after it, oldest first.
  abbrev pub Gathered : Type 0
  Gathered = Option Record × List Numbered

  unfoldable pub gather_typed :
      (onward : List Numbered → Option Gathered)
      → List Numbered
      → Numbered
      → EntryType
      → Option Gathered
  gather_typed onward later e content = onward (e ∷ later)
  gather_typed onward later (k, r) chkpt =
      if (r.meta.ent_size % node_size == 0) && ltb 0 r.meta.ent_size
      then some (some r, later)
      else none

  unfoldable pub gather_entry :
      (onward : List Numbered → Option Gathered) → List Numbered → Fetch → Option Gathered
  unfolding gather_typed
  gather_entry onward later absent = none
  gather_entry onward later (unreadable estat) = none
  gather_entry onward later short = none
  gather_entry onward later (fetched k r) =
      if is_intact r then gather_typed onward later (k, r) r.meta.logent_type else none

  -- The first loop, from entry number `recno` down. An entry that cannot be read or is damaged ends
  -- the program.
  unfoldable pub gather : (recno : ℕ) → Log → List Numbered → Option Gathered
  unfolding gather_entry
  gather zero l later = some (none, later)
  gather (suc n) l later = gather_entry (gather n l) later (fetch (suc n) l)

  -- The bytes of an entry go into the cache in chunks; a chunk that cannot be written ends the
  -- program. `fuel` bounds the number of chunks.
  unfoldable pub fill_chunks : (fuel : ℕ) → Bytes → (offset : ℕ) → File P → Option (File P)
  unfolding fill_cache
  fill_chunks zero bs offset f = if length bs == 0 then some f else none
  fill_chunks (suc fuel) bs offset f =
      let (estat, f') = fill_cache P (take chunk bs) offset f in
      let rest = fill_chunks fuel (drop chunk bs) (offset + chunk) f' in
      if length bs == 0 then some f else if is_ok estat then rest else none

  -- One round of the second loop.
  unfoldable pub replay_entry : Numbered → File P → Option (File P)
  unfolding fill_chunks
  replay_entry (k, r) f =
      let offset = r.meta.ent_offset in
      let size = r.meta.ent_size in
      if not (is_intact r)
      then none
      else if size == 0
      then some f
      else fill_chunks (length r.payload) r.payload offset (record f {
        figtree = ft_write (index_of offset) (index_of (offset + size - 1)) k f.figtree;
      })

  unfoldable pub replay : List Numbered → File P → Option (File P)
  unfolding replay_entry
  replay [] f = some f
  replay (e ∷ es) f = and_then (replay_entry e f) (replay es)

  -- The index to start from: that of the checkpoint, or an empty one.
  abbrev pub base_tree : Option Record → Tree
  base_tree none = ft_init
  base_tree (some r) = restored r

  -- The numbers that `last_recno` is set to and that the first loop starts from. Where the last entry
  -- cannot be opened, `last_recno` is what is read in the entry that was freed.
  unfoldable pub start_numbers : Fetch → Option (ℕ × ℕ)
  start_numbers absent = some (freed_recno, 0)
  start_numbers (unreadable estat) = some (freed_recno, freed_recno)
  start_numbers short = none
  start_numbers (fetched k r) = some (k, k)

  unfoldable pub load_gathered : Option Gathered → File P → Option (File P)
  unfolding replay
  load_gathered none f = none
  load_gathered (some (base, later)) f =
      and_then (replay later (record f { figtree = base_tree base }))
        (λ f'. some (record f' { figtree_initialized = true }))

  unfoldable pub load_from : Option (ℕ × ℕ) → File P → Option (File P)
  unfolding gather load_gathered
  load_from none f = none
  load_from (some (last, recno)) f =
      load_gathered (gather recno f.log_handle []) (record f { last_recno = last })

  -- The part of `open_file` that makes the index.
  unfoldable pub open_index : (strict_init : Bool) → File P → Option (File P)
  unfolding start_numbers load_from
  open_index strict_init f =
      if strict_init
      then some (record f { figtree = ft_init; last_recno = 1; figtree_initialized = true })
      else if f.figtree_initialized
      then some f
      else load_from (start_numbers (latest f.log_handle)) f
