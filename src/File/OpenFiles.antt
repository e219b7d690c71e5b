-- ===== src/File/OpenFiles.antt =====
-- src/gdpfs_file.c: the files that are open and those that were closed recently. A log's name is the
-- number that its bytes make up; it is only compared. Each function runs as a whole.
pub mod Counts
pub mod Laws
pub mod Stored
pub mod Insert
pub mod Release
pub mod Reached
mod Tests
use gdpfs.Base.{
  ℕ, zero, suc, ◌+◌, ◌-◌, ◌%◌, ◌^◌, ◌<◌, ◌≡◌, Bool, true, false, Option, none, some, List, [], ◌∷◌,
  ◌++◌, ◌==◌, ltb, not, ◌||◌, ◌&&◌, if◌then◌else◌,
}

-- `RC_CAP`
abbrev pub rc_cap : ℕ
rc_cap = 256

-- What `gdpfs_file_t` says of its users; `changed` tells that the root of its index is marked as dirty,
-- so that `get_dirty` has nodes for a checkpoint.
pub record Shared : Type 0 where
  pub ref_count : ℕ
  pub recently_closed : Bool
  pub index_flush_reqs : ℕ
  pub changed : Bool

-- `file_hash`, `recently_closed`, front first, and `recently_closed_size`
pub record Table : Type 0 where
  pub objects : ℕ → Option Shared
  pub recent : List ℕ
  pub recent_size : ℕ

-- What `open_file` makes; the index is made later.
abbrev pub new_shared : Shared
new_shared = record {
  ref_count = 0;
  recently_closed = false;
  index_flush_reqs = 0;
  changed = false;
}

abbrev pub empty_table : Table
empty_table = record { objects = λ n. none; recent = []; recent_size = 0 }

unfoldable pub set_object : ℕ → Option Shared → (ℕ → Option Shared) → ℕ → Option Shared
set_object n o objects m = if m == n then o else objects m

abbrev pub update : ℕ → Shared → Table → Table
update n s t = record t { objects = set_object n (some s) t.objects }

-- `list_remove`
unfoldable pub remove : ℕ → List ℕ → List ℕ
remove n [] = []
remove n (m ∷ ms) = if n == m then ms else m ∷ remove n ms

-- `list_pop_back`: what is left, and the last
unfoldable pub pop_back : ℕ → List ℕ → List ℕ × ℕ
pop_back m [] = ([], m)
pop_back m (k ∷ ks) = let (front, last) = pop_back k ks in (m ∷ front, last)

-- `_file_ref`; the count has 32 bits
unfoldable pub file_ref : ℕ → Shared → Table → Table
file_ref n s t = update n (record s { ref_count = (s.ref_count + 1) % 2 ^ 32 }) t

-- `_recently_closed_revive`
unfoldable pub revive : ℕ → Shared → Table → Table
revive n s t = record (update n (record s { recently_closed = false }) t) {
  recent = remove n t.recent;
  recent_size = t.recent_size - 1;
}

-- The file object in `open_file`: found or made, and referred to.
unfoldable pub enter_found : ℕ → Option Shared → Table → Table
unfolding file_ref revive
enter_found n none t = file_ref n new_shared t
enter_found n (some s) t =
    if s.recently_closed
    then file_ref n (record s { recently_closed = false }) (revive n s t)
    else file_ref n s t

unfoldable pub enter_file : ℕ → Table → Table
unfolding enter_found
enter_file n t = enter_found n (t.objects n) t

-- `open_file` makes the index where it has to: a new root is dirty, and so is one that has been read
-- from a checkpoint once entries behind it are written to it.
unfoldable pub index_made : (dirty : Bool) → ℕ → Shared → Table → Table
index_made dirty n s t = update n (record s { changed = s.changed || dirty }) t

-- The reference that `do_write` takes for its append, and whether its bytes have changed the root.
unfoldable pub write_ref : (dirty : Bool) → ℕ → Shared → Table → Table
unfolding file_ref
write_ref dirty n s t = file_ref n (record s { changed = s.changed || dirty }) t

-- How `_file_chkpt` fares: the file's information can be read, `get_dirty` fails no assertion, and
-- `gdpfs_log_append` returns OK.
pub record Chkpt : Type 0 where
  pub info_read : Bool
  pub nodes_read : Bool
  pub taken : Bool

abbrev pub stores : Chkpt → (changed : Bool) → Bool
stores c changed = c.info_read && (c.nodes_read && (not changed || c.taken))

-- `_file_dealloc` once no append of the file is under way: a checkpoint is made, where there is
-- anything to store; no result where the program ends (`ep_app_fatal`, `EP_ASSERT`)
unfoldable pub file_dealloc : Chkpt → ℕ → Shared → Table → Option Table
file_dealloc c n s t =
    if stores c s.changed
    then some (
        update n
          (if s.changed
            then record s { changed = false; index_flush_reqs = s.index_flush_reqs + 1 }
            else s)
          t)
    else none

-- The file that falls off the end of the list.
unfoldable pub evict : Chkpt → ℕ → Option Shared → Table → Option Table
unfolding file_dealloc
evict c old none t = none
evict c old (some s) t = file_dealloc c old (record s { recently_closed = false }) t

-- `_recently_closed_insert`; no result where the program ends
unfoldable pub recently_closed_insert : Chkpt → ℕ → Shared → Table → Option Table
unfolding evict
recently_closed_insert c n s t =
    let t' = update n (record s { recently_closed = true }) t in
    let (front, old) = pop_back n t.recent in
    if s.recently_closed
    then none
    else if ltb rc_cap t.recent_size
    then none
    else if t.recent_size == rc_cap
    then evict c old (t'.objects old) (record t' { recent = front })
    else some (record t' { recent = n ∷ t.recent; recent_size = t.recent_size + 1 })

-- `_file_unref`
unfoldable pub file_unref : Chkpt → ℕ → Shared → Table → Option Table
unfolding recently_closed_insert
file_unref c n s t =
    let s' = record s { ref_count = (s.ref_count + 2 ^ 32 - 1) % 2 ^ 32 } in
    let t' = update n s' t in
    if s'.ref_count == 0 then recently_closed_insert c n s' t' else some t'

unfoldable pub release_file : Chkpt → ℕ → Option Shared → Table → Option Table
unfolding file_unref
release_file c n none t = none
release_file c n (some s) t = file_unref c n s t

-- `_file_chkpt_finish`: the object is freed where nobody uses it.
unfoldable pub chkpt_finish : ℕ → Shared → Table → Table
chkpt_finish n s t =
    let s' = record s { index_flush_reqs = s.index_flush_reqs - 1 } in
    if not (s'.index_flush_reqs == 0) || (not (s.ref_count == 0) || s.recently_closed)
    then update n s' t
    else record t { objects = set_object n none t.objects }

-- The table and the references to its files: one for each handle, one for each append.
pub record System : Type 0 where
  pub table : Table
  pub held : List ℕ

abbrev pub initial_system : System
initial_system = record { table = empty_table; held = [] }

abbrev pub count : ℕ → List ℕ → ℕ
count n [] = 0
count n (m ∷ ms) = if n == m then suc (count n ms) else count n ms

pub data Step : System → System → Type 0 where
  opens :
      (n : ℕ) (s : System)
      → count n s.held + 1 < 2 ^ 32
      → Step s (record { table = enter_file n s.table; held = n ∷ s.held })
  writes :
      (n : ℕ) (dirty : Bool) (o : Shared) (s : System)
      → s.table.objects n ≡ some o
      → 0 < count n s.held
      → count n s.held + 1 < 2 ^ 32
      → Step s (record { table = write_ref dirty n o s.table; held = n ∷ s.held })
  -- An opening makes the index.
  indexes :
      (n : ℕ) (dirty : Bool) (o : Shared) (s : System)
      → s.table.objects n ≡ some o
      → Step s (record s { table = index_made dirty n o s.table })
  -- A handle is closed, or an append has finished.
  releases :
      (c : Chkpt) (n : ℕ) (s : System) (t : Table)
      → 0 < count n s.held
      → release_file c n (s.table.objects n) s.table ≡ some t
      → Step s (record { table = t; held = remove n s.held })
  -- A checkpoint has been appended.
  finishes :
      (n : ℕ) (o : Shared) (s : System)
      → s.table.objects n ≡ some o
      → 0 < o.index_flush_reqs
      → Step s (record s { table = chkpt_finish n o s.table })

pub data Reach : System → Type 0 where
  begins : Reach initial_system
  later : {s t : System} → Reach s → Step s t → Reach t
