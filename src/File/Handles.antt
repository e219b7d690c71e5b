-- ===== src/File/Handles.antt =====
-- src/gdpfs_file.c: the handles of open files. A bitmap has those in use, an array leads from each to
-- its file object, which stands here for the name of its log, as in OpenFiles.
pub mod Counts
pub mod Laws
pub mod Stored
pub mod Open
pub mod Close
pub mod Invariant
pub mod Reached
mod Tests
use gdpfs.Base.{
  ℕ, ◌+◌, ◌^◌, ◌<◌, ◌≡◌, Bool, true, false, Option, none, some, List, [], ◌∷◌, ◌++◌, ◌==◌, ltb,
  ◌&&◌, if◌then◌else◌, length, get_or, set, replicate,
}
use gdpfs.Base.Int.{ℤ, pos, negsuc}
use gdpfs.Base.Prog.{Prog, give, stuck, ◌>>=◌}
use gdpfs.Stat.{Stat, is_ok}
use gdpfs.Bitmap
use gdpfs.Bitmap.{Bitmap, Access, done, fault, byte_size, no_value}
use gdpfs.File.OpenFiles.{
  Shared, Table, empty_table, Chkpt, enter_file, index_made, write_ref, release_file, chkpt_finish,
  remove, count,
}

-- `MAX_FHS`
abbrev pub max_fhs : ℕ
max_fhs = 1024

-- `fhs`, `files` and the table of file objects
pub record Handles : Type 0 where
  pub fhs : Bitmap
  pub files : List (Option ℕ)
  pub table : Table

-- What `init_gdpfs_file` makes, where there is memory.
abbrev pub no_handles : Handles
no_handles = record {
  fhs = record { size = max_fhs; data_bytes = replicate (byte_size max_fhs) 0 };
  files = replicate max_fhs none;
  table = empty_table;
}

abbrev pub put_fhs : Option Bitmap → Handles → Handles
put_fhs none s = s
put_fhs (some b) s = record s { fhs = b }

abbrev pub reserved : Handles → Option (ℕ × Option Bitmap) → Option (ℕ × Handles)
reserved s none = none
reserved s (some (v, b)) = some (v, put_fhs b s)

-- `bitmap_reserve(fhs)`
unfoldable pub reserve_fh : (beyond : ℕ) → Prog Handles ℕ
reserve_fh beyond s = reserved s (Bitmap.reserve beyond (some s.fhs))

abbrev pub released : Handles → Access (ℤ × Option Bitmap) → Option (Unit {0} × Handles)
released s fault = none
released s (done (value, b)) = some (tt, put_fhs b s)

-- `bitmap_release(fhs, fh)`, whose value nobody reads
unfoldable pub release_fh : ℕ → Prog Handles (Unit {0})
release_fh fh s = released s (Bitmap.release (some s.fhs) fh)

abbrev pub is_negative : ℤ → Bool
is_negative (pos n) = false
is_negative (negsuc n) = true

abbrev pub looked_up : ℕ → Handles → Access ℤ → Option (Option ℕ × Handles)
looked_up fh s fault = none
looked_up fh s (done value) =
    if is_negative value
    then some (none, s)
    else if ltb fh (length s.files)
    then some (get_or s.files fh none, s)
    else none

-- Only a handle that is too large is refused.
unfoldable pub lookup_fh : ℕ → Prog Handles (Option ℕ)
lookup_fh fh s = looked_up fh s (Bitmap.is_set (some s.fhs) fh)

abbrev pub with_table : Handles → Option Table → Option (Stat × Handles)
with_table s none = none
with_table s (some t) = some (Stat.ok, record s { table = t })

-- `_file_unref` of the object of a name; there is no result where the object has been freed
unfoldable pub unref : Chkpt → ℕ → Prog Handles Stat
unref c n s = with_table s (release_file c n (s.table.objects n) s.table)

unfoldable pub close_found : Chkpt → ℕ → Option ℕ → Prog Handles Stat
unfolding release_fh unref
close_found c fh none = give Stat.badfh
close_found c fh (some n) = do cleared ← release_fh fh; unref c n

-- `gdpfs_file_close`
unfoldable pub file_close : Chkpt → ℕ → Prog Handles Stat
unfolding lookup_fh close_found
file_close c fh = do file ← lookup_fh fh; close_found c fh file

-- `files[fh] = file` and the reference
unfoldable pub refer : (n fh : ℕ) → Prog Handles (Unit {0})
refer n fh s = some (tt, record s { table = enter_file n s.table; files = set s.files fh (some n) })

-- What `open_file` does besides, as it finds the file: `made` is the status of making the object,
-- `fail0` its failure; `checked` is that of loading the information and checking the type; `inits` is
-- whether `do_write` comes to take its reference for the information of a new file; `dirty` is whether
-- the index is made and its root is dirty then.
pub record Opening : Type 0 where
  pub made : Stat
  pub checked : Stat
  pub inits : Bool
  pub dirty : Bool

-- The information of a new file goes into the log.
abbrev pub init_written : (inits : Bool) → ℕ → Option Shared → Table → Option Table
init_written inits n none t = none
init_written inits n (some s) t = some (if inits then write_ref false n s t else t)

abbrev pub with_index : (dirty : Bool) → ℕ → Option Shared → Table → Option Table
with_index dirty n none t = none
with_index dirty n (some s) t = some (index_made dirty n s t)

abbrev pub on_table : Handles → Option Table → Option (Unit {0} × Handles)
on_table s none = none
on_table s (some t) = some (tt, record s { table = t })

unfoldable pub write_init : (inits : Bool) → ℕ → Prog Handles (Unit {0})
write_init inits n s = on_table s (init_written inits n (s.table.objects n) s.table)

unfoldable pub make_index : (dirty : Bool) → ℕ → Prog Handles (Unit {0})
make_index dirty n s = on_table s (with_index dirty n (s.table.objects n) s.table)

-- The rest of `open_file`, where the type is as it should be and where it is not.
unfoldable pub open_checked : (n : ℕ) → Opening → (fh : ℕ) → Prog Handles (Stat × ℕ)
unfolding write_init make_index
open_checked n o fh = do
  written ← write_init o.inits n
  indexed ← make_index o.dirty n
  give (Stat.ok, fh)

unfoldable pub open_refused : Chkpt → Stat → (fh : ℕ) → Prog Handles (Stat × ℕ)
unfolding file_close
open_refused c stat fh = do ignored ← file_close c fh; give (stat, no_value)

-- `open_file` once the object is there.
unfoldable pub open_entered : Chkpt → (n : ℕ) → Opening → (fh : ℕ) → Prog Handles (Stat × ℕ)
unfolding refer open_checked open_refused
open_entered c n o fh = do
  entered ← refer n fh
  if is_ok o.checked then open_checked n o fh else open_refused c o.checked fh

-- The object is looked for in `file_hash`, and else made.
unfoldable pub open_found :
    Chkpt → (n : ℕ) → Opening → (fh : ℕ) → Option Shared → Prog Handles (Stat × ℕ)
unfolding open_entered release_fh
open_found c n o fh none =
    if is_ok o.made
    then open_entered c n o fh
    else do cleared ← release_fh fh; give (o.made, no_value)
open_found c n o fh (some s) = open_entered c n o fh

-- `open_file` of the log with the name `n`: the status and `*fhp`
unfoldable pub open_file : Chkpt → (beyond n : ℕ) → Opening → Prog Handles (Stat × ℕ)
unfolding reserve_fh open_found
open_file c beyond n o = do
  fh ← reserve_fh beyond
  if fh == no_value
      then give (Stat.oomem, no_value)
      else (λ s. open_found c n o fh (s.table.objects n) s)

-- `gdpfs_file_create`: `precreated` and `n` are what the queue of precreated logs gives, and `wanted` is
-- whether the caller passes a place for the handle, which is written where the result has one.
unfoldable pub file_create :
    Chkpt
    → (beyond : ℕ) → (precreated : Stat) → (n : ℕ) → Opening
    → (wanted : Bool) → Prog Handles (Stat × Option ℕ)
unfolding open_file
file_create c beyond precreated n o wanted =
    if is_ok precreated
    then (do
      opened ← open_file c beyond n o
      give (
          if is_ok opened.0
          then (Stat.ok, (if wanted then some opened.1 else none))
          else (opened.0, none)))
    else give (precreated, none)

abbrev pub write_referred : (dirty : Bool) → ℕ → Option Shared → Handles → Option (Bool × Handles)
write_referred dirty n none s = none
write_referred dirty n (some o) s = some (true, record s { table = write_ref dirty n o s.table })

unfoldable pub write_found : (dirty : Bool) → Option ℕ → Prog Handles Bool
write_found dirty none s = some (false, s)
write_found dirty (some n) s = write_referred dirty n (s.table.objects n) s

-- The beginning of a write through a handle, up to the reference for the append; false: bad handle.
unfoldable pub write_begins : (dirty : Bool) → ℕ → Prog Handles Bool
unfolding lookup_fh write_found
write_begins dirty fh = do file ← lookup_fh fh; write_found dirty file

-- The handles that are in use, each with the file for which it was given out, and the files with
-- appends under way, one entry for each. An append that the log refuses at once keeps its entry for good: its
-- callback, which gives the reference back, never runs.
pub record Session : Type 0 where
  pub handles : Handles
  pub in_use : List (ℕ × ℕ)
  pub appending : List ℕ

abbrev pub no_session : Session
no_session = record { handles = no_handles; in_use = []; appending = [] }

abbrev pub names : List (ℕ × ℕ) → List ℕ
names [] = []
names ((fh, n) ∷ us) = n ∷ names us

-- The references to files.
abbrev pub users : Session → List ℕ
users s = names s.in_use ++ s.appending

unfoldable pub forget : ℕ → List (ℕ × ℕ) → List (ℕ × ℕ)
forget fh [] = []
forget fh ((g, n) ∷ us) = if fh == g then us else (g, n) ∷ forget fh us

abbrev pub is_used : ℕ → List (ℕ × ℕ) → ℕ
is_used fh [] = 0
is_used fh ((g, n) ∷ us) = if fh == g then is_used fh us + 1 else is_used fh us

-- A handle that is given out is in use, and the information of a new file is being appended.
abbrev pub after_opening : (inits : Bool) → ℕ → Stat × ℕ → Handles → Session → Session
after_opening inits n r h s = record {
  handles = h;
  in_use = if is_ok r.0 then (r.1, n) ∷ s.in_use else s.in_use;
  appending = if is_ok r.0 && inits then n ∷ s.appending else s.appending;
}

-- Operations that have a result, each as a whole. Only handles that are in use are closed and written.
pub data Step : Session → Session → Type 0 where
  opens :
      (c : Chkpt) (beyond n : ℕ) (o : Opening) (r : Stat × ℕ) (h : Handles) (s : Session)
      → count n (users s) + 2 < 2 ^ 32
      → open_file c beyond n o s.handles ≡ some (r, h)
      → Step s (after_opening o.inits n r h s)
  closes :
      (c : Chkpt) (fh : ℕ) (stat : Stat) (h : Handles) (s : Session)
      → 0 < is_used fh s.in_use
      → file_close c fh s.handles ≡ some (stat, h)
      → Step s (record s { handles = h; in_use = forget fh s.in_use })
  writes :
      (dirty : Bool) (fh n : ℕ) (h : Handles) (s : Session)
      → get_or s.handles.files fh none ≡ some n
      → 0 < is_used fh s.in_use
      → count n (users s) + 1 < 2 ^ 32
      → write_begins dirty fh s.handles ≡ some (true, h)
      → Step s (record s { handles = h; appending = n ∷ s.appending })
  appended :
      (c : Chkpt) (n : ℕ) (stat : Stat) (h : Handles) (s : Session)
      → 0 < count n s.appending
      → unref c n s.handles ≡ some (stat, h)
      → Step s (record s { handles = h; appending = remove n s.appending })
  checkpointed :
      (n : ℕ) (o : Shared) (s : Session)
      → s.handles.table.objects n ≡ some o
      → 0 < o.index_flush_reqs
      → Step s
          (record s { handles = record s.handles { table = chkpt_finish n o s.handles.table } })

pub data Reach : Session → Type 0 where
  begins : Reach no_session
  later : {s t : Session} → Reach s → Step s t → Reach t
