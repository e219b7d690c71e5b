-- ===== src/File/Handles/Tests.antt =====
-- Handles of src/gdpfs_file.c that are given out, closed and closed again.
use gdpfs.Base.{
  ℕ, Bool, true, false, ◌+◌, ◌<◌, ◌≡◌, refl, Option, none, some, [], ◌∷◌, arith, get_or, set,
  replicate,
}
use gdpfs.Stat.{Stat}
use gdpfs.Bitmap
use gdpfs.Bitmap.{byte_size, no_value}
use gdpfs.Bitmap.Change.{bit_at}
use gdpfs.File.OpenFiles.{
  Shared, empty_table, set_object, enter_file, index_made, write_ref, release_file,
}
use gdpfs.File.OpenFiles.Stored.{stored, IsStored}
use gdpfs.File.OpenFiles.Laws.{refs_of}
use gdpfs.File.Handles.{
  max_fhs, Handles, no_handles, Opening, open_file, file_close, Session, no_session, opens, Reach,
  begins, later,
}
use gdpfs.File.Handles.Open.{Opened}
use gdpfs.File.Handles.Reached.{
  ClosedOne, Reach-Alive, Reach-Opened, Reach-ClosedOne, Reach-closed_twice,
}

abbrev opening : Opening
opening = record { made = Stat.ok; checked = Stat.ok; inits = false; dirty = false }

-- The file is new: its information goes into the log, and the root of its index is dirty.
abbrev new_opening : Opening
new_opening = record { made = Stat.ok; checked = Stat.ok; inits = true; dirty = true }

stores_it : IsStored stored
stores_it = record { info_read = refl; nodes_read = refl; taken = refl }

abbrev users_and_index : ℕ → Bool → Shared
users_and_index n changed = record {
  ref_count = n;
  recently_closed = false;
  index_flush_reqs = 0;
  changed = changed;
}

-- The first opening makes the index.
abbrev first_opening : Opening
first_opening = record opening { dirty = true }

-- Two handles for one file.
abbrev one_handle : Handles
one_handle = record {
  fhs = record { size = max_fhs; data_bytes = set (replicate (byte_size max_fhs) 0) 0 1 };
  files = set (replicate max_fhs none) 0 (some 7);
  table = index_made true 7 (users_and_index 1 false) (enter_file 7 empty_table);
}

abbrev two_handles : Handles
two_handles = record {
  fhs = record { size = max_fhs; data_bytes = set (replicate (byte_size max_fhs) 0) 0 3 };
  files = set (set (replicate max_fhs none) 0 (some 7)) 1 (some 7);
  table = index_made false 7 (users_and_index 2 true) (enter_file 7 one_handle.table);
}

abbrev two_open : Session
two_open = record { handles = two_handles; in_use = (1, 7) ∷ ((0, 7) ∷ []); appending = [] }

first_opened : open_file stored 0 7 first_opening no_handles ≡ some ((Stat.ok, 0), one_handle)
unfolding open_file Bitmap.reserve enter_file index_made set_object
first_opened = refl

second_opened : open_file stored 0 7 opening one_handle ≡ some ((Stat.ok, 1), two_handles)
unfolding open_file Bitmap.reserve enter_file index_made set_object
second_opened = refl

two_open-Reach : Reach two_open
two_open-Reach =
    later
      (later begins (
        opens stored 0 7 first_opening (Stat.ok, 0) one_handle no_session (omega arith)
          first_opened))
      (opens stored 0 7 opening (Stat.ok, 1) two_handles
        (record { handles = one_handle; in_use = (0, 7) ∷ []; appending = [] }) (omega arith)
        second_opened)

Reach-Alive_example :
    (n : ℕ) × (o : Shared) × (get_or two_handles.files 1 none ≡ some n)
    × (two_handles.table.objects n ≡ some o)
    × (0 < o.ref_count)
Reach-Alive_example = Reach-Alive two_open 1 two_open-Reach (omega arith) refl

Reach-Opened_example :
    Opened two_handles (7 ∷ (7 ∷ [])) 8 true (open_file stored 0 8 new_opening two_handles)
Reach-Opened_example =
    Reach-Opened stored two_open 0 8 new_opening two_open-Reach stores_it (omega arith)

Reach-ClosedOne_example :
    (n : ℕ) × (after : Handles) × (get_or two_handles.files 0 none ≡ some n)
    × (file_close stored 0 two_handles ≡ some (Stat.ok, after))
    × ClosedOne two_handles 0 n after
Reach-ClosedOne_example =
    Reach-ClosedOne stored two_open 0 two_open-Reach stores_it (omega arith) refl

Reach-closed_twice_example :
    (after : Handles) × (again : Handles) × (file_close stored 0 two_handles
      ≡ some (Stat.ok, after))
    × (file_close stored 0 after ≡ some (Stat.ok, again))
    × (refs_of (again.table.objects 7) + 2 ≡ refs_of (two_handles.table.objects 7))
    × (bit_at again.fhs 1 ≡ 1)
Reach-closed_twice_example =
    Reach-closed_twice stored stored two_open 0 1 7 two_open-Reach stores_it stores_it (omega arith)
      (omega arith) (λ e. absurd cc) refl refl refl refl

-- A new file has two references until its information has been appended, and its index is to be stored.
abbrev object_marks : Option Shared → Option (ℕ × Bool)
object_marks none = none
object_marks (some o) = some (o.ref_count, o.changed)

abbrev refs_after : Option ((Stat × ℕ) × Handles) → Option (ℕ × Bool)
refs_after none = none
refs_after (some (r, h)) = object_marks (h.table.objects 7)

new_opened : refs_after (open_file stored 0 7 new_opening no_handles) ≡ some (2, true)
unfolding open_file Bitmap.reserve enter_file index_made write_ref set_object
new_opened = refl

-- A file of another type is opened: the handle is free again, and the file has no reference.
abbrev status_and_bit : Option ((Stat × ℕ) × Handles) → Option (Stat × ℕ × ℕ × ℕ)
status_and_bit none = none
status_and_bit (some (r, h)) = some (r.0, r.1, bit_at h.fhs 0, refs_of (h.table.objects 7))

refused_open :
    status_and_bit (open_file stored 0 7 (record opening { checked = Stat.invldftype }) no_handles)
    ≡ some (Stat.invldftype, no_value, 0, 0)
unfolding open_file Bitmap.reserve Bitmap.is_set Bitmap.release release_file enter_file set_object
refused_open = refl
