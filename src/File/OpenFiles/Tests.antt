-- ===== src/File/OpenFiles/Tests.antt =====
-- Files of src/gdpfs_file.c that are opened, written and closed.
use gdpfs.Base.{
  ℕ, ◌-◌, ◌^◌, ◌≡◌, refl, true, false, replicate, Option, none, some, List, [], ◌∷◌, arith,
}
use gdpfs.File.OpenFiles.{
  Shared, Table, new_shared, empty_table, set_object, update, pop_back, enter_file, write_ref,
  recently_closed_insert, release_file, Chkpt, System, initial_system, opens, writes, Reach, begins,
  later,
}
use gdpfs.File.OpenFiles.Laws.{Valid}
use gdpfs.File.OpenFiles.Release.{Released}
use gdpfs.File.OpenFiles.Stored.{stored}
use gdpfs.File.OpenFiles.Reached.{Reach-Valid, Reach-Released}

-- A file is opened and written to, and the append has not finished.
abbrev opened : System
opened = record { table = enter_file 7 empty_table; held = 7 ∷ [] }

abbrev one_user : Shared
one_user = record { ref_count = 1; recently_closed = false; index_flush_reqs = 0; changed = false }

abbrev written : System
written = record { table = write_ref true 7 one_user opened.table; held = 7 ∷ (7 ∷ []) }

written-Reach : Reach written
unfolding enter_file set_object
written-Reach =
    later (later begins (opens 7 initial_system (omega arith)))
      (writes 7 true one_user opened refl (omega arith) (omega arith))

Reach-Valid_example : Valid written
Reach-Valid_example = Reach-Valid written written-Reach

Reach-Released_example :
    Released 7 written (release_file stored 7 (written.table.objects 7) written.table)
Reach-Released_example =
    Reach-Released stored 7 written written-Reach
      (record { info_read = refl; nodes_read = refl; taken = refl }) (omega arith)

abbrev recent_of : Option Table → List ℕ
recent_of none = []
recent_of (some t) = t.recent

abbrev object_of : ℕ → Option Table → Option Shared
object_of n none = none
object_of n (some t) = t.objects n

-- The file is opened again while its last reference is given up: between the new count and the list.
abbrev count_gone : Table
count_gone = update 7 new_shared opened.table

abbrev opened_between : Table
opened_between = enter_file 7 count_gone

listed_in_use :
    object_of 7 (recently_closed_insert stored 7 one_user opened_between)
    ≡ some (record { ref_count = 1; recently_closed = true; index_flush_reqs = 0; changed = false })
unfolding enter_file recently_closed_insert set_object
listed_in_use = refl

abbrev released_again : Option Table → Option Table
released_again none = some empty_table
released_again (some t) = release_file stored 7 (t.objects 7) t

-- Closing it then fails the assertion that it is not in the list.
close_stops : released_again (recently_closed_insert stored 7 one_user opened_between) ≡ none
unfolding enter_file recently_closed_insert set_object release_file
close_stops = refl

-- A list that is full: the last file falls off, with its changed index.
abbrev full_table : Table
full_table = record {
  objects =
      set_object 8 (some (record new_shared { recently_closed = true; changed = true }))
        opened.table.objects;
  recent = replicate 256 8;
  recent_size = 256;
}

abbrev closes_with : Chkpt → Option Shared
closes_with c = object_of 8 (release_file c 7 (some one_user) full_table)

-- Its checkpoint is appended; where the log does not take it, the program ends.
evicted_stored :
    closes_with stored
    ≡ some
        (record { ref_count = 0; recently_closed = false; index_flush_reqs = 1; changed = false })
unfolding enter_file set_object release_file pop_back
evicted_stored = refl

evicted_not_taken : closes_with (record stored { taken = false }) ≡ none
unfolding enter_file set_object release_file pop_back
evicted_not_taken = refl

-- A handle that is closed twice: the count wraps around.
closed_twice :
    object_of 7 (released_again (release_file stored 7 (opened.table.objects 7) opened.table))
    ≡ some (record {
      ref_count = 2 ^ 32 - 1;
      recently_closed = true;
      index_flush_reqs = 0;
      changed = false;
    })
unfolding enter_file set_object release_file
closed_twice = refl
