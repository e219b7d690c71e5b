-- ===== src/File/Tests.antt =====
-- Runs of src/gdpfs_file.c, and its laws at them.
use gdpfs.Base.{ℕ, ◌≡◌, refl, true, false, Option, none, some, [], ◌∷◌, arith}
use gdpfs.Stat.{Stat}
use gdpfs.Dir.Entry.{Bytes}
use gdpfs.File.Parts.{fetched}
use gdpfs.File.{File, load_info, get_info_raw, file_write, file_ftruncate, file_set_info, do_read}
use gdpfs.File.Submitted.{info_record, Submitted}
use gdpfs.File.Described.{file_set_info-Submitted, file_ftruncate-do_read}
use gdpfs.File.RoundTrip.{do_read-file_write}
use gdpfs.File.Replay.{gather, open_index}
use gdpfs.File.Replay.Uncached.{open_index-none}
use gdpfs.File.Simple.{simple}
use gdpfs.File.Samples.{regular, four_bytes, two_bytes, opened_file, closed_file}

-- A new file with the cache in use.
abbrev new_file : File (simple true)
new_file = record (opened_file true) { new_file = true }

do_read-file_write_example :
    do_read (simple true) 3 3 (file_write (simple true) true (7 ∷ (8 ∷ (9 ∷ []))) 3 new_file).1
    ≡ some (7 ∷ (8 ∷ (9 ∷ [])), (file_write (simple true) true (7 ∷ (8 ∷ (9 ∷ []))) 3 new_file).1)
do_read-file_write_example =
    do_read-file_write (simple true) (7 ∷ (8 ∷ (9 ∷ []))) 3 (regular 4) new_file refl refl refl
      (omega arith) refl

file_ftruncate-do_read_example :
    Submitted
      (simple true)
      (regular 0)
      (record (opened_file true) { info_cache = some (regular 0) })
      (file_ftruncate (simple true) true 3 (opened_file true)).1
    × (do_read (simple true) 2 0 (file_ftruncate (simple true) true 3 (opened_file true)).1
        ≡ some ([], (file_ftruncate (simple true) true 3 (opened_file true)).1))
file_ftruncate-do_read_example =
    file_ftruncate-do_read (simple true) 3 2 0 (regular 4) (opened_file true) refl (omega arith)

file_set_info-Submitted_example :
    ((file_set_info (simple false) true (regular 3) (opened_file false)).0 ≡ Stat.ok)
    × Submitted
        (simple false)
        (regular 3)
        (opened_file false)
        (file_set_info (simple false) true (regular 3) (opened_file false)).1
    × ((n : ℕ) → load_info (fetched n (info_record (regular 3))) ≡ (Stat.ok, regular 3))
    × (get_info_raw
          (simple false)
          (file_set_info (simple false) true (regular 3) (opened_file false)).1
        ≡ (
          (Stat.ok, regular 4),
          (file_set_info (simple false) true (regular 3) (opened_file false)).1,
        ))
file_set_info-Submitted_example =
    file_set_info-Submitted (simple false) (regular 3) (regular 4) (opened_file false) refl

open_index-none_example : open_index (simple false) false (closed_file false) ≡ none
open_index-none_example =
    open_index-none (simple false) refl 2 two_bytes four_bytes none [] ((2, two_bytes) ∷ []) 1
      (closed_file false) refl refl (unfold gather in refl) (omega arith)

-- The bytes that a read gives.
abbrev bytes_read : {A : Type 0} → Option (Bytes × A) → Bytes
bytes_read none = []
bytes_read (some (bs, a)) = bs

-- A write behind the end of an empty cache: the bytes before it, which the log has and the cache does
-- not, are read as zeros from then on.
before_the_write :
    bytes_read (do_read (simple true) 4 0 (opened_file true)) ≡ 1 ∷ (2 ∷ (3 ∷ (4 ∷ [])))
unfolding do_read
before_the_write = refl

after_the_write :
    bytes_read
      (do_read (simple true) 4 0 (file_write (simple true) true (5 ∷ []) 8 (opened_file true)).1)
    ≡ 0 ∷ (0 ∷ (0 ∷ (0 ∷ [])))
unfolding do_read file_write
after_the_write = refl

-- A file that is truncated and written behind its old end shows its old bytes again.
old_bytes_again :
    bytes_read (
      do_read
        (simple false)
        5
        0
        (file_write
          (simple false)
          true
          (5 ∷ [])
          4
          (file_ftruncate (simple false) true 0 (opened_file false)).1).1)
    ≡ 1 ∷ (2 ∷ (3 ∷ (4 ∷ (5 ∷ []))))
unfolding do_read file_write file_ftruncate
old_bytes_again = refl
