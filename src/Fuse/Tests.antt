-- ===== src/Fuse/Tests.antt =====
-- Runs of the handlers of src/gdpfs.c, and their laws at a concrete directory.
use gdpfs.Base.{
  ℕ, ◌/◌, ◌<◌, if◌then◌else◌, ◌+◌, ◌^◌, ◌≡◌, refl, true, false, some, Option, [], ◌∷◌, arith,
}
use gdpfs.Stat.{Stat}
use gdpfs.Dir.Entry.{Bytes}
use gdpfs.Dir.Files.{FileType}
use gdpfs.Dir.Table.Find.{Same}
use gdpfs.Dir.Path.{System, slash}
use gdpfs.Dir.Path.Walk.{pieces}
use gdpfs.Dir.Tests.{ram, entries, disk, disk_reads, entries-AreEntries, opened}
use gdpfs.File.{File}
use gdpfs.File.Simple.{simple}
use gdpfs.File.DirReads.{one_file}
use gdpfs.Fuse.{ro, mode_of, may_open}
use gdpfs.Fuse.Modes.{bits_of, type_of, bit_at, shown, mode_of-shown}
use gdpfs.Fuse.Listing.{dot, dot_dot, readdir}
use gdpfs.Fuse.Listing.Names.{never, used_names, readdir-names}

readdir-names_example :
    (t : Option (File (simple true))) × (readdir (one_file (simple true)) never 6 4 0 ([], 0) 0 disk
      ≡ some ((dot, 2) ∷ (dot_dot, 3) ∷ used_names entries 0, t))
    × Same (one_file (simple true)) 0 disk_reads disk t
readdir-names_example =
    readdir-names (one_file (simple true)) 0 disk_reads 6 4 entries ([], 0) disk entries-AreEntries
      opened refl (omega arith) (omega arith)

abbrev system : System
system = record { fuel = 4; files = ram; root = []; dirname = λ p. slash ∷ []; basename = λ p. p }

-- "/a//bc/"
abbrev path : Bytes
path = 47 ∷ 97 ∷ 47 ∷ 47 ∷ 98 ∷ 99 ∷ 47 ∷ []

splits_path : pieces path ≡ (97 ∷ [], false) ∷ (98 ∷ 99 ∷ [], false) ∷ []
unfolding pieces
splits_path = refl

-- A file with the permissions 0666, in a read-only file system: `S_IFREG | 0444`.
read_only_mode :
    mode_of ro (record { file_size = 0; file_type = FileType.regular; file_perm = 438 })
    ≡ some (2 ^ 15 + 292)
unfolding mode_of
read_only_mode = refl

-- The owner may read and not write a file with the permissions 0466.
opens_to_read :
    may_open (Stat.ok, record { file_size = 0; file_type = FileType.regular; file_perm = 310 }) 0
    ≡ true
unfolding may_open
opens_to_read = refl

not_to_write :
    may_open (Stat.ok, record { file_size = 0; file_type = FileType.regular; file_perm = 310 }) 2
    ≡ false
unfolding may_open
not_to_write = refl

mode_of-shown_example :
    (m : ℕ) × (mode_of ro (record { file_size = 0; file_type = type_of false; file_perm = 438 })
      ≡ some m)
    × (m / 2 ^ 9 ≡ bits_of false / 2 ^ 9)
    × ((j : ℕ) → j < 9 → bit_at m j ≡ (if shown ro j then bit_at 438 j else 0))
mode_of-shown_example = mode_of-shown ro false 0 438 (omega arith)
