-- ===== src/Dir/Names.antt =====
-- What src/gdpfs_dir.c does with a name that a directory has, and with one that it does not have.
use gdpfs.Base.{
  ℕ, ◌+◌, ◌<◌, ◌≡◌, refl, false, Option, none, some, List, [], ◌∷◌, length, if◌then◌else◌,
}
use gdpfs.Stat.{Stat}
use gdpfs.Dir.Entry.{Bytes, entry_size, PhysEntry}
use gdpfs.Dir.Files.{Files, FileType, Reads}
use gdpfs.Dir.Table.{vacant, insert_at, remove_found, dir_remove}
use gdpfs.Dir.Table.Layout.{AreEntries, table}
use gdpfs.Dir.Table.Find.{Same, named, search, find_insert_offset-search}

-- No entry in use has the name.
abbrev pub IsMissing : Bytes → List PhysEntry → Type 0
IsMissing name [] = Unit
IsMissing name (e ∷ es) = (named e name ≡ false) × IsMissing name es

search-missing :
    (es : List PhysEntry) (name : Bytes) (offset : ℕ) (first : Option ℕ)
    → IsMissing name es
    → (place : ℕ) × (search es name offset first ≡ vacant place)
unfolding search
search-missing [] name offset first h = (insert_at first offset, refl)
search-missing (e ∷ es) name offset first (other, h) =
    let (place, found) =
      search-missing es name (offset + entry_size)
        (if e.in_use then first else some (insert_at first offset)) h in
    (place, rw other found)

module _ (F : Files) (fh : ℕ) (laws : Reads F fh) where
  open F use {State}
  open laws use {Open, content}

  -- `gdpfs_dir_remove`, as of any type, of a name that no entry in use of an open directory of
  -- well-formed entries has, ends with more fuel than entries and returns the status OK; the directory
  -- is unchanged.
  pub dir_remove-missing :
      (fuel : ℕ) (es : List PhysEntry) (name : Bytes) (type : FileType) (s : State)
      → AreEntries es
      → Open s
      → content s ≡ table es
      → length es < fuel
      → IsMissing name es
      → (t : State) × (dir_remove F fuel fh name type s ≡ some (Stat.ok, t)) × Same F fh laws s t
  unfolding dir_remove remove_found
  dir_remove-missing fuel es name type s w o c lt h =
      let (t, found, same) = find_insert_offset-search F fh laws fuel es name s w o c lt in
      let (place, missing) = search-missing es name 0 none h in (t, rw (found, missing) refl, same)
