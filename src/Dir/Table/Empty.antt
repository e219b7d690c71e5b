-- ===== src/Dir/Table/Empty.antt =====
-- What `gdpfs_dir_isempty` of src/gdpfs_dir.c tells of a directory.
use gdpfs.Base.{
  ℕ, ◌+◌, ◌<◌, ◌≡◌, refl, ap, inl, inr, Bool, true, some, List, [], ◌∷◌, arith, length, Bool-cases,
  not, ◌&&◌,
}
use gdpfs.Stat.{Stat}
use gdpfs.Dir.Entry.{entry_size, PhysEntry}
use gdpfs.Dir.Files.{Files, Reads}
use gdpfs.Dir.Table.{emptiness, is_empty}
use gdpfs.Dir.Table.Layout.{AreEntries, table}
use gdpfs.Dir.Table.Find.{Same, first_used, dir_read-first}

-- No entry is in use.
unfoldable pub none_used : List PhysEntry → Bool
none_used [] = true
none_used (e ∷ es) = not e.in_use && none_used es

first_used-emptiness :
    (es : List PhysEntry) (offset : ℕ) → emptiness (first_used es offset) ≡ (Stat.ok, none_used es)
unfolding emptiness first_used none_used
first_used-emptiness [] offset = refl
first_used-emptiness (e ∷ es) offset = elim (Bool-cases e.in_use) [
  | inl u ↦ simp u refl
  | inr u ↦ simp u (first_used-emptiness es (offset + entry_size))
]

module _ (F : Files) (fh : ℕ) (laws : Reads F fh) where
  open F use {State}
  open laws use {Open, content}

  -- `gdpfs_dir_isempty` of an open directory of well-formed entries, with more fuel than entries, ends
  -- with the status OK, leaves the directory unchanged, and tells whether no entry is in use.
  pub is_empty-none_used :
      (fuel : ℕ) (es : List PhysEntry) (s : State)
      → AreEntries es
      → Open s
      → content s ≡ table es
      → length es < fuel
      → (t : State) × (is_empty F fuel fh s ≡ some ((Stat.ok, none_used es), t))
        × Same F fh laws s t
  unfolding is_empty
  is_empty-none_used fuel es s w o c lt =
      let (t, found, same) = dir_read-first F fh laws fuel [] es 0 s tt w o c (omega arith) lt in
      (t, rw found (ap (λ r. some (r, t)) (first_used-emptiness es 0)), same)
