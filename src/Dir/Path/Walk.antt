-- ===== src/Dir/Path/Walk.antt =====
-- The loop of `gdpfs_dir_open_file_at_path` visits the components of the path.
use gdpfs.Base.{ℕ, Bool, true, false, List, [], ◌∷◌, ◌==◌, if◌then◌else◌}
use gdpfs.Base.Prog.{Prog, give}
use gdpfs.Stat.{Stat, ep_ok}
use gdpfs.Dir.Entry.{Bytes}
use gdpfs.Dir.Files.{FileType}
use gdpfs.Dir.Path.{System, slash, walk_component}

-- A component, and whether the path ends directly behind it.
abbrev pub Piece : Type 0
Piece = Bytes × Bool

-- One more byte at the front of the first component.
unfoldable pub extend : ℕ → List Piece → List Piece
extend c [] = []
extend c ((name, last) ∷ ps) = (c ∷ name, last) ∷ ps

-- The components of a path, in one pass.
unfoldable pub pieces : Bytes → List Piece
unfolding extend
pieces [] = []
pieces (c ∷ []) = if c == slash then [] else (c ∷ [], true) ∷ []
pieces (c ∷ (d ∷ cs)) =
    let rest = pieces (d ∷ cs) in
    if c == slash then rest else if d == slash then (c ∷ [], false) ∷ rest else extend c rest

module _ (system : System) where
  open system use {files}
  open files use {State}

  -- The components, opened one after the other.
  unfoldable pub resolve : FileType → List Piece → (fh : ℕ) → Prog State (Stat × ℕ)
  resolve type [] fh = give (ep_ok, fh)
  resolve type ((name, last) ∷ ps) fh = walk_component system (resolve type ps) type name last fh
