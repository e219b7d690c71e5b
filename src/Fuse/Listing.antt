-- ===== src/Fuse/Listing.antt =====
-- `gdpfs_readdir` of src/gdpfs.c.
pub mod Names
use gdpfs.Base.{
  ℕ, zero, suc, ◌+◌, ◌*◌, ◌-◌, ◌<◌, ◌≡◌, refl, ap, ◌∙◌, sym, inl, inr, Bool, true, false, Option,
  some, List, [], ◌∷◌, ◌++◌, arith, length, length-append, ◌==◌, if◌then◌else◌, Bool-cases,
}
use gdpfs.Base.Prog.{Prog, stuck, give, ◌>>=◌}
use gdpfs.Dir.Entry.{Bytes, entry_size, PhysEntry, c_string}
use gdpfs.Dir.Files.{Files}
use gdpfs.Dir.Table.{Listed, listed, finished, broken_off, dir_read}
use gdpfs.Dir.Table.Layout.{AreEntries, table}
use gdpfs.Dir.Table.Find.{Same, first_used, dir_read-first}

-- What has been given to `filler`: names and offsets.
abbrev pub Filled : Type 0
Filled = List (Bytes × ℕ)

-- "." and ".."
abbrev pub dot : Bytes
dot = 46 ∷ []

abbrev pub dot_dot : Bytes
dot_dot = 46 ∷ 46 ∷ []

module _ (F : Files) (full : Filled → Bytes → ℕ → Bool) where
  open F use {State}

  -- A call of `filler`, which refuses a name for which there is no room; the loop ends then.
  unfoldable pub put :
      Filled
      → (name : Bytes) → (offset : ℕ) → (onward : Filled → Prog State Filled) → Prog State Filled
  put filled name offset onward =
      if full filled name offset then give filled else onward (filled ++ ((name, offset) ∷ []))

  -- What is done with what `gdpfs_dir_read` returns; `ent` is the variable that it fills, which
  -- keeps its value where the directory is damaged.
  unfoldable pub list_round :
      (onward : Bytes × ℕ → ℕ → Filled → Prog State Filled)
      → (ent : Bytes × ℕ) → Filled
      → Listed
      → Prog State Filled
  unfolding put
  list_round onward ent filled finished = give filled
  list_round onward ent filled broken_off = put filled ent.0 (ent.1 + 3) (onward ent (ent.1 + 3))
  list_round onward ent filled (listed name offset) =
      put filled name (offset + 3) (onward (name, offset) (offset + 3))

  -- The loop; `search_fuel` is for `gdpfs_dir_read`.
  unfoldable pub list_from :
      (fuel search_fuel fh : ℕ) → (ent : Bytes × ℕ) → (offset : ℕ) → Filled → Prog State Filled
  unfolding put list_round
  list_from zero search_fuel fh ent offset filled = stuck
  list_from (suc fuel) search_fuel fh ent offset filled =
      if offset == 1
      then put filled dot 2 (list_from fuel search_fuel fh ent 2)
      else if offset == 2
      then put filled dot_dot 3 (list_from fuel search_fuel fh ent 3)
      else (do
        r ← dir_read F search_fuel fh (offset - 3)
        list_round (list_from fuel search_fuel fh) ent filled r)

  -- `gdpfs_readdir`; `ent` is what the uninitialized variable holds.
  unfoldable pub readdir :
      (fuel search_fuel fh : ℕ) → (ent : Bytes × ℕ) → (offset : ℕ) → Prog State Filled
  unfolding list_from
  readdir fuel search_fuel fh ent offset =
      if offset == 0
      then list_from fuel search_fuel fh ent 1 []
      else list_from fuel search_fuel fh ent offset []
