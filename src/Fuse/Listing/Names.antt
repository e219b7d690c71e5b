-- ===== src/Fuse/Listing/Names.antt =====
-- `gdpfs_readdir` lists the names of a directory.
use mathlib.Core.Path.{subst}
use mathlib.Core.List.{append_assoc, append-nil}
use gdpfs.Base.{
  ℕ, zero, suc, ◌+◌, ◌*◌, ◌-◌, ◌<◌, ◌≡◌, refl, ap, ◌∙◌, sym, inl, inr, Bool, false, some, List, [],
  ◌∷◌, ◌++◌, arith, length, length-append, ◌==◌, if◌then◌else◌, Bool-cases,
}
use gdpfs.Dir.Entry.{Bytes, entry_size, PhysEntry, c_string}
use gdpfs.Dir.Files.{Files, Reads}
use gdpfs.Dir.Table.{Listed, listed, finished, dir_read}
use gdpfs.Dir.Table.Layout.{AreEntries, table}
use gdpfs.Dir.Table.Find.{Same, first_used, dir_read-first, AreEntries-append, split-AreEntries}
use gdpfs.Fuse.Listing.{Filled, dot, dot_dot, put, list_round, list_from, readdir}

-- The entries in use, with the offsets behind them as FUSE sees them.
unfoldable pub used_names : List PhysEntry → (offset : ℕ) → Filled
used_names [] offset = []
used_names (e ∷ es) offset =
    let rest = used_names es (offset + entry_size) in
    if e.in_use then (c_string e.name, offset + entry_size + 3) ∷ rest else rest

data Next (fs : List PhysEntry) (offset : ℕ) : Type 0 where
  ended : first_used fs offset ≡ finished → used_names fs offset ≡ [] → Next fs offset
  next :
      (skipped rest : List PhysEntry) (f : PhysEntry) (after : ℕ)
      → fs ≡ skipped ++ (f ∷ rest)
      → after ≡ offset + entry_size * (length skipped + 1)
      → first_used fs offset ≡ listed (c_string f.name) after
      → used_names fs offset ≡ (c_string f.name, after + 3) ∷ used_names rest after
      → Next fs offset

used-Next : (fs : List PhysEntry) (offset : ℕ) → Next fs offset
unfolding first_used used_names
used-Next [] offset = ended refl refl
used-Next (f ∷ fs) offset = elim (Bool-cases f.in_use) [
  | inl u ↦ next [] fs f (offset + entry_size) refl (omega arith) (rw u refl) (rw u refl)
  | inr u ↦ elim (used-Next fs (offset + entry_size)) [
    | ended p q ↦ ended (simp u p) (simp u q)
    | next skipped rest g after p r l n ↦
        next (f ∷ skipped) rest g after (ap (λ gs. f ∷ gs) p) (omega arith) (simp u l) (simp u n)
  ]
]

not_one : (o : ℕ) → (o + 3 == 1) ≡ false
not_one o = ground arith

not_two : (o : ℕ) → (o + 3 == 2) ≡ false
not_two o = ground arith

-- `filler` with room for everything
abbrev pub never : Filled → Bytes → ℕ → Bool
never filled name offset = false

module _ (F : Files) (fh : ℕ) (laws : Reads F fh) where
  open F use {State}
  open laws use {Open, content}

  list_round-put :
      (fuel sf : ℕ) (ent : Bytes × ℕ) (o : ℕ) (filled : Filled) (s t : State) (r : Listed)
      → dir_read F sf fh o s ≡ some (r, t)
      → list_from F never (suc fuel) sf fh ent (o + 3) filled s
        ≡ list_round F never (list_from F never fuel sf fh) ent filled r t
  unfolding list_from
  list_round-put fuel sf ent o filled s t r found = rw (not_one o, not_two o, cancel, found) refl
    where
      cancel : o + 3 - 3 ≡ o
      cancel = omega arith

  list_round-listed :
      (fuel sf : ℕ) (ent : Bytes × ℕ) (filled : Filled) (t : State) {r : Listed} {name : Bytes}
      {after : ℕ}
      → r ≡ listed name after
      → list_round F never (list_from F never fuel sf fh) ent filled r t
        ≡ list_from F never fuel sf fh
            (name, after)
            (after + 3)
            (filled ++ ((name, after + 3) ∷ []))
            t
  unfolding list_round put
  list_round-listed fuel sf ent filled t first = rw first refl

  list_from-names :
      (fuel sf : ℕ) (es fs : List PhysEntry) (ent : Bytes × ℕ) (o : ℕ) (filled : Filled) (s : State)
      → AreEntries es
      → AreEntries fs
      → Open s
      → content s ≡ table (es ++ fs)
      → o ≡ entry_size * length es
      → length fs < fuel
      → length fs < sf
      → (t : State) × (list_from F never fuel sf fh ent (o + 3) filled s
          ≡ some (filled ++ used_names fs o, t))
        × Same F fh laws s t
  list_from-names zero sf es fs ent o filled s w v p c e lt lt' = absurd (omega arith)
  list_from-names (suc fuel) sf es fs ent o filled s w v p c e lt lt' =
      let (t, found, same) = dir_read-first F fh laws sf es fs o s w v p c e lt' in
      elim (used-Next fs o) [
        | ended first none_left ↦ (
          t,
          list_round-put fuel sf ent o filled s t _ found
              ∙ (unfold list_round in rw (first, none_left, append-nil filled) refl),
          same,
        )
        | next skipped rest f after q r first names ↦
            let name = c_string f.name in
            let (vs, vf) = split-AreEntries skipped (f ∷ rest) (subst AreEntries q v) in
            let (u, listing, later) =
              list_from-names fuel sf (es ++ (skipped ++ (f ∷ []))) rest (name, after) after
                (filled ++ ((name, after + 3) ∷ [])) t
                (AreEntries-append es (skipped ++ (f ∷ [])) w
                  (AreEntries-append skipped (f ∷ []) vs (vf.0, tt)))
                vf.1 same.opened
                (same.content_same
                  ∙ c
                  ∙ ap table (ap (λ gs. es ++ gs) q ∙ regroup es skipped rest f))
                (omega
                  (arith, length-append es (skipped ++ (f ∷ [])), length-append skipped (f ∷ [])))
                (omega (arith, ap length q, length-append skipped (f ∷ rest)))
                (omega (arith, ap length q, length-append skipped (f ∷ rest))) in
            (
              u,
              list_round-put fuel sf ent o filled s t _ found
                  ∙ list_round-listed fuel sf ent filled t first
                  ∙ listing
                  ∙ ap (λ l. some (l, u))
                      (append_assoc filled ((name, after + 3) ∷ []) (used_names rest after)
                        ∙ ap (λ l. filled ++ l) (sym names)),
              record {
                opened = later.opened;
                content_same = later.content_same ∙ same.content_same;
              },
            )
      ]
    where
      regroup :
          (es skipped rest : List PhysEntry) (f : PhysEntry)
          → es ++ (skipped ++ (f ∷ rest)) ≡ (es ++ (skipped ++ (f ∷ []))) ++ rest
      regroup es skipped rest f =
          ap (λ gs. es ++ gs) (sym (append_assoc skipped (f ∷ []) rest))
          ∙ sym (append_assoc es (skipped ++ (f ∷ [])) rest)

  -- `gdpfs_readdir` from the start of an open directory of well-formed entries, with room for every
  -- name and with enough fuel, ends, leaves the directory unchanged, and fills in ".", ".." and the
  -- names of the entries in use, in their order, each with the offset to go on from.
  pub readdir-names :
      (fuel sf : ℕ) (es : List PhysEntry) (ent : Bytes × ℕ) (s : State)
      → AreEntries es
      → Open s
      → content s ≡ table es
      → length es + 2 < fuel
      → length es < sf
      → (t : State) × (readdir F never fuel sf fh ent 0 s
          ≡ some ((dot, 2) ∷ (dot_dot, 3) ∷ used_names es 0, t))
        × Same F fh laws s t
  unfolding readdir list_from put
  readdir-names zero sf es ent s w p c lt lt' = absurd (omega arith)
  readdir-names (suc zero) sf es ent s w p c lt lt' = absurd (omega arith)
  readdir-names (suc (suc fuel)) sf es ent s w p c lt lt' =
      list_from-names fuel sf [] es ent 0 ((dot, 2) ∷ (dot_dot, 3) ∷ []) s tt w p c (omega arith)
        (omega arith) lt'
