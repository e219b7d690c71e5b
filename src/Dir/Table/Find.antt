-- ===== src/Dir/Table/Find.antt =====
-- The loops of `_find_insert_offset` and `gdpfs_dir_read` of src/gdpfs_dir.c over the entries of a
-- directory: they end, and find what a search of the list of entries finds.
use mathlib.Core.List.{append_assoc}
use gdpfs.Base.{
  ℕ, zero, suc, ◌+◌, ◌*◌, ◌<◌, ◌≤◌, ◌≡◌, ap, ◌∙◌, sym, inl, inr, Bool, Option, none, some, List, [],
  ◌∷◌, ◌++◌, arith, length, length-append, take, drop, if◌then◌else◌, Bool-cases, ◌&&◌,
}
use gdpfs.Dir.Entry.{Bytes, entry_size, PhysEntry, c_string, same_bytes}
use gdpfs.Dir.Files.{Files, Reads}
use gdpfs.Dir.Table.{
  look_at, Search, exists, vacant, insert_at, Listed, listed, finished, find_round, find_from,
  find_insert_offset, read_round, dir_read,
}
use gdpfs.Dir.Table.Layout.{AreEntries, table, length-table, first_of, look_at-table}

-- An entry in use under a name.
unfoldable pub named : PhysEntry → Bytes → Bool
named e name = e.in_use && same_bytes (c_string e.name) name

-- The search of a list of entries that starts at an offset.
unfoldable pub search : List PhysEntry → (name : Bytes) → (offset : ℕ) → (first : Option ℕ) → Search
search [] name offset first = vacant (insert_at first offset)
search (e ∷ es) name offset first =
    if named e name
    then exists offset e
    else search es name (offset + entry_size)
        (if e.in_use then first else some (insert_at first offset))

-- The first entry in use of a list, with the offset behind it.
unfoldable pub first_used : List PhysEntry → (offset : ℕ) → Listed
first_used [] offset = finished
first_used (e ∷ es) offset =
    if e.in_use
    then listed (c_string e.name) (offset + entry_size)
    else first_used es (offset + entry_size)

pub AreEntries-append :
    (es fs : List PhysEntry) → AreEntries es → AreEntries fs → AreEntries (es ++ fs)
AreEntries-append [] fs w v = v
AreEntries-append (e ∷ es) fs w v = (w.0, AreEntries-append es fs w.1 v)

pub split-AreEntries :
    (front old : List PhysEntry) → AreEntries (front ++ old) → AreEntries front × AreEntries old
split-AreEntries [] old w = (tt, w)
split-AreEntries (e ∷ front) old w = let (v, u) = split-AreEntries front old w.1 in ((w.0, v), u)

module _ (F : Files) (fh : ℕ) (laws : Reads F fh) where
  open F use {State, read}
  open laws use {Open, content}

  -- The state is as before, as far as the content of the handle goes.
  pub record Same (s t : State) : Type 0 where
    pub opened : Open t
    pub content_same : content t ≡ content s

  -- An offset behind some of the entries.
  within :
      (es fs : List PhysEntry) (offset : ℕ) (s : State)
      → AreEntries es
      → AreEntries fs
      → content s ≡ table (es ++ fs)
      → offset ≡ entry_size * length es
      → offset ≤ length (content s)
  within es fs offset s w v c e = omega (
    arith,
    e,
    ap length c,
    length-table (es ++ fs) (AreEntries-append es fs w v),
    length-append es fs,
  )

  after_read :
      (offset : ℕ) (s : State)
      → Open s
      → offset ≤ length (content s)
      → Same s (read fh entry_size offset s).1
  after_read offset s o le = record {
    opened = (laws.read_keeps offset s o le).0;
    content_same = (laws.read_keeps offset s o le).1;
  }

  then-Same : {s t u : State} → Same s t → Same t u → Same s u
  then-Same p q = record { opened = q.opened; content_same = q.content_same ∙ p.content_same }

  -- What one read of the loops sees.
  look-read :
      (es fs : List PhysEntry) (offset : ℕ) (s : State)
      → AreEntries es
      → AreEntries fs
      → Open s
      → content s ≡ table (es ++ fs)
      → offset ≡ entry_size * length es
      → look_at (read fh entry_size offset s).0 ≡ first_of fs
  look-read es fs offset s w v o c e =
      ap look_at (
        laws.read_bytes offset s o (within es fs offset s w v c e)
        ∙ ap (λ bs. take entry_size (drop offset bs)) c)
      ∙ look_at-table es fs offset w v e

  abbrev Finds : (fuel : ℕ) → List PhysEntry → Bytes → ℕ → Option ℕ → State → Type 0
  Finds fuel fs name offset first s =
      (t : State) × (find_from F fuel fh name offset first s
        ≡ some (search fs name offset first, t))
      × Same s t

  find_from-search :
      (fuel : ℕ) (es fs : List PhysEntry) (name : Bytes) (offset : ℕ) (first : Option ℕ) (s : State)
      → AreEntries es
      → AreEntries fs
      → Open s
      → content s ≡ table (es ++ fs)
      → offset ≡ entry_size * length es
      → length fs < fuel
      → Finds fuel fs name offset first s
  unfolding find_from find_round search named
  find_from-search zero es fs name offset first s w v o c e lt = absurd (omega arith)
  find_from-search (suc fuel) es [] name offset first s w v o c e lt = (
    (read fh entry_size offset s).1,
    rw (look-read es [] offset s w v o c e),
    after_read offset s o (within es [] offset s w v c e),
  )
  find_from-search (suc fuel) es (f ∷ fs) name offset first s w v o c e lt =
      let step = after_read offset s o (within es (f ∷ fs) offset s w v c e) in
      let go = λ (first' : Option ℕ).
        find_from-search fuel (es ++ (f ∷ [])) fs name (offset + entry_size) first'
          (read fh entry_size offset s).1 (AreEntries-append es (f ∷ []) w (v.0, tt)) v.1
          step.opened (step.content_same ∙ c ∙ ap table (sym (append_assoc es (f ∷ []) fs)))
          (omega (arith, length-append es (f ∷ []))) (omega arith) in
      rw (look-read es (f ∷ fs) offset s w v o c e) (elim (Bool-cases f.in_use) [
        | inl u ↦ elim (Bool-cases (same_bytes (c_string f.name) name)) [
          | inl m ↦ ((read fh entry_size offset s).1, rw (u, m), step)
          | inr m ↦ let (t, found, same) = go first in (t, rw (u, m) found, then-Same step same)
        ]
        | inr u ↦
            let (t, found, same) = go (some (insert_at first offset)) in
            (t, rw u found, then-Same step same)
      ])

  -- With more fuel than entries, `gdpfs_dir_read` ends and returns the first entry in use behind
  -- its offset.
  pub dir_read-first :
      (fuel : ℕ) (es fs : List PhysEntry) (offset : ℕ) (s : State)
      → AreEntries es
      → AreEntries fs
      → Open s
      → content s ≡ table (es ++ fs)
      → offset ≡ entry_size * length es
      → length fs < fuel
      → (t : State) × (dir_read F fuel fh offset s ≡ some (first_used fs offset, t)) × Same s t
  unfolding dir_read read_round first_used
  dir_read-first zero es fs offset s w v o c e lt = absurd (omega arith)
  dir_read-first (suc fuel) es [] offset s w v o c e lt = (
    (read fh entry_size offset s).1,
    rw (look-read es [] offset s w v o c e),
    after_read offset s o (within es [] offset s w v c e),
  )
  dir_read-first (suc fuel) es (f ∷ fs) offset s w v o c e lt =
      let step = after_read offset s o (within es (f ∷ fs) offset s w v c e) in
      rw (look-read es (f ∷ fs) offset s w v o c e) (elim (Bool-cases f.in_use) [
        | inl u ↦ ((read fh entry_size offset s).1, rw u, step)
        | inr u ↦
            let (t, found, same) =
              dir_read-first fuel (es ++ (f ∷ [])) fs (offset + entry_size)
                (read fh entry_size offset s).1 (AreEntries-append es (f ∷ []) w (v.0, tt)) v.1
                step.opened (step.content_same ∙ c ∙ ap table (sym (append_assoc es (f ∷ []) fs)))
                (omega (arith, length-append es (f ∷ []))) (omega arith) in
            (t, rw u found, then-Same step same)
      ])

  pub find_insert_offset-search :
      (fuel : ℕ) (es : List PhysEntry) (name : Bytes) (s : State)
      → AreEntries es
      → Open s
      → content s ≡ table es
      → length es < fuel
      → (t : State) × (find_insert_offset F fuel fh name s ≡ some (search es name 0 none, t))
        × Same s t
  unfolding find_insert_offset
  find_insert_offset-search fuel es name s w o c lt =
      find_from-search fuel [] es name 0 none s tt w o c (omega arith) lt
