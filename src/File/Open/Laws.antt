-- ===== src/File/Open/Laws.antt =====
-- What `open_file` of src/gdpfs_file.c does with a new file, and that it writes to the log of no other.
use gdpfs.Base.{
  ℕ, zero, suc, ◌+◌, ◌≡◌, refl, ap, ◌∙◌, inl, inr, Bool, true, false, Bool-cases, Option, none,
  some, List, [], ◌∷◌, not, ◌==◌, if◌then◌else◌, length, take, drop,
}
use gdpfs.Stat.{Stat, is_ok}
use gdpfs.Dir.Entry.{Bytes}
use gdpfs.Dir.Files.{FileType, Info}
use gdpfs.Dir.AtPath.{same_type}
use gdpfs.File.Parts.{absent, Platform}
use gdpfs.File.{and_then, fill_cache, File, load_info, info_from, get_info_raw}
use gdpfs.File.Submitted.{Submitted, do_write-Submitted}
use gdpfs.File.Replay.{
  chunk, Numbered, fill_chunks, replay_entry, replay, Gathered, load_gathered, load_from, gather,
  start_numbers, open_index,
}
use gdpfs.File.Open.{new_info, init_new, check_type, mark_new, open_typed, open_object}

module _ (P : Platform) where
  open P use {append, latest, ft_init}

  -- A file object that has been opened as a new file: its information has been handed over to the log
  -- and is known, its index is empty, and the number of its last record is 1.
  pub record NewFile (info : Info) (f g : File P) : Type 0 where
    pub submitted :
        (h : File P) × Submitted P info f h
        × (g ≡ record h { figtree = ft_init; last_recno = 1; figtree_initialized = true })
    pub info_cache : g.info_cache ≡ some info
    pub new_file : g.new_file ≡ true

  get_info_raw-absent :
      (f : File P)
      → f.info_cache ≡ none
      → latest f.log_handle ≡ absent
      → get_info_raw P f ≡ (
        (Stat.ok, new_info FileType.new 0),
        record f { info_cache = some (new_info FileType.new 0) },
      )
  unfolding get_info_raw info_from load_info
  get_info_raw-absent f cached e =
      ap (λ o. info_from P o f) cached
      ∙ ap (λ r. ((r.0, r.1), if is_ok r.0 then record f { info_cache = some r.1 } else f))
          (ap load_info e)

  -- Opening a file object with an empty log as a new file of a type, with the log entry made, gives
  -- status OK and a file with that type, the permissions and size 0, which counts as new. Exactly one
  -- record, with this information, is handed over to the log, and the file has one reference and one
  -- append under way more; its index is empty, and the number of its last record is 1.
  pub open_object-NewFile :
      (type : FileType) (perm : ℕ) (f : File P)
      → same_type type FileType.unknown ≡ false
      → f.info_cache ≡ none
      → latest f.log_handle ≡ absent
      → (g : File P) × (open_object P true type perm true true f ≡ some (Stat.ok, g))
        × NewFile
            (new_info type perm)
            (record f { new_file = true; info_cache = some (new_info type perm) })
            g
  unfolding open_object open_typed mark_new check_type open_index same_type init_new
  open_object-NewFile type perm f known cached e =
      let f' = record f { new_file = true; info_cache = some (new_info type perm) } in
      let s = do_write-Submitted P (new_info type perm) f' in
      (
        _,
        rw (known, get_info_raw-absent (record f { new_file = true }) cached e) refl,
        record { submitted = (_, s, refl); info_cache = s.info_cache; new_file = s.new_file },
      )

  -- The file has the log of another.
  abbrev SameLog : File P → Option (File P) → Type 0
  SameLog f none = Unit
  SameLog f (some g) = g.log_handle ≡ f.log_handle

  then-SameLog :
      (f : File P) (o : Option (File P)) (k : File P → Option (File P))
      → SameLog f o
      → ((g : File P) → SameLog g (k g))
      → SameLog f (and_then o k)
  then-SameLog f none k same onward = tt
  then-SameLog f (some g) k same onward = moved (k g) (onward g)
    where
      moved : (o : Option (File P)) → SameLog g o → SameLog f o
      moved none h = tt
      moved (some x) h = h ∙ same

  if-SameLog :
      (f : File P) (t : Bool) (x y : Option (File P))
      → SameLog f x
      → SameLog f y
      → SameLog f (if t then x else y)
  if-SameLog f true x y h k = h
  if-SameLog f false x y h k = k

  fill_cache-log :
      (bs : Bytes) (offset : ℕ) (f : File P)
      → (fill_cache P bs offset f).1.log_handle ≡ f.log_handle
  unfolding fill_cache
  fill_cache-log bs offset f = elim (Bool-cases P.use_cache) [
    | inl u ↦ rw u refl
    | inr u ↦ rw u refl
  ]

  fill_chunks-SameLog :
      (fuel : ℕ) (bs : Bytes) (offset : ℕ) (f : File P) → SameLog f (fill_chunks P fuel bs offset f)
  unfolding fill_chunks
  fill_chunks-SameLog zero bs offset f = if-SameLog f (length bs == 0) (some f) none refl tt
  fill_chunks-SameLog (suc fuel) bs offset f =
      let (estat, f') = fill_cache P (take chunk bs) offset f in
      if-SameLog f (length bs == 0) (some f) _ refl (
        if-SameLog f (is_ok estat) (fill_chunks P fuel (drop chunk bs) (offset + chunk) f') none
          (moved (fill_chunks P fuel (drop chunk bs) (offset + chunk) f')
            (fill_chunks-SameLog fuel (drop chunk bs) (offset + chunk) f'))
          tt)
    where
      moved :
          (o : Option (File P)) → SameLog (fill_cache P (take chunk bs) offset f).1 o → SameLog f o
      moved none h = tt
      moved (some x) h = h ∙ fill_cache-log (take chunk bs) offset f

  replay_entry-SameLog : (e : Numbered) (f : File P) → SameLog f (replay_entry P e f)
  unfolding replay_entry
  replay_entry-SameLog (k, r) f = if-SameLog f _ none _ tt (
      if-SameLog f (r.meta.ent_size == 0) (some f) _ refl
        (fill_chunks-SameLog (length r.payload) r.payload r.meta.ent_offset _))

  replay-SameLog : (es : List Numbered) (f : File P) → SameLog f (replay P es f)
  unfolding replay
  replay-SameLog [] f = refl
  replay-SameLog (e ∷ es) f =
      then-SameLog f (replay_entry P e f) (replay P es) (replay_entry-SameLog e f)
        (replay-SameLog es)

  load_gathered-SameLog :
      (found : Option (Gathered P)) (f : File P) → SameLog f (load_gathered P found f)
  unfolding load_gathered
  load_gathered-SameLog none f = tt
  load_gathered-SameLog (some (base, later)) f =
      then-SameLog f _ _ (replay-SameLog later _) (λ g. refl)

  load_from-SameLog : (start : Option (ℕ × ℕ)) (f : File P) → SameLog f (load_from P start f)
  unfolding load_from
  load_from-SameLog none f = tt
  load_from-SameLog (some (last, recno)) f =
      load_gathered-SameLog (gather P recno f.log_handle []) (record f { last_recno = last })

  open_index-SameLog : (strict_init : Bool) (f : File P) → SameLog f (open_index P strict_init f)
  unfolding open_index
  open_index-SameLog strict_init f = if-SameLog f strict_init (some _) _ refl (
      if-SameLog f f.figtree_initialized (some f) _ refl
        (load_from-SameLog (start_numbers P (latest f.log_handle)) f))

  get_info_raw-log : (f : File P) → (get_info_raw P f).1.log_handle ≡ f.log_handle
  unfolding get_info_raw
  get_info_raw-log f = by_cache f.info_cache
    where
      by_status :
          (t : Bool) (info : Info)
          → (if t then record f { info_cache = some info } else f).log_handle ≡ f.log_handle
      by_status true info = refl
      by_status false info = refl

      by_cache : (o : Option Info) → (info_from P o f).1.log_handle ≡ f.log_handle
      by_cache none = unfold info_from in by_status _ _
      by_cache (some info) = unfold info_from in refl

  mark_new-log :
      (strict_init : Bool) (f : File P) → (mark_new P strict_init f).log_handle ≡ f.log_handle
  unfolding mark_new
  mark_new-log true f = refl
  mark_new-log false f = refl

  check_type-same :
      (entry_made : Bool) (type : FileType) (perm : ℕ) (strict_init : Bool) (info : Info)
      (f : File P)
      → (check_type P entry_made type perm false strict_init info f).1 ≡ f
  unfolding check_type
  check_type-same entry_made type perm strict_init info f =
      elim (Bool-cases (same_type info.file_type type)) [ inl e ↦ rw e refl | inr e ↦ rw e refl ]

  open_typed-log :
      (entry_made : Bool) (type : FileType) (perm : ℕ) (strict_init : Bool) (f : File P)
      → (open_typed P entry_made type perm false strict_init f).1.log_handle ≡ f.log_handle
  unfolding open_typed
  open_typed-log entry_made type perm strict_init f =
      by_type (same_type type FileType.unknown)
        (is_ok (get_info_raw P (mark_new P strict_init f)).0.0)
    where
      g : File P
      g = mark_new P strict_init f

      loaded : (get_info_raw P g).1.log_handle ≡ f.log_handle
      loaded = get_info_raw-log g ∙ mark_new-log strict_init f

      by_type :
          (any fine : Bool)
          → (if any
              then (Stat.ok, g)
              else if not fine
              then ((get_info_raw P g).0.0, (get_info_raw P g).1)
              else check_type P entry_made type perm false strict_init
                  (get_info_raw P g).0.1
                  (get_info_raw P g).1).1.log_handle
            ≡ f.log_handle
      by_type true fine = mark_new-log strict_init f
      by_type false true =
          ap (λ h. h.log_handle)
            (check_type-same entry_made type perm strict_init (get_info_raw P g).0.1
              (get_info_raw P g).1)
          ∙ loaded
      by_type false false = loaded

  -- Opening a file object without `init`, whatever its type and the permissions, hands nothing over to
  -- its log, whether the opening succeeds or fails: where the program does not end, the log is as it was.
  pub open_object-log :
      (entry_made : Bool) (type : FileType) (perm : ℕ) (strict_init : Bool) (f g : File P)
      (stat : Stat)
      → open_object P entry_made type perm false strict_init f ≡ some (stat, g)
      → g.log_handle ≡ f.log_handle
  unfolding open_object
  open_object-log entry_made type perm strict_init f g stat =
      by_status (is_ok typed.0) typed (open_typed-log entry_made type perm strict_init f)
    where
      typed : Stat × File P
      typed = open_typed P entry_made type perm false strict_init f

      file_of :
          (r : Stat) (h : File P)
          → ◌≡◌ {A = Option (Stat × File P)} (some (r, h)) (some (stat, g))
          → g ≡ h
      file_of r h e = cc

      indexed :
          (o : Option (File P))
          → SameLog f o
          → ◌≡◌ {A = Option (Stat × File P)}
              (elim o [ none ↦ none | some h ↦ some (Stat.ok, h) ])
              (some (stat, g))
          → g.log_handle ≡ f.log_handle
      indexed none same e = absurd cc
      indexed (some h) same e = ap (λ h. h.log_handle) (file_of Stat.ok h e) ∙ same

      by_status :
          (fine : Bool) (r : Stat × File P)
          → r.1.log_handle ≡ f.log_handle
          → ◌≡◌ {A = Option (Stat × File P)}
              (if not fine then some (r.0, r.1) else elim (open_index P strict_init r.1) [
                | none ↦ none
                | some h ↦ some (Stat.ok, h)
              ])
              (some (stat, g))
          → g.log_handle ≡ f.log_handle
      by_status false r same e = ap (λ h. h.log_handle) (file_of r.0 r.1 e) ∙ same
      by_status true r same e =
          indexed (open_index P strict_init r.1)
            (moved (open_index P strict_init r.1) (open_index-SameLog strict_init r.1)) e
        where
          moved : (o : Option (File P)) → SameLog r.1 o → SameLog f o
          moved none h = tt
          moved (some x) h = h ∙ same
