-- ===== src/File/OpenFiles/Reached.antt =====
-- The table of open files of src/gdpfs_file.c in every state that its operations reach.
use mathlib.Core.Path.{subst}
use gdpfs.Base.{
  ℕ, ◌-◌, ◌<◌, ◌≡◌, refl, ap, ◌∙◌, sym, ◌⊎◌, inl, inr, Bool, true, false, Bool-cases, none, some,
  arith, ◌==◌, not, ◌||◌,
}
use gdpfs.File.OpenFiles.{
  Shared, Table, set_object, update, remove, enter_file, release_file, chkpt_finish, System,
  initial_system, count, Step, opens, writes, releases, finishes, Reach, begins, later, Chkpt,
  index_made, indexes,
}
use gdpfs.File.OpenFiles.Stored.{IsStored, IsStored-stored, release_file-Within}
use gdpfs.File.OpenFiles.Laws.{
  flag_of, refs_of, Valid, set_object-Consistent, enter_found-Valid, write_ref-Valid, chosen,
  passed_over,
}
use gdpfs.File.OpenFiles.Release.{Released, release_file-Released}

pub initial_system-Valid : Valid initial_system
initial_system-Valid = record {
  consistent = record { tallied = λ n. refl; counted = λ n. refl; idle = λ n h. refl };
  sized = refl;
  small = omega arith;
  bounded = λ n. omega arith;
}

pub chkpt_finish-Consistent :
    (n : ℕ) (o : Shared) (s : System)
    → Valid s
    → s.table.objects n ≡ some o
    → Valid (record s { table = chkpt_finish n o s.table })
unfolding chkpt_finish
chkpt_finish-Consistent n o s v at = by_use (
    Bool-cases (not (o.index_flush_reqs - 1 == 0) || (not (o.ref_count == 0) || o.recently_closed)))
  where
    kept : Valid (record s {
      table = update n (record o { index_flush_reqs = o.index_flush_reqs - 1 }) s.table;
    })
    kept = record {
      consistent =
          set_object-Consistent n (some (record o { index_flush_reqs = o.index_flush_reqs - 1 }))
            s.held s.table.recent s.held s.table.recent s.table.objects v.consistent (λ m d. refl)
            (λ m d. refl) (v.consistent.tallied n ∙ ap flag_of at)
            (v.consistent.counted n ∙ ap refs_of at)
            (λ h. sym (ap refs_of at) ∙ v.consistent.idle n (ap flag_of at ∙ h));
      sized = v.sized;
      small = v.small;
      bounded = v.bounded;
    }

    unused :
        (t u : Bool)
        → (t || (not (o.ref_count == 0) || u)) ≡ false
        → (o.ref_count ≡ 0) × (u ≡ false)
    unused t u e = ground (arith, e)

    freed :
        (o.ref_count ≡ 0) × (o.recently_closed ≡ false)
        → Valid
            (record s { table = record s.table { objects = set_object n none s.table.objects } })
    freed (no_refs, unlisted) = record {
      consistent =
          set_object-Consistent n none s.held s.table.recent s.held s.table.recent s.table.objects
            v.consistent (λ m d. refl) (λ m d. refl)
            (v.consistent.tallied n ∙ ap flag_of at ∙ passed_over 1 0 o.recently_closed unlisted)
            (v.consistent.counted n ∙ ap refs_of at ∙ no_refs) (λ h. refl);
      sized = v.sized;
      small = v.small;
      bounded = v.bounded;
    }

    by_use :
        ((not (o.index_flush_reqs - 1 == 0) || (not (o.ref_count == 0) || o.recently_closed))
            ≡ true)
          ⊎ ((not (o.index_flush_reqs - 1 == 0) || (not (o.ref_count == 0) || o.recently_closed))
              ≡ false)
        → Valid (record s { table = chkpt_finish n o s.table })
    by_use (inl used) = subst (λ t. Valid (record s { table = t })) (sym (chosen _ _ _ used)) kept
    by_use (inr idle) =
        subst (λ t. Valid (record s { table = t })) (sym (passed_over _ _ _ idle))
          (freed (unused (not (o.index_flush_reqs - 1 == 0)) o.recently_closed idle))

pub index_made-Valid :
    (n : ℕ) (dirty : Bool) (o : Shared) (s : System)
    → Valid s
    → s.table.objects n ≡ some o
    → Valid (record s { table = index_made dirty n o s.table })
unfolding index_made
index_made-Valid n dirty o s v at = record {
  consistent =
      set_object-Consistent n (some (record o { changed = o.changed || dirty })) s.held
        s.table.recent s.held s.table.recent s.table.objects v.consistent (λ m d. refl)
        (λ m d. refl) (v.consistent.tallied n ∙ ap flag_of at)
        (v.consistent.counted n ∙ ap refs_of at)
        (λ h. sym (ap refs_of at) ∙ v.consistent.idle n (ap flag_of at ∙ h));
  sized = v.sized;
  small = v.small;
  bounded = v.bounded;
}

Step-Valid : {s t : System} → Step s t → Valid s → Valid t
Step-Valid (opens n s lt) v =
    unfold enter_file in enter_found-Valid n s (s.table.objects n) v lt refl
Step-Valid (writes n dirty o s at used lt) v = write_ref-Valid n dirty o s v at used lt
Step-Valid (indexes n dirty o s at) v = index_made-Valid n dirty o s v at
Step-Valid (releases c n s after used e) v =
    let r = release_file-Released n s (s.table.objects n) v used refl in
    let e' = release_file-Within c n (s.table.objects n) s.table after e in
    subst (λ x. Valid (record { table = x; held = remove n s.held }))
      (some_table r.after after (sym r.given ∙ e')) r.valid
  where
    some_table : (a b : Table) → some a ≡ some b → a ≡ b
    some_table a b e = cc
Step-Valid (finishes n o s at flushing) v = chkpt_finish-Consistent n o s v at

-- In every state that is reached by openings, the making of indices, writes, releases and finished
-- checkpoints, each of which runs as a whole: a file's count is the number of the references to it; a
-- file is in the list of recently closed files once if its flag is set and not at all otherwise; files
-- in the list have no references; and the list has as many files as its size tells, 256 at most.
pub Reach-Valid : (s : System) → Reach s → Valid s
Reach-Valid s begins = initial_system-Valid
Reach-Valid s (later {s = t} r step) = Step-Valid step (Reach-Valid t r)

-- In every state that is so reached, giving up a reference that is held fails no assertion, where the
-- checkpoint of a file that falls off the list can be stored: the information is read, `get_dirty` fails
-- no assertion and the log takes the record. Where the reference was the file's last, the file comes to the
-- front of the list of recently closed files, of which the first 256 stay, and otherwise the list stays as
-- it is.
pub Reach-Released :
    (c : Chkpt) (n : ℕ) (s : System)
    → Reach s
    → IsStored c
    → 0 < count n s.held
    → Released n s (release_file c n (s.table.objects n) s.table)
Reach-Released c n s r h used =
    subst (λ c. Released n s (release_file c n (s.table.objects n) s.table))
      (sym (IsStored-stored c h))
      (release_file-Released n s (s.table.objects n) (Reach-Valid s r) used refl)
