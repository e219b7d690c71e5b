-- ===== src/File/OpenFiles/Release.antt =====
-- A reference to a file of src/gdpfs_file.c is given up.
use native.Mathlib.Decide.{ℕ_discrete}
use gdpfs.Base.{
  take, ℕ, ◌+◌, ◌-◌, ◌%◌, ◌^◌, ◌<◌, ◌≡◌, ◌≢◌, refl, ap, ◌∙◌, sym, inl, inr, true, false, Bool-cases,
  Option, none, some, ◌∷◌, arith, ◌==◌,
}
use gdpfs.File.OpenFiles.{
  rc_cap, Shared, Table, set_object, update, remove, file_unref, release_file, System, count,
}
use gdpfs.File.OpenFiles.Counts.{is_same, count-remove, count_other-remove}
use gdpfs.File.OpenFiles.Laws.{
  flag_of, refs_of, Consistent, Valid, set_object-Consistent, set_flag, clear_flag, chosen,
  passed_over,
}
use gdpfs.File.OpenFiles.Stored.{stored}
use gdpfs.File.OpenFiles.Insert.{recently_closed_insert-Inserted}

-- The reference can be given up, and everything fits afterwards. Where it was the last, the file is at
-- the front of the list, of which the first 256 stay.
pub record Released (n : ℕ) (s : System) (result : Option Table) : Type 0 where
  pub after : Table
  pub given : result ≡ some after
  pub valid : Valid (record { table = after; held = remove n s.held })
  pub last_one : count n s.held ≡ 1 → after.recent ≡ take rc_cap (n ∷ s.table.recent)
  pub not_last : 1 < count n s.held → after.recent ≡ s.table.recent

true_ne_false : true ≢ false
true_ne_false = λ e. cc

pub release_file-Released :
    (n : ℕ) (s : System) (o : Option Shared)
    → Valid s
    → 0 < count n s.held
    → s.table.objects n ≡ o
    → Released n s (release_file stored n o s.table)
unfolding release_file file_unref
release_file-Released n s none v used at =
    absurd (omega (arith, used, v.consistent.counted n, ap refs_of at))
release_file-Released n s (some o) v used at = elim (Bool-cases (fewer == 0)) [
  | inl z ↦
      let i =
        recently_closed_insert-Inserted n less (remove n s.held) (update n less s.table) without
          v.sized v.small in_use (is_zero z) (counted_less ∙ is_zero z) away in
      record {
        after = i.after;
        given = chosen _ _ (fewer == 0) z ∙ i.given;
        last_one = λ h. i.newest;
        not_last = λ h. absurd (omega (arith, h, is_zero z, counted_less, count-remove n s.held));
        valid = record {
          consistent = i.consistent;
          sized = i.sized;
          small = i.small;
          bounded = still_bounded;
        };
      }
  | inr nz ↦ record {
    after = update n less s.table;
    given = passed_over _ _ (fewer == 0) nz;
    last_one = λ h. absurd (
        true_ne_false
          (sym (is_same fewer 0 (omega (arith, h, counted_less, count-remove n s.held))) ∙ nz));
    not_last = λ h. refl;
    valid = record {
      consistent = without;
      sized = v.sized;
      small = v.small;
      bounded = still_bounded;
    };
  }
]
  where
    fewer : ℕ
    fewer = (o.ref_count + 2 ^ 32 - 1) % 2 ^ 32

    less : Shared
    less = record o { ref_count = fewer }

    refs : count n s.held ≡ o.ref_count
    refs = v.consistent.counted n ∙ ap refs_of at

    in_use : o.recently_closed ≡ false
    in_use = elim (Bool-cases o.recently_closed) [
      | inl closed ↦ absurd (
          omega (
            arith,
            used,
            v.consistent.counted n,
            v.consistent.idle n (ap flag_of at ∙ set_flag o.recently_closed closed),
          ))
      | inr e ↦ e
    ]

    away : count n s.table.recent ≡ 0
    away = v.consistent.tallied n ∙ ap flag_of at ∙ clear_flag o.recently_closed in_use

    counted_less : count n (remove n s.held) ≡ fewer
    counted_less = omega (arith, count-remove n s.held, refs, used, v.bounded n)

    is_zero : (fewer == 0) ≡ true → fewer ≡ 0
    is_zero z = ground (arith, z)

    without : Consistent (remove n s.held) s.table.recent (set_object n (some less) s.table.objects)
    without =
        set_object-Consistent n (some less) s.held s.table.recent (remove n s.held) s.table.recent
          s.table.objects v.consistent (λ m d. refl) (λ m d. count_other-remove m n s.held d)
          (away ∙ sym (clear_flag o.recently_closed in_use)) counted_less
          (λ h. absurd (one (clear_flag o.recently_closed in_use) h))
      where
        one : {a : ℕ} → a ≡ 0 → a ≢ 1
        one e h = omega arith

    still_bounded : (m : ℕ) → count m (remove n s.held) < 2 ^ 32
    still_bounded m = elim (ℕ_discrete m n) [
      | yes e ↦
          omega (arith, ap (λ k. count k (remove n s.held)) e, count-remove n s.held, v.bounded n)
      | no d ↦ omega (arith, count_other-remove m n s.held d, v.bounded m)
    ]
