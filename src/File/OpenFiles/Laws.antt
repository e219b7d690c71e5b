-- ===== src/File/OpenFiles/Laws.antt =====
-- References, the list of recently closed files and file objects of src/gdpfs_file.c fit together.
use mathlib.Core.Path.{subst}
use native.Mathlib.Decide.{ℕ_discrete}
use gdpfs.Base.{
  ℕ, ◌+◌, ◌%◌, ◌^◌, ◌<◌, ◌≤◌, ◌≡◌, ◌≢◌, refl, ap, ◌∙◌, sym, inl, inr, Bool, true, false, Bool-cases,
  Option, none, some, List, ◌∷◌, arith, ◌||◌, if◌then◌else◌, length,
}
use gdpfs.File.OpenFiles.{
  rc_cap, Shared, new_shared, set_object, remove, file_ref, revive, enter_found, write_ref, System,
  count,
}
use gdpfs.File.OpenFiles.Counts.{
  is_same, is_other, count-here, count-there, count-remove, count_other-remove, length-remove,
}

abbrev pub flag_of : Option Shared → ℕ
flag_of none = 0
flag_of (some s) = if s.recently_closed then 1 else 0

abbrev pub refs_of : Option Shared → ℕ
refs_of none = 0
refs_of (some s) = s.ref_count

-- A file is in the list as often as its flag tells, has as many references as its count tells, and
-- has none where it is in the list.
pub record Consistent (held recent : List ℕ) (objects : ℕ → Option Shared) : Type 0 where
  pub tallied : (n : ℕ) → count n recent ≡ flag_of (objects n)
  pub counted : (n : ℕ) → count n held ≡ refs_of (objects n)
  pub idle : (n : ℕ) → flag_of (objects n) ≡ 1 → refs_of (objects n) ≡ 0

pub record Valid (s : System) : Type 0 where
  pub consistent : Consistent s.held s.table.recent s.table.objects
  pub sized : s.table.recent_size ≡ length s.table.recent
  pub small : length s.table.recent ≤ rc_cap
  pub bounded : (n : ℕ) → count n s.held < 2 ^ 32

set_object-same :
    (n : ℕ) (o : Option Shared) (objects : ℕ → Option Shared) → set_object n o objects n ≡ o
unfolding set_object
set_object-same n o objects = rw (is_same n n refl) refl

set_object-other :
    (m n : ℕ) (o : Option Shared) (objects : ℕ → Option Shared)
    → m ≢ n
    → set_object n o objects m ≡ objects m
unfolding set_object
set_object-other m n o objects d = rw (is_other m n d) refl

-- One file changes.
pub set_object-Consistent :
    (n : ℕ) (o : Option Shared) (held recent held' recent' : List ℕ) (objects : ℕ → Option Shared)
    → Consistent held recent objects
    → ((m : ℕ) → m ≢ n → count m recent' ≡ count m recent)
    → ((m : ℕ) → m ≢ n → count m held' ≡ count m held)
    → count n recent' ≡ flag_of o
    → count n held' ≡ refs_of o
    → (flag_of o ≡ 1 → refs_of o ≡ 0)
    → Consistent held' recent' (set_object n o objects)
set_object-Consistent n o held recent held' recent' objects c others refs here refs_here idle_here =
    record {
      tallied = λ m. elim (ℕ_discrete m n) [
        | yes e ↦
            ap (λ k. count k recent') e
            ∙ here
            ∙ sym (ap flag_of (ap (set_object n o objects) e ∙ set_object-same n o objects))
        | no d ↦ others m d ∙ c.tallied m ∙ sym (ap flag_of (set_object-other m n o objects d))
      ];
      counted = λ m. elim (ℕ_discrete m n) [
        | yes e ↦
            ap (λ k. count k held') e
            ∙ refs_here
            ∙ sym (ap refs_of (ap (set_object n o objects) e ∙ set_object-same n o objects))
        | no d ↦ refs m d ∙ c.counted m ∙ sym (ap refs_of (set_object-other m n o objects d))
      ];
      idle = λ m h. elim (ℕ_discrete m n) [
        | yes e ↦
            let at = ap (set_object n o objects) e ∙ set_object-same n o objects in
            ap refs_of at ∙ idle_here (sym (ap flag_of at) ∙ h)
        | no d ↦
            let at = set_object-other m n o objects d in
            ap refs_of at ∙ c.idle m (sym (ap flag_of at) ∙ h)
      ];
    }

count_open :
    (n : ℕ) (held : List ℕ) (k : ℕ)
    → count n held ≡ k
    → k + 1 < 2 ^ 32
    → count n (n ∷ held) ≡ (k + 1) % 2 ^ 32
count_open n held k e lt = omega (arith, count-here n held)

-- A new reference to a file that is in use or new.
file_ref-Valid :
    (n : ℕ) (o : Shared) (s : System)
    → Valid s
    → count n s.held + 1 < 2 ^ 32
    → count n s.held ≡ o.ref_count
    → count n s.table.recent ≡ 0
    → o.recently_closed ≡ false
    → Valid (record { table = file_ref n o s.table; held = n ∷ s.held })
unfolding file_ref
file_ref-Valid n o s v lt refs none_listed unlisted = record {
  consistent =
      set_object-Consistent n (some (record o { ref_count = (o.ref_count + 1) % 2 ^ 32 })) s.held
        s.table.recent (n ∷ s.held) s.table.recent s.table.objects v.consistent (λ m d. refl)
        (λ m d. count-there m n s.held d)
        (none_listed ∙ sym (ap (λ t. if t then 1 else 0) unlisted))
        (count_open n s.held o.ref_count refs (omega (arith, lt, refs)))
        (λ h. absurd (one (ap (λ t. if t then 1 else 0) unlisted) h));
  sized = v.sized;
  small = v.small;
  bounded = λ m. elim (ℕ_discrete m n) [
    | yes e ↦ omega (arith, lt, count-here n s.held, ap (λ k. count k (n ∷ s.held)) e)
    | no d ↦ omega (arith, count-there m n s.held d, v.bounded m)
  ];
}
  where
    one : {a : ℕ} → a ≡ 0 → a ≢ 1
    one e h = omega arith

pub set_flag : (t : Bool) → t ≡ true → ◌≡◌ {A = ℕ} (if t then 1 else 0) 1
set_flag true e = refl
set_flag false e = absurd cc

pub clear_flag : (t : Bool) → t ≡ false → ◌≡◌ {A = ℕ} (if t then 1 else 0) 0
clear_flag true e = absurd cc
clear_flag false e = refl

revive-Valid :
    (n : ℕ) (o : Shared) (s : System)
    → Valid s
    → s.table.objects n ≡ some o
    → o.recently_closed ≡ true
    → Valid (record s { table = revive n o s.table })
      × (count n (remove n s.table.recent) ≡ 0)
      × (count n s.held ≡ o.ref_count)
unfolding revive
revive-Valid n o s v at closed =
    let listed : count n s.table.recent ≡ 1 =
      v.consistent.tallied n ∙ ap flag_of at ∙ set_flag o.recently_closed closed in
    let gone : count n (remove n s.table.recent) ≡ 0 =
      omega (arith, count-remove n s.table.recent, listed) in
    let size = length-remove n s.table.recent (omega (arith, listed)) in
    let refs : count n s.held ≡ o.ref_count = v.consistent.counted n ∙ ap refs_of at in
    (
      record {
        consistent =
            set_object-Consistent n (some (record o { recently_closed = false })) s.held
              s.table.recent s.held (remove n s.table.recent) s.table.objects v.consistent
              (λ m d. count_other-remove m n s.table.recent d) (λ m d. refl) gone refs
              (λ h. absurd (omega (arith, h)));
        sized = omega (arith, v.sized, size);
        small = omega (arith, v.small, size);
        bounded = v.bounded;
      },
      gone,
      refs,
    )

pub chosen : {A : Type 0} (x y : A) (t : Bool) → t ≡ true → (if t then x else y) ≡ x
chosen x y true e = refl
chosen x y false e = absurd cc

pub passed_over : {A : Type 0} (x y : A) (t : Bool) → t ≡ false → (if t then x else y) ≡ y
passed_over x y true e = absurd cc
passed_over x y false e = refl

pub enter_found-Valid :
    (n : ℕ) (s : System) (o : Option Shared)
    → Valid s
    → count n s.held + 1 < 2 ^ 32
    → s.table.objects n ≡ o
    → Valid (record { table = enter_found n o s.table; held = n ∷ s.held })
unfolding enter_found
enter_found-Valid n s none v lt at =
    file_ref-Valid n new_shared s v lt (v.consistent.counted n ∙ ap refs_of at)
      (v.consistent.tallied n ∙ ap flag_of at) refl
enter_found-Valid n s (some o) v lt at = elim (Bool-cases o.recently_closed) [
  | inl closed ↦
      let (v', gone, refs) = revive-Valid n o s v at closed in
      subst (λ t. Valid (record { table = t; held = n ∷ s.held }))
        (sym (
          chosen (file_ref n (record o { recently_closed = false }) (revive n o s.table))
            (file_ref n o s.table) o.recently_closed closed))
        (file_ref-Valid n (record o { recently_closed = false })
          (record s { table = revive n o s.table }) v' lt refs (unfold revive in gone) refl)
  | inr in_use ↦
      subst (λ t. Valid (record { table = t; held = n ∷ s.held }))
        (sym (
          passed_over (file_ref n (record o { recently_closed = false }) (revive n o s.table))
            (file_ref n o s.table) o.recently_closed in_use))
        (file_ref-Valid n o s v lt (v.consistent.counted n ∙ ap refs_of at)
          (v.consistent.tallied n ∙ ap flag_of at ∙ clear_flag o.recently_closed in_use) in_use)
]

pub write_ref-Valid :
    (n : ℕ) (dirty : Bool) (o : Shared) (s : System)
    → Valid s
    → s.table.objects n ≡ some o
    → 0 < count n s.held
    → count n s.held + 1 < 2 ^ 32
    → Valid (record { table = write_ref dirty n o s.table; held = n ∷ s.held })
unfolding write_ref
write_ref-Valid n dirty o s v at used lt = elim (Bool-cases o.recently_closed) [
  | inl closed ↦ absurd (
      omega (
        arith,
        used,
        v.consistent.counted n,
        v.consistent.idle n (ap flag_of at ∙ set_flag o.recently_closed closed),
      ))
  | inr in_use ↦
      file_ref-Valid n (record o { changed = o.changed || dirty }) s v lt
        (v.consistent.counted n ∙ ap refs_of at)
        (v.consistent.tallied n ∙ ap flag_of at ∙ clear_flag o.recently_closed in_use) in_use
]
