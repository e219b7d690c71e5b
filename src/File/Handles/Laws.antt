-- ===== src/File/Handles/Laws.antt =====
-- The handles of src/gdpfs_file.c that are in use, and the references that come from them.
use native.Mathlib.Decide.{ℕ_discrete}
use gdpfs.Base.{
  ℕ, suc, ◌+◌, ◌-◌, ◌<◌, ◌≡◌, ◌≢◌, refl, ap, ◌∙◌, sym, Option, none, some, List, [], ◌∷◌, arith,
  ◌==◌, if◌then◌else◌, length, get_or, set, get_or-set_ne,
}
use gdpfs.Bitmap.{Bitmap}
use gdpfs.Bitmap.Change.{IsValid, bit_at, Changed}
use gdpfs.File.OpenFiles.{Table, remove, count}
use gdpfs.File.OpenFiles.Counts.{is_same, is_other, count-here, count-there}
use gdpfs.File.OpenFiles.Laws.{Valid}
use gdpfs.File.Handles.{max_fhs, Handles, Session, names, users, forget, is_used}
use gdpfs.File.Handles.Counts.{count-put_back}

-- The handles in use lead to their files.
abbrev pub AllAt : List (Option ℕ) → List (ℕ × ℕ) → Type 0
AllAt files [] = Unit
AllAt files ((fh, n) ∷ us) = (fh < max_fhs) × (get_or files fh none ≡ some n) × AllAt files us

-- The bitmap and the array have their sizes.
pub record Sound (h : Handles) : Type 0 where
  pub fhs_valid : IsValid h.fhs
  pub fhs_size : h.fhs.size ≡ max_fhs
  pub files_length : length h.files ≡ max_fhs

-- A handle is in use once if its bit is set, and not at all otherwise; those in use lead to their files;
-- and the table counts the references of the handles and of the appends.
pub record Inv (s : Session) : Type 0 where
  pub sound : Sound s.handles
  pub bits : (fh : ℕ) → fh < max_fhs → is_used fh s.in_use ≡ bit_at s.handles.fhs fh
  pub leads : AllAt s.handles.files s.in_use
  pub refs : Valid (record { table = s.handles.table; held = users s })

pub is_used-here : (fh n : ℕ) (us : List (ℕ × ℕ)) → is_used fh ((fh, n) ∷ us) ≡ is_used fh us + 1
is_used-here fh n us = rw (is_same fh fh refl) refl

pub is_used-there :
    (fh g n : ℕ) (us : List (ℕ × ℕ)) → fh ≢ g → is_used fh ((g, n) ∷ us) ≡ is_used fh us
is_used-there fh g n us d = rw (is_other fh g d) refl

pub is_used-forget : (fh : ℕ) (us : List (ℕ × ℕ)) → is_used fh (forget fh us) ≡ is_used fh us - 1
unfolding forget
is_used-forget fh [] = omega arith
is_used-forget fh ((g, n) ∷ us) = elim (ℕ_discrete fh g) [
  | yes e ↦ rw (is_same fh g e) (omega arith)
  | no d ↦ rw (is_other fh g d, is_other fh g d) (is_used-forget fh us)
]

pub is_used_other-forget :
    (w fh : ℕ) (us : List (ℕ × ℕ)) → w ≢ fh → is_used w (forget fh us) ≡ is_used w us
unfolding forget
is_used_other-forget w fh [] d = refl
is_used_other-forget w fh ((g, n) ∷ us) d = elim (ℕ_discrete fh g) [
  | yes e ↦ rw (is_same fh g e) (sym (is_used-there w g n us (λ p. d (p ∙ sym e))))
  | no d' ↦
      rw (is_other fh g d') (ap (λ c. if w == g then c + 1 else c) (is_used_other-forget w fh us d))
]

pub AllAt-set :
    (files : List (Option ℕ)) (us : List (ℕ × ℕ)) (fh : ℕ) (x : Option ℕ)
    → fh < length files
    → is_used fh us ≡ 0
    → AllAt files us
    → AllAt (set files fh x) us
AllAt-set files [] fh x lt unused at = tt
AllAt-set files ((g, n) ∷ us) fh x lt unused (small, leads, at) = elim (ℕ_discrete fh g) [
  | yes e ↦ absurd (
      omega
        (arith, unused, ap (λ c. if c then is_used fh us + 1 else is_used fh us) (is_same fh g e)))
  | no d ↦ (
    small,
    get_or-set_ne files fh g x none d ∙ leads,
    AllAt-set files us fh x lt (sym (is_used-there fh g n us d) ∙ unused) at,
  )
]

pub AllAt-forget :
    (files : List (Option ℕ)) (us : List (ℕ × ℕ)) (fh : ℕ)
    → AllAt files us
    → AllAt files (forget fh us)
unfolding forget
AllAt-forget files [] fh at = tt
AllAt-forget files ((g, n) ∷ us) fh (small, leads, at) = elim (ℕ_discrete fh g) [
  | yes e ↦ rw (is_same fh g e) at
  | no d ↦ rw (is_other fh g d) (small, leads, AllAt-forget files us fh at)
]

-- A handle in use leads to a file that has a reference.
pub record Leads (files : List (Option ℕ)) (us : List (ℕ × ℕ)) (fh : ℕ) : Type 0 where
  pub name : ℕ
  pub small : fh < max_fhs
  pub leads : get_or files fh none ≡ some name
  pub counted : 0 < count name (names us)

pub is_used-Leads :
    (files : List (Option ℕ)) (us : List (ℕ × ℕ)) (fh : ℕ)
    → 0 < is_used fh us
    → AllAt files us
    → Leads files us fh
is_used-Leads files [] fh used at = absurd (omega arith)
is_used-Leads files ((g, n) ∷ us) fh used (small, leads, at) = elim (ℕ_discrete fh g) [
  | yes e ↦ record {
    name = n;
    small = omega arith;
    leads = ap (λ k. get_or files k none) e ∙ leads;
    counted = omega (arith, count-here n (names us));
  }
  | no d ↦
      let rest = is_used-Leads files us fh (omega (arith, used, is_used-there fh g n us d)) at in
      record {
        name = rest.name;
        small = rest.small;
        leads = rest.leads;
        counted = more rest.name rest.counted (ℕ_discrete rest.name n);
      }
]
  where
    more : (m : ℕ) → 0 < count m (names us) → Dec (m ≡ n) → 0 < count m (n ∷ names us)
    more m h (yes e) = rw (is_same m n e) (omega arith)
    more m h (no d) = omega (arith, count-there m n (names us) d)

pub some_name : (m n : ℕ) → some m ≡ some n → m ≡ n
some_name m n e = cc

-- Without a handle, there is one reference less to its file.
pub count-forget :
    (files : List (Option ℕ)) (us : List (ℕ × ℕ)) (fh n m : ℕ)
    → AllAt files us
    → 0 < is_used fh us
    → get_or files fh none ≡ some n
    → count m (names (forget fh us)) ≡ count m (remove n (names us))
unfolding forget remove
count-forget files [] fh n m at used leads = absurd (omega arith)
count-forget files ((g, k) ∷ us) fh n m (small, to, at) used leads = elim (ℕ_discrete fh g) [
  | yes e ↦
      let same : n ≡ k = some_name n k (sym leads ∙ ap (λ i. get_or files i none) e ∙ to) in
      rw (is_same fh g e, is_same n k same) refl
  | no d ↦
      let later : 0 < is_used fh us = omega (arith, used, is_used-there fh g k us d) in
      let rest = count-forget files us fh n m at later leads in
      let found = is_used-Leads files us fh later at in
      let name : found.name ≡ n = some_name found.name n (sym found.leads ∙ leads) in
      elim (ℕ_discrete n k) [
        | yes e ↦
            rw (is_other fh g d, is_same n k e)
              (ap (λ c. if m == k then suc c else c) rest
                ∙ ap (λ i. count m (i ∷ remove n (names us))) (sym e)
                ∙ count-put_back m n (names us)
                    (omega (arith, found.counted, ap (λ i. count i (names us)) name)))
        | no e ↦ rw (is_other fh g d, is_other n k e) (ap (λ c. if m == k then suc c else c) rest)
      ]
]

-- The table only counts references.
pub Valid-recount :
    (t : Table) (held held' : List ℕ)
    → Valid (record { table = t; held = held })
    → ((m : ℕ) → count m held' ≡ count m held)
    → Valid (record { table = t; held = held' })
Valid-recount t held held' v same = record {
  consistent = record {
    tallied = v.consistent.tallied;
    counted = λ m. same m ∙ v.consistent.counted m;
    idle = v.consistent.idle;
  };
  sized = v.sized;
  small = v.small;
  bounded = λ m. omega (arith, v.bounded m, same m);
}

-- A bit that was changed, and the others.
pub Changed-at : (b b' : Bitmap) (fh m : ℕ) → Changed b b' fh m → bit_at b' fh ≡ m
Changed-at b b' fh m c = c.2 fh ∙ rw (is_same fh fh refl) refl

pub Changed-other :
    (b b' : Bitmap) (fh m w : ℕ) → Changed b b' fh m → w ≢ fh → bit_at b' w ≡ bit_at b w
Changed-other b b' fh m w c d = c.2 w ∙ rw (is_other fh w (λ e. d (sym e))) refl

pub table-Sound : (h : Handles) (t : Table) → Sound h → Sound (record h { table = t })
table-Sound h t sound = record {
  fhs_valid = sound.fhs_valid;
  fhs_size = sound.fhs_size;
  files_length = sound.files_length;
}
