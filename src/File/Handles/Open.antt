-- ===== src/File/Handles/Open.antt =====
-- `open_file` of src/gdpfs_file.c, seen from the handles.
use gdpfs.Base.{
  ℕ, Bool, ◌+◌, ◌^◌, ◌<◌, ◌≡◌, refl, ap, ◌∙◌, sym, true, false, Bool-cases, inl, inr, Option, none,
  some, List, ◌∷◌, arith, ◌==◌, if◌then◌else◌, get_or, set, length-set, get_or-set_self,
  get_or-set_ne,
}
use gdpfs.Stat.{Stat, is_ok}
use gdpfs.Bitmap.{Bitmap, no_value}
use gdpfs.Bitmap.Change.{bit_at, Changed}
use gdpfs.Bitmap.Reserve.{Taken, reserve_lowest}
use gdpfs.File.OpenFiles.{Shared, Table, enter_file, index_made, write_ref, remove, count}
use gdpfs.File.OpenFiles.Stored.{stored}
use gdpfs.File.OpenFiles.Reached.{index_made-Valid}
use gdpfs.File.OpenFiles.Counts.{is_same, count-here}
use gdpfs.File.OpenFiles.Laws.{refs_of, Valid, enter_found-Valid, write_ref-Valid}
use gdpfs.File.Handles.{
  max_fhs, Handles, reserve_fh, refer, on_table, write_init, make_index, Opening, init_written,
  with_index, open_checked, open_refused, open_entered, open_found, open_file,
}
use gdpfs.File.Handles.Laws.{Sound, Valid-recount}
use gdpfs.File.Handles.Close.{release_fh-Cleared, file_close-Closed}

-- The references after an opening: that of the handle, and that of the append of a new file's information.
abbrev pub with_opened : (inits : Bool) → ℕ → List ℕ → List ℕ
with_opened inits n held = if inits then n ∷ (n ∷ held) else n ∷ held

-- What `open_file` of a name does: it gives out the lowest handle that is free, which then leads to the
-- file, with one more reference to it, and another where a new file's information is being appended; or
-- it fails, and no handle is in use that was not before, those in use lead to the same files, and there
-- are as many references as before.
pub data Opened (h : Handles) (held : List ℕ) (n : ℕ) (inits : Bool)
    : Option ((Stat × ℕ) × Handles) → Type 0 where
  opened :
      (fh : ℕ) (fhs : Bitmap) (table : Table)
      → fh < max_fhs
      → bit_at h.fhs fh ≡ 0
      → Taken h.fhs fh
      → Changed h.fhs fhs fh 1
      → Valid (record { table = table; held = with_opened inits n held })
      → Opened h held n inits (
          some
            ((Stat.ok, fh), record { fhs = fhs; files = set h.files fh (some n); table = table }))
  refused :
      (stat : Stat) (after : Handles)
      → is_ok stat ≡ false
      → Sound after
      → ((fh : ℕ) → bit_at after.fhs fh ≡ bit_at h.fhs fh)
      → ((fh : ℕ) → bit_at h.fhs fh ≡ 1 → get_or after.files fh none ≡ get_or h.files fh none)
      → Valid (record { table = after.table; held = held })
      → Opened h held n inits (some ((stat, no_value), after))

-- A change of a file object that keeps the references.
record Marked (held : List ℕ) (result : Option Table) : Type 0 where
  after : Table
  given : result ≡ some after
  valid : Valid (record { table = after; held = held })

init_written-Marked :
    (inits : Bool) (n : ℕ) (held : List ℕ) (t : Table)
    → Valid (record { table = t; held = n ∷ held })
    → count n held + 2 < 2 ^ 32
    → (found : Option Shared) → t.objects n ≡ found
    → Marked (with_opened inits n held) (init_written inits n found t)
init_written-Marked inits n held t v few none at =
    absurd (omega (arith, count-here n held, v.consistent.counted n, ap refs_of at))
init_written-Marked true n held t v few (some o) at = record {
  after = write_ref false n o t;
  given = refl;
  valid =
      write_ref-Valid n false o (record { table = t; held = n ∷ held }) v at
        (omega (arith, count-here n held)) (omega (arith, count-here n held, few));
}
init_written-Marked false n held t v few (some o) at = record { after = t; given = refl; valid = v }

with_index-Marked :
    (dirty : Bool) (n : ℕ) (held : List ℕ) (t : Table)
    → Valid (record { table = t; held = held })
    → (found : Option Shared) → t.objects n ≡ found
    → 0 < count n held
    → Marked held (with_index dirty n found t)
with_index-Marked dirty n held t v none at used =
    absurd (omega (arith, used, v.consistent.counted n, ap refs_of at))
with_index-Marked dirty n held t v (some o) at used = record {
  after = index_made dirty n o t;
  given = refl;
  valid = index_made-Valid n dirty o (record { table = t; held = held }) v at;
}

-- A bit that was clear is set and cleared again.
same_bits :
    (b b' b'' : Bitmap) (fh : ℕ)
    → bit_at b fh ≡ 0
    → Changed b b' fh 1
    → Changed b' b'' fh 0
    → (w : ℕ) → bit_at b'' w ≡ bit_at b w
same_bits b b' b'' fh clear taken given w = elim (Bool-cases (fh == w)) [
  | inl e ↦ given.2 w ∙ rw e (sym clear ∙ ap (bit_at b) (==-true fh w e))
  | inr d ↦ given.2 w ∙ rw d (taken.2 w ∙ rw d refl)
]
  where
    ==-true : (x y : ℕ) → (x == y) ≡ true → x ≡ y
    ==-true x y e = ground (arith, e)

pub set-Sound :
    (h : Handles) (b b' : Bitmap) (fh : ℕ) (m : ℕ) (x : Option ℕ) (table : Table)
    → Sound h
    → b.size ≡ max_fhs
    → Changed b b' fh m
    → Sound (record { fhs = b'; files = set h.files fh x; table = table })
set-Sound h b b' fh m x table sound size changed = record {
  fhs_valid = changed.0;
  fhs_size = changed.1 ∙ size;
  files_length = length-set h.files fh x ∙ sound.files_length;
}

module _ (h : Handles) (held : List ℕ) (n : ℕ) (sound : Sound h)
    (v : Valid (record { table = h.table; held = held })) (few : count n held + 2 < 2 ^ 32) where
  module _ (fh : ℕ) (fhs : Bitmap) (lt : fh < max_fhs) (clear : bit_at h.fhs fh ≡ 0)
      (lowest : Taken h.fhs fh) (taken : Changed h.fhs fhs fh 1) where
    entered-Valid : Valid (record { table = enter_file n h.table; held = n ∷ held })
    entered-Valid =
        unfold enter_file in
        enter_found-Valid n (record { table = h.table; held = held }) (h.table.objects n) v
          (omega (arith, few)) refl

    unused_kept :
        (w : ℕ)
        → bit_at h.fhs w ≡ 1
        → get_or (set h.files fh (some n)) w none ≡ get_or h.files w none
    unused_kept w used =
        get_or-set_ne h.files fh w (some n) none
          (λ e. absurd (omega (arith, clear, used, ap (bit_at h.fhs) e)))

    open_checked-Opened :
        (o : Opening)
        → Opened h held n o.inits (
            open_checked n o fh
              (record { fhs = fhs; files = set h.files fh (some n); table = enter_file n h.table }))
    unfolding open_checked write_init make_index
    open_checked-Opened o =
        let w =
          init_written-Marked o.inits n held (enter_file n h.table) entered-Valid few
            ((enter_file n h.table).objects n) refl in
        let i =
          with_index-Marked o.dirty n (with_opened o.inits n held) w.after w.valid
            (w.after.objects n) refl (in_use o.inits) in
        rw
          (
            ap (on_table entered) w.given,
            ap (on_table (record entered { table = w.after })) i.given,
          )
          (opened fh fhs i.after lt clear lowest taken i.valid)
      where
        entered : Handles
        entered = record {
          fhs = fhs;
          files = set h.files fh (some n);
          table = enter_file n h.table;
        }

        in_use : (b : Bool) → 0 < count n (with_opened b n held)
        in_use true = omega (arith, count-here n (n ∷ held))
        in_use false = omega (arith, count-here n held)

    open_entered-Opened :
        (o : Opening)
        → Opened h held n o.inits (open_entered stored n o fh (record h { fhs = fhs }))
    unfolding open_entered refer open_refused
    open_entered-Opened o = elim (Bool-cases (is_ok o.checked)) [
      | inl fine ↦ rw fine (open_checked-Opened o)
      | inr bad ↦
          let c =
            file_close-Closed
              (record { fhs = fhs; files = set h.files fh (some n); table = enter_file n h.table })
              fh n (n ∷ held)
              (set-Sound h h.fhs fhs fh 1 (some n) (enter_file n h.table) sound sound.fhs_size
                taken)
              lt (get_or-set_self h.files fh (some n) none (omega (arith, sound.files_length)))
              entered-Valid (omega (arith, count-here n held)) in
          rw (bad, c.given)
            (refused o.checked _ bad
              (set-Sound h fhs c.fhs fh 0 (some n) c.table sound (taken.1 ∙ sound.fhs_size)
                c.changed)
              (same_bits h.fhs fhs c.fhs fh clear taken c.changed) unused_kept
              (Valid-recount c.table (remove n (n ∷ held)) held c.valid
                (unfold remove in removed_back)))
    ]
      where
        removed_back : (m : ℕ) → count m held ≡ count m (if n == n then held else n ∷ remove n held)
        removed_back m = rw (is_same n n refl) refl

    open_found-Opened :
        (o : Opening) (found : Option Shared)
        → Opened h held n o.inits (open_found stored n o fh found (record h { fhs = fhs }))
    unfolding open_found
    open_found-Opened o none = elim (Bool-cases (is_ok o.made)) [
      | inl fine ↦ rw fine (open_entered-Opened o)
      | inr bad ↦
          let c =
            release_fh-Cleared (record h { fhs = fhs }) fh
              (record {
                fhs_valid = taken.0;
                fhs_size = taken.1 ∙ sound.fhs_size;
                files_length = sound.files_length;
              })
              lt in
          rw (bad, c.given)
            (refused o.made _ bad
              (record {
                fhs_valid = c.changed.0;
                fhs_size = c.changed.1 ∙ taken.1 ∙ sound.fhs_size;
                files_length = sound.files_length;
              })
              (same_bits h.fhs fhs c.fhs fh clear taken c.changed) (λ w used. refl) v)
    ]
    open_found-Opened o (some x) = open_entered-Opened o

  pub open_file-Opened :
      (beyond : ℕ) (o : Opening) → Opened h held n o.inits (open_file stored beyond n o h)
  unfolding open_file reserve_fh
  open_file-Opened beyond o = elim (reserve_lowest beyond h.fhs sound.fhs_valid) [
    | inl (fh, fhs, given, within, clear, lowest, taken) ↦
        rw (given, handle fh (omega (arith, within, sound.fhs_size)))
          (open_found-Opened fh fhs (omega (arith, within, sound.fhs_size)) clear lowest taken o
            (h.table.objects n))
    | inr (given, all) ↦ rw given (refused Stat.oomem h refl sound (λ w. refl) (λ w used. refl) v)
  ]
    where
      handle : (fh : ℕ) → fh < max_fhs → (fh == no_value) ≡ false
      handle fh lt = ground arith
