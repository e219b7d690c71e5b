-- ===== src/File/Handles/Close.antt =====
-- `gdpfs_file_close` of src/gdpfs_file.c, for a handle that leads to a file with a reference.
use gdpfs.Base.{
  ℕ, ◌+◌, ◌^◌, ◌<◌, ◌≡◌, ◌∷◌, refl, ap, ◌∙◌, Bool, true, Option, none, some, List, arith, ltb,
  length, get_or,
}
use gdpfs.Stat.{Stat}
use gdpfs.Bitmap.{Bitmap}
use gdpfs.Bitmap.Change.{Changed, release_lem, is_set_lem}
use gdpfs.File.OpenFiles.{Shared, Table, write_ref, remove, count}
use gdpfs.File.OpenFiles.Laws.{refs_of, Valid, write_ref-Valid}
use gdpfs.File.OpenFiles.Stored.{stored}
use gdpfs.File.OpenFiles.Release.{release_file-Released}
use gdpfs.File.Handles.{
  max_fhs, Handles, released, looked_up, with_table, release_fh, lookup_fh, unref, close_found,
  file_close, write_referred, write_found, write_begins,
}
use gdpfs.File.Handles.Laws.{Sound}

-- `bitmap_release` of a handle below the limit clears its bit.
pub record Cleared (h : Handles) (fh : ℕ) (result : Option (Unit {0} × Handles)) : Type 0 where
  pub fhs : Bitmap
  pub given : result ≡ some (tt, record h { fhs = fhs })
  pub changed : Changed h.fhs fhs fh 0

pub release_fh-Cleared :
    (h : Handles) (fh : ℕ) → Sound h → fh < max_fhs → Cleared h fh (release_fh fh h)
unfolding release_fh
release_fh-Cleared h fh sound lt =
    let (fhs, given, changed) =
      release_lem h.fhs sound.fhs_valid fh (omega (arith, sound.fhs_size)) in
    record { fhs = fhs; given = ap (released h) given; changed = changed }

pub lookup_fh-found :
    (h : Handles) (fh : ℕ)
    → Sound h
    → fh < max_fhs
    → lookup_fh fh h ≡ some (get_or h.files fh none, h)
unfolding lookup_fh
lookup_fh-found h fh sound lt =
    ap (looked_up fh h) (is_set_lem h.fhs sound.fhs_valid fh (omega (arith, sound.fhs_size)))
    ∙ rw within refl
  where
    within : ltb fh (length h.files) ≡ true
    within = ground (arith, sound.files_length)

-- A reference is given up.
pub record Unreferred (h : Handles) (n : ℕ) (held : List ℕ) (result : Option (Stat × Handles))
    : Type 0 where
  pub table : Table
  pub given : result ≡ some (Stat.ok, record h { table = table })
  pub valid : Valid (record { table = table; held = remove n held })

pub unref-Unreferred :
    (h : Handles) (n : ℕ) (held : List ℕ)
    → Valid (record { table = h.table; held = held })
    → 0 < count n held
    → Unreferred h n held (unref stored n h)
unfolding unref
unref-Unreferred h n held v used =
    let r =
      release_file-Released n (record { table = h.table; held = held }) (h.table.objects n) v used
        refl in
    record { table = r.after; given = ap (with_table h) r.given; valid = r.valid }

-- A handle is closed: its bit is clear, and the reference is given up.
pub record Closed (h : Handles) (fh n : ℕ) (held : List ℕ) (result : Option (Stat × Handles))
    : Type 0 where
  pub fhs : Bitmap
  pub table : Table
  pub given : result ≡ some (Stat.ok, record h { fhs = fhs; table = table })
  pub changed : Changed h.fhs fhs fh 0
  pub valid : Valid (record { table = table; held = remove n held })

pub file_close-Closed :
    (h : Handles) (fh n : ℕ) (held : List ℕ)
    → Sound h
    → fh < max_fhs
    → get_or h.files fh none ≡ some n
    → Valid (record { table = h.table; held = held })
    → 0 < count n held
    → Closed h fh n held (file_close stored fh h)
unfolding file_close close_found
file_close-Closed h fh n held sound lt leads v used =
    let c = release_fh-Cleared h fh sound lt in
    let u = unref-Unreferred (record h { fhs = c.fhs }) n held v used in
    record {
      fhs = c.fhs;
      table = u.table;
      given = rw (lookup_fh-found h fh sound lt, leads, c.given) u.given;
      changed = c.changed;
      valid = u.valid;
    }

-- A write through a handle takes a reference.
pub record Referred (h : Handles) (n : ℕ) (held : List ℕ) (result : Option (Bool × Handles))
    : Type 0 where
  pub table : Table
  pub given : result ≡ some (true, record h { table = table })
  pub valid : Valid (record { table = table; held = n ∷ held })

write_referred-Referred :
    (dirty : Bool) (h : Handles) (n : ℕ) (held : List ℕ) (o : Option Shared)
    → Valid (record { table = h.table; held = held })
    → 0 < count n held
    → count n held + 1 < 2 ^ 32
    → h.table.objects n ≡ o
    → Referred h n held (write_referred dirty n o h)
write_referred-Referred dirty h n held none v used few at =
    absurd (omega (arith, used, v.consistent.counted n, ap refs_of at))
write_referred-Referred dirty h n held (some o) v used few at = record {
  table = write_ref dirty n o h.table;
  given = refl;
  valid = write_ref-Valid n dirty o (record { table = h.table; held = held }) v at used few;
}

pub write_begins-Referred :
    (dirty : Bool) (h : Handles) (fh n : ℕ) (held : List ℕ)
    → Sound h
    → fh < max_fhs
    → get_or h.files fh none ≡ some n
    → Valid (record { table = h.table; held = held })
    → 0 < count n held
    → count n held + 1 < 2 ^ 32
    → Referred h n held (write_begins dirty fh h)
unfolding write_begins write_found
write_begins-Referred dirty h fh n held sound lt leads v used few =
    rw (lookup_fh-found h fh sound lt, leads)
      (write_referred-Referred dirty h n held (h.table.objects n) v used few refl)
