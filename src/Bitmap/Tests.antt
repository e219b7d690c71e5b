-- ===== src/Bitmap/Tests.antt =====
-- Runs of src/bitmap.c, and its laws at concrete bitmaps.
use gdpfs.Base.{ℕ, zero, suc, get_or, ◌≡◌, ◌<◌, ◌⊎◌, refl, some, [], ◌∷◌, arith}
use gdpfs.Bitmap.{Bitmap, fault, no_value, reserve, release, set_value, is_set}
use gdpfs.Bitmap.Change.{bit_at, IsValid, Changed}
use gdpfs.Bitmap.Reserve.{Taken, reserve_lowest}

-- ten values, of which 0 to 8 are taken
abbrev ten : Bitmap
ten = record { size = 10; data_bytes = 255 ∷ 1 ∷ [] }

-- eight values, all taken
abbrev eight : Bitmap
eight = record { size = 8; data_bytes = 255 ∷ [] }

takes_nine : reserve 0 (some ten) ≡ some (9, some (record ten { data_bytes = 255 ∷ 3 ∷ [] }))
unfolding reserve
takes_nine = refl

refuses_when_full : reserve 0 (some eight) ≡ some (no_value, some eight)
unfolding reserve
refuses_when_full = refl

-- The bound of `bitmap_set`, `bitmap_release` and `bitmap_is_set` lets the size itself through:
-- where the size is a multiple of 8 the access is past the end.
set_size_faults : set_value (some eight) 8 ≡ fault
unfolding set_value
set_size_faults = refl

is_set_size_faults : is_set (some eight) 8 ≡ fault
unfolding is_set
is_set_size_faults = refl

release_size_faults : release (some eight) 8 ≡ fault
unfolding release
release_size_faults = refl

ten-IsValid : IsValid ten
ten-IsValid = record {
  some_bits = omega arith;
  in_memory = omega arith;
  allocated = refl;
  are_bytes = small;
}
  where
    small : (i : ℕ) → get_or (255 ∷ 1 ∷ []) i 0 < 256
    small zero = omega arith
    small (suc zero) = omega arith
    small (suc (suc i)) = omega arith

reserve_lowest_example :
    ((v : ℕ) × (b' : Bitmap) × (reserve 7 (some ten) ≡ some (v, some b'))
      × (v < 10)
      × (bit_at ten v ≡ 0)
      × Taken ten v
      × Changed ten b' v 1)
    ⊎ ((reserve 7 (some ten) ≡ some (no_value, some ten)) × Taken ten 10)
reserve_lowest_example = reserve_lowest 7 ten ten-IsValid
