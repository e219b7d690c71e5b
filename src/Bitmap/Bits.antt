-- ===== src/Bitmap/Bits.antt =====
-- The bits of a byte after one of them is set or cleared, checked over all bytes.
use gdpfs.Base.{ℕ, ◌<◌, ◌≡◌, refl, Bool, true, ◌&&◌, arith, ◌==◌, ==_iff, ltb, if◌then◌else◌}
use gdpfs.Base.Every.{every, every_at, every_intro}
use gdpfs.Bitmap.{bit_of, set_bit, clear_bit}

-- Every byte and every two bit positions pass a test.
abbrev table : (ℕ → ℕ → ℕ → Bool) → Bool
table p = every (λ b. every (λ i. every (λ j. p b i j) 8) 8) 256

table_sound :
    (p : ℕ → ℕ → ℕ → Bool) → table p ≡ true → (b i j : ℕ) → b < 256 → i < 8 → j < 8 → p b i j ≡ true
table_sound p h b i j hb hi hj = every_at _ j hj (every_at _ i hi (every_at _ b hb h))

written_bits : table (λ b i j. bit_of (set_bit b i) j == (if i == j then 1 else bit_of b j)) ≡ true
unfolding every
written_bits = refl

cleared_bits :
    table (λ b i j. bit_of (clear_bit b i) j == (if i == j then 0 else bit_of b j)) ≡ true
unfolding every
cleared_bits = refl

range_table : table (λ b i j. ltb (set_bit b i) 256 && ltb (clear_bit b i) 256) ≡ true
unfolding every
range_table = refl

pub bit_of-set_bit :
    (b i j : ℕ)
    → b < 256
    → i < 8
    → j < 8
    → bit_of (set_bit b i) j ≡ (if i == j then 1 else bit_of b j)
bit_of-set_bit b i j hb hi hj = (==_iff _ _).0 (table_sound _ written_bits b i j hb hi hj)

pub bit_of-clear_bit :
    (b i j : ℕ)
    → b < 256
    → i < 8
    → j < 8
    → bit_of (clear_bit b i) j ≡ (if i == j then 0 else bit_of b j)
bit_of-clear_bit b i j hb hi hj = (==_iff _ _).0 (table_sound _ cleared_bits b i j hb hi hj)

-- Bytes stay bytes.
pub bits_range : (b i : ℕ) → b < 256 → i < 8 → (set_bit b i < 256) × (clear_bit b i < 256)
bits_range b i hb hi = ground (arith, table_sound _ range_table b i 0 hb hi)

abbrev all_ones : ℕ → Bool
all_ones b = every (λ j. bit_of b j == 1) 8

full_table : every (λ b. if all_ones b then b == 255 else true) 256 ≡ true
unfolding every
full_table = refl

-- A byte whose eight bits are all set is 0xFF.
pub eq_full_of_bits : (b : ℕ) → b < 256 → ((j : ℕ) → j < 8 → bit_of b j ≡ 1) → b ≡ 255
eq_full_of_bits b hb h = ground (
  arith,
  every_at (λ b. if all_ones b then b == 255 else true) b hb full_table,
  every_intro (λ j. bit_of b j == 1) 8 (λ x lt. (==_iff _ _).1 (h x lt)),
)

full_bits_table : all_ones 255 ≡ true
unfolding every
full_bits_table = refl

-- 0xFF has its eight bits set.
pub bit_of_full : (j : ℕ) → j < 8 → bit_of 255 j ≡ 1
bit_of_full j h = (==_iff _ _).0 (every_at (λ j. bit_of 255 j == 1) j h full_bits_table)
