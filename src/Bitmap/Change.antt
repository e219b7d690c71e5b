-- ===== src/Bitmap/Change.antt =====
-- The bits that src/bitmap.c holds, and what `bitmap_set` and `bitmap_release` change of them.
use gdpfs.Base.{
  ℕ, zero, suc, ◌/◌, ◌%◌, ◌^◌, ◌<◌, ◌≡◌, refl, true, some, arith, ◌==◌, if◌then◌else◌, length,
  get_or, set, length-set, get_or-set, length-replicate, inl, inr, ◌∙◌, replicate, Bool-cases,
}
use gdpfs.Bitmap.{
  Bitmap, byte_size, bit_of, set_bit, clear_bit, done, ok_value, err_value, create, release,
  set_value, is_set,
}
use gdpfs.Base.{ap}
use gdpfs.Base.Int.{pos}
use gdpfs.Bitmap.Bits.{bit_of-set_bit, bit_of-clear_bit, bits_range}

-- The bit of a value.
abbrev pub bit_at : Bitmap → ℕ → ℕ
bit_at b v = bit_of (get_or b.data_bytes (v / 8) 0) (v % 8)

-- A bitmap as `bitmap_create` makes it, of at least one bit.
pub record IsValid (b : Bitmap) : Type 0 where
  pub some_bits : 0 < b.size
  pub in_memory : b.size < 2 ^ 64
  pub allocated : length b.data_bytes ≡ byte_size b.size
  pub are_bytes : (i : ℕ) → get_or b.data_bytes i 0 < 256

-- `b'` is `b` with the bit of `v` made `n`.
abbrev pub Changed : Bitmap → Bitmap → ℕ → ℕ → Type 0
Changed b b' v n =
    IsValid b' × (b'.size ≡ b.size) × ((w : ℕ) → bit_at b' w ≡ (if v == w then n else bit_at b w))

zero_bits : (k : ℕ) → bit_of 0 k ≡ 0
zero_bits k = grind arith

-- Positions differ in their byte or in their bit.
same_place : (v w : ℕ) → v / 8 ≡ w / 8 → v % 8 ≡ w % 8 → v ≡ w
same_place v w p q = omega arith

module _ (b : Bitmap) (valid : IsValid b) (v c n : ℕ) (within : v < b.size) where
  abbrev put : Bitmap
  put = record b { data_bytes = set b.data_bytes (v / 8) c }

  index_in : v / 8 < length b.data_bytes
  index_in =
      let e = valid.allocated in let h = valid.some_bits in let g = valid.in_memory in omega arith

  put-bytes : c < 256 → (i : ℕ) → get_or (set b.data_bytes (v / 8) c) i 0 < 256
  put-bytes hc i = ground (arith, get_or-set b.data_bytes (v / 8) i c 0 index_in, valid.are_bytes i)

  -- Writing a byte whose bits are those of the old one, but for one.
  pub put-Changed :
      c < 256
      → ((j : ℕ)
          → j < 8
          → bit_of c j ≡ (if v % 8 == j then n else bit_of (get_or b.data_bytes (v / 8) 0) j))
      → Changed b put v n
  put-Changed hc bits = (
    record {
      some_bits = valid.some_bits;
      in_memory = valid.in_memory;
      allocated = length-set b.data_bytes (v / 8) c ∙ valid.allocated;
      are_bytes = put-bytes hc;
    },
    refl,
    λ w.
        ground (
          arith,
          get_or-set b.data_bytes (v / 8) (w / 8) c 0 index_in,
          bits (w % 8),
          same_place v w,
        ),
  )

module _ (b : Bitmap) (valid : IsValid b) (v : ℕ) (within : v < b.size) where
  abbrev old : ℕ
  old = get_or b.data_bytes (v / 8) 0

  in_reach : v / 8 < length b.data_bytes
  in_reach =
      let e = valid.allocated in let h = valid.some_bits in let g = valid.in_memory in omega arith

  same-Changed : (n : ℕ) → bit_at b v ≡ n → Changed b b v n
  same-Changed n e = (valid, refl, λ w. ground (arith, ap (bit_at b) {x = v} {y = w}))

  -- For a value below the size, `bitmap_set` reports success exactly when the bit was clear; in
  -- both cases the bit is set afterwards, no other bit changes, and no access is out of bounds.
  set_value_lem :
      (b' : Bitmap) × (set_value (some b) v
        ≡ done ((if bit_at b v == 0 then ok_value else err_value), some b'))
      × Changed b b' v 1
  unfolding set_value
  set_value_lem = elim (Bool-cases (bit_at b v == 0)) [
    | inl e ↦ (
      put b valid v (set_bit old (v % 8)) 1 within,
      ground (arith, in_reach),
      put-Changed b valid v _ 1 within (bits_range old (v % 8) (valid.are_bytes _) (omega arith)).0
          (λ j h. bit_of-set_bit old (v % 8) j (valid.are_bytes _) (omega arith) h),
    )
    | inr e ↦ (b, ground (arith, in_reach), same-Changed 1 (ground arith))
  ]

  -- For a value below the size, `bitmap_release` reports success exactly when the bit was set; in
  -- both cases the bit is clear afterwards, no other bit changes, and no access is out of bounds.
  pub release_lem :
      (b' : Bitmap) × (release (some b) v
        ≡ done ((if bit_at b v == 1 then ok_value else err_value), some b'))
      × Changed b b' v 0
  unfolding release
  release_lem = elim (Bool-cases (bit_at b v == 1)) [
    | inl e ↦ (
      put b valid v (clear_bit old (v % 8)) 0 within,
      ground (arith, in_reach),
      put-Changed b valid v _ 0 within (bits_range old (v % 8) (valid.are_bytes _) (omega arith)).1
          (λ j h. bit_of-clear_bit old (v % 8) j (valid.are_bytes _) (omega arith) h),
    )
    | inr e ↦ (b, ground (arith, in_reach), same-Changed 0 (ground arith))
  ]

  -- For a value below the size, `bitmap_is_set` reads its bit.
  pub is_set_lem : is_set (some b) v ≡ done (pos (bit_at b v))
  unfolding is_set
  is_set_lem = ground (arith, in_reach)

zeros : (n i : ℕ) → ◌≡◌ {A = ℕ} (get_or (replicate n 0) i 0) 0
zeros zero i = refl
zeros (suc n) zero = refl
zeros (suc n) (suc i) = zeros n i

-- `bitmap_create` of at least one bit, when memory and mutex are granted, makes a valid bitmap of
-- that size with every bit clear.
pub create-clear :
    (size : ℕ)
    → 0 < size
    → size < 2 ^ 64
    → (b : Bitmap) × (create true true size ≡ some b)
      × IsValid b
      × (b.size ≡ size)
      × ((v : ℕ) → bit_at b v ≡ 0)
unfolding create
create-clear size h g = (
  record { size = size; data_bytes = replicate (byte_size size) 0 },
  refl,
  record {
    some_bits = h;
    in_memory = g;
    allocated = length-replicate (byte_size size) 0;
    are_bytes = λ i. ground (arith, zeros (byte_size size) i);
  },
  refl,
  λ v. rw (zeros (byte_size size) (v / 8)) (zero_bits (v % 8)),
)
