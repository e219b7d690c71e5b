-- ===== src/Bitmap/Reserve.antt =====
-- `bitmap_reserve` of src/bitmap.c takes the lowest free value.
use gdpfs.Base.{
  ℕ, List, [], ◌∷◌, ◌&&◌, zero, suc, ◌+◌, ◌*◌, ◌/◌, ◌%◌, ◌≤◌, ◌<◌, ◌≡◌, ◌≢◌, refl, false, some,
  none, arith, ltb, ◌==◌, length, get_or, set, ◌⊎◌, inl, inr, ◌∙◌, Bool-cases, ap, sym,
}
use mathlib.Core.Path.{subst₂}
use gdpfs.Bitmap.{
  Bitmap, byte_size, bit_of, set_bit, no_value, skip_full, first_clear, bit_limit, take_bit,
  reserve_in, reserve,
}
use gdpfs.Bitmap.Bits.{bit_of-set_bit, bits_range, eq_full_of_bits, bit_of_full}
use gdpfs.Bitmap.Change.{bit_at, IsValid, Changed, put-Changed}

module _ (beyond limit : ℕ) (bytes : List ℕ) where
  -- With enough fuel the first loop stops at the first byte that is not 0xFF, at `limit` at most.
  skip_full_lem :
      (fuel byte : ℕ)
      → limit < byte + fuel
      → byte ≤ limit
      → (k : ℕ) × (skip_full beyond limit bytes fuel byte ≡ some k)
        × (byte ≤ k)
        × (k ≤ limit)
        × ((i : ℕ) → byte ≤ i → i < k → get_or bytes i beyond ≡ 255)
        × (k < limit → get_or bytes k beyond ≢ 255)
  unfolding skip_full
  skip_full_lem zero byte h g = absurd (omega arith)
  skip_full_lem (suc fuel) byte h g =
      elim (Bool-cases (get_or bytes byte beyond == 255 && ltb byte limit)) [
        | inl e ↦
            let (k, found, a, b, c, d) =
              skip_full_lem fuel (byte + 1) (omega arith) (ground arith) in
            (
              k,
              rw e found,
              omega arith,
              b,
              λ i p q. elim (Bool-cases (i == byte)) [
                | inl s ↦ ground arith
                | inr s ↦ c i (ground arith) q
              ],
              d,
            )
        | inr e ↦ (byte, rw e, omega arith, g, λ i p q. absurd (omega arith), ground arith)
      ]

set_from :
    (field bit i : ℕ)
    → (bit_of field bit == 0) ≡ false
    → bit ≤ i
    → (bit + 1 ≤ i → bit_of field i ≡ 1)
    → bit_of field i ≡ 1
set_from field bit i e p rest = elim (Bool-cases (i == bit)) [
  | inl s ↦ ground (arith, ap (bit_of field) {x = i} {y = bit})
  | inr s ↦ rest (ground arith)
]

-- The second loop finds the first clear bit among those that it looks at.
first_clear_lem :
    (field rounds bit : ℕ)
    → ((k : ℕ) × (first_clear field rounds bit ≡ some k)
        × (bit ≤ k)
        × (k < bit + rounds)
        × (bit_of field k ≡ 0)
        × ((i : ℕ) → bit ≤ i → i < k → bit_of field i ≡ 1))
      ⊎ ((first_clear field rounds bit ≡ none)
          × ((i : ℕ) → bit ≤ i → i < bit + rounds → bit_of field i ≡ 1))
unfolding first_clear
first_clear_lem field zero bit = inr (refl, λ i p q. absurd (omega arith))
first_clear_lem field (suc rounds) bit = elim (Bool-cases (bit_of field bit == 0)) [
  | inl e ↦ inl (bit, rw e, omega arith, omega arith, ground arith, λ i p q. absurd (omega arith))
  | inr e ↦ rw e (elim (first_clear_lem field rounds (bit + 1)) [
    | inl (k, found, a, b, c, d) ↦
        inl
          (k, found, omega arith, omega arith, c, λ i p q. set_from field bit i e p (λ r. d i r q))
    | inr (miss, d) ↦ inr (miss, λ i p q. set_from field bit i e p (λ r. d i r (omega arith)))
  ])
]

-- Every value below `v` is taken in `b`.
abbrev pub Taken : Bitmap → ℕ → Type 0
Taken b v = (w : ℕ) → w < v → bit_at b w ≡ 1

module _ (beyond : ℕ) (b : Bitmap) where
  abbrev field_at : ℕ → ℕ
  field_at k = get_or b.data_bytes k beyond

  reserve-some :
      (k j : ℕ)
      → skip_full beyond (byte_size b.size) b.data_bytes (byte_size b.size + 1) 0 ≡ some k
      → first_clear (field_at k) (bit_limit b.size k) 0 ≡ some j
      → reserve beyond (some b)
        ≡ some (
          k * 8 + j,
          some (record b { data_bytes = set b.data_bytes k (set_bit (get_or b.data_bytes k 0) j) }),
        )
  unfolding reserve reserve_in take_bit
  reserve-some k j e f = ground arith

  reserve-none :
      (k : ℕ)
      → skip_full beyond (byte_size b.size) b.data_bytes (byte_size b.size + 1) 0 ≡ some k
      → first_clear (field_at k) (bit_limit b.size k) 0 ≡ none
      → reserve beyond (some b) ≡ some (no_value, some b)
  unfolding reserve reserve_in take_bit
  reserve-none k e f = ground arith

get_or_any : (xs : List ℕ) (i d e : ℕ) → i < length xs → get_or xs i d ≡ get_or xs i e
get_or_any [] i d e h = absurd (omega arith)
get_or_any (x ∷ xs) zero d e h = refl
get_or_any (x ∷ xs) (suc i) d e h = get_or_any xs i d e (omega arith)

module _ (beyond : ℕ) (b : Bitmap) (valid : IsValid b) (k : ℕ) (hi : k ≤ byte_size b.size)
    (full : (i : ℕ) → 0 ≤ i → i < k → get_or b.data_bytes i beyond ≡ 255)
    (stop : k < byte_size b.size → get_or b.data_bytes k beyond ≢ 255) where
  -- The bytes of the bitmap do not depend on what lies beyond.
  inside : (i : ℕ) → i < byte_size b.size → get_or b.data_bytes i beyond ≡ get_or b.data_bytes i 0
  inside i h = get_or_any b.data_bytes i beyond 0 (let e = valid.allocated in omega arith)

  full_bytes : Taken b (k * 8)
  full_bytes w h =
      ap (λ f. bit_of f (w % 8))
        (sym (inside (w / 8) (omega arith)) ∙ full (w / 8) (omega arith) (omega arith))
      ∙ bit_of_full (w % 8) (omega arith)

  limit_lem :
      (k < byte_size b.size)
      → (k * 8 + bit_limit b.size k ≤ b.size)
        × (bit_limit b.size k ≤ 8)
        × ((bit_limit b.size k ≡ 8) ⊎ (k * 8 + bit_limit b.size k ≡ b.size))
  unfolding bit_limit
  limit_lem h = let p = valid.some_bits in let q = valid.in_memory in ground arith

  limit_end : k ≡ byte_size b.size → bit_limit b.size k ≡ 0
  unfolding bit_limit
  limit_end e = ground arith

  in_byte :
      (w n : ℕ)
      → w / 8 ≡ k
      → k < byte_size b.size
      → bit_of (get_or b.data_bytes k beyond) (w % 8) ≡ n
      → bit_at b w ≡ n
  in_byte w n e h c =
      ap (λ f. bit_of f (w % 8)) (ap (λ i. get_or b.data_bytes i 0) e ∙ sym (inside k h)) ∙ c

  full_prefix :
      (j : ℕ)
      → k < byte_size b.size
      → j ≤ 8
      → ((i : ℕ) → 0 ≤ i → i < j → bit_of (get_or b.data_bytes k beyond) i ≡ 1)
      → Taken b (k * 8 + j)
  full_prefix j h q d w lt = elim (Bool-cases (ltb w (k * 8))) [
    | inl e ↦ full_bytes w (ground arith)
    | inr e ↦ in_byte w 1 (ground arith) h (d (w % 8) (omega arith) (ground arith))
  ]

  found_lem :
      (j : ℕ)
      → j < bit_limit b.size k
      → bit_of (get_or b.data_bytes k beyond) j ≡ 0
      → ((i : ℕ) → 0 ≤ i → i < j → bit_of (get_or b.data_bytes k beyond) i ≡ 1)
      → (k < byte_size b.size)
        × (j < 8)
        × (k * 8 + j < b.size)
        × (bit_at b (k * 8 + j) ≡ 0)
        × Taken b (k * 8 + j)
  found_lem j p c d =
      let h : k < byte_size b.size = ground (arith, limit_end) in
      let (a, r, _) = limit_lem h in
      let m : (k * 8 + j) % 8 ≡ j = omega arith in
      (
        h,
        omega arith,
        omega arith,
        in_byte (k * 8 + j) 0 (omega arith) h (rw m c),
        full_prefix j h (omega arith) d,
      )

  missed_lem :
      ((i : ℕ) → 0 ≤ i → i < bit_limit b.size k → bit_of (get_or b.data_bytes k beyond) i ≡ 1)
      → Taken b b.size
  missed_lem d w lt = elim (Bool-cases (ltb k (byte_size b.size))) [
    | inl e ↦
        let h : k < byte_size b.size = ground arith in
        let (a, r, s) = limit_lem h in
        elim s [
          | inl eight ↦ absurd (
              stop h (
                inside k h
                ∙ eq_full_of_bits _ (valid.are_bytes k) (λ j q. in_byte_bit j h d (omega arith))))
          | inr end ↦ full_prefix (bit_limit b.size k) h r d w (omega arith)
        ]
    | inr e ↦ full_bytes w (let p = valid.some_bits in let q = valid.in_memory in ground arith)
  ]
    where
      in_byte_bit :
          (j : ℕ)
          → k < byte_size b.size
          → ((i : ℕ) → 0 ≤ i → i < bit_limit b.size k → bit_of (get_or b.data_bytes k beyond) i ≡ 1)
          → j < bit_limit b.size k
          → bit_of (get_or b.data_bytes k 0) j ≡ 1
      in_byte_bit j h d q = ap (λ f. bit_of f j) (sym (inside k h)) ∙ d j (omega arith) q

-- Setting bit `j` of byte `k`.
found-Changed :
    (b : Bitmap) (k j v : ℕ)
    → IsValid b
    → v < b.size
    → v / 8 ≡ k
    → v % 8 ≡ j
    → Changed b
        (record b { data_bytes = set b.data_bytes k (set_bit (get_or b.data_bytes k 0) j) })
        v
        1
found-Changed b k j v valid lt e f =
    subst₂
      (λ i m.
        Changed b
          (record b { data_bytes = set b.data_bytes i (set_bit (get_or b.data_bytes i 0) m) }) v 1)
      e f
      (put-Changed b valid v _ 1 lt (bits_range _ (v % 8) (valid.are_bytes _) (omega arith)).0
        (λ m h. bit_of-set_bit _ (v % 8) m (valid.are_bytes _) (omega arith) h))

-- `bitmap_reserve` returns a value for each valid bitmap (the fuel suffices, whatever the byte past
-- the end holds). Either it returns the lowest clear value, which is below the size, sets its bit
-- and changes no other; or every value is taken, and it returns -1 and changes nothing.
pub reserve_lowest :
    (beyond : ℕ) (b : Bitmap)
    → IsValid b
    → ((v : ℕ) × (b' : Bitmap) × (reserve beyond (some b) ≡ some (v, some b'))
        × (v < b.size)
        × (bit_at b v ≡ 0)
        × Taken b v
        × Changed b b' v 1)
      ⊎ ((reserve beyond (some b) ≡ some (no_value, some b)) × Taken b b.size)
reserve_lowest beyond b valid =
    let (k, found, lo, hi, full, stop) =
      skip_full_lem beyond (byte_size b.size) b.data_bytes (byte_size b.size + 1) 0 (omega arith)
        (omega arith) in
    elim (first_clear_lem (get_or b.data_bytes k beyond) (bit_limit b.size k) 0) [
      | inl (j, hit, p, q, c, d) ↦
          let facts =
            found_lem beyond b valid k hi full stop j (omega arith) c (λ i p q. d i p q) in
          inl (
            k * 8 + j,
            _,
            reserve-some beyond b k j found hit,
            facts.2,
            facts.3,
            facts.4,
            found-Changed b k j (k * 8 + j) valid facts.2 (let r = facts.1 in omega arith)
                (let r = facts.1 in omega arith),
          )
      | inr (miss, d) ↦ inr (
        reserve-none beyond b k found miss,
        missed_lem beyond b valid k hi full stop (λ i p q. d i p (omega arith)),
      )
    ]
