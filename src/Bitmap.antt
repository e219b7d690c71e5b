-- ===== src/Bitmap.antt =====
-- src/bitmap.c: a bitmap of `size` bits in bytes, lowest bit first. It allocates the file handles.
pub mod Bits
pub mod Reserve
pub mod Change
mod Tests
use Prim.Native.Nat.{bit_and, bit_or}
use gdpfs.Base.{
  ℕ, zero, suc, ◌+◌, ◌-◌, ◌*◌, ◌/◌, ◌%◌, ◌^◌, ◌<◌, ◌≡◌, Bool, true, false, Option, none, some, List,
  ◌&&◌, ltb, ◌==◌, if◌then◌else◌, length, get_or, set, replicate,
}
use gdpfs.Base.Int.{ℤ, pos, negsuc}

-- `bitmap_t`, less its mutex, which `bitmap_reserve`, `bitmap_release` and `bitmap_set` hold while they use
-- the bytes; `bitmap_is_set` takes none, so that it is one step only where no other thread changes them.
pub record Bitmap : Type 0 where
  pub size : ℕ
  pub data_bytes : List ℕ

-- `size_t` subtraction wraps.
abbrev pub sub_size : ℕ → ℕ → ℕ
sub_size a b = (a + 2 ^ 64 - b) % 2 ^ 64

abbrev pub byte_size : ℕ → ℕ
byte_size bit_size = 1 + sub_size bit_size 1 / 8

-- The flags are the outcomes of `ep_mem_zalloc` and of `ep_thr_mutex_init`.
unfoldable pub create : (allocated locked : Bool) → ℕ → Option Bitmap
create allocated locked size =
    if allocated
    then (if locked
        then some (record { size = size; data_bytes = replicate (byte_size size) 0 })
        else none)
    else none

-- `(uint64_t) -1`
abbrev pub no_value : ℕ
no_value = 2 ^ 64 - 1

-- `(byte >> bit) & 1`
abbrev pub bit_of : ℕ → ℕ → ℕ
bit_of byte bit = byte / 2 ^ bit % 2

-- `byte | (1 << bit)`
abbrev pub set_bit : ℕ → ℕ → ℕ
set_bit byte bit = bit_or byte (2 ^ bit)

-- `byte & ~(1 << bit)` on a `uint8_t`
abbrev pub clear_bit : ℕ → ℕ → ℕ
clear_bit byte bit = bit_and byte (255 - 2 ^ bit)

-- The first loop of `bitmap_reserve` tests `data[byte]` before the bound: it may read one byte
-- past the end, which holds `beyond`. `none`: the fuel ran out.
unfoldable pub skip_full : (beyond limit : ℕ) → List ℕ → (fuel byte : ℕ) → Option ℕ
skip_full beyond limit bytes zero byte = none
skip_full beyond limit bytes (suc fuel) byte =
    let rest = skip_full beyond limit bytes fuel (byte + 1) in
    if get_or bytes byte beyond == 255 && ltb byte limit then rest else some byte

-- The second loop: the first clear bit of `field`, with `rounds` bits left to look at.
unfoldable pub first_clear : (field rounds bit : ℕ) → Option ℕ
first_clear field zero bit = none
first_clear field (suc rounds) bit =
    let rest = first_clear field rounds (bit + 1) in
    if bit_of field bit == 0 then some bit else rest

-- `bit_lim`
unfoldable pub bit_limit : (size byte : ℕ) → ℕ
bit_limit size byte =
    if byte == byte_size size - 1
    then sub_size size 1 % 8 + 1
    else if byte == byte_size size
    then 0
    else 8

-- What is done with the outcome of the second loop in byte `byte`.
unfoldable pub take_bit : Bitmap → ℕ → Option ℕ → ℕ × Bitmap
take_bit b byte none = (no_value, b)
take_bit b byte (some bit) = (
  byte * 8 + bit,
  record b { data_bytes = set b.data_bytes byte (set_bit (get_or b.data_bytes byte 0) bit) },
)

-- `bitmap_reserve` of a bitmap; the outer option is the fuel of the first loop.
unfoldable pub reserve_in : (beyond : ℕ) → Bitmap → Option (ℕ × Bitmap)
unfolding skip_full first_clear bit_limit take_bit
reserve_in beyond b =
    elim (skip_full beyond (byte_size b.size) b.data_bytes (byte_size b.size + 1) 0) [
      | none ↦ none
      | some byte ↦ some (
          take_bit b byte (first_clear (get_or b.data_bytes byte beyond) (bit_limit b.size byte) 0))
    ]

-- What an access of a byte does: `fault` is an access outside the allocated bytes.
pub data Access (A : Type 0) : Type 0 where
  done : A → Access A
  fault : Access A

-- `return_value` of `bitmap_release` and `bitmap_set`
abbrev pub ok_value : ℤ
ok_value = pos 0

abbrev pub err_value : ℤ
err_value = negsuc 0

unfoldable pub release : Option Bitmap → ℕ → Access (ℤ × Option Bitmap)
release none val = done (err_value, none)
release (some b) val =
    if ltb b.size val
    then done (err_value, some b)
    else if ltb (val / 8) (length b.data_bytes)
    then (let field = get_or b.data_bytes (val / 8) 0 in
        if bit_of field (val % 8) == 1
        then done (
          ok_value,
          some (record b { data_bytes = set b.data_bytes (val / 8) (clear_bit field (val % 8)) }),
        )
        else done (err_value, some b))
    else fault

-- `bitmap_set`
unfoldable pub set_value : Option Bitmap → ℕ → Access (ℤ × Option Bitmap)
set_value none val = done (err_value, none)
set_value (some b) val =
    if ltb b.size val
    then done (err_value, some b)
    else if ltb (val / 8) (length b.data_bytes)
    then (let field = get_or b.data_bytes (val / 8) 0 in
        if bit_of field (val % 8) == 0
        then done (
          ok_value,
          some (record b { data_bytes = set b.data_bytes (val / 8) (set_bit field (val % 8)) }),
        )
        else done (err_value, some b))
    else fault

unfoldable pub is_set : Option Bitmap → ℕ → Access ℤ
is_set none val = done err_value
is_set (some b) val =
    if ltb b.size val
    then done err_value
    else if ltb (val / 8) (length b.data_bytes)
    then done (pos (bit_of (get_or b.data_bytes (val / 8) 0) (val % 8)))
    else fault

-- `bitmap_reserve`
unfoldable pub reserve : (beyond : ℕ) → Option Bitmap → Option (ℕ × Option Bitmap)
unfolding reserve_in
reserve beyond none = some (no_value, none)
reserve beyond (some b) = elim (reserve_in beyond b) [
  | none ↦ none
  | some (v, b') ↦ some (v, some b')
]
