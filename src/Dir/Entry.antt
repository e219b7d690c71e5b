-- ===== src/Dir/Entry.antt =====
-- Directory entries as the bytes of a struct, and the C strings in them.
use gdpfs.Base.{
  ℕ, ◌+◌, ◌-◌, Bool, true, false, List, [], ◌∷◌, ◌++◌, ◌&&◌, ◌==◌, if◌then◌else◌, length, take,
  drop, replicate,
}

-- A string without its terminator, or an array that holds one.
abbrev pub Bytes : Type 0
Bytes = List ℕ

-- `NAME_MAX_GDPFS`
abbrev pub name_max : ℕ
name_max = 255

-- `sizeof(gdp_name_t)`
abbrev pub gname_size : ℕ
gname_size = 32

-- The string in an array: the bytes before the first zero.
unfoldable pub c_string : Bytes → Bytes
c_string [] = []
c_string (c ∷ cs) = if c == 0 then [] else c ∷ c_string cs

-- The array after `strncpy(array, s, n)`: at most `n` bytes of `s`, and zeros up to `n`.
unfoldable pub strncpy : Bytes → ℕ → Bytes
strncpy s n = take n s ++ replicate (n - length s) 0

-- equality of two strings
unfoldable pub same_bytes : Bytes → Bytes → Bool
same_bytes [] [] = true
same_bytes [] (y ∷ ys) = false
same_bytes (x ∷ xs) [] = false
same_bytes (x ∷ xs) (y ∷ ys) = x == y && same_bytes xs ys

-- `gdpfs_dir_entry_phys_t`
pub record PhysEntry : Type 0 where
  pub gname : Bytes
  pub in_use : Bool
  pub name : Bytes

-- `sizeof(gdpfs_dir_entry_phys_t)`
abbrev pub entry_size : ℕ
entry_size = gname_size + 1 + (name_max + 1)

abbrev pub bool_byte : Bool → ℕ
bool_byte true = 1
bool_byte false = 0

-- The bytes of the struct, and the struct of its bytes.
unfoldable pub to_bytes : PhysEntry → Bytes
to_bytes e = e.gname ++ (bool_byte e.in_use ∷ e.name)

abbrev pub byte_bool : Bytes → Bool
byte_bool [] = false
byte_bool (b ∷ bs) = if b == 0 then false else true

unfoldable pub of_bytes : Bytes → PhysEntry
of_bytes bs = record {
  gname = take gname_size bs;
  in_use = byte_bool (drop gname_size bs);
  name = drop (gname_size + 1) bs;
}
