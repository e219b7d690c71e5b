-- ===== src/Dir/Table/Layout.antt =====
-- A directory's content is the concatenation of its entries.
use mathlib.Core.List.{append_assoc}
use gdpfs.Base.{
  ℕ, ◌-◌, replicate, length-take, length-replicate, ◌+◌, ◌*◌, ◌≡◌, refl, ap, ◌∙◌, sym, Bool, true,
  false, List, [], ◌∷◌, ◌++◌, arith, length, take, drop, length-append, take-append, drop-append,
}
use gdpfs.Dir.Entry.{
  Bytes, entry_size, gname_size, name_max, PhysEntry, to_bytes, of_bytes, strncpy, bool_byte,
  byte_bool,
}
use gdpfs.Dir.Table.{Look, at_end, entry, look_at, new_entry}

-- An entry with arrays of the sizes that the struct gives them.
pub record IsEntry (e : PhysEntry) : Type 0 where
  pub gname_fits : length e.gname ≡ gname_size
  pub name_fits : length e.name ≡ name_max + 1

abbrev pub AreEntries : List PhysEntry → Type 0
AreEntries [] = Unit
AreEntries (e ∷ es) = IsEntry e × AreEntries es

unfoldable pub table : List PhysEntry → Bytes
table [] = []
table (e ∷ es) = to_bytes e ++ table es

pub length-to_bytes : (e : PhysEntry) → IsEntry e → length (to_bytes e) ≡ entry_size
unfolding to_bytes
length-to_bytes e w =
    omega (arith, length-append e.gname (bool_byte e.in_use ∷ e.name), w.gname_fits, w.name_fits)

byte_bool-bool_byte : (b : Bool) (bs : Bytes) → byte_bool (bool_byte b ∷ bs) ≡ b
byte_bool-bool_byte true bs = refl
byte_bool-bool_byte false bs = refl

-- The struct survives a write and a read.
pub of_bytes-to_bytes : (e : PhysEntry) → IsEntry e → of_bytes (to_bytes e) ≡ e
unfolding to_bytes of_bytes
of_bytes-to_bytes e w = λ i. record {
  gname = take-append e.gname (bool_byte e.in_use ∷ e.name) gname_size (sym w.gname_fits) i;
  in_use = (flag ∙ byte_bool-bool_byte e.in_use e.name) i;
  name = tail i;
}
  where
    flag : byte_bool (drop gname_size (to_bytes e)) ≡ byte_bool (bool_byte e.in_use ∷ e.name)
    flag =
        ap byte_bool
          (drop-append e.gname (bool_byte e.in_use ∷ e.name) gname_size (sym w.gname_fits))

    tail : drop (gname_size + 1) (to_bytes e) ≡ e.name
    tail =
        ap (drop (gname_size + 1)) (sym (append_assoc e.gname (bool_byte e.in_use ∷ []) e.name))
        ∙ drop-append (e.gname ++ (bool_byte e.in_use ∷ [])) e.name (gname_size + 1)
            (omega (arith, length-append e.gname (bool_byte e.in_use ∷ []), w.gname_fits))

pub length-table :
    (es : List PhysEntry) → AreEntries es → length (table es) ≡ entry_size * length es
unfolding table
length-table [] w = refl
length-table (e ∷ es) w =
    omega (arith, length-append (to_bytes e) (table es), length-to_bytes e w.0, length-table es w.1)

pub table-append : (es fs : List PhysEntry) → table (es ++ fs) ≡ table es ++ table fs
unfolding table
table-append [] fs = refl
table-append (e ∷ es) fs = rw (table-append es fs, append_assoc)

-- What a read of one entry sees behind the entries `es`: the first of those that follow.
abbrev pub first_of : List PhysEntry → Look
first_of [] = at_end
first_of (e ∷ es) = entry e

look_at-to_bytes :
    (e : PhysEntry) (bs : Bytes)
    → IsEntry e
    → look_at (take entry_size (to_bytes e ++ bs)) ≡ entry e
unfolding look_at
look_at-to_bytes e bs w =
    rw (take-append (to_bytes e) bs entry_size (sym (length-to_bytes e w)), length-to_bytes e w)
      (ap entry (of_bytes-to_bytes e w))

pub look_at-table :
    (es fs : List PhysEntry) (offset : ℕ)
    → AreEntries es
    → AreEntries fs
    → offset ≡ entry_size * length es
    → look_at (take entry_size (drop offset (table (es ++ fs)))) ≡ first_of fs
unfolding table
look_at-table es fs offset w v e =
    rw (table-append es fs, drop-append (table es) (table fs) offset (e ∙ sym (length-table es w)))
      (seen fs v)
  where
    seen :
        (fs : List PhysEntry) → AreEntries fs → look_at (take entry_size (table fs)) ≡ first_of fs
    seen [] v = unfold look_at in refl
    seen (f ∷ fs) v = look_at-to_bytes f (table fs) v.0

-- The entry that `_add_at_offset` writes has the size of the struct, whatever the name.
pub new_entry-IsEntry :
    (name gname : Bytes) → length gname ≡ gname_size → IsEntry (new_entry name gname)
unfolding new_entry strncpy
new_entry-IsEntry name gname g = record {
  gname_fits = g;
  name_fits = omega (
    arith,
    length-append (take name_max name ++ replicate (name_max - length name) 0) (0 ∷ []),
    length-append (take name_max name) (replicate (name_max - length name) 0),
    length-take name_max name,
    length-replicate {A = ℕ} (name_max - length name) 0,
  );
}
