-- ===== src/File/Simple.antt =====
-- A platform to run the model of src/gdpfs_file.c on: a log that is a list, an index that is the list
-- of its writes, and a local file system that keeps no holes.
use gdpfs.Base.{
  ℕ, zero, suc, ◌+◌, ◌-◌, Bool, true, Option, none, some, List, [], ◌∷◌, ◌++◌, ◌&&◌, ltb, leb,
  if◌then◌else◌, length, take, drop, replicate, get_elem?,
}
use gdpfs.Stat.{Stat}
use gdpfs.Dir.Entry.{Bytes}
use gdpfs.File.Parts.{Record, Fetch, absent, fetched, Fig, Platform}

-- The newest write comes first.
abbrev pub Writes : Type 0
Writes = List Fig

abbrev pub in_range : (left right b : ℕ) → Bool
in_range left right b = leb left b && leb b right

abbrev pub value_in : Writes → ℕ → Option ℕ
value_in [] b = none
value_in (w ∷ ws) b = if in_range w.left w.right b then some w.value else value_in ws b

-- A fig for each byte of the `count` bytes from `b` on that has a value.
abbrev pub one_fig : ℕ → Option ℕ → List Fig → List Fig
one_fig b none rest = rest
one_fig b (some v) rest = record { left = b; right = b; value = v } ∷ rest

abbrev pub byte_figs : (count b : ℕ) → Writes → List Fig
byte_figs zero b ws = []
byte_figs (suc count) b ws = one_fig b (value_in ws b) (byte_figs count (b + 1) ws)

abbrev pub fetch_from : Option Record → ℕ → Fetch
fetch_from none n = absent
fetch_from (some r) n = fetched n r

abbrev pub last_of : ℕ → List Record → Fetch
last_of n [] = absent
last_of n (r ∷ []) = fetched n r
last_of n (r ∷ (q ∷ rs)) = last_of (n + 1) (q ∷ rs)

-- Bytes from an offset on, behind zeros where the file was shorter.
abbrev pub local_write : Bytes → ℕ → Bytes → Bytes
local_write bs offset c =
    take offset (c ++ replicate (offset - length c) 0) ++ (bs ++ drop (offset + length bs) c)

-- An index is stored as the numbers of its writes.
abbrev pub flat : Writes → Bytes
flat [] = []
flat (w ∷ ws) = w.left ∷ (w.right ∷ (w.value ∷ flat ws))

abbrev pub unflat : Bytes → Writes
unflat (x ∷ (y ∷ (z ∷ bs))) = record { left = x; right = y; value = z } ∷ unflat bs
unflat bs = []

abbrev pub simple : (use_cache : Bool) → Platform
simple use_cache = record {
  Log = List Record;
  append = λ r l. (Stat.ok, l ++ (r ∷ []));
  latest = λ l. last_of 1 l;
  fetch = λ n l. fetch_from (get_elem? l (n - 1)) n;
  Tree = Writes;
  ft_init = [];
  ft_write = λ start end v t. record { left = start; right = end; value = v } ∷ t;
  figs = λ start end t. byte_figs (end + 1 - start) start t;
  restored = λ r. unflat r.payload;
  node_size = 3;
  get_dirty = λ n t. some (flat t, t);
  Local = Bytes;
  pwrite = λ bs offset c. (true, local_write bs offset c);
  pread = λ size offset c. take size (drop offset c);
  next_hole = λ offset c. if ltb offset (length c) then some (length c) else none;
  use_cache = use_cache;
  freed_recno = 0;
}
