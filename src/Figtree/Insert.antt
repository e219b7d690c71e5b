-- ===== src/Figtree/Insert.antt =====
-- `_ft_insert` of src/figtree/figtree.c: the way down, and the way up.
use gdpfs.Base.{
  ℕ, zero, suc, ◌+◌, ◌-◌, ◌%◌, ◌^◌, Bool, true, false, Option, none, some, List, [], ◌∷◌, ◌++◌,
  ◌==◌, ltb, if◌then◌else◌,
}
use gdpfs.Interval
use gdpfs.Interval.{Interval, byte_index_max, byte_index_min}
use gdpfs.Figtree.Heap.{
  Ptr, null, Entry, Node, Cmd, return, ◌>>=◌, ◌>>◌, out_of_fuel, lift, load, Images,
}
use gdpfs.Figtree.Node.{subtree_get, ftn_replace_entries}
use gdpfs.Figtree.Prune.{ftn_prune_to}

-- `byte_index_t` arithmetic wraps.
abbrev pub next_index : ℕ → ℕ
next_index x = (x + 1) % 2 ^ 32

abbrev pub prev_index : ℕ → ℕ
prev_index x = (x + 2 ^ 32 - 1) % 2 ^ 32

-- `struct insertargs`
pub record InsertArgs : Type 0 where
  pub range : Interval
  pub value : ℕ
  pub at : Ptr
  pub valid : Interval

-- `struct insertcont`: the residual intervals that a write leaves on either side
pub record InsertCont : Type 0 where
  pub left_c : Option InsertArgs
  pub right_c : Option InsertArgs

-- `path`, `pathIndices` and `path_len`: both lists have the length `path_len`.
pub record Trail : Type 0 where
  pub nodes : List Ptr
  pub indices : List ℕ

abbrev pub extend : Trail → Ptr → ℕ → Trail
extend w p i = record { nodes = w.nodes ++ (p ∷ []); indices = w.indices ++ (i ∷ []) }

-- What the loop over the entries of a node finds: the first entry that overlaps the range, or the
-- subtree to descend into. Either comes with the entry before it.
pub data Place : Type 0 where
  overlap : (i : ℕ) → (before : Option Entry) → Entry → Place
  below : (i : ℕ) → (before : Option Entry) → (after : Option Entry) → Place

unfoldable pub find_place : Interval → List Entry → (i : ℕ) → (before : Option Entry) → Place
find_place range [] i before = below i before none
find_place range (e ∷ es) i before =
    let rest = find_place range es (i + 1) (some e) in
    if Interval.overlaps e.irange range
    then overlap i before e
    else if Interval.right_of_int e.irange range
    then below i before (some e)
    else rest

-- `for (j = i + 1; ...)`: the entries after the overlapping one that left-overlap the range. The
-- result is `j`, `previous` and, where `j` is not the number of entries, the entry at `j`.
unfoldable pub last_overlap : Interval → Entry → List Entry → (j : ℕ) → ℕ × Entry × Option Entry
last_overlap range previous [] j = (j, previous, none)
last_overlap range previous (e ∷ es) j =
    let rest = last_overlap range e es (j + 1) in
    if Interval.left_overlaps e.irange range then rest else (j, previous, some e)

-- the bounds of the gap between two entries
abbrev pub gap_left : Option Entry → ℕ
gap_left none = byte_index_min
gap_left (some e) = next_index e.irange.right

abbrev pub gap_right : Option Entry → ℕ
gap_right none = byte_index_max
gap_right (some e) = prev_index e.irange.left

-- The continuation for what the overlapped entries leave on the left, `none` if nothing.
unfoldable pub left_residue :
    Images
    → Ptr
    → (range valid : Interval) → (i : ℕ) → (before : Option Entry) → Entry
    → Cmd (Option InsertArgs)
unfolding subtree_get
left_residue log p range valid i before e =
    if ltb e.irange.left range.left
    then (do
      at ← subtree_get log p i
      v ← lift (Interval.restrict_range valid (gap_left before) (prev_index e.irange.left) true)
      return (
          some (record {
            range = Interval.init e.irange.left (prev_index range.left);
            value = e.value;
            at = at;
            valid = v;
          })))
    else return none

-- The same on the right, with `j` the index behind the last overlapped entry.
unfoldable pub right_residue :
    Images
    → Ptr
    → (range valid : Interval) → (j : ℕ) → (after : Option Entry) → Entry
    → Cmd (Option InsertArgs)
unfolding subtree_get
right_residue log p range valid j after previous =
    if ltb range.right previous.irange.right
    then (do
      at ← subtree_get log p j
      v ←
          lift (
            Interval.restrict_range valid (next_index previous.irange.right) (gap_right after) true)
      return (
          some (record {
            range = Interval.init (next_index range.right) previous.irange.right;
            value = previous.value;
            at = at;
            valid = v;
          })))
    else return none

abbrev pub drop_first : ℕ → List Entry → List Entry
drop_first zero es = es
drop_first (suc n) [] = []
drop_first (suc n) (e ∷ es) = drop_first n es

abbrev pub is_some {ℓ} : {A : Type ℓ} → Option A → Bool
is_some none = false
is_some (some a) = true

-- The overlapped entries are replaced by the new one.
unfoldable pub overwrite :
    Images
    → Ptr
    → Node
    → (range valid : Interval) → (value i : ℕ) → (before : Option Entry) → Entry
    → Trail
    → Cmd (Trail × InsertCont)
unfolding last_overlap left_residue right_residue ftn_replace_entries
overwrite log p n range valid value i before e path = do
  l ← left_residue log p range valid i before e
  let (j, previous, after) = last_overlap range e (drop_first (i + 1) n.entries) (i + 1)
  r ← right_residue log p range valid j after previous
  ftn_replace_entries p i j range value
  return (extend path p (if is_some r then i + 1 else i), record { left_c = l; right_c = r })

-- The way down. The flag says that it has reached `NULL`, and the entry is still to be inserted.
unfoldable pub descend :
    Images
    → (fuel : ℕ) → (range : Interval) → (value : ℕ) → Ptr
    → (valid : Interval) → Trail
    → Cmd (Bool × Trail × InsertCont)
unfolding ftn_prune_to find_place overwrite subtree_get
descend log zero range value p valid path = out_of_fuel
descend log (suc fuel) range value p valid path =
    if p == null then return (true, path, record { left_c = none; right_c = none }) else do
      ftn_prune_to p valid
      n ← load p
      elim (find_place range n.entries 0 none) [
        | overlap i before e ↦ (do
          (path', cont) ← overwrite log p n range valid value i before e path
          return (false, path', cont))
        | below i before after ↦ (do
          q ← subtree_get log p i
          v ← lift (Interval.restrict_range valid (gap_left before) (gap_right after) true)
          descend log fuel range value q v (extend path p i))
      ]
