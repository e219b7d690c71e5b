-- ===== src/Figtree/Iterate.antt =====
-- `ft_read` and `fti_next` of src/figtree/figtree.c: the iterator over a range of bytes.
pub mod Figs
pub mod Values
pub mod Find
pub mod Zipper
pub mod Frames
pub mod Descend
pub mod Moved
pub mod Steps
pub mod Next
pub mod Place
pub mod Up
pub mod Start
pub mod Refine
use gdpfs.Base.{
  ℕ, zero, suc, ◌+◌, ◌-◌, Bool, true, false, Option, none, some, List, [], ◌∷◌, ◌==◌, ltb, leb,
  if◌then◌else◌, length, get_elem?, ◌||◌,
}
use gdpfs.Interval
use gdpfs.Interval.{Interval, byte_index_max}
use gdpfs.Figtree.Heap.{
  Ptr, null, Entry, Node, Cmd, return, ◌>>=◌, ◌>>◌, out_of_fuel, assert, lift, load, Images,
}
use gdpfs.Figtree.Node.{subtree_get, ftn_free}
use gdpfs.Figtree.Insert.{gap_left, gap_right, next_index}

-- `struct figtree_iterstate`. A new one begins at -1, which nothing reads before the scan of its node
-- sets it; here it is made when the scan is done. The iterator is the list of the states from `depth`
-- down, so that it is empty where `depth` is -1.
pub record Frame : Type 0 where
  pub node : Ptr
  pub pos : ℕ
  pub valid : Interval

-- What the inner loop of `ft_read` finds in a node: an entry that contains the start, or the subtree
-- to descend into, with the entries on both sides of it.
pub data StartPlace : Type 0 where
  inside : (i : ℕ) → StartPlace
  between : (i : ℕ) → (before : Option Entry) → (after : Option Entry) → StartPlace

unfoldable pub find_start :
    (start : ℕ) → List Entry → (i : ℕ) → (before : Option Entry) → StartPlace
find_start x [] i before = between i before none
find_start x (e ∷ es) i before =
    let rest = find_start x es (i + 1) (some e) in
    if Interval.contains_val e.irange x
    then inside i
    else if Interval.right_of_val e.irange x
    then between i before (some e)
    else rest

-- What the loop of `ft_read` does with it: it is there, or goes on in the subtree.
unfoldable pub read_at :
    Images
    → (onward : Ptr → (valid : Interval) → List Frame → Cmd (List Frame)) → Ptr
    → (valid : Interval) → StartPlace
    → List Frame
    → Cmd (List Frame)
read_at log onward p v (inside i) below = return (record { node = p; pos = i; valid = v } ∷ below)
read_at log onward p v (between i before after) below = do
  q ← subtree_get log p i
  v' ← lift (Interval.restrict_range v (gap_left before) (gap_right after) false)
  onward q v' (record { node = p; pos = i; valid = v } ∷ below)

-- The way down to the start.
unfoldable pub read_down :
    Images → (fuel : ℕ) → (start : ℕ) → Ptr → (valid : Interval) → List Frame → Cmd (List Frame)
unfolding find_start read_at
read_down log zero x p v below = out_of_fuel
read_down log (suc fuel) x p v below =
    if p == null
    then return (record { node = p; pos = 0; valid = v } ∷ below)
    else do n ← load p; read_at log (read_down log fuel x) p v (find_start x n.entries 0 none) below

-- A node is done: there is no entry at the index, or it lies behind the valid interval.
unfoldable pub is_done : Frame → Cmd Bool
is_done s = do
  n ← load s.node
  if s.pos == length n.entries
      then return true
      else do e ← lift (get_elem? n.entries s.pos); return (Interval.left_of_int s.valid e.irange)

-- The loops that go back up: of `fti_next`, and of `ft_read`, which also passes `NULL`.
unfoldable pub go_up : List Frame → Cmd (List Frame)
unfolding is_done
go_up [] = return []
go_up (s ∷ below) = do done_here ← is_done s; if done_here then go_up below else return (s ∷ below)

unfoldable pub read_up : List Frame → Cmd (List Frame)
unfolding is_done
read_up [] = return []
read_up (s ∷ below) =
    if s.node == null
    then read_up below
    else do done_here ← is_done s; if done_here then read_up below else return (s ∷ below)

-- `ft_read`. A root of height `h` has `h + 1` levels, and one round more sees `NULL`.
unfoldable pub ft_read : Images → (root : Ptr) → (start end : ℕ) → Cmd (List Frame)
unfolding read_down read_up
ft_read log root start end = do
  n ← load root
  states ← read_down log (n.height + 2) start root (Interval.init start end) []
  read_up states

-- The first entry that is not left of the valid interval: its index, and the entries before and at it.
unfoldable pub skip_left :
    Interval → List Entry → (i : ℕ) → (before : Option Entry) → ℕ × Option Entry × Option Entry
skip_left valid [] i before = (i, before, none)
skip_left valid (e ∷ es) i before =
    let rest = skip_left valid es (i + 1) (some e) in
    if Interval.left_of_int e.irange valid then rest else (i, before, some e)

-- `i_leftOverlaps` of the valid interval with the entry at the index, where there is one
unfoldable pub begins_inside : Interval → Option Entry → Bool
begins_inside valid none = false
begins_inside valid (some e) = Interval.left_overlaps valid e.irange

-- What the loop does with the node that it has entered: it stops at an entry in which the valid
-- interval begins, or goes on below the position.
unfoldable pub drill_at :
    Images
    → (onward : Ptr
        → (left_limit right_limit : ℕ) → (valid : Interval) → List Frame
        → Cmd (List Frame))
    → Ptr
    → (valid : Interval) → ℕ × Option Entry × Option Entry
    → List Frame
    → Cmd (List Frame)
unfolding begins_inside
drill_at log onward p v (i, before, after) states =
    let states' : List Frame = record { node = p; pos = i; valid = v } ∷ states in
    if begins_inside v after
    then return states'
    else do q ← subtree_get log p i; onward q (gap_left before) (gap_right after) v states'

-- "This is the loop where we drill down the subtree."
unfoldable pub drill :
    Images
    → (fuel : ℕ) → Ptr
    → (left_limit right_limit : ℕ) → (valid : Interval) → List Frame
    → Cmd (List Frame)
unfolding skip_left drill_at
drill log zero p l r valid states = out_of_fuel
drill log (suc fuel) p l r valid states = if p == null then return states else do
  v ← lift (Interval.restrict_range valid l r false)
  n ← load p
  drill_at log (drill log fuel) p v (skip_left v n.entries 0 none) states

-- The descent into the gap behind the entry `e`, with the state moved on to `after`; "if the next
-- entry in this node is adjacent to the one we just yielded, then there's no point".
unfoldable pub enter_gap :
    Images → (height : ℕ) → Entry → (after : Option Entry) → Frame → List Frame → Cmd (List Frame)
unfolding drill
enter_gap log height e after s below =
    if leb (next_index e.irange.right) (gap_right after)
    then (do
      q ← subtree_get log s.node s.pos
      drill log (height + 2) q (next_index e.irange.right) (gap_right after) s.valid (s ∷ below))
    else return (s ∷ below)

-- The descent behind the entry that is yielded.
unfoldable pub go_down : Images → Node → Entry → Frame → List Frame → Cmd (List Frame)
unfolding enter_gap
go_down log n e s below =
    if leb s.valid.right e.irange.right
    then return (record s { pos = length n.entries } ∷ below)
    else enter_gap log n.height e (get_elem? n.entries (s.pos + 1)) (record s { pos = s.pos + 1 })
        below

-- `fti_next`: `none` where it returns false, else the fig, which has the form of an entry, and the
-- iterator after it
unfoldable pub fti_next : Images → List Frame → Cmd (Option (Entry × List Frame))
unfolding go_down go_up
fti_next log [] = return none
fti_next log (s ∷ below) = do
  n ← load s.node
  assert (ltb s.pos (length n.entries))
  e ← lift (get_elem? n.entries s.pos)
  r ← lift (Interval.restrict_int e.irange s.valid false)
  lower ← go_down log n e s below
  states ← go_up lower
  return (some (record e { irange = r }, states))

-- The loop `while (fti_next(...))` of a reader, and what it gets.
unfoldable pub read_next :
    (onward : List Frame → Cmd (List Entry)) → Option (Entry × List Frame) → Cmd (List Entry)
read_next onward none = return []
read_next onward (some (g, states)) = do gs ← onward states; return (g ∷ gs)

unfoldable pub read_all : Images → (fuel : ℕ) → List Frame → Cmd (List Entry)
unfolding fti_next read_next
read_all log zero states = out_of_fuel
read_all log (suc fuel) states = do next ← fti_next log states; read_next (read_all log fuel) next

-- `ft_dealloc`; the root is `NULL` then
unfoldable pub ft_dealloc : (root : Ptr) → Cmd Ptr
unfolding ftn_free
ft_dealloc root = do n ← load root; ftn_free (n.height + 1) root; return null
