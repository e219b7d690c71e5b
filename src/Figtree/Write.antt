-- ===== src/Figtree/Write.antt =====
-- The way up of `_ft_insert`, and `ft_write`, of src/figtree/figtree.c.
use gdpfs.Base.{
  ℕ, zero, suc, ◌+◌, ◌-◌, Bool, true, false, Option, none, some, [], ◌∷◌, ◌&&◌, ◌==◌, ltb, leb,
  if◌then◌else◌, length, get_elem?, set, take,
}
use gdpfs.Interval
use gdpfs.Interval.{Interval, byte_index_max, byte_index_min}
use gdpfs.Figtree.Heap.{
  Ptr, null, Entry, Cmd, return, ◌>>=◌, ◌>>◌, assert, lift, load, free, Images,
}
use gdpfs.Figtree.Node.{order, subtree_get, ftn_insert}
use gdpfs.Figtree.Insert.{InsertArgs, InsertCont, Trail, descend}

unfoldable pub on_path : (right : Ptr) → Option Ptr → Bool
on_path right none = false
on_path right (some q) = q == right

-- With a right continuation, `shared` nodes of the path (`finalsharedindex + 1`) are also those of a
-- left continuation to come. The index at the last of them moves back to the left subtree, an index
-- above it moves on if the path goes through the right half of a split.
unfoldable pub shift_index : Trail → (shared k i : ℕ) → (right : Ptr) → ℕ
unfolding on_path
shift_index path shared k i right =
    if k + 1 == shared
    then i - 1
    else if ltb (k + 1) shared && on_path right (get_elem? path.nodes (k + 1))
    then i + 1
    else i

-- If the node at `k` was split into the children of `pushed`, the path goes on through the half that
-- has the index.
unfoldable pub adjust : Images → Trail → (shared k i : ℕ) → (right pushed : Ptr) → Cmd Trail
unfolding shift_index subtree_get
adjust log path shared k i right pushed = do
  let i' = shift_index path shared k i right
  let moved : Trail = record path { indices = set path.indices k i' }
  if pushed == null
      then return moved
      else (if leb i' order
          then (do
            q ← subtree_get log pushed 0
            return (record moved { nodes = set moved.nodes k q }))
          else (do
            q ← subtree_get log pushed 1
            return (record {
              nodes = set moved.nodes k q;
              indices = set moved.indices k (i' - (order + 1));
            })))

-- `pathIndices[finalsharedindex]--`
unfoldable pub step_back : Trail → (shared : ℕ) → Trail
step_back path shared = elim (get_elem? path.indices (shared - 1)) [
  | none ↦ path
  | some i ↦ record path { indices = set path.indices (shared - 1) (i - 1) }
]

-- What the way up leaves: the new root if the old one was split, and the path.
pub record Climbed : Type 0 where
  pub new_root : Option Ptr
  pub trail : Trail

-- The loop from `pathindex = k - 1` down to 0.
unfoldable pub climb :
    Images
    → (right_continuation : Bool) → (shared k : ℕ) → Entry
    → (left right pushed : Ptr) → Trail
    → Cmd Climbed
unfolding ftn_insert adjust step_back subtree_get
climb log rc shared zero e left right pushed path =
    return (record { new_root = some pushed; trail = path })
climb log rc shared (suc k) e left right pushed path = do
  p ← lift (get_elem? path.nodes k)
  i ← lift (get_elem? path.indices k)
  up ← ftn_insert p e i left right
  free pushed
  path' ← (if rc then adjust log path shared k i right up else return path)
  if up == null
      then return (record {
        new_root = none;
        trail = if rc && ltb shared (k + 1) then step_back path' shared else path';
      })
      else (do
        n ← load up
        e' ← lift (get_elem? n.entries 0)
        left' ← subtree_get log up 0
        right' ← subtree_get log up 1
        climb log rc shared k e' left' right' up path')

-- "No parent to push to": with a right continuation the new root joins the path.
unfoldable pub enter_root : Images → Ptr → Trail → Cmd Trail
unfolding subtree_get
enter_root log root path = do
  first ← lift (get_elem? path.nodes 0)
  r ← subtree_get log root 1
  if first == r
      then return (record { nodes = root ∷ path.nodes; indices = 1 ∷ path.indices })
      else (do
        l ← subtree_get log root 0
        assert (first == l)
        return (record { nodes = root ∷ path.nodes; indices = 0 ∷ path.indices }))

-- `*path_len = n`
abbrev pub cut_to : ℕ → Trail → Trail
cut_to n path = record { nodes = take n path.nodes; indices = take n path.indices }

-- What `_ft_insert` leaves: the root, the path and the continuations.
pub record Inserted : Type 0 where
  pub root : Ptr
  pub trail : Trail
  pub cont : InsertCont

unfoldable pub finish :
    Images → (right_continuation : Bool) → (shared : ℕ) → Ptr → InsertCont → Climbed → Cmd Inserted
unfolding enter_root
finish log rc shared root cont c = elim c.new_root [
  | none ↦
      return
        (record { root = root; trail = if rc then cut_to shared c.trail else c.trail; cont = cont })
  | some new ↦
      (if rc
        then (do
          path ← enter_root log new c.trail
          return (record { root = new; trail = cut_to (shared + 1) path; cont = cont }))
        else return (record { root = new; trail = c.trail; cont = cont }))
]

-- `_ft_insert`. A node of height `h` has `h + 1` levels below and including it.
unfoldable pub ft_insert :
    Images
    → (root : Ptr) → InsertArgs
    → Trail
    → (right_continuation : Bool) → (fuel : ℕ) → Cmd Inserted
unfolding descend climb finish
ft_insert log root args path rc fuel = do
  let shared = length path.nodes
  (to_insert, path', cont) ← descend log fuel args.range args.value args.at args.valid path
  if to_insert
      then (do
        c ←
            climb log rc shared (length path'.nodes)
              (record { irange = args.range; value = args.value }) null null null path'
        finish log rc shared root cont c)
      else finish log rc shared root cont (record { new_root = none; trail = path' })

abbrev pub no_residue : InsertCont → Bool
no_residue c = elim c.left_c [
  | none ↦ elim c.right_c [ none ↦ true | some a ↦ false ]
  | some a ↦ false
]

-- A continuation of `ft_write`: its own insertion leaves no residue.
unfoldable pub carry_on :
    Images
    → (fuel : ℕ) → (right_continuation : Bool) → Option InsertArgs
    → Ptr
    → Trail
    → Cmd (Ptr × Trail)
unfolding ft_insert
carry_on log fuel rc none root path = return (root, path)
carry_on log fuel rc (some args) root path = do
  r ← ft_insert log root args path rc fuel
  assert (no_residue r.cont)
  return (r.root, r.trail)

-- `ft_write`: the root afterwards
unfoldable pub ft_write : Images → (root : Ptr) → (start end value : ℕ) → Cmd Ptr
unfolding ft_insert carry_on
ft_write log root start end value = do
  n ← load root
  let args : InsertArgs = record {
    range = Interval.init start end;
    value = value;
    at = root;
    valid = Interval.init byte_index_min byte_index_max;
  }
  let fuel = n.height + 3
  r ← ft_insert log root args (record { nodes = []; indices = [] }) false fuel
  (root₁, path) ← carry_on log fuel true r.cont.right_c r.root r.trail
  (root₂, _) ← carry_on log fuel false r.cont.left_c root₁ path
  return root₂
