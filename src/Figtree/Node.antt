-- ===== src/Figtree/Node.antt =====
-- src/figtree/figtreenode.c, and the subtree pointers of src/figtree/utils.c.
use gdpfs.Base.{
  ℕ, zero, suc, ◌+◌, ◌-◌, Bool, true, false, Option, none, some, List, [], ◌∷◌, ◌++◌, not, ◌&&◌,
  ◌||◌, ◌==◌, ltb, leb, if◌then◌else◌, length, get_elem?, get_or, set, take, drop,
}
use gdpfs.Base.Int.{ℤ, pos, negsuc}
use gdpfs.Interval
use gdpfs.Interval.{Interval}
use gdpfs.Figtree.Heap.{
  Ptr, null, Entry, Subtree, Node, Cmd, return, ◌>>=◌, ◌>>◌, out_of_fuel, assert, lift, load, store,
  alloc, free, Images,
}

-- `FT_ORDER` and `FT_SPLITLIMIT`
abbrev pub order : ℕ
order = 2

abbrev pub split_limit : ℕ
split_limit = 5

-- a zeroed `struct subtree_ptr`
abbrev pub no_subtree : Subtree
no_subtree = record { recno = 0; offset = 0; st = null; inmemory = false }

-- `subtree_set`
abbrev pub subtree_set : Subtree → Ptr → Subtree
subtree_set s p = record s { inmemory = true; st = p }

-- `ftn_new`, with `ftn_clear` of the zeroed node in it: that has no subtree to free.
unfoldable pub ftn_new : (height : ℕ) → (make_height : Bool) → Cmd Ptr
ftn_new zero make_height =
    alloc (record {
      entries = [];
      subtrees = subtree_set no_subtree null ∷ [];
      height = 0;
      dirty = true;
    })
ftn_new (suc height) false = alloc (record {
  entries = [];
  subtrees = subtree_set no_subtree null ∷ [];
  height = suc height;
  dirty = true;
})
ftn_new (suc height) true = do
  p ← alloc (record { entries = []; subtrees = []; height = suc height; dirty = true })
  first_child ← ftn_new height true
  store p (record {
    entries = [];
    subtrees = subtree_set no_subtree first_child ∷ [];
    height = suc height;
    dirty = true;
  })
  return p

-- `subtree_free` of each pointer of a list, given `ftn_free`; the pointers themselves are dropped
-- or overwritten by the callers.
unfoldable pub free_subtrees : (Ptr → Cmd (Unit {0})) → List Subtree → Cmd (Unit {0})
free_subtrees free_node [] = return tt
free_subtrees free_node (s ∷ ss) =
    (if s.inmemory && not (s.st == null) then free_node s.st else return tt)
    >> free_subtrees free_node ss

-- `ftn_free`; the fuel is the height of the tree, plus one
unfoldable pub ftn_free : (fuel : ℕ) → Ptr → Cmd (Unit {0})
ftn_free zero p = out_of_fuel
ftn_free (suc fuel) p = do n ← load p; free_subtrees (ftn_free fuel) n.subtrees; free p

-- `ftn_clear`. The nodes below a node of height `h` are freed in at most `h` levels.
unfoldable pub ftn_clear : Ptr → (make_height : Bool) → Cmd (Unit {0})
unfolding ftn_new free_subtrees ftn_free
ftn_clear p make_height = do
  n ← load p
  free_subtrees (ftn_free n.height) n.subtrees
  first_child ←
      (if n.height == 0 || not make_height then return null else ftn_new (n.height - 1) true)
  store p (record n {
    entries = [];
    subtrees = subtree_set (get_or n.subtrees 0 no_subtree) first_child ∷ [];
  })

-- `subtree_clear`: the pointer as it is afterwards
unfoldable pub subtree_clear : Subtree → ℤ → Cmd Subtree
unfolding ftn_clear
subtree_clear s (negsuc _) = return s
subtree_clear s (pos height) =
    if s.inmemory
    then (if s.st == null
        then return s
        else do n ← load s.st; assert (height == n.height); ftn_clear s.st true; return s)
    else do
      p ← ftn_new height true
      return (record { recno = 0; offset = 0; st = p; inmemory = true })

-- `subtree_get` of pointer `i` of the node at `p`. A pointer that is not in memory is read from the
-- log, and stays marked as not in memory.
unfoldable pub subtree_get : Images → Ptr → ℕ → Cmd Ptr
subtree_get log p i = do
  n ← load p
  s ← lift (get_elem? n.subtrees i)
  if s.inmemory then return s.st else do
    image ← lift (log s.recno s.offset)
    q ← alloc image
    store p (record n { subtrees = set n.subtrees i (record s { st = q }) })
    return q

-- `_ftn_entries_add` and `_ftn_subtrees_add`, behind their assertions
unfoldable pub entries_add : Node → ℕ → Entry → Node
entries_add n i e = record n { entries = take i n.entries ++ (e ∷ drop i n.entries) }

unfoldable pub subtrees_add : Node → ℕ → Ptr → Node
subtrees_add n i p = record n {
  subtrees =
      take i n.subtrees ++ (subtree_set (get_or n.subtrees i no_subtree) p ∷ drop i n.subtrees);
}

-- The assertion on the index in `ftn_insert`: the new entry overlaps neither neighbour.
unfoldable pub clear_of : Entry → Option Entry → Bool
clear_of e none = false
clear_of e (some o) = not (Interval.overlaps e.irange o.irange)

unfoldable pub fits_at : List Entry → Entry → ℕ → Bool
unfolding clear_of
fits_at es e i =
    leb i (length es)
    && (i == 0 || clear_of e (get_elem? es (i - 1)))
    && (i == length es || clear_of e (get_elem? es i))

-- The node with the new entry in place, before it is split.
unfoldable pub with_entry : Node → Entry → ℕ → Ptr → Ptr → Node
unfolding entries_add subtrees_add
with_entry n e i left right =
    let added = entries_add n i e in
    let linked = record added {
      subtrees = set added.subtrees i (subtree_set (get_or added.subtrees i no_subtree) left);
    } in
    record (subtrees_add linked (i + 1) right) { dirty = true }

-- The two halves of a full node, and the node that takes the middle entry.
unfoldable pub left_half : Node → Node
left_half n = record {
  entries = take order n.entries;
  subtrees = take (order + 1) n.subtrees;
  height = n.height;
  dirty = true;
}

unfoldable pub right_half : Node → Node
right_half n = record {
  entries = take order (drop (order + 1) n.entries);
  subtrees = take (order + 1) (drop (order + 1) n.subtrees);
  height = n.height;
  dirty = true;
}

unfoldable pub middle : Node → Ptr → Ptr → Node
middle n left right = record n {
  entries = take 1 (drop order n.entries);
  subtrees =
      subtree_set (get_or n.subtrees 0 no_subtree) left
      ∷ subtree_set (get_or n.subtrees 1 no_subtree) right
      ∷ [];
  height = n.height + 1;
}

-- `ftn_insert`; the result is the node that is pushed up, or `NULL`
unfoldable pub ftn_insert : Ptr → Entry → ℕ → (left right : Ptr) → Cmd Ptr
unfolding fits_at with_entry left_half right_half middle
ftn_insert p e i left right = do
  n ← load p
  assert (length n.entries + 1 == length n.subtrees)
  assert (fits_at n.entries e i)
  assert (ltb (length n.entries) split_limit)
  let m = with_entry n e i left right
  if length m.entries == split_limit
      then (do l ← alloc (left_half m); r ← alloc (right_half m); store p (middle m l r); return p)
      else (store p m >> return null)

-- `ftn_replaceEntries`
unfoldable pub ftn_replace_entries : Ptr → (start end : ℕ) → Interval → ℕ → Cmd (Unit {0})
unfolding free_subtrees ftn_free
ftn_replace_entries p start end range value = do
  n ← load p
  assert (length n.entries + 1 == length n.subtrees)
  assert (ltb start (length n.entries) && leb end (length n.entries))
  assert (ltb start end)
  free_subtrees (ftn_free n.height) (take (end - (start + 1)) (drop (start + 1) n.subtrees))
  store p (record n {
    entries =
        take start n.entries ++ (record { irange = range; value = value } ∷ drop end n.entries);
    subtrees = take (start + 1) n.subtrees ++ drop end n.subtrees;
    dirty = true;
  })
