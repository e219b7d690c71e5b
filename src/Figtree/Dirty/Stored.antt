-- ===== src/Figtree/Dirty/Stored.antt =====
-- What a checkpoint of src/figtree leaves in the log.
use gdpfs.Base.{
  ℕ, zero, suc, ◌+◌, ◌-◌, ◌*◌, ◌≡◌, ◌≢◌, refl, ap, ◌∙◌, sym, true, false, some, List, [], ◌∷◌, ◌++◌,
  length, length-append, get_elem?, arith, if◌then◌else◌,
}
use gdpfs.Interval
use gdpfs.Base.{ltb}
use gdpfs.Figtree.Heap.{null, Subtree, Node, Heap, Images}
use gdpfs.Figtree.Tree.{
  Tree, leaf, node, Forest, last, more, LeadsTo, Holds, HoldsAll, HasLevels, AllLevels, find,
  find_in,
}
use gdpfs.Figtree.Dirty.Saved.{stored_node, placed, saved, saved_all}

-- The log has a tree where a pointer to it tells, with the pointers that are in the tree.
unfoldable mutual
  pub Stored : Images → Subtree → Tree → Type 0
  Stored log s leaf = (s.inmemory ≡ true) × (s.st ≡ null)
  Stored log s (node a k d f) =
      (s.st ≢ null) × (log s.recno s.offset ≡ some (stored_node k f)) × StoredAll log f

  pub StoredAll : Images → Forest → Type 0
  StoredAll log (last s t) = Stored log s t
  StoredAll log (more s t e f) = Stored log s t × StoredAll log f

-- The log has what is below each node that is not changed, and that node.
unfoldable mutual
  unfolding Stored

  pub Ready : Images → Subtree → Tree → Type 0
  Ready log s leaf = Unit
  Ready log s (node a k false f) = Stored log s (node a k false f)
  Ready log s (node a k true f) = ReadyAll log f

  pub ReadyAll : Images → Forest → Type 0
  ReadyAll log (last s t) = Ready log s t
  ReadyAll log (more s t e f) = Ready log s t × ReadyAll log f

-- A log that has at least what another one has.
abbrev pub Older : Images → Images → Type 0
Older log log' = (r o : ℕ) (n : Node) → log r o ≡ some n → log' r o ≡ some n

-- A log that has nodes in a record, those from a place on.
abbrev pub Written : (size recno : ℕ) → Images → (start : ℕ) → List Node → Type 0
Written size recno log start nodes =
    (i : ℕ) (n : Node) → get_elem? nodes i ≡ some n → log recno ((start + i) * size) ≡ some n

get_elem?-append_left :
    (ns ms : List Node) (i : ℕ) (n : Node)
    → get_elem? ns i ≡ some n
    → get_elem? (ns ++ ms) i ≡ some n
get_elem?-append_left [] ms i n e = absurd cc
get_elem?-append_left (m ∷ ns) ms zero n e = e
get_elem?-append_left (m ∷ ns) ms (suc i) n e = get_elem?-append_left ns ms i n e

pub get_elem?-append_right :
    (ns ms : List Node) (i : ℕ) → get_elem? (ns ++ ms) (length ns + i) ≡ get_elem? ms i
get_elem?-append_right [] ms i = ap (get_elem? ms) {x = 0 + i} {y = i} (omega arith)
get_elem?-append_right (n ∷ ns) ms i =
    ap (get_elem? (n ∷ (ns ++ ms))) {x = suc (length ns) + i} {y = suc (length ns + i)}
      (omega arith)
    ∙ get_elem?-append_right ns ms i

pub Written-left :
    (size recno : ℕ) (log : Images) (start : ℕ) (ns ms : List Node)
    → Written size recno log start (ns ++ ms)
    → Written size recno log start ns
Written-left size recno log start ns ms w i n e = w i n (get_elem?-append_left ns ms i n e)

Written-right :
    (size recno : ℕ) (log : Images) (start : ℕ) (ns ms : List Node)
    → Written size recno log start (ns ++ ms)
    → Written size recno log (start + length ns) ms
Written-right size recno log start ns ms w i n e =
    ap (λ k. log recno (k * size)) {x = start + length ns + i} {y = start + (length ns + i)}
      (omega arith)
    ∙ w (length ns + i) n (get_elem?-append_right ns ms i ∙ e)

mutual
  unfolding Stored

  Stored-Older :
      (log log' : Images) (s : Subtree) (t : Tree)
      → Older log log'
      → Stored log s t
      → Stored log' s t
  Stored-Older log log' s leaf older st = st
  Stored-Older log log' s (node a k d f) older (ne, at, below) =
      (ne, older s.recno s.offset (stored_node k f) at, StoredAll-Older log log' f older below)

  StoredAll-Older :
      (log log' : Images) (f : Forest) → Older log log' → StoredAll log f → StoredAll log' f
  StoredAll-Older log log' (last s t) older st = Stored-Older log log' s t older st
  StoredAll-Older log log' (more s t e f) older (st, below) =
      (Stored-Older log log' s t older st, StoredAll-Older log log' f older below)

module _ (size recno : ℕ) (log log' : Images) (older : Older log log') (h : Heap) where
  mutual
    unfolding Stored Ready saved Holds

    pub saved-Stored :
        (s : Subtree) (t : Tree) (start : ℕ)
        → LeadsTo s t
        → Holds h t
        → Ready log s t
        → Written size recno log' start (saved size recno t start).1
        → Stored log'
            (placed size recno s t (start + length (saved size recno t start).1))
            (saved size recno t start).0
    saved-Stored s leaf start leads held ready w = leads
    saved-Stored s (node a k false f) start leads held ready w =
        Stored-Older log log' s (node a k false f) older ready
    saved-Stored s (node a k true f) start leads (ne, cell, held) ready w = (
      λ e. ne (sym leads.1 ∙ e),
      ap (λ i. log' recno (i * size))
            {x = start
              + length (
                  (saved_all size recno f start).1
                  ++ (stored_node k (saved_all size recno f start).0 ∷ []))
              - 1}
            {y = start + length (saved_all size recno f start).1}
            (omega (
              arith,
              length-append (saved_all size recno f start).1
                  (stored_node k (saved_all size recno f start).0 ∷ []),
            ))
          ∙ w (length (saved_all size recno f start).1)
              (stored_node k (saved_all size recno f start).0)
              (ap
                  (get_elem? (
                    (saved_all size recno f start).1
                    ++ (stored_node k (saved_all size recno f start).0 ∷ [])))
                  {x = length (saved_all size recno f start).1}
                  {y = length (saved_all size recno f start).1 + 0} (omega arith)
                ∙ get_elem?-append_right (saved_all size recno f start).1
                    (stored_node k (saved_all size recno f start).0 ∷ []) 0),
      saved_all-StoredAll f start held ready (
          Written-left size recno log' start (saved_all size recno f start).1
            (stored_node k (saved_all size recno f start).0 ∷ []) w),
    )

    pub saved_all-StoredAll :
        (f : Forest) (start : ℕ)
        → HoldsAll h f
        → ReadyAll log f
        → Written size recno log' start (saved_all size recno f start).1
        → StoredAll log' (saved_all size recno f start).0
    saved_all-StoredAll (last s t) start (leads, held) ready w =
        saved-Stored s t start leads held ready w
    saved_all-StoredAll (more s t e f) start (leads, held, rest) (ready, later) w = (
      saved-Stored s t start leads held ready (
          Written-left size recno log' start (saved size recno t start).1
            (saved_all size recno f (start + length (saved size recno t start).1)).1 w),
      saved_all-StoredAll f (start + length (saved size recno t start).1) rest later (
          Written-right size recno log' start (saved size recno t start).1
            (saved_all size recno f (start + length (saved size recno t start).1)).1 w),
    )

mutual
  unfolding saved find

  -- The tree has the values that it had, and its levels.
  pub find-saved :
      (size recno : ℕ) (t : Tree) (start x : ℕ) → find (saved size recno t start).0 x ≡ find t x
  find-saved size recno leaf start x = refl
  find-saved size recno (node a k false f) start x = refl
  find-saved size recno (node a k true f) start x = find_in-saved_all size recno f start x

  pub find_in-saved_all :
      (size recno : ℕ) (f : Forest) (start x : ℕ)
      → find_in (saved_all size recno f start).0 x ≡ find_in f x
  find_in-saved_all size recno (last s t) start x = find-saved size recno t start x
  find_in-saved_all size recno (more s t e f) start x = (λ i.
      if Interval.contains_val e.irange x
      then some e.value
      else if ltb x e.irange.left
      then find-saved size recno t start x i
      else find_in-saved_all size recno f (start + length (saved size recno t start).1) x i)

mutual
  unfolding saved HasLevels

  pub HasLevels-saved :
      (size recno n : ℕ) (t : Tree) (start : ℕ)
      → HasLevels n t
      → HasLevels n (saved size recno t start).0
  HasLevels-saved size recno n leaf start l = l
  HasLevels-saved size recno n (node a k false f) start l = l
  HasLevels-saved size recno zero (node a k true f) start l = absurd l
  HasLevels-saved size recno (suc n) (node a k true f) start (same, l) =
      (same, AllLevels-saved_all size recno n f start l)

  pub AllLevels-saved_all :
      (size recno n : ℕ) (f : Forest) (start : ℕ)
      → AllLevels n f
      → AllLevels n (saved_all size recno f start).0
  AllLevels-saved_all size recno n (last s t) start l = HasLevels-saved size recno n t start l
  AllLevels-saved_all size recno n (more s t e f) start l = (
    HasLevels-saved size recno n t start l.0,
    AllLevels-saved_all size recno n f (start + length (saved size recno t start).1) l.1,
  )
