-- ===== src/Figtree/Dirty/Reload.antt =====
-- `ft_lookup` of src/figtree/figtree.c on a tree whose nodes are in the log.
use gdpfs.Base.{
  ℕ, zero, suc, ◌+◌, ◌-◌, ◌*◌, ◌<◌, ◌≡◌, ◌≢◌, refl, ap, ◌∙◌, sym, true, false, Bool-cases, inl, inr,
  ◌⊎◌, Option, some, List, [], ◌∷◌, ◌++◌, length, length-append, get_elem?, set, arith, ◌==◌, ltb,
}
use gdpfs.Interval
use gdpfs.Figtree.Heap.{
  Ptr, null, Subtree, Node, Heap, Outcome, done, failed, no_fuel, Images, load-done, store, alloc,
  update, ne_null,
}
use gdpfs.Figtree.Node.{subtree_get}
use gdpfs.Figtree.Lookup.{hit, child, scan, follow, lookup_from, ft_lookup}
use gdpfs.Figtree.Tree.{
  Tree, leaf, node, Forest, last, more, entries, subtrees, Holds, HasLevels, AllLevels, find,
  find_in,
}
use gdpfs.Figtree.Dirty.{get_dirty}
use gdpfs.Figtree.Dirty.Saved.{detached, all_detached, stored_node, saved, saved_all}
use gdpfs.Figtree.Dirty.Heaps.{Distinct}
use gdpfs.Figtree.Dirty.Runs.{get_dirty-saved}
use gdpfs.Figtree.Dirty.Stored.{
  Stored, StoredAll, ReadyAll, Older, Written-left, get_elem?-append_right, saved_all-StoredAll,
  find_in-saved_all, AllLevels-saved_all,
}

fresh : (p q : ℕ) → p < q → (q == p) ≡ false
fresh p q lt = ground arith

itself : (q : ℕ) → (q == q) ≡ true
itself q = ground arith

-- A lookup that ends with a value.
abbrev pub Finds : Option ℕ → Outcome (Option ℕ) → Type 0
Finds v result = (after : Heap) × (result ≡ done v after)

module _ (log : Images) where
  -- A subtree of a stored forest, that a scan from an index on comes to.
  record Below (n : ℕ) (f : Forest) (x i : ℕ) : Type 0 where
    index : ℕ
    pointer : Subtree
    tree : Tree
    scanned : scan x (entries f) i ≡ child (i + index)
    at_index : get_elem? (all_detached (subtrees f)) index ≡ some (detached pointer)
    found : find_in f x ≡ find tree x
    stored : Stored log pointer tree
    levels : HasLevels n tree

  Scanned : ℕ → Forest → (x i : ℕ) → Type 0
  Scanned n f x i =
      ((v : ℕ) × (scan x (entries f) i ≡ hit v) × (find_in f x ≡ some v)) ⊎ Below n f x i

  scan-Scanned : (n : ℕ) (f : Forest) (x i : ℕ) → StoredAll log f → AllLevels n f → Scanned n f x i
  unfolding scan find Stored HasLevels Scanned
  scan-Scanned n (last s t) x i st l = inr (record {
    index = 0;
    pointer = s;
    tree = t;
    scanned = ap child (omega arith);
    at_index = refl;
    found = refl;
    stored = st;
    levels = l;
  })
  scan-Scanned n (more s t e f) x i (st, sf) (l, lf) =
      elim (Bool-cases (Interval.contains_val e.irange x)) [
        | inl inside ↦ inl (e.value, rw inside refl, rw inside refl)
        | inr outside ↦ elim (Bool-cases (ltb x e.irange.left)) [
          | inl before ↦ inr (record {
            index = 0;
            pointer = s;
            tree = t;
            scanned = rw (outside, before) (ap child (omega arith));
            at_index = refl;
            found = rw (outside, before) refl;
            stored = st;
            levels = l;
          })
          | inr behind ↦ elim (scan-Scanned n f x (i + 1) sf lf) [
            | inl (v, e', g) ↦ inl (v, rw (outside, behind) e', rw (outside, behind) g)
            | inr b ↦ inr (record {
              index = suc b.index;
              pointer = b.pointer;
              tree = b.tree;
              scanned = rw (outside, behind) (b.scanned ∙ ap child (omega arith));
              at_index = b.at_index;
              found = rw (outside, behind) b.found;
              stored = b.stored;
              levels = b.levels;
            })
          ]
        ]
      ]

  -- A node that has been read from the log.
  pub record ReadBack (h : Heap) (p : Ptr) (k : ℕ) (f : Forest) : Type 0 where
    pub not_null : p ≢ null
    pub old : p < h.next
    pub cell : h.cell p ≡ some (stored_node k f)

  -- What a lookup with some fuel does.
  abbrev LooksUp : (x : ℕ) → (fuel : ℕ) → Type 0
  LooksUp x fuel =
      (n k : ℕ) (f : Forest) (p : Ptr) (h : Heap)
      → ReadBack h p k f
      → StoredAll log f
      → AllLevels n f
      → n + 1 < fuel
      → Finds (find_in f x) (lookup_from log fuel p x h)

  detached-null : (s : Subtree) → s.st ≡ null → detached s ≡ s
  detached-null s e = rw (is_null e) refl
    where
      is_null : s.st ≡ null → (s.st == null) ≡ true
      is_null e = ground arith

  detached-node :
      (s : Subtree) → s.st ≢ null → detached s ≡ record s { inmemory = false; st = null }
  detached-node s ne = rw (ne_null s.st ne) refl

  -- The heap after a node is read, and the pointer to it written.
  abbrev read_in : Heap → Ptr → Node → Node → Heap
  read_in h p at_p image = record {
    next = suc h.next;
    cell = update (update h.cell h.next (some image)) p (some at_p);
  }

  child-Finds :
      (fuel n k : ℕ) (f : Forest) (x : ℕ) (p : Ptr) (h : Heap) (j : ℕ) (s : Subtree) (t : Tree)
      → LooksUp x fuel
      → ReadBack h p k f
      → get_elem? (all_detached (subtrees f)) j ≡ some (detached s)
      → Stored log s t
      → HasLevels n t
      → n < fuel
      → Finds (find t x) (follow log p (λ q. lookup_from log fuel q x) (child j) h)
  unfolding follow subtree_get Stored HasLevels find lookup_from store alloc
  child-Finds zero n k f x p h j s t looks r at st l lt = absurd (omega arith)
  child-Finds (suc fuel) n k f x p h j s leaf looks r at (inside, null_st) l lt =
      rw
        (
          load-done p (stored_node k f) h r.not_null r.cell,
          at ∙ ap some (detached-null s null_st),
          inside,
          null_st,
        )
        (h, refl)
  child-Finds (suc fuel) zero k f x p h j s (node a i d g) looks r at st l lt = absurd l
  child-Finds (suc fuel) (suc n) k f x p h j s (node a i d g) looks r at (ne, logged, st) (same, l)
        lt =
      rw
        (
          load-done p (stored_node k f) h r.not_null r.cell,
          at ∙ ap some (detached-node s ne),
          logged,
        )
        (looks n i g h.next
          (read_in h p
            (record (stored_node k f) {
              subtrees =
                  set (all_detached (subtrees f)) j (record s { inmemory = false; st = h.next });
            })
            (stored_node i g))
          (record {
            not_null = λ e. absurd (omega (arith, r.old, e));
            old = omega arith;
            cell = rw (fresh p h.next r.old, itself h.next) refl;
          })
          st l (omega arith))

  pub lookup_from-Finds : (x fuel : ℕ) → LooksUp x fuel
  unfolding lookup_from Scanned follow
  lookup_from-Finds x zero n k f p h r st l lt = absurd (omega arith)
  lookup_from-Finds x (suc fuel) n k f p h r st l lt =
      rw (ne_null p r.not_null, load-done p (stored_node k f) h r.not_null r.cell)
        (elim (scan-Scanned n f x 0 st l) [
          | inl (v, scanned, found) ↦ (
            h,
            ap (λ o. follow log p (λ q. lookup_from log fuel q x) o h) scanned
                ∙ ap (λ o. done o h) (sym found),
          )
          | inr b ↦
              let r =
                child-Finds fuel n k f x p h b.index b.pointer b.tree (lookup_from-Finds x fuel) r
                  b.at_index b.stored b.levels (omega arith) in
              (
                r.0,
                ap (λ o. follow log p (λ q. lookup_from log fuel q x) o h)
                      (b.scanned ∙ ap child (omega arith))
                    ∙ r.1
                    ∙ ap (λ o. done o r.0) (sym b.found),
              )
        ])

  pub ft_lookup-Finds :
      (n k : ℕ) (f : Forest) (x : ℕ) (p : Ptr) (h : Heap)
      → ReadBack h p k f
      → StoredAll log f
      → AllLevels n f
      → k ≡ n
      → Finds (find_in f x) (ft_lookup log p x h)
  unfolding ft_lookup
  ft_lookup-Finds n k f x p h r st l same =
      rw (load-done p (stored_node k f) h r.not_null r.cell)
        (lookup_from-Finds x (k + 2) n k f p h r st l (omega arith))

value_of : {A : Type 0} → A → Outcome A → A
value_of a (done b h) = b
value_of a failed = a
value_of a no_fuel = a

some_node : (m n : Node) → some m ≡ some n → m ≡ n
some_node m n e = cc

-- A tree in memory is checkpointed: the log has the record of its changed nodes, under the number that
-- `get_dirty` was told, and all that it had before, which was each node that is not changed with what is
-- below it. Then `ft_lookup` from the last node of the record, read into a heap by itself, reads the nodes
-- below from the log as it comes to them, and finds for each byte the value that it has in the tree.
pub get_dirty-ft_lookup :
    (size recno : ℕ) (h after h' : Heap) (n a k : ℕ) (f : Forest) (nodes : List Node)
    (log log' : Images) (last_node : Node) (p : Ptr) (x : ℕ)
    → Holds h (node a k true f)
    → HasLevels (suc n) (node a k true f)
    → Distinct (node a k true f)
    → ReadyAll log f
    → get_dirty size a recno h ≡ done nodes after
    → Older log log'
    → ((i : ℕ) (m : Node) → get_elem? nodes i ≡ some m → log' recno (i * size) ≡ some m)
    → get_elem? nodes (length nodes - 1) ≡ some last_node
    → p ≢ null
    → p < h'.next
    → h'.cell p ≡ some last_node
    → Finds (find (node a k true f) x) (ft_lookup log' p x h')
unfolding Holds HasLevels saved find value_of
get_dirty-ft_lookup size recno h after h' n a k f nodes log log' last_node p x held levels distinct
      ready given older written last_is ne old cell =
    let r = saved_all size recno f 0 in
    let run = get_dirty-saved size recno h n (node a k true f) held levels distinct in
    let same : nodes ≡ r.1 ++ (stored_node k r.0 ∷ []) = ap (value_of []) (sym given ∙ run.1) in
    let last_place : length nodes - 1 ≡ length r.1 + 0 =
      omega (arith, ap length same, length-append r.1 (stored_node k r.0 ∷ [])) in
    let root_node : last_node ≡ stored_node k r.0 = some_node last_node (stored_node k r.0) (
      sym last_is
      ∙ (λ i. get_elem? (same i) (last_place i))
      ∙ get_elem?-append_right r.1 (stored_node k r.0 ∷ []) 0) in
    let stored = saved_all-StoredAll size recno log log' older h f 0 held.2 ready (
      Written-left size recno log' 0 r.1 (stored_node k r.0 ∷ []) (λ i m e.
        ap (λ j. log' recno (j * size)) {x = 0 + i} {y = i} (omega arith)
        ∙ written i m (ap (λ ns. get_elem? ns i) same ∙ e))) in
    let found =
      ft_lookup-Finds log' n k r.0 x p h'
        (record { not_null = ne; old = old; cell = cell ∙ ap some root_node }) stored
        (AllLevels-saved_all size recno n f 0 levels.1) levels.0 in
    (found.0, found.1 ∙ ap (λ o. done o found.0) (find_in-saved_all size recno f 0 x))
