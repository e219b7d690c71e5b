-- ===== src/Figtree/Dirty/Tests.antt =====
-- Checkpoints of small trees of src/figtree, and what is read back from them.
use gdpfs.Base.{
  ℕ, zero, suc, ◌*◌, ◌≡◌, refl, sym, ◌∙◌, true, false, Bool-cases, inl, inr, Option, none, some,
  List, [], ◌∷◌, get_elem?, arith, ◌==◌, ◌||◌, if◌then◌else◌,
}
use gdpfs.Interval
use gdpfs.Figtree.Heap.{
  Ptr, null, Subtree, Node, Heap, Outcome, done, failed, no_fuel, ◌>>=◌, Images, load, store, alloc,
  free,
}
use gdpfs.Figtree.Node.{no_subtree, subtree_set, subtree_get}
use gdpfs.Figtree.Lookup.{ft_lookup}
use gdpfs.Figtree.Write.{ft_write}
use gdpfs.Figtree.Tree.{leaf, node, Forest, last, more, image, find, Holds, HasLevels}
use gdpfs.Figtree.Reread.{subtree_get-subtree_get}
use gdpfs.Figtree.Dirty.{get_dirty}
use gdpfs.Figtree.Dirty.Saved.{stored_node}
use gdpfs.Figtree.Dirty.Heaps.{Distinct, is_in}
use gdpfs.Figtree.Dirty.Stored.{Stored, Ready}
use gdpfs.Figtree.Dirty.Reload.{Finds, get_dirty-ft_lookup}

abbrev no_node : Subtree
no_node = subtree_set no_subtree null

-- The node that has changed, and the one that is in the log.
abbrev changed_forest : Forest
changed_forest =
    more no_node leaf (record { irange = Interval.init 10 19; value = 4 }) (last no_node leaf)

abbrev logged_forest : Forest
logged_forest =
    more no_node leaf (record { irange = Interval.init 50 59; value = 6 }) (last no_node leaf)

abbrev root_forest : Forest
root_forest =
    more (subtree_set no_subtree 2) (node 2 0 true changed_forest)
      (record { irange = Interval.init 30 39; value = 5 })
      (last (record { recno = 2; offset = 0; st = 3; inmemory = true })
        (node 3 0 false logged_forest))

abbrev tree_heap : Heap
tree_heap = record {
  next = 4;
  cell = λ p.
      if p == 1
      then some (image 1 true root_forest)
      else if p == 2
      then some (image 0 true changed_forest)
      else if p == 3
      then some (image 0 false logged_forest)
      else none;
}

abbrev before_log : Images
before_log recno offset =
    if recno == 2 then (if offset == 0 then some (stored_node 0 logged_forest) else none) else none

-- The nodes of the checkpoint, the root last.
abbrev stored_root : Node
stored_root = record {
  entries = record { irange = Interval.init 30 39; value = 5 } ∷ [];
  subtrees =
      record { recno = 5; offset = 0; st = null; inmemory = false }
      ∷ (record { recno = 2; offset = 0; st = null; inmemory = false } ∷ []);
  height = 1;
  dirty = false;
}

abbrev stored_nodes : List Node
stored_nodes = stored_node 0 changed_forest ∷ (stored_root ∷ [])

abbrev later_log : Images
later_log recno offset =
    if recno == 5
    then (if offset == 0
        then some (stored_node 0 changed_forest)
        else if offset == 100
        then some stored_root
        else none)
    else before_log recno offset

-- The root is read from the log, the rest is there.
abbrev reopened : Heap
reopened = record { next = 2; cell = λ p. if p == 1 then some stored_root else none }

later_log-older : (r o : ℕ) (n : Node) → before_log r o ≡ some n → later_log r o ≡ some n
later_log-older r o n e = elim (Bool-cases (r == 5)) [
  | inl five ↦ absurd (none_is_some (sym (at_five five) ∙ e))
  | inr other ↦ rw other e
]
  where
    not_two : (r == 5) ≡ true → (r == 2) ≡ false
    not_two h = ground (arith, h)

    at_five : (r == 5) ≡ true → before_log r o ≡ none
    at_five h = rw (not_two h) refl

    none_is_some : none ≡ some n → ⊥
    none_is_some h = cc

later_log-written :
    (i : ℕ) (m : Node) → get_elem? stored_nodes i ≡ some m → later_log 5 (i * 100) ≡ some m
later_log-written zero m e = e
later_log-written (suc zero) m e = e
later_log-written (suc (suc i)) m e = absurd cc

outcome_of : {A : Type 0} → Outcome A → Option A
outcome_of (done a h) = some a
outcome_of failed = none
outcome_of no_fuel = none

heap_of : {A : Type 0} → Outcome A → Heap
heap_of (done a h) = h
heap_of failed = tree_heap
heap_of no_fuel = tree_heap

tree_saved : outcome_of (get_dirty 100 1 5 tree_heap) ≡ some stored_nodes
unfolding get_dirty load store outcome_of
tree_saved = refl

two_or_three : (p : Ptr) → (p == 2 || false) ≡ true → (p == 3 || false) ≡ false
two_or_three p e = ground (arith, e)

get_dirty-ft_lookup_example : Finds (some 6) (ft_lookup later_log 1 55 reopened)
unfolding Holds HasLevels Distinct is_in Stored Ready find get_dirty load store
    Interval.contains_val
get_dirty-ft_lookup_example =
    get_dirty-ft_lookup 100 5 tree_heap _ reopened 1 1 1 root_forest stored_nodes before_log
      later_log stored_root 1 55
      (
        omega arith,
        refl,
        (
          (refl, refl),
          (omega arith, refl, ((refl, refl), tt, ((refl, refl), tt))),
          ((refl, refl), (omega arith, refl, ((refl, refl), tt, ((refl, refl), tt)))),
        ),
      )
      (refl, ((refl, (tt, tt)), (refl, (tt, tt))))
      (refl, ((refl, (tt, tt, λ p e. refl)), (refl, (tt, tt, λ p e. refl)), two_or_three))
      ((tt, tt), (omega arith, refl, ((refl, refl), (refl, refl)))) refl later_log-older
      later_log-written refl (omega arith) (omega arith) refl

-- Nodes that are changed below a node that is not are not stored.
abbrev clean_root : Heap
clean_root = record {
  next = 4;
  cell = λ p.
      if p == 1
      then some (image 1 false root_forest)
      else if p == 2
      then some (image 0 true changed_forest)
      else if p == 3
      then some (image 0 false logged_forest)
      else none;
}

passed_by : outcome_of (get_dirty 100 1 5 clean_root) ≡ some []
unfolding get_dirty load store outcome_of
passed_by = refl

-- A write below a node that was read from the log is lost: the node is read from there again.
lost_write :
    outcome_of ((do root ← ft_write later_log 1 12 12 9; ft_lookup later_log root 12) reopened)
    ≡ some (some 4)
unfolding ft_write ft_lookup load store alloc free outcome_of Interval.restrict_range
    Interval.restrict_int Interval.left_of_int Interval.left_overlaps Interval.contains_int
    Interval.overlaps Interval.right_of_int Interval.right_overlaps
lost_write = refl

-- The first subtree of the root is changed, and is again as it was.
subtree_get-subtree_get_example :
    (after : Heap) × ((do
      q ← subtree_get later_log 1 0
      stored ← store q (image 0 true logged_forest)
      again ← subtree_get later_log 1 0
      load again)
        reopened
      ≡ done (stored_node 0 changed_forest) after)
subtree_get-subtree_get_example =
    subtree_get-subtree_get later_log reopened 1 0 stored_root
      (record { recno = 5; offset = 0; st = null; inmemory = false }) (stored_node 0 changed_forest)
      (image 0 true logged_forest) (omega arith) (omega arith) refl refl refl refl
