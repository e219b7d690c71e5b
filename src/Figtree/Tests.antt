-- ===== src/Figtree/Tests.antt =====
-- Runs of the index of src/figtree on concrete writes, and its laws at concrete trees.
use gdpfs.Base.{ℕ, ◌≡◌, refl, Option, none, some, List, [], ◌∷◌, true, arith, ◌==◌, if◌then◌else◌}
use gdpfs.Interval
use gdpfs.Figtree.Heap.{
  Ptr, null, Entry, Heap, Outcome, done, failed, no_fuel, Cmd, return, ◌>>=◌, Images, load, store,
  alloc, free,
}
use gdpfs.Figtree.Node.{no_subtree, subtree_set}
use gdpfs.Figtree.Lookup.{ft_init, ft_lookup}
use gdpfs.Figtree.Write.{ft_write}
use gdpfs.Figtree.Iterate.{ft_read, read_all}
use gdpfs.Figtree.Tree.{Tree, leaf, node, Forest, last, more, image, find, Holds, HasLevels}
use gdpfs.Figtree.Lookup.Refine.{ft_lookup_refines}
use gdpfs.Figtree.Iterate.Figs.{Ordered, clip, figs}
use gdpfs.Figtree.Iterate.Values.{value_in}
use gdpfs.Figtree.Iterate.Refine.{read_range, read_range-figs, read_range-ft_lookup}

abbrev nothing_logged : Images
nothing_logged recno offset = none

abbrev empty_heap : Heap
empty_heap = record { next = 1; cell = λ p. none }

write_all : Ptr → List (ℕ × ℕ × ℕ) → Cmd Ptr
write_all root [] = return root
write_all root ((a, b, v) ∷ ws) = do root' ← ft_write nothing_logged root a b v; write_all root' ws

look_all : Ptr → List ℕ → Cmd (List (Option ℕ))
look_all root [] = return []
look_all root (x ∷ xs) = do
  v ← ft_lookup nothing_logged root x
  vs ← look_all root xs
  return (v ∷ vs)

values : Outcome (List (Option ℕ)) → Option (List (Option ℕ))
values (done vs h) = some vs
values failed = none
values no_fuel = none

-- Writes to a new tree, then lookups.
session : List (ℕ × ℕ × ℕ) → List ℕ → Option (List (Option ℕ))
unfolding ft_init ft_write ft_lookup write_all look_all values load store alloc free
    Interval.restrict_range Interval.restrict_int Interval.left_of_int Interval.left_overlaps
    Interval.contains_int Interval.overlaps Interval.right_of_int Interval.right_overlaps
session ws xs =
    values ((do root ← ft_init; root' ← write_all root ws; look_all root' xs) empty_heap)

-- Five intervals split the root; the last write cuts two of them short.
cut_session :
    session
      ((10, 19, 1) ∷ (30, 39, 2) ∷ (50, 59, 3) ∷ (70, 79, 4) ∷ (90, 99, 5) ∷ (15, 35, 6) ∷ [])
      (9 ∷ 14 ∷ 15 ∷ 35 ∷ 36 ∷ 40 ∷ 55 ∷ 99 ∷ [])
    ≡ some (none ∷ some 1 ∷ some 6 ∷ some 6 ∷ some 2 ∷ none ∷ some 3 ∷ some 5 ∷ [])
unfolding session
cut_session = refl

-- A write over the entry of the root leaves old entries below it, which a later write passes.
stale_session :
    session
      ((10, 40, 1)
        ∷ (42, 43, 2)
        ∷ (50, 59, 3)
        ∷ (70, 79, 4)
        ∷ (90, 99, 5)
        ∷ (0, 100, 6)
        ∷ (20, 25, 7)
        ∷ [])
      (0 ∷ 19 ∷ 20 ∷ 25 ∷ 26 ∷ 40 ∷ 100 ∷ 101 ∷ [])
    ≡ some (some 6 ∷ some 6 ∷ some 7 ∷ some 7 ∷ some 6 ∷ some 6 ∷ some 6 ∷ none ∷ [])
unfolding session
stale_session = refl

-- A root with one entry, on a heap of one node.
abbrev one_forest : Forest
one_forest =
    more (subtree_set no_subtree null) leaf (record { irange = Interval.init 10 19; value = 4 })
      (last (subtree_set no_subtree null) leaf)

abbrev one_tree : Tree
one_tree = node 1 0 true one_forest

abbrev one_heap : Heap
one_heap = record { next = 2; cell = λ p. if p == 1 then some (image 0 true one_forest) else none }

ft_lookup_refines_example :
    ft_lookup nothing_logged 1 12 one_heap ≡ done (find one_tree 12) one_heap
unfolding Holds HasLevels
ft_lookup_refines_example =
    ft_lookup_refines nothing_logged one_heap 0 one_tree 12
      (omega arith, refl, ((refl, refl), tt, ((refl, refl), tt))) (refl, (tt, tt))

-- What a reader gets of a range, as bounds and values.
figs_got : Outcome (List Entry) → Option (List (ℕ × ℕ × ℕ))
figs_got (done gs h) = some (bounds gs)
  where
    bounds : List Entry → List (ℕ × ℕ × ℕ)
    bounds [] = []
    bounds (g ∷ gs) = (g.irange.left, g.irange.right, g.value) ∷ bounds gs
figs_got failed = none
figs_got no_fuel = none

-- Writes to a new tree, then a reader of a range.
read_session : List (ℕ × ℕ × ℕ) → (start end : ℕ) → Option (List (ℕ × ℕ × ℕ))
unfolding ft_init ft_write ft_read read_all write_all figs_got load store alloc free
    Interval.restrict_range Interval.restrict_int Interval.left_of_int Interval.left_overlaps
    Interval.contains_int Interval.overlaps Interval.right_of_int Interval.right_overlaps
    Interval.right_of_val
read_session ws start end = figs_got (
    (do root ← ft_init; root' ← write_all root ws; read_range nothing_logged 12 root' start end)
      empty_heap)

-- The range begins and ends inside an entry; the writes have made two levels, and cut two entries.
read_cut_session :
    read_session
      ((10, 19, 1) ∷ (30, 39, 2) ∷ (50, 59, 3) ∷ (70, 79, 4) ∷ (90, 99, 5) ∷ (15, 35, 6) ∷ [])
      12
      74
    ≡ some ((12, 14, 1) ∷ (15, 35, 6) ∷ (36, 39, 2) ∷ (50, 59, 3) ∷ (70, 74, 4) ∷ [])
unfolding read_session
read_cut_session = refl

-- The range begins and ends between entries, and old entries lie below one that was written over.
read_stale_session :
    read_session
      ((10, 40, 1)
        ∷ (42, 43, 2)
        ∷ (50, 59, 3)
        ∷ (70, 79, 4)
        ∷ (90, 99, 5)
        ∷ (0, 100, 6)
        ∷ (20, 25, 7)
        ∷ (200, 299, 8)
        ∷ [])
      20
      150
    ≡ some ((20, 25, 7) ∷ (26, 100, 6) ∷ [])
unfolding read_session
read_stale_session = refl

-- A range without a fig.
read_gap_session : read_session ((10, 19, 1) ∷ (30, 39, 2) ∷ []) 20 29 ≡ some []
unfolding read_session
read_gap_session = refl

read_range-figs_example :
    read_range nothing_logged 2 1 12 25 one_heap
    ≡ done (record { irange = Interval.init 12 19; value = 4 } ∷ []) one_heap
unfolding Holds HasLevels Ordered figs clip read_all
read_range-figs_example =
    read_range-figs nothing_logged one_heap 0 one_tree 12 25
      (omega arith, refl, ((refl, refl), tt, ((refl, refl), tt))) (refl, (tt, tt))
      (
        tt,
        omega arith,
        record { not_empty = refl; in_order = omega arith; in_range = omega arith },
        tt,
      )
      (omega arith) (omega arith)

read_range-ft_lookup_example :
    (do gs ← read_range nothing_logged 2 1 12 25; return (value_in gs 15)) one_heap
    ≡ ft_lookup nothing_logged 1 15 one_heap
unfolding Holds HasLevels Ordered figs clip read_all
read_range-ft_lookup_example =
    read_range-ft_lookup nothing_logged one_heap 0 one_tree 12 25 15
      (omega arith, refl, ((refl, refl), tt, ((refl, refl), tt))) (refl, (tt, tt))
      (
        tt,
        omega arith,
        record { not_empty = refl; in_order = omega arith; in_range = omega arith },
        tt,
      )
      (omega arith) (omega arith) (omega arith)
