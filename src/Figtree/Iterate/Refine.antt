-- ===== src/Figtree/Iterate/Refine.antt =====
-- The iterator of src/figtree/figtree.c as its readers use it: `ft_read`, and then `fti_next` until it
-- returns false.
use gdpfs.Base.{ℕ, suc, ◌^◌, ◌<◌, ◌≤◌, ◌≡◌, ap, List, arith, length}
use gdpfs.Figtree.Heap.{Ptr, Entry, Heap, Cmd, done, return, ◌>>=◌, Images}
use gdpfs.Figtree.Tree.{Tree, root, Holds, HasLevels}
use gdpfs.Figtree.Lookup.{ft_lookup}
use gdpfs.Figtree.Lookup.Refine.{ft_lookup_refines}
use gdpfs.Figtree.Iterate.{ft_read, read_all}
use gdpfs.Figtree.Iterate.Figs.{Ordered, figs}
use gdpfs.Figtree.Iterate.Values.{value_in}
use gdpfs.Figtree.Iterate.Next.{Active, read_all-Active}
use gdpfs.Figtree.Iterate.Start.{ft_read-Resumed}
use mathlib.Core.List.{append-nil}
use mathlib.Core.Path.{subst}
use gdpfs.Figtree.Iterate.Find.{figs-find}

-- A reader of a range: the iterator is made, and asked until it has no more.
abbrev pub read_range : Images → (fuel : ℕ) → Ptr → (start end : ℕ) → Cmd (List Entry)
read_range log fuel root start end = do
  states ← ft_read log root start end
  read_all log fuel states

-- On a heap that holds an ordered tree, a reader of a range of byte indices that is not empty makes the
-- iterator, asks it once for each fig of the range and once more, and then has got the figs of the
-- tree in the range, in their order; nothing fails, and the heap is as before.
pub read_range-figs :
    (log : Images) (h : Heap) (n : ℕ) (t : Tree) (start end : ℕ)
    → Holds h t
    → HasLevels (suc n) t
    → Ordered t
    → start ≤ end
    → end < 2 ^ 32
    → read_range log (suc (length (figs t start end))) (root t) start end h
      ≡ done (figs t start end) h
read_range-figs log h n t start end held levels ordered le bounded =
    let begun = ft_read-Resumed log h n t start end held levels ordered le bounded in
    rw begun.given (
      read_all-Active h log (suc (length (figs t start end))) begun.states (figs t start end)
        (omega arith) (subst (Active h begun.states) (append-nil (figs t start end)) begun.active))

-- For each byte of the range, the figs that the reader gets have the value that `ft_lookup` finds.
pub read_range-ft_lookup :
    (log : Images) (h : Heap) (n : ℕ) (t : Tree) (start end x : ℕ)
    → Holds h t
    → HasLevels (suc n) t
    → Ordered t
    → start ≤ x
    → x ≤ end
    → end < 2 ^ 32
    → (do
      gs ← read_range log (suc (length (figs t start end))) (root t) start end
      return (value_in gs x))
        h
      ≡ ft_lookup log (root t) x h
read_range-ft_lookup log h n t start end x held levels ordered le lt bounded =
    rw
      (
        read_range-figs log h n t start end held levels ordered (omega arith) bounded,
        ft_lookup_refines log h n t x held levels,
      )
      (ap (λ v. done v h) (figs-find t start end x ordered le lt))
