-- ===== src/Figtree/Prune.antt =====
-- `ftn_pruneTo` of src/figtree/figtreenode.c: a visit drops what lies outside the valid interval.
use gdpfs.Base.{
  ℕ, zero, suc, ◌+◌, Bool, true, false, none, some, List, [], ◌∷◌, not, ◌&&◌, ◌||◌, ◌==◌,
  if◌then◌else◌, length, get_elem?, set, replicate,
}
use gdpfs.Base.Int.{sub_ℕ}
use gdpfs.Interval
use gdpfs.Interval.{Interval}
use gdpfs.Figtree.Heap.{
  Ptr, Entry, Subtree, Node, Cmd, return, ◌>>=◌, ◌>>◌, assert, lift, load, store,
}
use gdpfs.Figtree.Node.{ftn_free, ftn_clear, subtree_clear, free_subtrees}

-- The arrays that the visit works on, its index, and whether it has jumped to `performdeletes`.
pub record Visit : Type 0 where
  pub entries : List Entry
  pub subtrees : List Subtree
  pub entry_del : List Bool
  pub subtree_del : List Bool
  pub index : ℕ
  pub ended : Bool

-- `if (++i == this->entries_len) goto performdeletes;`
unfoldable pub advance : Visit → Visit
advance w = record w { index = w.index + 1; ended = w.index + 1 == length w.entries }

-- The interval of the entry at the index. The index is in range wherever it is read.
unfoldable pub here : Visit → Interval
here w = elim (get_elem? w.entries w.index) [ none ↦ Interval.init 0 0 | some e ↦ e.irange ]

-- `while (test(entryint))` with `mark` in its body, then `advance`; a round per entry is enough
unfoldable pub sweep : (Interval → Bool) → (Visit → Visit) → (rounds : ℕ) → Visit → Visit
unfolding advance here
sweep test mark zero w = w
sweep test mark (suc rounds) w =
    let rest = sweep test mark rounds (advance (mark w)) in
    if w.ended then w else (if test (here w) then rest else w)

-- Marks entry `i` for deletion together with the subtree on its left, or on its right.
unfoldable pub drop_with_left : Visit → Visit
drop_with_left w = record w {
  entry_del = set w.entry_del w.index true;
  subtree_del = set w.subtree_del w.index true;
}

unfoldable pub drop_with_right : Visit → Visit
drop_with_right w = record w {
  entry_del = set w.entry_del w.index true;
  subtree_del = set w.subtree_del (w.index + 1) true;
}

unfoldable pub keep : Visit → Visit
keep w = w

-- An entry that crosses a boundary of the valid interval: the subtree on its outer side, at index
-- `side`, is cleared and the entry cut back to the boundary.
unfoldable pub cut : Interval → (height : ℕ) → (side : ℕ) → Visit → Cmd Visit
unfolding here advance subtree_clear
cut valid height side w = do
  s ← lift (get_elem? w.subtrees side)
  s' ← subtree_clear s (sub_ℕ height 1)
  e ← lift (get_elem? w.entries w.index)
  r ← lift (Interval.restrict_int e.irange valid false)
  return (
      advance (record w {
        entries = set w.entries w.index (record e { irange = r });
        subtrees = set w.subtrees side s';
      }))

-- The five phases, up to `performdeletes`.
unfoldable pub visit : Interval → (height : ℕ) → Visit → Cmd Visit
unfolding sweep drop_with_left drop_with_right keep cut
visit valid height w = do
  let rounds = length w.entries
  let w₁ = sweep (λ e. Interval.left_of_int e valid) drop_with_left rounds w
  w₂ ←
      (if not w₁.ended && Interval.left_overlaps valid (here w₁)
        then cut valid height w₁.index w₁
        else return w₁)
  let w₃ = sweep (λ e. Interval.contains_int valid e) keep rounds w₂
  w₄ ←
      (if not w₃.ended && Interval.right_overlaps valid (here w₃)
        then cut valid height (w₃.index + 1) w₃
        else return w₃)
  return (sweep (λ e. Interval.right_of_int e valid) drop_with_right rounds w₄)

-- What the marks leave, and what they drop.
unfoldable pub kept {ℓ} : {A : Type ℓ} → List Bool → List A → List A
kept (true ∷ ds) (x ∷ xs) = kept ds xs
kept (false ∷ ds) (x ∷ xs) = x ∷ kept ds xs
kept _ _ = []

unfoldable pub dropped {ℓ} : {A : Type ℓ} → List Bool → List A → List A
dropped (true ∷ ds) (x ∷ xs) = x ∷ dropped ds xs
dropped (false ∷ ds) (x ∷ xs) = dropped ds xs
dropped _ _ = []

unfoldable pub any_marked : List Bool → Bool
any_marked [] = false
any_marked (d ∷ ds) = d || any_marked ds

unfoldable pub start : Node → Visit
start n = record {
  entries = n.entries;
  subtrees = n.subtrees;
  entry_del = replicate (length n.entries) false;
  subtree_del = replicate (length n.subtrees) false;
  index = 0;
  ended = false;
}

unfoldable pub ftn_prune_to : Ptr → Interval → Cmd (Unit {0})
unfolding visit start kept dropped any_marked free_subtrees ftn_free
ftn_prune_to p valid = if not valid.nonempty then ftn_clear p true else do
  n ← load p
  if length n.entries == 0 then return tt else do
    w ← visit valid n.height (start n)
    free_subtrees (ftn_free n.height) (dropped w.subtree_del w.subtrees)
    store p (record n {
      entries = kept w.entry_del w.entries;
      subtrees = kept w.subtree_del w.subtrees;
      dirty = any_marked w.entry_del || n.dirty;
    })
    assert (length (kept w.entry_del w.entries) + 1 == length (kept w.subtree_del w.subtrees))
