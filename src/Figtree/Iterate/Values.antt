-- ===== src/Figtree/Iterate/Values.antt =====
-- The figs of a tree in a range are what `ft_lookup` finds there.
use gdpfs.Base.{
  ℕ, ◌+◌, ◌-◌, ◌<◌, ◌≤◌, ◌≡◌, ◌≢◌, refl, ap, ◌∙◌, sym, ◌⊎◌, inl, inr, Bool, true, false, Bool-cases,
  Option, none, some, List, [], ◌∷◌, ◌++◌, arith, ltb, leb, ◌&&◌, max, min, if◌then◌else◌,
}
use gdpfs.Interval
use gdpfs.Figtree.Heap.{Entry}
use gdpfs.Figtree.Tree.{Tree, leaf, node, Forest, last, more}
use gdpfs.Figtree.Iterate.Figs.{Ordered, OrderedFrom, clip, figs, figs_from}

-- The value that a list of figs gives a byte: that of the first one that has it.
unfoldable pub value_in : List Entry → ℕ → Option ℕ
value_in [] x = none
value_in (g ∷ gs) x = if Interval.contains_val g.irange x then some g.value else value_in gs x

-- All figs lie in a range, and are not empty.
abbrev pub AllWithin : (lo hi : ℕ) → List Entry → Type 0
AllWithin lo hi [] = Unit
AllWithin lo hi (g ∷ gs) =
    ((lo ≤ g.irange.left) × (g.irange.left ≤ g.irange.right) × (g.irange.right ≤ hi))
    × AllWithin lo hi gs

AllWithin-append :
    (lo hi : ℕ) (gs ks : List Entry)
    → AllWithin lo hi gs
    → AllWithin lo hi ks
    → AllWithin lo hi (gs ++ ks)
AllWithin-append lo hi [] ks p q = q
AllWithin-append lo hi (g ∷ gs) ks p q = (p.0, AllWithin-append lo hi gs ks p.1 q)

AllWithin-wider :
    (lo hi lo' hi' : ℕ) (gs : List Entry)
    → lo' ≤ lo
    → hi ≤ hi'
    → AllWithin lo hi gs
    → AllWithin lo' hi' gs
AllWithin-wider lo hi lo' hi' [] h k p = tt
AllWithin-wider lo hi lo' hi' (g ∷ gs) h k ((a, b, c), p) =
    ((omega arith, b, omega arith), AllWithin-wider lo hi lo' hi' gs h k p)

AllWithin-if :
    (t : Bool) (lo hi : ℕ) (gs : List Entry)
    → (t ≡ true → AllWithin lo hi gs)
    → AllWithin lo hi (if t then gs else [])
AllWithin-if true lo hi gs h = h refl
AllWithin-if false lo hi gs h = tt

-- No fig of a range has a byte outside it.
pub value_in-outside :
    (lo hi x : ℕ) (gs : List Entry)
    → AllWithin lo hi gs
    → (x < lo) ⊎ (hi < x)
    → value_in gs x ≡ none
unfolding value_in Interval.contains_val
value_in-outside lo hi x [] p o = refl
value_in-outside lo hi x (g ∷ gs) ((a, b, c), p) o = rw (missed o) (value_in-outside lo hi x gs p o)
  where
    missed : (x < lo) ⊎ (hi < x) → (leb g.irange.left x && leb x g.irange.right) ≡ false
    missed (inl h) = ground arith
    missed (inr h) = ground arith

clip-AllWithin :
    (e : Entry) (lo hi : ℕ)
    → e.irange.left ≤ e.irange.right
    → lo ≤ hi
    → AllWithin lo hi (clip e lo hi)
unfolding clip
clip-AllWithin e lo hi h k = elim (Bool-cases (leb lo e.irange.right && leb e.irange.left hi)) [
  | inl t ↦ rw t ((omega arith, bounds t, omega arith), tt)
  | inr f ↦ rw f tt
]
  where
    bounds :
        (leb lo e.irange.right && leb e.irange.left hi) ≡ true
        → max e.irange.left lo ≤ min e.irange.right hi
    bounds t = ground arith

mutual
  unfolding figs Ordered

  pub figs-AllWithin : (t : Tree) (lo hi : ℕ) → Ordered t → lo ≤ hi → AllWithin lo hi (figs t lo hi)
  figs-AllWithin leaf lo hi o h = tt
  figs-AllWithin (node a k d f) lo hi o h = figs_from-AllWithin 0 f lo hi o h

  pub figs_from-AllWithin :
      (b : ℕ) (f : Forest) (lo hi : ℕ)
      → OrderedFrom b f
      → lo ≤ hi
      → AllWithin lo hi (figs_from f lo hi)
  figs_from-AllWithin b (last s t) lo hi o h = figs-AllWithin t lo hi o h
  figs_from-AllWithin b (more s t e f) lo hi (ot, le, v, of) h =
      AllWithin-append lo hi
        (if ltb lo e.irange.left then figs t lo (min hi (e.irange.left - 1)) else []) _
        (AllWithin-if (ltb lo e.irange.left) lo hi (figs t lo (min hi (e.irange.left - 1))) (λ lt.
          AllWithin-wider lo (min hi (e.irange.left - 1)) lo hi _ (omega arith) (omega arith)
            (figs-AllWithin t lo (min hi (e.irange.left - 1)) ot (gap lt))))
        (AllWithin-append lo hi (clip e lo hi) _ (clip-AllWithin e lo hi v.in_order h) (
          AllWithin-if (ltb e.irange.right hi) lo hi (figs_from f (max lo (e.irange.right + 1)) hi)
            (λ lt.
              AllWithin-wider (max lo (e.irange.right + 1)) hi lo hi _ (omega arith) (omega arith) (
                figs_from-AllWithin (e.irange.right + 1) f (max lo (e.irange.right + 1)) hi of
                  (beyond lt)))))
    where
      gap : ltb lo e.irange.left ≡ true → lo ≤ min hi (e.irange.left - 1)
      gap lt = ground arith

      beyond : ltb e.irange.right hi ≡ true → max lo (e.irange.right + 1) ≤ hi
      beyond lt = ground arith

pub value_in-append_behind :
    (gs ks : List Entry) (x : ℕ) → value_in gs x ≡ none → value_in (gs ++ ks) x ≡ value_in ks x
unfolding value_in
value_in-append_behind [] ks x e = refl
value_in-append_behind (g ∷ gs) ks x e = elim (Bool-cases (Interval.contains_val g.irange x)) [
  | inl t ↦
      absurd
        (some_ne_none g.value (sym (ap (λ b. if b then some g.value else value_in gs x) t) ∙ e))
  | inr f ↦ rw f (
      value_in-append_behind gs ks x
        (sym (ap (λ b. if b then some g.value else value_in gs x) f) ∙ e))
]
  where
    some_ne_none : (v : ℕ) → some v ≢ none
    some_ne_none v h = cc

pub value_in-append_before :
    (gs ks : List Entry) (x : ℕ) → value_in ks x ≡ none → value_in (gs ++ ks) x ≡ value_in gs x
unfolding value_in
value_in-append_before [] ks x e = e
value_in-append_before (g ∷ gs) ks x e =
    ap (λ o. if Interval.contains_val g.irange x then some g.value else o)
      (value_in-append_before gs ks x e)

-- A byte of the range is in the part of the entry as it is in the entry.
pub value_in-clip :
    (e : Entry) (lo hi x : ℕ)
    → lo ≤ x
    → x ≤ hi
    → value_in (clip e lo hi) x ≡ (if Interval.contains_val e.irange x then some e.value else none)
unfolding value_in clip Interval.contains_val
value_in-clip e lo hi x h k = elim (Bool-cases (leb lo e.irange.right && leb e.irange.left hi)) [
  | inl t ↦ rw t (ap (λ b. if b then some e.value else none) (same_byte t))
  | inr f ↦ rw f (sym (ap (λ b. if b then some e.value else none) (no_byte f)))
]
  where
    same_byte :
        (leb lo e.irange.right && leb e.irange.left hi) ≡ true
        → (leb (max e.irange.left lo) x && leb x (min e.irange.right hi))
          ≡ (leb e.irange.left x && leb x e.irange.right)
    same_byte t = ground arith

    no_byte :
        (leb lo e.irange.right && leb e.irange.left hi) ≡ false
        → (leb e.irange.left x && leb x e.irange.right) ≡ false
    no_byte f = ground arith
