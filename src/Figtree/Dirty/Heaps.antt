-- ===== src/Figtree/Dirty/Heaps.antt =====
-- Trees of src/figtree whose nodes are at different addresses, and heaps that agree on them.
use gdpfs.Base.{ℕ, ◌≡◌, refl, ap, ◌∙◌, Bool, true, false, ◌||◌, ◌==◌, ◌+◌, length, arith}
use gdpfs.Figtree.Heap.{Ptr, Heap}
use gdpfs.Figtree.Tree.{Tree, leaf, node, Forest, last, more, Holds, HoldsAll}
use gdpfs.Figtree.Dirty.Saved.{saved, saved_all}

unfoldable mutual
  pub is_in : Ptr → Tree → Bool
  is_in p leaf = false
  is_in p (node a k d f) = p == a || is_in_all p f

  pub is_in_all : Ptr → Forest → Bool
  is_in_all p (last s t) = is_in p t
  is_in_all p (more s t e f) = is_in p t || is_in_all p f

-- No address is that of two nodes.
unfoldable mutual
  pub Distinct : Tree → Type 0
  Distinct leaf = Unit
  Distinct (node a k d f) = (is_in_all a f ≡ false) × DistinctAll f

  pub DistinctAll : Forest → Type 0
  DistinctAll (last s t) = Distinct t
  DistinctAll (more s t e f) =
      Distinct t × DistinctAll f × ((p : Ptr) → is_in p t ≡ true → is_in_all p f ≡ false)

mutual
  unfolding is_in saved

  pub is_in-saved :
      (size recno : ℕ) (p : Ptr) (t : Tree) (start : ℕ)
      → is_in p (saved size recno t start).0 ≡ is_in p t
  is_in-saved size recno p leaf start = refl
  is_in-saved size recno p (node a k false f) start = refl
  is_in-saved size recno p (node a k true f) start =
      ap (λ b. p == a || b) (is_in_all-saved_all size recno p f start)

  pub is_in_all-saved_all :
      (size recno : ℕ) (p : Ptr) (f : Forest) (start : ℕ)
      → is_in_all p (saved_all size recno f start).0 ≡ is_in_all p f
  is_in_all-saved_all size recno p (last s t) start = is_in-saved size recno p t start
  is_in_all-saved_all size recno p (more s t e f) start = (λ i.
      is_in-saved size recno p t start i
      || is_in_all-saved_all size recno p f (start + length (saved size recno t start).1) i)

or_left : (a b : Bool) → a ≡ true → (a || b) ≡ true
or_left a b e = rw e refl

or_right : (a b : Bool) → b ≡ true → (a || b) ≡ true
or_right true b e = refl
or_right false b e = e

itself : (a : ℕ) → (a == a) ≡ true
itself a = ground arith

pub or_neither : (a b : Bool) → (a || b) ≡ false → (a ≡ false) × (b ≡ false)
or_neither true b e = absurd cc
or_neither false b e = (refl, e)

mutual
  unfolding is_in Holds

  -- A heap that has the same at the addresses of a tree holds it, too.
  pub Holds-agree :
      (h h' : Heap) (t : Tree)
      → Holds h t
      → ((p : Ptr) → is_in p t ≡ true → h'.cell p ≡ h.cell p)
      → Holds h' t
  Holds-agree h h' leaf held same = tt
  Holds-agree h h' (node a k d f) (ne, cell, held) same = (
    ne,
    same a (or_left (a == a) _ (itself a)) ∙ cell,
    HoldsAll-agree h h' f held (λ p e. same p (or_right (p == a) _ e)),
  )

  pub HoldsAll-agree :
      (h h' : Heap) (f : Forest)
      → HoldsAll h f
      → ((p : Ptr) → is_in_all p f ≡ true → h'.cell p ≡ h.cell p)
      → HoldsAll h' f
  HoldsAll-agree h h' (last s t) (leads, held) same = (leads, Holds-agree h h' t held same)
  HoldsAll-agree h h' (more s t e f) (leads, held, rest) same = (
    leads,
    Holds-agree h h' t held (λ p e. same p (or_left _ _ e)),
    HoldsAll-agree h h' f rest (λ p e. same p (or_right (is_in p t) _ e)),
  )

pub apart : (b c : Bool) → (b ≡ true → c ≡ false) → c ≡ true → b ≡ false
apart true c h e = absurd (let g = h refl in cc)
apart false c h e = refl
