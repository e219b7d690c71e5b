-- ===== src/Figtree/Dirty/Children.antt =====
-- The loop over the children of a node in `get_dirty` of src/figtree/utils.c.
use mathlib.Core.List.{append_assoc}
use gdpfs.Base.{
  ℕ, ◌+◌, ◌≡◌, ◌≢◌, refl, ap, ◌∙◌, sym, Bool, true, false, Bool-cases, ◌⊎◌, inl, inr, List, [], ◌∷◌,
  ◌++◌, not, ◌||◌, ◌==◌, length, length-append, arith,
}
use gdpfs.Figtree.Heap.{Ptr, null, Subtree, Node, Heap, Outcome, Cmd, done, ne_null}
use gdpfs.Figtree.Tree.{
  Tree, Forest, last, more, entries, subtrees, LeadsTo, Holds, HoldsAll, HasLevels, AllLevels,
}
use gdpfs.Figtree.Dirty.{dirty_children, detach}
use gdpfs.Figtree.Dirty.Saved.{all_detached, detached, placed, saved, saved_all}
use gdpfs.Figtree.Dirty.Heaps.{
  is_in, is_in_all, Distinct, DistinctAll, is_in-saved, or_neither, Holds-agree, HoldsAll-agree,
  apart,
}

pub at_null : (s : Subtree) → s.st ≡ null → (not s.inmemory || s.st == null) ≡ true
at_null s e = ap (λ p. not s.inmemory || p == null) e ∙ either (not s.inmemory)
  where
    either : (b : Bool) → (b || true) ≡ true
    either true = refl
    either false = refl

pub at_node :
    (s : Subtree) (a : Ptr)
    → (s.inmemory ≡ true) × (s.st ≡ a)
    → a ≢ null
    → (not s.inmemory || s.st == null) ≡ false
at_node s a (inside, at) ne = (λ i. not (inside i) || at i == null) ∙ ne_null a ne

pub at_itself : (s : Subtree) (a : Ptr) → s.st ≡ a → (a == s.st) ≡ true
at_itself s a at = ground arith

pub outside : (s : Subtree) (a p : Ptr) → s.st ≡ a → (p == a) ≡ false → (p == s.st) ≡ false
outside s a p at e = ap (λ q. p == q) at ∙ e

-- The address of a node that is not in a forest is none of those that are.
pub elsewhere :
    (s : Subtree) (a p : Ptr)
    → s.st ≡ a
    → (f : Forest) → is_in_all a f ≡ false
    → is_in_all p f ≡ true
    → (p == s.st) ≡ false
elsewhere s a p at f out into = outside s a p at (differ (Bool-cases (p == a)))
  where
    differ : ((p == a) ≡ true) ⊎ ((p == a) ≡ false) → (p == a) ≡ false
    differ (inr e) = e
    differ (inl e) = absurd (
        let same : p ≡ a = ground (arith, e) in
        let clash = sym (ap (λ q. is_in_all q f) same ∙ out) ∙ into in cc)

pub entries-saved_all :
    (size recno : ℕ) (f : Forest) (start : ℕ) → entries (saved_all size recno f start).0 ≡ entries f
unfolding saved
entries-saved_all size recno (last s t) start = refl
entries-saved_all size recno (more s t e f) start =
    ap (λ es. e ∷ es) (entries-saved_all size recno f (start + length (saved size recno t start).1))

module _ (size recno : ℕ) where
  -- A call for the pointer to a tree, with a buffer of `start` nodes.
  pub record Helped (h : Heap) (s : Subtree) (t : Tree) (start : ℕ) (buffer : List Node)
      (result : Outcome (Subtree × List Node)) : Type 0 where
    pub after : Heap
    pub given :
        result
        ≡ done
            (
              placed size recno s t (start + length (saved size recno t start).1),
              buffer ++ (saved size recno t start).1,
            )
            after
    pub held : Holds after (saved size recno t start).0
    pub leads :
        LeadsTo
          (placed size recno s t (start + length (saved size recno t start).1))
          (saved size recno t start).0
    pub same : (p : Ptr) → is_in p t ≡ false → after.cell p ≡ h.cell p

  pub record HelpedAll (h : Heap) (f : Forest) (start : ℕ) (buffer : List Node)
      (result : Outcome (List Subtree × List Node)) : Type 0 where
    pub after : Heap
    pub given :
        result
        ≡ done
            (subtrees (saved_all size recno f start).0, buffer ++ (saved_all size recno f start).1)
            after
    pub held : HoldsAll after (saved_all size recno f start).0
    pub same : (p : Ptr) → is_in_all p f ≡ false → after.cell p ≡ h.cell p

  -- What a call does, for trees of a height.
  abbrev pub Helps : ℕ → (Subtree → List Node → Cmd (Subtree × List Node)) → Type 0
  Helps n get =
      (h : Heap) (s : Subtree) (t : Tree) (start : ℕ) (buffer : List Node)
      → length buffer ≡ start
      → LeadsTo s t
      → Holds h t
      → HasLevels n t
      → Distinct t
      → Helped h s t start buffer (get s buffer h)

  pub dirty_children-HelpedAll :
      (n : ℕ) (get : Subtree → List Node → Cmd (Subtree × List Node))
      → Helps n get
      → (h : Heap) (f : Forest) (start : ℕ) (buffer : List Node) → length buffer ≡ start
      → HoldsAll h f
      → AllLevels n f
      → DistinctAll f
      → HelpedAll h f start buffer (dirty_children get (subtrees f) buffer h)
  unfolding dirty_children Holds HasLevels saved Distinct is_in
  dirty_children-HelpedAll n get helps h (last s t) start buffer size_is (leads, held) levels
        distinct =
      let one = helps h s t start buffer size_is leads held levels distinct in
      record {
        after = one.after;
        given = rw one.given refl;
        held = (one.leads, one.held);
        same = one.same;
      }
  dirty_children-HelpedAll n get helps h (more s t e f) start buffer size_is (leads, held, rest)
        levels (dt, df, disjoint) =
      let one = helps h s t start buffer size_is leads held levels.0 dt in
      let later =
        dirty_children-HelpedAll n get helps one.after f
          (start + length (saved size recno t start).1) (buffer ++ (saved size recno t start).1)
          (omega (arith, size_is, length-append buffer (saved size recno t start).1))
          (HoldsAll-agree h one.after f rest
            (λ p e. one.same p (apart (is_in p t) (is_in_all p f) (disjoint p) e)))
          levels.1 df in
      record {
        after = later.after;
        given =
            rw (one.given, later.given)
              (ap
                (λ ns.
                  done
                    (
                      placed size recno s t (start + length (saved size recno t start).1)
                          ∷ subtrees
                              (saved_all size recno f
                                (start + length (saved size recno t start).1)).0,
                      ns,
                    )
                    later.after)
                (append_assoc buffer (saved size recno t start).1
                  (saved_all size recno f (start + length (saved size recno t start).1)).1));
        held = (
          one.leads,
          Holds-agree one.after later.after (saved size recno t start).0 one.held
              (λ p e. later.same p (disjoint p (sym (is_in-saved size recno p t start) ∙ e))),
          later.held,
        );
        same = λ p e.
            later.same p (or_neither (is_in p t) (is_in_all p f) e).1
            ∙ one.same p (or_neither (is_in p t) (is_in_all p f) e).0;
      }

  -- The pointers of a forest in memory are stored.
  pub detach-all :
      (h h' : Heap) (f : Forest)
      → HoldsAll h f
      → detach (subtrees f) h' ≡ done (all_detached (subtrees f)) h'
  unfolding detach Holds
  detach-all h h' (last s t) (leads, held) = detach_one (s.st == null) refl
    where
      detach_one : (b : Bool) → (s.st == null) ≡ b → detach (s ∷ []) h' ≡ done (detached s ∷ []) h'
      detach_one true e = rw (e, leads.0) refl
      detach_one false e = rw e refl
  detach-all h h' (more s t e f) (leads, held, rest) =
      detach_one (s.st == null) refl (detach-all h h' f rest)
    where
      detach_one :
          (b : Bool)
          → (s.st == null) ≡ b
          → detach (subtrees f) h' ≡ done (all_detached (subtrees f)) h'
          → detach (s ∷ subtrees f) h' ≡ done (detached s ∷ all_detached (subtrees f)) h'
      detach_one true e all = rw (e, leads.0, all) refl
      detach_one false e all = rw (e, all) refl
