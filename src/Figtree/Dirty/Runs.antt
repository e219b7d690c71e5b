-- ===== src/Figtree/Dirty/Runs.antt =====
-- `get_dirty` of src/figtree/utils.c on a tree in memory.
use mathlib.Core.List.{append_assoc, append-nil}
use gdpfs.Base.{
  ℕ, zero, suc, ◌+◌, ◌-◌, ◌*◌, ◌<◌, ◌≡◌, refl, ap, ◌∙◌, sym, true, false, some, [], ◌∷◌, ◌++◌, ◌==◌,
  if◌then◌else◌, length, length-append, arith,
}
use gdpfs.Figtree.Heap.{Heap, done, load, load-done, store, update}
use gdpfs.Figtree.Node.{no_subtree, subtree_set}
use gdpfs.Figtree.Tree.{Tree, leaf, node, root, entries, subtrees, image, Holds, HasLevels}
use gdpfs.Figtree.Dirty.{get_dirty_helper, get_dirty}
use gdpfs.Figtree.Dirty.Saved.{all_detached, stored_node, saved, saved_all}
use gdpfs.Figtree.Dirty.Heaps.{
  is_in, is_in_all, Distinct, is_in_all-saved_all, or_neither, HoldsAll-agree,
}
use gdpfs.Figtree.Dirty.Children.{
  at_null, at_node, at_itself, outside, elsewhere, entries-saved_all, Helps,
  dirty_children-HelpedAll, detach-all,
}

module _ (size recno : ℕ) where
  get_dirty_helper-Helps :
      (fuel n : ℕ) → n < fuel → Helps size recno n (get_dirty_helper size recno fuel)
  unfolding get_dirty_helper Holds HasLevels saved Distinct is_in store
  get_dirty_helper-Helps zero n lt h s t start buffer size_is leads held levels distinct =
      absurd (omega arith)
  get_dirty_helper-Helps (suc fuel) n lt h s leaf start buffer size_is leads held levels distinct =
      record {
        after = h;
        given = rw (at_null s leads.1) (ap (λ ns. done (s, ns) h) (sym (append-nil buffer)));
        held = tt;
        leads = leads;
        same = λ p e. refl;
      }
  get_dirty_helper-Helps (suc fuel) zero lt h s (node a k d f) start buffer size_is leads held
        levels distinct =
      absurd levels
  get_dirty_helper-Helps (suc fuel) (suc n) lt h s (node a k false f) start buffer size_is leads
        held levels distinct =
      record {
        after = h;
        given =
            rw
              (
                at_node s a leads held.0,
                ap (λ p. load p h) leads.1 ∙ load-done a (image k false f) h held.0 held.1,
              )
              (ap (λ ns. done (s, ns) h) (sym (append-nil buffer)));
        held = held;
        leads = leads;
        same = λ p e. refl;
      }
  get_dirty_helper-Helps (suc fuel) (suc n) lt h s (node a k true f) start buffer size_is
        (inside, at) (ne, cell, held) (same, levels) (apart_here, distinct) =
      let below =
        dirty_children-HelpedAll size recno n (get_dirty_helper size recno fuel)
          (get_dirty_helper-Helps fuel n (omega arith)) h f start buffer size_is held levels
          distinct in
      let r = saved_all size recno f start in
      let kept : entries r.0 ≡ entries f = entries-saved_all size recno f start in
      let place : length (buffer ++ r.1) ≡ start + length (r.1 ++ (stored_node k r.0 ∷ [])) - 1 =
        omega
          (arith, size_is, length-append buffer r.1, length-append r.1 (stored_node k r.0 ∷ [])) in
      record {
        after = record below.after {
          cell = update below.after.cell s.st (some (image k false r.0));
        };
        given =
            rw
              (
                at_node s a (inside, at) ne,
                ap (λ p. load p h) at ∙ load-done a (image k true f) h ne cell,
                below.given,
                detach-all size recno below.after
                    (record below.after {
                      cell = update below.after.cell s.st (
                          some
                            (record (image k true f) { subtrees = subtrees r.0; dirty = false }));
                    })
                    r.0 below.held,
              )
              ((λ i.
                  done
                    (
                      record s { recno = recno; offset = place i * size },
                      (buffer ++ r.1)
                          ++ (record {
                            entries = sym kept i;
                            subtrees = all_detached (subtrees r.0);
                            height = k;
                            dirty = false;
                          }
                              ∷ []),
                    )
                    (record below.after {
                      cell = update below.after.cell s.st (
                          some (record {
                            entries = sym kept i;
                            subtrees = subtrees r.0;
                            height = k;
                            dirty = false;
                          }));
                    }))
                ∙ ap
                    (λ ns.
                      done
                        (
                          record s {
                            recno = recno;
                            offset = (start + length (r.1 ++ (stored_node k r.0 ∷ [])) - 1) * size;
                          },
                          ns,
                        )
                        (record below.after {
                          cell = update below.after.cell s.st (some (image k false r.0));
                        }))
                    (append_assoc buffer r.1 (stored_node k r.0 ∷ [])));
        held = (
          ne,
          ap (λ b. if b then some (image k false r.0) else below.after.cell a) (at_itself s a at),
          HoldsAll-agree below.after
              (record below.after {
                cell = update below.after.cell s.st (some (image k false r.0));
              })
              r.0 below.held
              (λ p e.
                ap (λ b. if b then some (image k false r.0) else below.after.cell p)
                  (elsewhere s a p at r.0 (is_in_all-saved_all size recno a f start ∙ apart_here)
                    e)),
        );
        leads = (inside, at);
        same = λ p e.
            ap (λ b. if b then some (image k false r.0) else below.after.cell p)
              (outside s a p at (or_neither (p == a) (is_in_all p f) e).0)
            ∙ below.same p (or_neither (p == a) (is_in_all p f) e).1;
      }

  -- `get_dirty` of a tree in memory.
  pub get_dirty-saved :
      (h : Heap) (n : ℕ) (t : Tree)
      → Holds h t
      → HasLevels (suc n) t
      → Distinct t
      → (after : Heap) × (get_dirty size (root t) recno h ≡ done (saved size recno t 0).1 after)
        × Holds after (saved size recno t 0).0
  unfolding get_dirty Holds HasLevels
  get_dirty-saved h n leaf held levels distinct = absurd levels
  get_dirty-saved h n (node a k d f) held levels distinct =
      let r =
        get_dirty_helper-Helps (k + 2) (suc n) (omega (arith, levels.0)) h
          (subtree_set no_subtree a) (node a k d f) 0 [] refl (refl, refl) held levels distinct in
      (r.after, rw (load-done a (image k d f) h held.0 held.1, r.given) refl, r.held)
