-- ===== src/File/OpenFiles/Insert.antt =====
-- A file of src/gdpfs_file.c that nobody refers to goes into the list of recently closed files.
use mathlib.Core.Path.{subst}
use native.Mathlib.Decide.{ℕ_discrete}
use gdpfs.Base.{
  take, take_all, ℕ, suc, ◌+◌, ◌<◌, ◌≤◌, ◌≡◌, ◌≢◌, refl, ap, ◌∙◌, sym, Bool, true, false, Option,
  none, some, List, ◌∷◌, arith, ◌==◌, ltb, if◌then◌else◌, length,
}
use gdpfs.File.OpenFiles.{
  rc_cap, Shared, Table, update, pop_back, stores, file_dealloc, evict, recently_closed_insert,
  count,
}
use gdpfs.File.OpenFiles.Stored.{stored}
use gdpfs.File.OpenFiles.Counts.{
  is_same, is_other, count-here, count-there, pop_back-Popped, pop_back-take,
}
use gdpfs.File.OpenFiles.Laws.{
  flag_of, refs_of, Consistent, set_object-Consistent, chosen, passed_over,
}

-- The objects, the list and the references after a file has fallen off the list.
record Evicted (held front : List ℕ) (t : Table) (result : Option Table) : Type 0 where
  after : Table
  given : result ≡ some after
  list : after.recent ≡ t.recent
  size : after.recent_size ≡ t.recent_size
  consistent : Consistent held front after.objects

evict-Consistent :
    (old : ℕ) (o : Option Shared) (held recent front : List ℕ) (t : Table)
    → Consistent held recent t.objects
    → t.objects old ≡ o
    → count old recent ≡ suc (count old front)
    → ((m : ℕ) → m ≢ old → count m recent ≡ count m front)
    → Evicted held front t (evict stored old o t)
unfolding evict file_dealloc
evict-Consistent old none held recent front t c at last others =
    absurd (omega (arith, last, c.tallied old, ap flag_of at))
evict-Consistent old (some o) held recent front t c at last others = record {
  after = update old (settled o.changed) t;
  given = rw (kept_stored o.changed) refl;
  list = refl;
  size = refl;
  consistent =
      set_object-Consistent old _ held recent held front t.objects c (λ m d. sym (others m d))
        (λ m d. refl) (cleared ∙ sym (flag_kept o.changed))
        (c.counted old ∙ ap refs_of at ∙ sym (refs_kept o.changed))
        (λ h. absurd (one (flag_kept o.changed) h));
}
  where
    settled : Bool → Shared
    settled t =
        if t
        then record o {
          recently_closed = false;
          changed = false;
          index_flush_reqs = o.index_flush_reqs + 1;
        }
        else record o { recently_closed = false }

    kept_stored : (t : Bool) → stores stored t ≡ true
    kept_stored true = refl
    kept_stored false = refl

    cleared : count old front ≡ 0
    cleared = flag_bound o.recently_closed (sym last ∙ c.tallied old ∙ ap flag_of at)
      where
        flag_bound : (t : Bool) → suc (count old front) ≡ (if t then 1 else 0) → count old front ≡ 0
        flag_bound true e = omega arith
        flag_bound false e = absurd (omega arith)

    flag_kept : (t : Bool) → flag_of (some (settled t)) ≡ 0
    flag_kept true = refl
    flag_kept false = refl

    refs_kept : (t : Bool) → refs_of (some (settled t)) ≡ o.ref_count
    refs_kept true = refl
    refs_kept false = refl

    one : {a : ℕ} → a ≡ 0 → a ≢ 1
    one e h = omega arith

-- The table with a file at the front of the list.
abbrev listed : ℕ → Shared → Table → Table
listed n o t = update n (record o { recently_closed = true }) t

insert_full :
    (n : ℕ) (o : Shared) (t : Table)
    → o.recently_closed ≡ false
    → t.recent_size ≡ rc_cap
    → recently_closed_insert stored n o t
      ≡ evict stored
          (pop_back n t.recent).1
          ((listed n o t).objects (pop_back n t.recent).1)
          (record (listed n o t) { recent = (pop_back n t.recent).0 })
unfolding recently_closed_insert
insert_full n o t unlisted full =
    passed_over _ _ o.recently_closed unlisted
    ∙ passed_over _ _ (ltb rc_cap t.recent_size) (in_bounds t.recent_size full)
    ∙ chosen _ _ (t.recent_size == rc_cap) (is_same t.recent_size rc_cap full)
  where
    in_bounds : (k : ℕ) → k ≡ rc_cap → ltb rc_cap k ≡ false
    in_bounds k e = ground arith

insert_room :
    (n : ℕ) (o : Shared) (t : Table)
    → o.recently_closed ≡ false
    → t.recent_size < rc_cap
    → recently_closed_insert stored n o t
      ≡ some (record (listed n o t) { recent = n ∷ t.recent; recent_size = t.recent_size + 1 })
unfolding recently_closed_insert
insert_room n o t unlisted room =
    passed_over _ _ o.recently_closed unlisted
    ∙ passed_over _ _ (ltb rc_cap t.recent_size) (in_bounds t.recent_size room)
    ∙ passed_over _ _ (t.recent_size == rc_cap)
        (is_other t.recent_size rc_cap (omega (arith, room)))
  where
    in_bounds : (k : ℕ) → k < rc_cap → ltb rc_cap k ≡ false
    in_bounds k e = ground arith

-- A file without references goes to the front of the list.
pub record Inserted (n : ℕ) (held recent : List ℕ) (result : Option Table) : Type 0 where
  pub after : Table
  pub given : result ≡ some after
  pub consistent : Consistent held after.recent after.objects
  pub newest : after.recent ≡ take rc_cap (n ∷ recent)
  pub sized : after.recent_size ≡ length after.recent
  pub small : length after.recent ≤ rc_cap

pub recently_closed_insert-Inserted :
    (n : ℕ) (o : Shared) (held : List ℕ) (t : Table)
    → Consistent held t.recent t.objects
    → t.recent_size ≡ length t.recent
    → length t.recent ≤ rc_cap
    → o.recently_closed ≡ false
    → o.ref_count ≡ 0
    → count n held ≡ 0
    → count n t.recent ≡ 0
    → Inserted n held t.recent (recently_closed_insert stored n o t)
recently_closed_insert-Inserted n o held t c sized small unlisted unused refs away =
    elim (ℕ_discrete t.recent_size rc_cap) [
      | yes full ↦
          let p = pop_back-Popped n t.recent in
          let e =
            evict-Consistent (pop_back n t.recent).1
              ((listed n o t).objects (pop_back n t.recent).1) held (n ∷ t.recent)
              (pop_back n t.recent).0 (record (listed n o t) { recent = (pop_back n t.recent).0 })
              at_front refl p.of_last p.of_other in
          record {
            after = e.after;
            given = insert_full n o t unlisted full ∙ e.given;
            newest = e.list ∙ pop_back-take n t.recent rc_cap (omega (arith, full, sized));
            consistent = subst (λ l. Consistent held l e.after.objects) (sym e.list) e.consistent;
            sized = omega (arith, e.size, sized, p.size, ap length e.list);
            small = omega (arith, small, p.size, ap length e.list);
          }
      | no other ↦
          let less : t.recent_size < rc_cap = omega arith in
          record {
            after = record (listed n o t) {
              recent = n ∷ t.recent;
              recent_size = t.recent_size + 1;
            };
            given = insert_room n o t unlisted less;
            newest = sym (take_all (n ∷ t.recent) rc_cap (omega (arith, sized, less)));
            consistent = at_front;
            sized = omega (arith, sized);
            small = omega (arith, sized, less);
          }
    ]
  where
    at_front : Consistent held (n ∷ t.recent) (listed n o t).objects
    at_front =
        set_object-Consistent n (some (record o { recently_closed = true })) held t.recent held
          (n ∷ t.recent) t.objects c (λ m d. count-there m n t.recent d) (λ m d. refl)
          (count-here n t.recent ∙ ap suc away) (refs ∙ sym unused) (λ h. unused)
