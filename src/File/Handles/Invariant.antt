-- ===== src/File/Handles/Invariant.antt =====
-- What the operations on the handles of src/gdpfs_file.c preserve.
use mathlib.Core.Path.{subst}
use native.Mathlib.Decide.{ℕ_discrete}
use gdpfs.Base.{
  ℕ, ◌+◌, ◌^◌, ◌<◌, ◌≡◌, refl, ap, ◌∙◌, sym, Bool, true, false, suc, ◌==◌, Option, none, some, List,
  [], ◌∷◌, ◌++◌, arith, if◌then◌else◌, get_or, get_or-set_self, length-replicate,
}
use gdpfs.Stat.{Stat}
use gdpfs.Bitmap.{Bitmap, create}
use gdpfs.Bitmap.Change.{IsValid, bit_at, create-clear}
use gdpfs.File.OpenFiles.{remove, count}
use gdpfs.File.OpenFiles.Counts.{is_same, is_other}
use gdpfs.File.OpenFiles.Stored.{stored}
use gdpfs.File.OpenFiles.Reached.{initial_system-Valid}
use gdpfs.File.Handles.{
  max_fhs, Handles, no_handles, write_begins, unref, Session, after_opening, no_session, names,
  users, forget, is_used,
}
use gdpfs.File.Handles.Counts.{
  count-append, count_append-remove, count_append-remove_behind, count-append_middle,
}
use gdpfs.File.Handles.Laws.{
  AllAt, Inv, Leads, is_used-here, is_used-there, is_used-forget, is_used_other-forget, AllAt-set,
  AllAt-forget, is_used-Leads, count-forget, table-Sound, Changed-at, Changed-other, Valid-recount,
  some_name,
}
use gdpfs.File.Handles.Close.{unref-Unreferred, write_begins-Referred, Closed}
use gdpfs.File.Handles.Open.{with_opened, Opened, opened, refused, set-Sound}

no_handles-fhs : IsValid no_handles.fhs × ((w : ℕ) → bit_at no_handles.fhs w ≡ 0)
unfolding create
no_handles-fhs =
    let (b, given, valid, size, clear) = create-clear max_fhs (omega arith) (omega arith) in
    subst (λ b. IsValid b × ((w : ℕ) → bit_at b w ≡ 0)) (sym (same no_handles.fhs b given))
      (valid, clear)
  where
    same : (b c : Bitmap) → some b ≡ some c → b ≡ c
    same b c e = cc

pub no_session-Inv : Inv no_session
no_session-Inv = record {
  sound = record {
    fhs_valid = no_handles-fhs.0;
    fhs_size = refl;
    files_length = length-replicate {A = Option ℕ} max_fhs none;
  };
  bits = λ fh lt. sym (no_handles-fhs.1 fh);
  leads = tt;
  refs = initial_system-Valid;
}

-- Other files for handles that are not in use.
AllAt-kept :
    (files files' : List (Option ℕ)) (us : List (ℕ × ℕ))
    → ((fh : ℕ) → fh < max_fhs → 0 < is_used fh us → get_or files' fh none ≡ get_or files fh none)
    → AllAt files us
    → AllAt files' us
AllAt-kept files files' [] kept at = tt
AllAt-kept files files' ((g, n) ∷ us) kept (small, leads, at) = (
  small,
  kept g small (omega (arith, is_used-here g n us)) ∙ leads,
  AllAt-kept files files' us (λ fh lt used. kept fh lt (still fh used (ℕ_discrete fh g))) at,
)
  where
    still : (fh : ℕ) → 0 < is_used fh us → Dec (fh ≡ g) → 0 < is_used fh ((g, n) ∷ us)
    still fh used (yes e) = rw (is_same fh g e) (omega arith)
    still fh used (no d) = omega (arith, is_used-there fh g n us d)

pub used_bit :
    (s : Session) (fh : ℕ)
    → Inv s
    → fh < max_fhs
    → 0 < is_used fh s.in_use
    → bit_at s.handles.fhs fh ≡ 1
used_bit s fh inv lt used = omega (arith, inv.bits fh lt)

pub opened-Inv :
    (s : Session) (n : ℕ) (inits : Bool) (r : Stat × ℕ) (h : Handles)
    → Inv s
    → Opened s.handles (users s) n inits (some (r, h))
    → Inv (after_opening inits n r h s)
opened-Inv s n inits _ _ inv (opened fh fhs table lt clear lowest taken v) = record {
  sound =
      set-Sound s.handles s.handles.fhs fhs fh 1 (some n) table inv.sound inv.sound.fhs_size taken;
  bits = λ w small. by_handle w small (ℕ_discrete w fh);
  leads = (
    lt,
    get_or-set_self s.handles.files fh (some n) none (omega (arith, inv.sound.files_length)),
    AllAt-set s.handles.files s.in_use fh (some n) (omega (arith, inv.sound.files_length))
        (inv.bits fh lt ∙ clear) inv.leads,
  );
  refs = Valid-recount table (with_opened inits n (users s)) _ v (recounted inits);
}
  where
    recounted :
        (b : Bool) (m : ℕ)
        → count m (n ∷ (names s.in_use ++ (if b then n ∷ s.appending else s.appending)))
          ≡ count m (with_opened b n (users s))
    recounted true m =
        ap (λ c. if m == n then suc c else c) (count-append_middle m n (names s.in_use) s.appending)
    recounted false m = refl

    by_handle : (w : ℕ) → w < max_fhs → Dec (w ≡ fh) → is_used w ((fh, n) ∷ s.in_use) ≡ bit_at fhs w
    by_handle w small (yes e) = rw (is_same w fh e) (
        ap (λ k. is_used k s.in_use + 1) e
        ∙ (omega (arith, inv.bits fh lt, clear, Changed-at s.handles.fhs fhs fh 1 taken))
        ∙ ap (bit_at fhs) (sym e))
    by_handle w small (no d) =
        rw (is_other w fh d)
          (inv.bits w small ∙ sym (Changed-other s.handles.fhs fhs fh 1 w taken d))
opened-Inv s n inits _ _ inv (refused stat after bad sound bits files v) = rw bad (record {
  sound = sound;
  bits = λ w small. inv.bits w small ∙ sym (bits w);
  leads =
      AllAt-kept s.handles.files after.files s.in_use
        (λ w small used. files w (used_bit s w inv small used)) inv.leads;
  refs = v;
})

after_of : {A : Type 0} → Handles → Option (A × Handles) → Handles
after_of h none = h
after_of h (some (a, h')) = h'

pub forget-Inv :
    (s : Session) (fh : ℕ) (stat : Stat) (h : Handles) (found : Leads s.handles.files s.in_use fh)
    → Inv s
    → 0 < is_used fh s.in_use
    → Closed s.handles fh found.name (users s) (some (stat, h))
    → Inv (record s { handles = h; in_use = forget fh s.in_use })
unfolding after_of
forget-Inv s fh stat h found inv used c =
    subst (λ k. Inv (record s { handles = k; in_use = forget fh s.in_use }))
      (sym (ap (after_of h) c.given))
      (record {
        sound = record {
          fhs_valid = c.changed.0;
          fhs_size = c.changed.1 ∙ inv.sound.fhs_size;
          files_length = inv.sound.files_length;
        };
        bits = λ w small. by_handle w small (ℕ_discrete w fh);
        leads = AllAt-forget s.handles.files s.in_use fh inv.leads;
        refs =
            Valid-recount c.table (remove found.name (users s))
              (names (forget fh s.in_use) ++ s.appending) c.valid
              (λ m.
                count-append m (names (forget fh s.in_use)) s.appending
                ∙ ap (λ c. c + count m s.appending)
                    (count-forget s.handles.files s.in_use fh found.name m inv.leads used
                      found.leads)
                ∙ sym (count-append m (remove found.name (names s.in_use)) s.appending)
                ∙ count_append-remove m found.name (names s.in_use) s.appending found.counted);
      })
  where
    by_handle :
        (w : ℕ) → w < max_fhs → Dec (w ≡ fh) → is_used w (forget fh s.in_use) ≡ bit_at c.fhs w
    by_handle w small (yes e) =
        ap (λ k. is_used k (forget fh s.in_use)) e
        ∙ (omega (
          arith,
          is_used-forget fh s.in_use,
          inv.bits fh found.small,
          used_bit s fh inv found.small used,
          Changed-at s.handles.fhs c.fhs fh 0 c.changed,
        ))
        ∙ ap (bit_at c.fhs) (sym e)
    by_handle w small (no d) =
        is_used_other-forget w fh s.in_use d
        ∙ inv.bits w small
        ∙ sym (Changed-other s.handles.fhs c.fhs fh 0 w c.changed d)

pub write_begins-Inv :
    (s : Session) (dirty : Bool) (fh n : ℕ) (h : Handles)
    → Inv s
    → get_or s.handles.files fh none ≡ some n
    → 0 < is_used fh s.in_use
    → count n (users s) + 1 < 2 ^ 32
    → write_begins dirty fh s.handles ≡ some (true, h)
    → Inv (record s { handles = h; appending = n ∷ s.appending })
unfolding after_of
write_begins-Inv s dirty fh n h inv leads used few given =
    let found = is_used-Leads s.handles.files s.in_use fh used inv.leads in
    let w =
      write_begins-Referred dirty s.handles fh n (users s) inv.sound found.small leads inv.refs
        (omega (
          arith,
          found.counted,
          ap (λ k. count k (names s.in_use)) (some_name found.name n (sym found.leads ∙ leads)),
          count-append n (names s.in_use) s.appending,
        ))
        few in
    subst (λ k. Inv (record s { handles = k; appending = n ∷ s.appending }))
      (ap (after_of h) (sym w.given ∙ given))
      (record {
        sound = table-Sound s.handles w.table inv.sound;
        bits = inv.bits;
        leads = inv.leads;
        refs =
            Valid-recount w.table (n ∷ users s) (names s.in_use ++ (n ∷ s.appending)) w.valid
              (λ m. count-append_middle m n (names s.in_use) s.appending);
      })

pub unref-Inv :
    (s : Session) (n : ℕ) (stat : Stat) (h : Handles)
    → Inv s
    → 0 < count n s.appending
    → unref stored n s.handles ≡ some (stat, h)
    → Inv (record s { handles = h; appending = remove n s.appending })
unfolding after_of
unref-Inv s n stat h inv used given =
    let u =
      unref-Unreferred s.handles n (users s) inv.refs
        (omega (arith, count-append n (names s.in_use) s.appending)) in
    subst (λ k. Inv (record s { handles = k; appending = remove n s.appending }))
      (ap (after_of h) (sym u.given ∙ given))
      (record {
        sound = table-Sound s.handles u.table inv.sound;
        bits = inv.bits;
        leads = inv.leads;
        refs =
            Valid-recount u.table (remove n (users s)) (names s.in_use ++ remove n s.appending)
              u.valid (λ m. count_append-remove_behind m n (names s.in_use) s.appending used);
      })
