-- ===== src/File/Handles/Reached.antt =====
-- The handles of src/gdpfs_file.c in every state that its operations reach.
use mathlib.Core.Path.{subst}
use gdpfs.Base.{
  ℕ, ◌+◌, ◌^◌, ◌<◌, ◌≡◌, ◌≢◌, refl, ap, ◌∙◌, sym, Option, none, some, List, arith, get_or, set,
}
use gdpfs.Stat.{Stat}
use gdpfs.Bitmap.Change.{bit_at}
use gdpfs.File.OpenFiles.{Shared, Chkpt, count, chkpt_finish}
use gdpfs.File.OpenFiles.Stored.{stored, IsStored, IsStored-stored}
use gdpfs.File.Handles.Stored.{unref-Within, file_close-Within, open_file-Within}
use gdpfs.File.OpenFiles.Counts.{count-remove, count_other-remove}
use gdpfs.File.OpenFiles.Laws.{refs_of, Valid}
use gdpfs.File.OpenFiles.Reached.{chkpt_finish-Consistent}
use gdpfs.File.Handles.{
  max_fhs, Handles, Opening, open_file, file_close, Session, names, users, forget, Step, opens,
  closes, writes, appended, checkpointed, Reach, begins, later,
}
use gdpfs.File.Handles.Counts.{count-append}
use gdpfs.File.Handles.Laws.{
  Inv, Leads, is_used-Leads, table-Sound, Changed-at, Changed-other, some_name,
}
use gdpfs.File.Handles.Close.{Closed, file_close-Closed}
use gdpfs.File.Handles.Open.{Opened, open_file-Opened}
use gdpfs.File.Handles.Invariant.{
  no_session-Inv, opened-Inv, forget-Inv, write_begins-Inv, unref-Inv,
}

Step-Inv : {s t : Session} → Step s t → Inv s → Inv t
Step-Inv (opens c beyond n o r h s few given) inv = opened-Inv s n o.inits r h inv (
    subst (Opened s.handles (users s) n o.inits)
      (open_file-Within c beyond n o s.handles (r, h) given)
      (open_file-Opened s.handles (users s) n inv.sound inv.refs few beyond o))
Step-Inv (closes c fh stat h s used given) inv =
    let found = is_used-Leads s.handles.files s.in_use fh used inv.leads in
    forget-Inv s fh stat h found inv used (
      subst (Closed s.handles fh found.name (users s))
        (file_close-Within c fh s.handles (stat, h) given)
        (file_close-Closed s.handles fh found.name (users s) inv.sound found.small found.leads
          inv.refs
          (omega (arith, found.counted, count-append found.name (names s.in_use) s.appending))))
Step-Inv (writes dirty fh n h s leads used few given) inv =
    write_begins-Inv s dirty fh n h inv leads used few given
Step-Inv (appended c n stat h s used given) inv =
    unref-Inv s n stat h inv used (unref-Within c n s.handles (stat, h) given)
Step-Inv (checkpointed n o s at flushing) inv = record {
  sound = table-Sound s.handles (chkpt_finish n o s.handles.table) inv.sound;
  bits = inv.bits;
  leads = inv.leads;
  refs =
      chkpt_finish-Consistent n o (record { table = s.handles.table; held = users s }) inv.refs at;
}

Reach-Inv : (s : Session) → Reach s → Inv s
Reach-Inv s begins = no_session-Inv
Reach-Inv s (later {s = t} r step) = Step-Inv step (Reach-Inv t r)

used_bit-Leads :
    (s : Session) (fh : ℕ)
    → Inv s
    → fh < max_fhs
    → bit_at s.handles.fhs fh ≡ 1
    → Leads s.handles.files s.in_use fh
used_bit-Leads s fh inv lt set =
    is_used-Leads s.handles.files s.in_use fh (omega (arith, inv.bits fh lt)) inv.leads

-- In every state that is reached by openings, closings of handles in use, writes, finished appends and
-- finished checkpoints, each of which runs as a whole, a handle whose bit is set leads to a file object
-- that has not been freed and whose count of references is not 0.
pub Reach-Alive :
    (s : Session) (fh : ℕ)
    → Reach s
    → fh < max_fhs
    → bit_at s.handles.fhs fh ≡ 1
    → (n : ℕ) × (o : Shared) × (get_or s.handles.files fh none ≡ some n)
      × (s.handles.table.objects n ≡ some o)
      × (0 < o.ref_count)
Reach-Alive s fh r lt set =
    let inv = Reach-Inv s r in
    let found = used_bit-Leads s fh inv lt set in
    let (o, at, refs) = with_object (s.handles.table.objects found.name) (
      omega (
        arith,
        found.counted,
        inv.refs.consistent.counted found.name,
        count-append found.name (names s.in_use) s.appending,
      )) in
    (found.name, o, found.leads, at, refs)
  where
    with_object :
        (o : Option Shared) → 0 < refs_of o → (p : Shared) × (o ≡ some p) × (0 < p.ref_count)
    with_object none h = absurd (omega arith)
    with_object (some p) h = (p, refl, h)

-- In every state that is so reached, `open_file` of a log whose file can take two more references ends
-- with no failed assertion, where a checkpoint can be stored. It gives out the lowest handle that is free,
-- which then leads to the file, with one more reference to it, and another where `do_write` takes one for
-- the information of a new file; or it fails, and the same handles are in use and lead to the same
-- files, which have the same references. A checkpoint can be stored where the information is
-- read, `get_dirty` fails no assertion and the log takes the record. That the loading of the information
-- and the making of the index end at all is supposed.
pub Reach-Opened :
    (c : Chkpt) (s : Session) (beyond n : ℕ) (o : Opening)
    → Reach s
    → IsStored c
    → count n (users s) + 2 < 2 ^ 32
    → Opened s.handles (users s) n o.inits (open_file c beyond n o s.handles)
Reach-Opened c s beyond n o r h few =
    let inv = Reach-Inv s r in
    subst (λ c. Opened s.handles (users s) n o.inits (open_file c beyond n o s.handles))
      (sym (IsStored-stored c h))
      (open_file-Opened s.handles (users s) n inv.sound inv.refs few beyond o)

-- What closing a handle does: no handle but it is free that was not, all lead where they led, and the file
-- has one reference less.
pub record ClosedOne (h : Handles) (fh n : ℕ) (after : Handles) : Type 0 where
  pub free : bit_at after.fhs fh ≡ 0
  pub others : (w : ℕ) → w ≢ fh → bit_at after.fhs w ≡ bit_at h.fhs w
  pub files : after.files ≡ h.files
  pub less : refs_of (after.table.objects n) + 1 ≡ refs_of (h.table.objects n)
  pub same : (m : ℕ) → m ≢ n → refs_of (after.table.objects m) ≡ refs_of (h.table.objects m)

Closed-ClosedOne :
    (h : Handles) (fh n : ℕ) (held : List ℕ) (result : Option (Stat × Handles))
    → Valid (record { table = h.table; held = held })
    → 0 < count n held
    → (c : Closed h fh n held result) → ClosedOne h fh n (record h { fhs = c.fhs; table = c.table })
Closed-ClosedOne h fh n held result v used c = record {
  free = Changed-at h.fhs c.fhs fh 0 c.changed;
  others = λ w d. Changed-other h.fhs c.fhs fh 0 w c.changed d;
  files = refl;
  less = omega (arith, c.valid.consistent.counted n, v.consistent.counted n, count-remove n held);
  same = λ m d.
      sym (c.valid.consistent.counted m) ∙ count_other-remove m n held d ∙ v.consistent.counted m;
}

closes_one :
    (s : Session) (fh : ℕ)
    → Reach s
    → fh < max_fhs
    → bit_at s.handles.fhs fh ≡ 1
    → (n : ℕ) × (after : Handles) × (get_or s.handles.files fh none ≡ some n)
      × (file_close stored fh s.handles ≡ some (Stat.ok, after))
      × ClosedOne s.handles fh n after
closes_one s fh r lt set =
    let inv = Reach-Inv s r in
    let found = used_bit-Leads s fh inv lt set in
    let used : 0 < count found.name (users s) =
      omega (arith, found.counted, count-append found.name (names s.in_use) s.appending) in
    let c =
      file_close-Closed s.handles fh found.name (users s) inv.sound lt found.leads inv.refs used in
    (
      found.name,
      _,
      found.leads,
      c.given,
      Closed-ClosedOne s.handles fh found.name (users s) _ inv.refs used c,
    )

-- In every state that is so reached, `gdpfs_file_close` of a handle in use, that is of one whose bit is
-- set, gives the status OK and fails no assertion, where a checkpoint can be stored: the information is
-- read, `get_dirty` fails no assertion and the log takes the record. Afterwards the handle is free, the
-- other handles are as before, and the file to which it led has one reference less, the other files as
-- many as before.
pub Reach-ClosedOne :
    (c : Chkpt) (s : Session) (fh : ℕ)
    → Reach s
    → IsStored c
    → fh < max_fhs
    → bit_at s.handles.fhs fh ≡ 1
    → (n : ℕ) × (after : Handles) × (get_or s.handles.files fh none ≡ some n)
      × (file_close c fh s.handles ≡ some (Stat.ok, after))
      × ClosedOne s.handles fh n after
Reach-ClosedOne c s fh r h lt set =
    let (n, after, leads, given, one) = closes_one s fh r lt set in
    (n, after, leads, ap (λ c. file_close c fh s.handles) (IsStored-stored c h) ∙ given, one)

closes_twice :
    (s : Session) (fh g n : ℕ)
    → Reach s
    → fh < max_fhs
    → g < max_fhs
    → fh ≢ g
    → bit_at s.handles.fhs fh ≡ 1
    → bit_at s.handles.fhs g ≡ 1
    → get_or s.handles.files fh none ≡ some n
    → get_or s.handles.files g none ≡ some n
    → (after : Handles) × (again : Handles) × (file_close stored fh s.handles
        ≡ some (Stat.ok, after))
      × (file_close stored fh after ≡ some (Stat.ok, again))
      × (refs_of (again.table.objects n) + 2 ≡ refs_of (s.handles.table.objects n))
      × (bit_at again.fhs g ≡ 1)
closes_twice s fh g n r lt lt' d set set' leads leads' =
    let inv = Reach-Inv s r in
    let found = used_bit-Leads s fh inv lt set in
    let name : found.name ≡ n = some_name found.name n (sym found.leads ∙ leads) in
    let used : 0 < count found.name (users s) =
      omega (arith, found.counted, count-append found.name (names s.in_use) s.appending) in
    let c =
      file_close-Closed s.handles fh found.name (users s) inv.sound lt found.leads inv.refs used in
    let one = Closed-ClosedOne s.handles fh found.name (users s) _ inv.refs used c in
    let after : Handles = record s.handles { fhs = c.fhs; table = c.table } in
    let inv' =
      forget-Inv s fh Stat.ok after found inv (omega (arith, inv.bits fh lt))
        (subst (Closed s.handles fh found.name (users s)) c.given c) in
    let t : Session = record s { handles = after; in_use = forget fh s.in_use } in
    let found' = used_bit-Leads t g inv' lt' (one.others g (λ e. d (sym e)) ∙ set') in
    let name' : found'.name ≡ found.name =
      some_name found'.name n (sym found'.leads ∙ leads') ∙ sym name in
    let used' : 0 < count found.name (users t) = omega (
      arith,
      found'.counted,
      ap (λ k. count k (names t.in_use)) name',
      count-append found.name (names t.in_use) s.appending,
    ) in
    let c' =
      file_close-Closed after fh found.name (users t) inv'.sound lt found.leads inv'.refs used' in
    let two = Closed-ClosedOne after fh found.name (users t) _ inv'.refs used' c' in
    (
      after,
      record after { fhs = c'.fhs; table = c'.table },
      c.given,
      c'.given,
      subst (λ k. refs_of (c'.table.objects k) + 2 ≡ refs_of (s.handles.table.objects k)) name
          (omega (arith, one.less, two.less)),
      two.others g (λ e. d (sym e)) ∙ one.others g (λ e. d (sym e)) ∙ set',
    )

-- In every state that is so reached where two handles are in use and lead to one file, closing one of them
-- twice gives the status OK twice, where checkpoints can be stored both times: the information is read,
-- `get_dirty` fails no assertion and the log takes the record. The second time takes away a reference of
-- the other handle, which stays in use.
pub Reach-closed_twice :
    (c c' : Chkpt) (s : Session) (fh g n : ℕ)
    → Reach s
    → IsStored c
    → IsStored c'
    → fh < max_fhs
    → g < max_fhs
    → fh ≢ g
    → bit_at s.handles.fhs fh ≡ 1
    → bit_at s.handles.fhs g ≡ 1
    → get_or s.handles.files fh none ≡ some n
    → get_or s.handles.files g none ≡ some n
    → (after : Handles) × (again : Handles) × (file_close c fh s.handles ≡ some (Stat.ok, after))
      × (file_close c' fh after ≡ some (Stat.ok, again))
      × (refs_of (again.table.objects n) + 2 ≡ refs_of (s.handles.table.objects n))
      × (bit_at again.fhs g ≡ 1)
Reach-closed_twice c c' s fh g n r h h' lt lt' d set set' leads leads' =
    let (after, again, one, two, less, used) =
      closes_twice s fh g n r lt lt' d set set' leads leads' in
    (
      after,
      again,
      ap (λ c. file_close c fh s.handles) (IsStored-stored c h) ∙ one,
      ap (λ c. file_close c fh after) (IsStored-stored c' h') ∙ two,
      less,
      used,
    )
