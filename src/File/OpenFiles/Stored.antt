-- ===== src/File/OpenFiles/Stored.antt =====
-- What the outcome of a checkpoint changes in the operations of src/gdpfs_file.c: they have the result
-- that they have with a checkpoint that is stored, or none.
use gdpfs.Base.{
  ℕ, ◌≡◌, ◌==◌, ◌^◌, ◌%◌, ◌+◌, ◌-◌, Bool, true, false, Option, none, some, if◌then◌else◌, ltb,
}
use gdpfs.Base.Prog.{Prog, then_do}
use gdpfs.File.OpenFiles.{
  rc_cap, Shared, Table, update, Chkpt, stores, file_dealloc, evict, recently_closed_insert,
  file_unref, release_file,
}

-- The checkpoint is stored.
abbrev pub stored : Chkpt
stored = record { info_read = true; nodes_read = true; taken = true }

-- The information is read, no assertion fails and the log takes the record.
pub record IsStored (c : Chkpt) : Type 0 where
  pub info_read : c.info_read ≡ true
  pub nodes_read : c.nodes_read ≡ true
  pub taken : c.taken ≡ true

pub IsStored-stored : (c : Chkpt) → IsStored c → c ≡ stored
IsStored-stored c h =
    λ i. record { info_read = h.info_read i; nodes_read = h.nodes_read i; taken = h.taken i }

-- The second has every result that the first has.
abbrev pub Within : {A : Type 0} → Option A → Option A → Type 0
Within {A = A} x y = (a : A) → x ≡ some a → y ≡ some a

pub if-Within :
    {A : Type 0} (t : Bool) (x x' y y' : Option A)
    → Within x x'
    → Within y y'
    → Within (if t then x else y) (if t then x' else y')
if-Within true x x' y y' h k = h
if-Within false x x' y y' h k = k

pub then_do-Within :
    {S A B : Type 0} (r : Option (A × S)) (k k' : A → Prog S B)
    → ((a : A) (s : S) → Within (k a s) (k' a s))
    → Within (then_do r k) (then_do r k')
then_do-Within none k k' h = λ a e. e
then_do-Within (some r) k k' h = h r.0 r.1

file_dealloc-Within :
    (c : Chkpt) (n : ℕ) (s : Shared) (t : Table)
    → Within (file_dealloc c n s t) (file_dealloc stored n s t)
unfolding file_dealloc
file_dealloc-Within c n s t a e = if_stored (stores c s.changed) s.changed _ e
  where
    if_stored :
        (b changed : Bool) (x : Table)
        → (if b then some x else none) ≡ some a
        → (if stores stored changed then some x else none) ≡ some a
    if_stored true true x e = e
    if_stored true false x e = e
    if_stored false changed x e = absurd cc

evict-Within :
    (c : Chkpt) (old : ℕ) (o : Option Shared) (t : Table)
    → Within (evict c old o t) (evict stored old o t)
unfolding evict
evict-Within c old none t = λ a e. e
evict-Within c old (some o) t = file_dealloc-Within c old (record o { recently_closed = false }) t

recently_closed_insert-Within :
    (c : Chkpt) (n : ℕ) (s : Shared) (t : Table)
    → Within (recently_closed_insert c n s t) (recently_closed_insert stored n s t)
unfolding recently_closed_insert
recently_closed_insert-Within c n s t =
    if-Within s.recently_closed none none _ _ (λ a e. e)
      (if-Within (ltb rc_cap t.recent_size) none none _ _ (λ a e. e)
        (if-Within (t.recent_size == rc_cap) _ _ _ _ (evict-Within c _ _ _) (λ a e. e)))

pub release_file-Within :
    (c : Chkpt) (n : ℕ) (o : Option Shared) (t : Table)
    → Within (release_file c n o t) (release_file stored n o t)
unfolding release_file file_unref
release_file-Within c n none t = λ a e. e
release_file-Within c n (some s) t =
    let s' = record s { ref_count = (s.ref_count + 2 ^ 32 - 1) % 2 ^ 32 } in
    if-Within (s'.ref_count == 0) _ _ (some (update n s' t)) (some (update n s' t))
      (recently_closed_insert-Within c n s' (update n s' t)) (λ a e. e)
