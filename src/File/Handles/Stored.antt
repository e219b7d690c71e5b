-- ===== src/File/Handles/Stored.antt =====
-- What the outcome of a checkpoint changes in the operations on the handles of src/gdpfs_file.c: they have
-- the result that they have with a checkpoint that is stored, or none.
use gdpfs.Base.{ℕ, ◌==◌, refl, ap, ◌∙◌, Bool, true, false, if◌then◌else◌, Option, none, some}
use gdpfs.Base.Prog.{Prog, give, then_do}
use gdpfs.Stat.{Stat, is_ok}
use gdpfs.Bitmap.{no_value}
use gdpfs.File.OpenFiles.{Shared, Table, Chkpt, release_file}
use gdpfs.File.OpenFiles.Stored.{stored, Within, then_do-Within, release_file-Within}
use gdpfs.File.Handles.{
  Handles, with_table, release_fh, lookup_fh, refer, unref, close_found, file_close, Opening,
  open_checked, open_refused, open_entered, open_found, reserve_fh, open_file,
}

with_table-Within :
    (s : Handles) (x y : Option Table) → Within x y → Within (with_table s x) (with_table s y)
with_table-Within s none y h = λ a e. absurd cc
with_table-Within s (some t) y h = λ a e. ap (with_table s) (h t refl) ∙ e

pub unref-Within : (c : Chkpt) (n : ℕ) (s : Handles) → Within (unref c n s) (unref stored n s)
unfolding unref
unref-Within c n s =
    with_table-Within s (release_file c n (s.table.objects n) s.table)
      (release_file stored n (s.table.objects n) s.table)
      (release_file-Within c n (s.table.objects n) s.table)

close_found-Within :
    (c : Chkpt) (fh : ℕ) (o : Option ℕ) (s : Handles)
    → Within (close_found c fh o s) (close_found stored fh o s)
unfolding close_found
close_found-Within c fh none s = λ a e. e
close_found-Within c fh (some n) s =
    then_do-Within (release_fh fh s) _ _ (λ a t. unref-Within c n t)

pub file_close-Within :
    (c : Chkpt) (fh : ℕ) (s : Handles) → Within (file_close c fh s) (file_close stored fh s)
unfolding file_close
file_close-Within c fh s = then_do-Within (lookup_fh fh s) _ _ (λ o t. close_found-Within c fh o t)

same_then-Within :
    {A B : Type 0} (x y : Option (A × Handles)) (k : A → Prog Handles B)
    → Within x y
    → Within (then_do x k) (then_do y k)
same_then-Within none y k h = λ a e. absurd cc
same_then-Within (some r) y k h = λ a e. ap (λ z. then_do z k) (h r refl) ∙ e

branch-Within :
    {A : Type 0} (b : Bool) (p p' q q' : Prog Handles A) (s : Handles)
    → Within (p s) (p' s)
    → Within (q s) (q' s)
    → Within ((if b then p else q) s) ((if b then p' else q') s)
branch-Within true p p' q q' s h k = h
branch-Within false p p' q q' s h k = k

open_refused-Within :
    (c : Chkpt) (stat : Stat) (fh : ℕ) (s : Handles)
    → Within (open_refused c stat fh s) (open_refused stored stat fh s)
unfolding open_refused
open_refused-Within c stat fh s =
    same_then-Within (file_close c fh s) (file_close stored fh s) _ (file_close-Within c fh s)

open_entered-Within :
    (c : Chkpt) (n : ℕ) (o : Opening) (fh : ℕ) (s : Handles)
    → Within (open_entered c n o fh s) (open_entered stored n o fh s)
unfolding open_entered
open_entered-Within c n o fh s = then_do-Within (refer n fh s) _ _ (λ a t.
    branch-Within (is_ok o.checked) (open_checked n o fh) (open_checked n o fh)
      (open_refused c o.checked fh) (open_refused stored o.checked fh) t (λ r e. e)
      (open_refused-Within c o.checked fh t))

open_found-Within :
    (c : Chkpt) (n : ℕ) (o : Opening) (fh : ℕ) (found : Option Shared) (s : Handles)
    → Within (open_found c n o fh found s) (open_found stored n o fh found s)
unfolding open_found
open_found-Within c n o fh none s =
    branch-Within (is_ok o.made) (open_entered c n o fh) (open_entered stored n o fh) _ _ s
      (open_entered-Within c n o fh s) (λ r e. e)
open_found-Within c n o fh (some x) s = open_entered-Within c n o fh s

pub open_file-Within :
    (c : Chkpt) (beyond n : ℕ) (o : Opening) (s : Handles)
    → Within (open_file c beyond n o s) (open_file stored beyond n o s)
unfolding open_file
open_file-Within c beyond n o s = then_do-Within (reserve_fh beyond s) _ _ (λ fh t.
    branch-Within (fh == no_value) (give (Stat.oomem, no_value)) (give (Stat.oomem, no_value))
      (λ s. open_found c n o fh (s.table.objects n) s)
      (λ s. open_found stored n o fh (s.table.objects n) s) t (λ r e. e)
      (open_found-Within c n o fh (t.table.objects n) t))
