-- ===== src/Figtree/Heap.antt =====
-- The data types of src/figtree/figtreenode.h and src/figtree/utils.h, the heap on which the nodes
-- live, and commands over it. An array with its length is the list of its live elements.
use gdpfs.Base.{
  ◌≡◌, ◌≢◌, arith, ℕ, Bool, true, false, Option, none, some, List, ◌==◌, if◌then◌else◌, suc,
}
use gdpfs.Interval.{Interval}

abbrev pub Ptr : Type 0
Ptr = ℕ

abbrev pub null : Ptr
null = 0

-- `struct ft_ent`. Values are only moved, never computed with.
pub record Entry : Type 0 where
  pub irange : Interval
  pub value : ℕ

-- `struct subtree_ptr`
pub record Subtree : Type 0 where
  pub recno : ℕ
  pub offset : ℕ
  pub st : Ptr
  pub inmemory : Bool

-- `struct ft_node`
pub record Node : Type 0 where
  pub entries : List Entry
  pub subtrees : List Subtree
  pub height : ℕ
  pub dirty : Bool

-- Addresses from `next` on are unused.
pub record Heap : Type 0 where
  pub next : Ptr
  pub cell : Ptr → Option Node

-- `failed` is an assertion that does not hold, or an access through a pointer to no node.
pub data Outcome (A : Type 0) : Type 0 where
  done : A → Heap → Outcome A
  failed : Outcome A
  no_fuel : Outcome A

abbrev pub Cmd : Type 0 → Type 0
Cmd A = Heap → Outcome A

abbrev pub return : {A : Type 0} → A → Cmd A
return = done

abbrev pub continue : {A B : Type 0} → Outcome A → (A → Cmd B) → Outcome B
continue (done a h) k = k a h
continue failed k = failed
continue no_fuel k = no_fuel

infixl 5 ◌>>=◌ ◌>>◌
abbrev pub ◌>>=◌ : {A B : Type 0} → Cmd A → (A → Cmd B) → Cmd B
◌>>=◌ m k h = continue (m h) k

abbrev pub ◌>>◌ : {B : Type 0} → Cmd (Unit {0}) → Cmd B → Cmd B
◌>>◌ m k h = continue (m h) (λ _. k)

abbrev pub fail : {A : Type 0} → Cmd A
fail _ = failed

abbrev pub out_of_fuel : {A : Type 0} → Cmd A
out_of_fuel _ = no_fuel

-- `ASSERT`
abbrev pub assert : Bool → Cmd (Unit {0})
assert true = return tt
assert false = fail

abbrev pub lift : {A : Type 0} → Option A → Cmd A
lift none = fail
lift (some a) = return a

abbrev pub update : (Ptr → Option Node) → Ptr → Option Node → Ptr → Option Node
update f p c q = if q == p then c else f q

pub ne_null : (p : Ptr) → p ≢ null → (p == null) ≡ false
ne_null p ne = ground arith

-- `*p`
unfoldable pub load : Ptr → Cmd Node
load p h = if p == null then failed else lift (h.cell p) h

unfoldable pub store : Ptr → Node → Cmd (Unit {0})
store p n h = done tt (record h { cell = update h.cell p (some n) })

-- `mem_alloc` followed by the writes that fill the node
unfoldable pub alloc : Node → Cmd Ptr
alloc n h = done h.next (record { next = suc h.next; cell = update h.cell h.next (some n) })

-- `mem_free`, which does nothing at `NULL`
unfoldable pub free : Ptr → Cmd (Unit {0})
free p h = done tt (if p == null then h else record h { cell = update h.cell p none })

pub load-done : (p : Ptr) (n : Node) (h : Heap) → p ≢ null → h.cell p ≡ some n → load p h ≡ done n h
unfolding load
load-done p n h ne held = rw (ne_null p ne, held)

-- A node as a checkpoint record of the log holds it, at a record number and an offset in the record;
-- `none` if there is no such record, if it is corrupt, or if it is no checkpoint.
abbrev pub Images : Type 0
Images = (recno offset : ℕ) → Option Node
