-- ===== src/Base/Prog.antt =====
-- Programs over a state, which may have no result.
use mathlib.Core.Option.{Option, none, some}

-- `none`: the fuel ran out, an assertion failed, or C does not define what happens.
abbrev pub Prog : Type 0 → Type 0 → Type 0
Prog S A = S → Option (A × S)

module _ {S : Type 0} where
  abbrev pub give : {A : Type 0} → A → Prog S A
  give a s = some (a, s)

  abbrev pub stuck : {A : Type 0} → Prog S A
  stuck s = none

  -- An operation that always returns.
  abbrev pub call : {A : Type 0} → (S → A × S) → Prog S A
  call f s = some (f s)

  abbrev pub then_do : {A B : Type 0} → Option (A × S) → (A → Prog S B) → Option (B × S)
  then_do none k = none
  then_do (some r) k = k r.0 r.1

  infixl 5 ◌>>=◌
  abbrev pub ◌>>=◌ : {A B : Type 0} → Prog S A → (A → Prog S B) → Prog S B
  ◌>>=◌ m k s = then_do (m s) k
