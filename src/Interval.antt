-- ===== src/Interval.antt =====
-- src/figtree/interval.c: closed intervals of byte indices.
pub mod Laws
mod Tests
use gdpfs.Base.{
  ℕ, ◌≤◌, ◌^◌, ◌-◌, Bool, true, false, ◌&&◌, not, Option, none, some, ltb, leb, ◌==◌, if◌then◌else◌,
}

-- `byte_index_t` is `uint32_t`.
abbrev pub byte_index_max : ℕ
byte_index_max = 2 ^ 32 - 1

abbrev pub byte_index_min : ℕ
byte_index_min = 0

pub record Interval : Type 0 where
  pub left : ℕ
  pub right : ℕ
  pub nonempty : Bool

-- `i_init`
abbrev pub init : ℕ → ℕ → Interval
init l r = record { left = l; right = r; nonempty = true }

-- `i_new`; `none` is the failed assertion.
unfoldable pub create : ℕ → ℕ → Option Interval
create l r = if leb l r then some (init l r) else none

unfoldable pub contains_val : Interval → ℕ → Bool
contains_val i x = leb i.left x && leb x i.right

unfoldable pub contains_int : Interval → Interval → Bool
contains_int i o = leb i.left o.left && leb o.right i.right

-- the macros MAX and MIN
abbrev max_index : ℕ → ℕ → ℕ
max_index x y = if ltb y x then x else y

abbrev min_index : ℕ → ℕ → ℕ
min_index x y = if ltb x y then x else y

-- `none` is the failed assertion. The `else` branch leaves `nonempty` as it was.
unfoldable pub restrict_range : Interval → ℕ → ℕ → Bool → Option Interval
restrict_range i l r allow_empty =
    let new_left = max_index i.left l in
    let new_right = min_index i.right r in
    if allow_empty && ltb new_right new_left
    then some (record { left = byte_index_max; right = byte_index_min; nonempty = false })
    else if leb new_left new_right
    then some (record i { left = new_left; right = new_right })
    else none

unfoldable pub restrict_int : Interval → Interval → Bool → Option Interval
unfolding restrict_range
restrict_int i to allow_empty = restrict_range i to.left to.right allow_empty

unfoldable pub overlaps : Interval → Interval → Bool
overlaps i o = leb o.left i.right && leb i.left o.right

unfoldable pub left_overlaps : Interval → Interval → Bool
unfolding contains_val
left_overlaps i o = i.nonempty && contains_val o i.left

unfoldable pub right_overlaps : Interval → Interval → Bool
unfolding contains_val
right_overlaps i o = i.nonempty && contains_val o i.right

unfoldable pub left_of_val : Interval → ℕ → Bool
left_of_val i x = i.nonempty && ltb i.right x

unfoldable pub left_of_int : Interval → Interval → Bool
unfolding left_of_val
left_of_int i o = left_of_val i o.left

unfoldable pub right_of_val : Interval → ℕ → Bool
right_of_val i x = i.nonempty && ltb x i.left

unfoldable pub right_of_int : Interval → Interval → Bool
unfolding right_of_val
right_of_int i o = right_of_val i o.right

-- equality of two Booleans
abbrev same : Bool → Bool → Bool
same true b = b
same false b = not b

unfoldable pub equals : Interval → Interval → Bool
equals i o =
    if same i.nonempty o.nonempty
    then (if i.nonempty then i.left == o.left && i.right == o.right else true)
    else false
