-- ===== src/Interval/Laws.antt =====
-- What the tests and restrictions of src/figtree/interval.c say of the bytes in an interval.
use gdpfs.Base.{ℕ, ◌≤◌, ◌≡◌, ◌↔◌, ◌⊎◌, Bool, true, false, some, arith, max}
use gdpfs.Interval.{
  Interval, byte_index_max, restrict_range, overlaps, left_of_int, right_of_int, equals,
}

-- The bytes of an interval.
abbrev pub In : ℕ → Interval → Type 0
In x i = (i.left ≤ x) × (x ≤ i.right)

-- What `i_init` and `i_restrict_range` produce: a proper range, or the special empty value.
pub record IsValid (i : Interval) : Type 0 where
  pub proper : i.nonempty ≡ true → i.left ≤ i.right
  pub special : i.nonempty ≡ false → (i.left ≡ byte_index_max) × (i.right ≡ 0)
  pub fits : i.right ≤ byte_index_max

-- On every outcome of a restriction of a valid interval the bytes are those of both ranges, and
-- the result is valid again.
restrict_range-inter :
    (i j : Interval) (l r : ℕ) (b : Bool)
    → IsValid i
    → restrict_range i l r b ≡ some j
    → IsValid j × ((x : ℕ) → In x j ↔ (In x i × (l ≤ x) × (x ≤ r)))
unfolding restrict_range
restrict_range-inter i j l r b v e = (ground arith, λ x. (ground arith, ground arith))

-- Two valid, nonempty intervals overlap exactly when they share a byte.
pub overlaps_iff :
    (i j : Interval)
    → IsValid i
    → IsValid j
    → i.nonempty ≡ true
    → j.nonempty ≡ true
    → (overlaps i j ≡ true) ↔ ((x : ℕ) × In x i × In x j)
unfolding overlaps
overlaps_iff i j v w p q =
    (λ h. (max i.left j.left, ground arith, ground arith), λ (x, a, b). ground arith)

-- Of two valid, nonempty intervals exactly one holds: the first lies left of the second, it
-- lies right of it, or they overlap.
order_trichotomy :
    (i j : Interval)
    → IsValid i
    → IsValid j
    → i.nonempty ≡ true
    → j.nonempty ≡ true
    → ((left_of_int i j ≡ true) × (right_of_int i j ≡ false) × (overlaps i j ≡ false))
      ⊎ ((left_of_int i j ≡ false) × (right_of_int i j ≡ true) × (overlaps i j ≡ false))
      ⊎ ((left_of_int i j ≡ false) × (right_of_int i j ≡ false) × (overlaps i j ≡ true))
unfolding left_of_int right_of_int overlaps
order_trichotomy i j v w p q = ground arith

-- `i_equals` of two valid intervals holds exactly when they have the same bytes.
equals_iff :
    (i j : Interval) → IsValid i → IsValid j → (equals i j ≡ true) ↔ ((x : ℕ) → In x i ↔ In x j)
unfolding equals
equals_iff i j v w = (
  λ h x. (ground arith, ground arith),
  λ h. ground (arith, h i.left, h i.right, h j.left, h j.right),
)
