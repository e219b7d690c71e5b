-- ===== src/File/Handles/Counts.antt =====
-- Counts of names in two lists of references.
use native.Mathlib.Decide.{ℕ_discrete}
use gdpfs.Base.{ℕ, suc, ◌+◌, ◌-◌, ◌<◌, ◌≡◌, ◌≢◌, ap, ◌∙◌, sym, List, [], ◌∷◌, ◌++◌, arith}
use gdpfs.File.OpenFiles.{remove, count}
use gdpfs.File.OpenFiles.Counts.{is_same, is_other, count-here, count-remove, count_other-remove}

-- A name that is removed and put back.
pub count-put_back : (m n : ℕ) (l : List ℕ) → 0 < count n l → count m (n ∷ remove n l) ≡ count m l
count-put_back m n l h = elim (ℕ_discrete m n) [
  | yes e ↦
      ap (λ k. count k (n ∷ remove n l)) e
      ∙ count-here n (remove n l)
      ∙ last_one (count-remove n l)
      ∙ ap (λ k. count k l) (sym e)
  | no d ↦ rw (is_other m n d) (count_other-remove m n l d)
]
  where
    last_one : count n (remove n l) ≡ count n l - 1 → suc (count n (remove n l)) ≡ count n l
    last_one e = omega arith

pub count-append : (m : ℕ) (xs ys : List ℕ) → count m (xs ++ ys) ≡ count m xs + count m ys
count-append m [] ys = omega arith
count-append m (x ∷ xs) ys = elim (ℕ_discrete m x) [
  | yes e ↦ rw (is_same m x e) (omega (arith, count-append m xs ys))
  | no d ↦ rw (is_other m x d) (count-append m xs ys)
]

-- The count of a name where another or the same is removed.
data Removed (m n : ℕ) (l : List ℕ) : Type 0 where
  of_name : m ≡ n → count m (remove n l) ≡ count m l - 1 → Removed m n l
  of_other : m ≢ n → count m (remove n l) ≡ count m l → Removed m n l

removed : (m n : ℕ) (l : List ℕ) → Removed m n l
removed m n l = elim (ℕ_discrete m n) [
  | yes e ↦
      of_name e
        (ap (λ k. count k (remove n l)) e ∙ count-remove n l ∙ ap (λ k. count k l - 1) (sym e))
  | no d ↦ of_other d (count_other-remove m n l d)
]

pub count_append-remove :
    (m n : ℕ) (xs ys : List ℕ)
    → 0 < count n xs
    → count m (remove n xs ++ ys) ≡ count m (remove n (xs ++ ys))
count_append-remove m n xs ys used = both (removed m n xs) (removed m n (xs ++ ys))
  where
    both :
        Removed m n xs
        → Removed m n (xs ++ ys)
        → count m (remove n xs ++ ys) ≡ count m (remove n (xs ++ ys))
    both (of_name e l) (of_name e' r) =
        omega (arith, count-append m (remove n xs) ys, count-append m xs ys, ap (λ k. count k xs) e)
    both (of_name e l) (of_other d r) = absurd (d e)
    both (of_other d l) (of_name e r) = absurd (d e)
    both (of_other d l) (of_other d' r) =
        omega (arith, count-append m (remove n xs) ys, count-append m xs ys)

pub count_append-remove_behind :
    (m n : ℕ) (xs ys : List ℕ)
    → 0 < count n ys
    → count m (xs ++ remove n ys) ≡ count m (remove n (xs ++ ys))
count_append-remove_behind m n xs ys used = both (removed m n ys) (removed m n (xs ++ ys))
  where
    both :
        Removed m n ys
        → Removed m n (xs ++ ys)
        → count m (xs ++ remove n ys) ≡ count m (remove n (xs ++ ys))
    both (of_name e l) (of_name e' r) =
        omega (arith, count-append m xs (remove n ys), count-append m xs ys, ap (λ k. count k ys) e)
    both (of_name e l) (of_other d r) = absurd (d e)
    both (of_other d l) (of_name e r) = absurd (d e)
    both (of_other d l) (of_other d' r) =
        omega (arith, count-append m xs (remove n ys), count-append m xs ys)

pub count-append_middle :
    (m n : ℕ) (xs ys : List ℕ) → count m (xs ++ (n ∷ ys)) ≡ count m (n ∷ (xs ++ ys))
count-append_middle m n xs ys = elim (ℕ_discrete m n) [
  | yes e ↦ count-append m xs (n ∷ ys) ∙ rw (is_same m n e) (omega (arith, count-append m xs ys))
  | no d ↦ count-append m xs (n ∷ ys) ∙ rw (is_other m n d) (omega (arith, count-append m xs ys))
]
