-- ===== src/File/OpenFiles/Counts.antt =====
-- How often a file is in the lists of src/gdpfs_file.c.
use native.Mathlib.Decide.{ℕ_discrete}
use gdpfs.Base.{
  take, ℕ, zero, suc, ◌+◌, ◌-◌, ◌<◌, ◌≡◌, ◌≢◌, refl, ap, ◌∙◌, sym, Bool, true, false, List, [], ◌∷◌,
  arith, ◌==◌, if◌then◌else◌, length,
}
use gdpfs.File.OpenFiles.{count, remove, pop_back}

pub is_same : (m n : ℕ) → m ≡ n → (m == n) ≡ true
is_same m n e = ground arith

pub is_other : (m n : ℕ) → m ≢ n → (m == n) ≡ false
is_other m n e = ground arith

pub count-here : (n : ℕ) (l : List ℕ) → count n (n ∷ l) ≡ suc (count n l)
count-here n l = rw (is_same n n refl) refl

pub count-there : (m n : ℕ) (l : List ℕ) → m ≢ n → count m (n ∷ l) ≡ count m l
count-there m n l d = rw (is_other m n d) refl

pub count-remove : (n : ℕ) (l : List ℕ) → count n (remove n l) ≡ count n l - 1
unfolding remove
count-remove n [] = omega arith
count-remove n (m ∷ l) = elim (ℕ_discrete n m) [
  | yes e ↦ rw (is_same n m e) (omega arith)
  | no d ↦ rw (is_other n m d, is_other n m d) (count-remove n l)
]

pub count_other-remove : (m n : ℕ) (l : List ℕ) → m ≢ n → count m (remove n l) ≡ count m l
unfolding remove
count_other-remove m n [] d = refl
count_other-remove m n (k ∷ l) d = elim (ℕ_discrete n k) [
  | yes e ↦ rw (is_same n k e) (sym (count-there m k l (λ p. d (p ∙ sym e))))
  | no e ↦ rw (is_other n k e) (ap (λ c. if m == k then suc c else c) (count_other-remove m n l d))
]

pub length-remove : (n : ℕ) (l : List ℕ) → 0 < count n l → length (remove n l) + 1 ≡ length l
unfolding remove
length-remove n [] h = absurd (omega arith)
length-remove n (m ∷ l) h = elim (ℕ_discrete n m) [
  | yes e ↦ rw (is_same n m e) (omega arith)
  | no d ↦
      rw (is_other n m d) (omega (arith, length-remove n l (omega (arith, h, count-there n m l d))))
]

-- What is left has one less of the last, and as many of all others.
pub record Popped (m : ℕ) (l front : List ℕ) (last : ℕ) : Type 0 where
  pub size : length front ≡ length l
  pub of_last : count last (m ∷ l) ≡ suc (count last front)
  pub of_other : (k : ℕ) → k ≢ last → count k (m ∷ l) ≡ count k front

pub pop_back-Popped : (m : ℕ) (l : List ℕ) → Popped m l (pop_back m l).0 (pop_back m l).1
unfolding pop_back
pop_back-Popped m [] = record {
  size = refl;
  of_last = count-here m [];
  of_other = λ k d. count-there k m [] d;
}
pop_back-Popped m (k ∷ ks) =
    let p = pop_back-Popped k ks in
    record {
      size = ap suc p.size;
      of_last =
          ap (λ c. if (pop_back k ks).1 == m then suc c else c) p.of_last
          ∙ pushed ((pop_back k ks).1 == m) (count (pop_back k ks).1 (pop_back k ks).0);
      of_other = λ j d. ap (λ c. if j == m then suc c else c) (p.of_other j d);
    }
  where
    pushed : (t : Bool) (c : ℕ) → (if t then suc (suc c) else suc c) ≡ suc (if t then suc c else c)
    pushed true c = refl
    pushed false c = refl

pub pop_back-take : (m : ℕ) (l : List ℕ) (n : ℕ) → n ≡ length l → (pop_back m l).0 ≡ take n (m ∷ l)
unfolding pop_back
pop_back-take m [] zero e = refl
pop_back-take m [] (suc n) e = absurd (omega arith)
pop_back-take m (k ∷ ks) zero e = absurd (omega arith)
pop_back-take m (k ∷ ks) (suc n) e = ap (λ l. m ∷ l) (pop_back-take k ks n (omega arith))
