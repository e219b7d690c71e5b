-- ===== src/Log/Queue/Ring.antt =====
-- The logs that wait in the queue, from its front on.
use gdpfs.Base.{
  ℕ, zero, suc, ◌+◌, ◌-◌, ◌%◌, ◌<◌, ◌≤◌, ◌≡◌, ◌≢◌, refl, ap, ◌∙◌, List, [], ◌∷◌, ◌++◌, arith,
  get_or, set, get_or-set_ne,
}
use gdpfs.Dir.Entry.{Bytes}
use gdpfs.Log.Queue.{capacity, Queue, zero_name, following, store, publish, advance, front_log}

unfoldable pub ring : List Bytes → (i n : ℕ) → List Bytes
ring logs i zero = []
ring logs i (suc n) = get_or logs i zero_name ∷ ring logs (following i) n

abbrev pub count : Queue → ℕ
count q = (q.back + capacity - q.front) % capacity

unfoldable pub pending : Queue → List Bytes
unfolding ring
pending q = ring q.logs q.front (count q)

-- A slot behind the entries is written.
ring-set :
    (logs : List Bytes) (i n j : ℕ) (v : Bytes)
    → i < capacity
    → j < capacity
    → n ≤ (j + capacity - i) % capacity
    → ring (set logs j v) i n ≡ ring logs i n
unfolding ring
ring-set logs i zero j v hi hj h = refl
ring-set logs i (suc n) j v hi hj h = λ k.
    get_or-set_ne logs j i v zero_name (λ e. absurd (omega arith)) k
    ∷ ring-set logs (following i) n j v (omega arith) hj (omega arith) k

ring-snoc :
    (logs : List Bytes) (i n : ℕ)
    → i < capacity
    → ring logs i (suc n) ≡ ring logs i n ++ (get_or logs ((i + n) % capacity) zero_name ∷ [])
unfolding ring
ring-snoc logs i zero h = ap (λ k. get_or logs k zero_name ∷ []) (omega arith)
ring-snoc logs i (suc n) h =
    ap (λ l. get_or logs i zero_name ∷ l)
      (ring-snoc logs (following i) n (omega arith)
        ∙ ap (λ k. ring logs (following i) n ++ (get_or logs k zero_name ∷ [])) (omega arith))

module _ (q : Queue) (front_range : q.front < capacity) (back_range : q.back < capacity) where
  -- Writing the slot at the back changes nothing that waits.
  pub pending-store : (name : Bytes) → pending (store name q) ≡ pending q
  unfolding pending store
  pending-store name =
      ring-set q.logs q.front (count q) q.back name front_range back_range (omega arith)

  -- The slot at the back comes last.
  pub pending-publish :
      q.front ≢ following q.back
      → pending (publish q) ≡ pending q ++ (get_or q.logs q.back zero_name ∷ [])
  unfolding pending publish
  pending-publish room =
      ap (ring q.logs q.front) {y = suc (count q)} (omega (arith, room))
      ∙ ring-snoc q.logs q.front (count q) front_range
      ∙ ap (λ k. ring q.logs q.front (count q) ++ (get_or q.logs k zero_name ∷ [])) (omega arith)

  -- The front comes off.
  pub pending-advance : q.front ≢ q.back → pending q ≡ front_log q ∷ pending (advance q)
  unfolding pending advance ring
  pending-advance filled =
      ap (ring q.logs q.front) {y = suc (count (advance q))} (omega (arith, filled))
