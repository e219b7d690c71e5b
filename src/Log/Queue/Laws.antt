-- ===== src/Log/Queue/Laws.antt =====
-- What consumers get from the queue of precreated logs, and who can be asleep.
use mathlib.Core.List.{append_assoc}
use gdpfs.Base.{ℕ, zero, suc, ◌<◌, ◌≡◌, ◌≢◌, refl, ap, ◌∙◌, false, List, ◌++◌, arith, length}
use gdpfs.Dir.Entry.{Bytes}
use gdpfs.Log.Queue.{capacity, following, asleep, System, Reach}
use gdpfs.Log.Queue.Ring.{ring, count, pending}
use gdpfs.Log.Queue.Invariant.{fits_at, in_flight, Reach-Inv}

length-ring : (logs : List Bytes) (i n : ℕ) → length (ring logs i n) ≡ n
unfolding ring
length-ring logs i zero = refl
length-ring logs i (suc n) = ap suc (length-ring logs (following i) n)

-- In every state that the threads reach, a consumer is asleep only where the queue is empty, the
-- producer only where it is full, and never both; so no wake-up is lost.
pub Reach-awake :
    (s : System)
    → Reach s
    → (0 < s.sleeping → s.queue.front ≡ s.queue.back)
      × (s.producer ≡ asleep → s.queue.front ≡ following s.queue.back)
      × (0 < s.sleeping → s.producer ≢ asleep)
Reach-awake s r =
    let inv = Reach-Inv r in
    (
      inv.sleepers,
      λ e. fits_at s inv asleep e,
      λ h e. absurd (omega (arith, inv.sleepers h, fits_at s inv asleep e, inv.front_range)),
    )

-- In every state that the threads reach where no creation has failed, the logs that were handed out
-- are, in order, the first of those that were created, and behind them come those that wait.
pub Reach-granted :
    (s : System)
    → Reach s
    → s.failed ≡ false
    → s.created ≡ s.granted ++ (pending s.queue ++ in_flight s.producer s.queue)
Reach-granted s r h =
    let inv = Reach-Inv r in
    inv.in_order h
    ∙ ap (λ l. l ++ in_flight s.producer s.queue) inv.filled
    ∙ append_assoc s.granted (pending s.queue) (in_flight s.producer s.queue)

-- In every state that the threads reach, the indices are in range, fewer logs wait than the queue
-- has slots, and what was made available has been handed out or waits, in order.
pub Reach-pending :
    (s : System)
    → Reach s
    → (s.queue.front < capacity)
      × (s.queue.back < capacity)
      × (length (pending s.queue) < capacity)
      × (s.published ≡ s.granted ++ pending s.queue)
unfolding pending
Reach-pending s r =
    let inv = Reach-Inv r in
    (
      inv.front_range,
      inv.back_range,
      omega (arith, length-ring s.queue.logs s.queue.front (count s.queue)),
      inv.filled,
    )
