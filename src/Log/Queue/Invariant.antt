-- ===== src/Log/Queue/Invariant.antt =====
-- What holds of the queue and its threads in every state that they reach.
use mathlib.Core.Path.{subst}
use mathlib.Core.List.{append_assoc, append-nil}
use gdpfs.Base.{
  ℕ, ◌<◌, ◌≡◌, ◌≢◌, refl, ap, ◌∙◌, sym, Bool, true, false, List, [], ◌∷◌, ◌++◌, arith, ◌==◌, ==_iff,
  if◌then◌else◌, get_or, get_or-set_self, length, length-set, length-replicate,
}
use native.Mathlib.Decide.{dec_lt}
use gdpfs.Dir.Entry.{Bytes}
use gdpfs.Log.Queue.{
  capacity, Queue, zero_name, following, store, publish, advance, broadcasts, front_log, Producer,
  looking, asleep, creating, created_one, System, start, Signal, nobody, wakes_producer,
  wakes_consumer, Step, finds_full, finds_room, producer_wakes, creates, creation_fails, publishes,
  finds_empty, takes, consumer_wakes, Reach, begins, later,
}
use gdpfs.Log.Queue.Ring.{ring, pending, pending-store, pending-publish, pending-advance}

-- Where the producer is tells of the queue: it sleeps where that is full, and fills a slot where
-- there is room.
abbrev pub Fits : Producer → Queue → Type 0
Fits looking q = Unit
Fits asleep q = q.front ≡ following q.back
Fits creating q = q.front ≢ following q.back
Fits created_one q = q.front ≢ following q.back

-- The log that is created and not yet made available.
abbrev pub in_flight : Producer → Queue → List Bytes
in_flight created_one q = get_or q.logs q.back zero_name ∷ []
in_flight _ q = []

pub record Inv (s : System) : Type 0 where
  pub front_range : s.queue.front < capacity
  pub back_range : s.queue.back < capacity
  pub slots : length s.queue.logs ≡ capacity
  -- What was made available has been taken or waits, in order.
  pub filled : s.published ≡ s.granted ++ pending s.queue
  pub fits : Fits s.producer s.queue
  pub sleepers : 0 < s.sleeping → s.queue.front ≡ s.queue.back
  pub in_order : s.failed ≡ false → s.created ≡ s.published ++ in_flight s.producer s.queue

eq_of_test : (a b : ℕ) → (a == b) ≡ true → a ≡ b
eq_of_test a b h = (==_iff a b).0 h

ne_of_test : (a b : ℕ) → (a == b) ≡ false → a ≢ b
ne_of_test a b h = λ e. absurd (ground (arith, ==_iff a b))

start-Inv : Inv start
start-Inv = record {
  front_range = omega arith;
  back_range = omega arith;
  slots = length-replicate capacity zero_name;
  filled = unfold pending ring in refl;
  fits = tt;
  sleepers = λ h. refl;
  in_order = λ h. refl;
}

-- What a signal that is given when a log is taken leaves.
pub record AfterTake (q : Queue) (p p' : Producer) (n' : ℕ) : Type 0 where
  pub fits : Fits p' (advance q)
  pub no_sleeper : n' ≡ 0
  pub same_flight : in_flight p' (advance q) ≡ in_flight p q

Signal-AfterTake :
    (q : Queue) {p p' : Producer} {n n' : ℕ}
    → q.front < capacity
    → q.back < capacity
    → q.front ≢ q.back
    → n ≡ 0
    → Fits p q
    → Signal p n p' n'
    → AfterTake q p p' n'
unfolding advance
Signal-AfterTake q hf hb ne z f (nobody looking e) = record {
  fits = tt;
  no_sleeper = refl;
  same_flight = refl;
}
Signal-AfterTake q hf hb ne z f (nobody asleep e) = cc
Signal-AfterTake q hf hb ne z f (nobody creating e) = record {
  fits = λ e. ne (omega arith);
  no_sleeper = refl;
  same_flight = refl;
}
Signal-AfterTake q hf hb ne z f (nobody created_one e) = record {
  fits = λ e. ne (omega arith);
  no_sleeper = refl;
  same_flight = refl;
}
Signal-AfterTake q hf hb ne z f (wakes_producer n) = record {
  fits = tt;
  no_sleeper = z;
  same_flight = refl;
}
Signal-AfterTake q hf hb ne z f (wakes_consumer p n) = absurd (omega arith)

module _ (s : System) (inv : Inv s) where
  pub fits_at : (p : Producer) → s.producer ≡ p → Fits p s.queue
  fits_at p e = subst (λ p. Fits p s.queue) e inv.fits

  order_at :
      (p : Producer)
      → s.producer ≡ p
      → s.failed ≡ false
      → s.created ≡ s.published ++ in_flight p s.queue
  order_at p e h = inv.in_order h ∙ ap (λ p. s.published ++ in_flight p s.queue) e

-- Every step keeps the invariant.
pub Step-Inv : {s t : System} → Step s t → Inv s → Inv t
unfolding store publish advance
Step-Inv (finds_full s e full) inv = record {
  front_range = inv.front_range;
  back_range = inv.back_range;
  slots = inv.slots;
  filled = inv.filled;
  fits = eq_of_test s.queue.front (following s.queue.back) full;
  sleepers = inv.sleepers;
  in_order = order_at s inv looking e;
}
Step-Inv (finds_room s e room) inv = record {
  front_range = inv.front_range;
  back_range = inv.back_range;
  slots = inv.slots;
  filled = inv.filled;
  fits = ne_of_test s.queue.front (following s.queue.back) room;
  sleepers = inv.sleepers;
  in_order = order_at s inv looking e;
}
Step-Inv (producer_wakes s e) inv = record {
  front_range = inv.front_range;
  back_range = inv.back_range;
  slots = inv.slots;
  filled = inv.filled;
  fits = tt;
  sleepers = inv.sleepers;
  in_order = order_at s inv asleep e;
}
Step-Inv (creates s name e) inv = record {
  front_range = inv.front_range;
  back_range = inv.back_range;
  slots = length-set s.queue.logs s.queue.back name ∙ inv.slots;
  filled =
      inv.filled
      ∙ ap (λ l. s.granted ++ l) (sym (pending-store s.queue inv.front_range inv.back_range name));
  fits = fits_at s inv creating e;
  sleepers = inv.sleepers;
  in_order = λ h.
      ap (λ l. l ++ (name ∷ [])) (order_at s inv creating e h ∙ append-nil s.published)
      ∙ ap (λ l. s.published ++ (l ∷ []))
          (sym (
            get_or-set_self s.queue.logs s.queue.back name zero_name
              (omega (arith, inv.slots, inv.back_range))));
}
Step-Inv (creation_fails s e) inv = record {
  front_range = inv.front_range;
  back_range = inv.back_range;
  slots = inv.slots;
  filled = inv.filled;
  fits = fits_at s inv creating e;
  sleepers = inv.sleepers;
  in_order = λ h. cc;
}
Step-Inv (publishes s e) inv = record {
  front_range = inv.front_range;
  back_range = omega arith;
  slots = inv.slots;
  filled =
      ap (λ l. l ++ (get_or s.queue.logs s.queue.back zero_name ∷ [])) inv.filled
      ∙ append_assoc s.granted (pending s.queue) _
      ∙ ap (λ l. s.granted ++ l)
          (sym
            (pending-publish s.queue inv.front_range inv.back_range (fits_at s inv created_one e)));
  fits = tt;
  sleepers = told (broadcasts s.queue) refl;
  in_order = λ h. order_at s inv created_one e h ∙ sym (append-nil _);
}
  where
    told :
        (b : Bool)
        → broadcasts s.queue ≡ b
        → 0 < (if b then 0 else s.sleeping)
        → s.queue.front ≡ following s.queue.back
    told true q h = absurd (omega arith)
    told false q h = absurd (ne_of_test _ _ q (ap following (sym (inv.sleepers h))))
Step-Inv (finds_empty s empty) inv = record {
  front_range = inv.front_range;
  back_range = inv.back_range;
  slots = inv.slots;
  filled = inv.filled;
  fits = inv.fits;
  sleepers = λ h. eq_of_test s.queue.front s.queue.back empty;
  in_order = inv.in_order;
}
Step-Inv (takes s p n some_log signal) inv = record {
  front_range = omega arith;
  back_range = inv.back_range;
  slots = inv.slots;
  filled =
      inv.filled
      ∙ ap (λ l. s.granted ++ l) (pending-advance s.queue inv.front_range inv.back_range apart)
      ∙ sym (append_assoc s.granted (front_log s.queue ∷ []) (pending (advance s.queue)));
  fits = after.fits;
  sleepers = λ h. absurd (omega (arith, after.no_sleeper));
  in_order = λ h. inv.in_order h ∙ ap (λ l. s.published ++ l) (sym after.same_flight);
}
  where
    apart : s.queue.front ≢ s.queue.back
    apart = ne_of_test s.queue.front s.queue.back some_log

    awake : s.sleeping ≡ 0
    awake = elim (dec_lt 0 s.sleeping) [
      | yes h ↦ absurd (apart (inv.sleepers h))
      | no h ↦ omega arith
    ]

    after : AfterTake s.queue s.producer p n
    after = Signal-AfterTake s.queue inv.front_range inv.back_range apart awake inv.fits signal
Step-Inv (consumer_wakes s n e) inv = record {
  front_range = inv.front_range;
  back_range = inv.back_range;
  slots = inv.slots;
  filled = inv.filled;
  fits = inv.fits;
  sleepers = λ h. inv.sleepers (omega arith);
  in_order = inv.in_order;
}

pub Reach-Inv : {s : System} → Reach s → Inv s
Reach-Inv begins = start-Inv
Reach-Inv (later r step) = Step-Inv step (Reach-Inv r)
