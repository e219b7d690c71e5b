-- ===== src/Log/Queue/Progress.antt =====
-- A consumer that waits in src/gdpfs_log.c is woken by the producer's next log.
use gdpfs.Base.{[], ◌∷◌, ◌++◌, ℕ, ◌<◌, ◌≡◌, refl, Bool, true, false, arith, ◌==◌, if◌then◌else◌}
use gdpfs.Dir.Entry.{Bytes}
use gdpfs.Log.Queue.{
  following, is_empty, store, publish, broadcasts, Producer, looking, asleep, creating, created_one,
  System, Step, finds_full, finds_room, producer_wakes, creates, creation_fails, publishes,
  finds_empty, takes, consumer_wakes, Reach,
}
use gdpfs.Log.Queue.Invariant.{fits_at, Reach-Inv}

-- A turn of the producer that no other thread takes part in.
abbrev pub is_turn : {s t : System} → Step s t → Bool
is_turn (finds_full s looks full) = false
is_turn (finds_room s looks room) = true
is_turn (producer_wakes s sleeps) = false
is_turn (creates s name at) = true
is_turn (creation_fails s at) = true
is_turn (publishes s at) = true
is_turn (finds_empty s empty) = false
is_turn (takes s p n some_log wakes) = false
is_turn (consumer_wakes s n sleeps) = false

pub data Turns : System → System → Type 0 where
  no_turn : (s : System) → Turns s s
  turn : {s t u : System} → (step : Step s t) → is_turn step ≡ true → Turns t u → Turns s u

-- A state that the producer's turns lead to, in which no consumer sleeps and a log waits.
pub record Woken (s : System) : Type 0 where
  pub after : System
  pub turns : Turns s after
  pub nobody_sleeps : after.sleeping ≡ 0
  pub log_waits : is_empty after.queue ≡ false
  pub same_front : after.queue.front ≡ s.queue.front

room : (i j : ℕ) → i ≡ j → i < 1024 → (i == following j) ≡ false
room i j e lt = ground arith

broadcast_sleepers : (t : Bool) (n : ℕ) → t ≡ true → (if t then 0 else n) ≡ 0
broadcast_sleepers true n e = refl
broadcast_sleepers false n e = absurd cc

-- `created_one` is the last turn.
from_created :
    (s : System)
    → s.producer ≡ created_one
    → s.queue.front ≡ s.queue.back
    → s.queue.front < 1024
    → Woken s
unfolding publish
from_created s at same lt = record {
  after = _;
  turns = turn (publishes s at) refl (no_turn _);
  nobody_sleeps =
      broadcast_sleepers (broadcasts s.queue) s.sleeping (equal s.queue.front s.queue.back same);
  log_waits = room s.queue.front s.queue.back same lt;
  same_front = refl;
}
  where
    equal : (i j : ℕ) → i ≡ j → (following j == following i) ≡ true
    equal i j e = ground arith

from_creating :
    (s : System) (name : Bytes)
    → s.producer ≡ creating
    → s.queue.front ≡ s.queue.back
    → s.queue.front < 1024
    → Woken s
unfolding store
from_creating s name at same lt =
    let rest =
      from_created
        (record s {
          queue = store name s.queue;
          producer = created_one;
          created = s.created ++ (name ∷ []);
        })
        refl same lt in
    record {
      after = rest.after;
      turns = turn (creates s name at) refl rest.turns;
      nobody_sleeps = rest.nobody_sleeps;
      log_waits = rest.log_waits;
      same_front = rest.same_front;
    }

from_looking :
    (s : System) (name : Bytes)
    → s.producer ≡ looking
    → s.queue.front ≡ s.queue.back
    → s.queue.front < 1024
    → Woken s
from_looking s name at same lt =
    let rest = from_creating (record s { producer = creating }) name refl same lt in
    record {
      after = rest.after;
      turns = turn (finds_room s at (room s.queue.front s.queue.back same lt)) refl rest.turns;
      nobody_sleeps = rest.nobody_sleeps;
      log_waits = rest.log_waits;
      same_front = rest.same_front;
    }

-- In every state that the threads reach where a consumer sleeps, the producer can go on without any
-- other thread, with whatever log is created next, to a state where no consumer sleeps and a log
-- waits.
pub Reach-Woken : (s : System) (name : Bytes) → Reach s → 0 < s.sleeping → Woken s
Reach-Woken s name r h =
    let inv = Reach-Inv r in
    let same = inv.sleepers h in
    at_once s.producer refl same inv.front_range (λ e. fits_at s inv asleep e)
  where
    at_once :
        (p : Producer)
        → s.producer ≡ p
        → s.queue.front ≡ s.queue.back
        → s.queue.front < 1024
        → (s.producer ≡ asleep → s.queue.front ≡ following s.queue.back)
        → Woken s
    at_once looking e same lt full = from_looking s name e same lt
    at_once creating e same lt full = from_creating s name e same lt
    at_once created_one e same lt full = from_created s e same lt
    at_once asleep e same lt full = absurd (omega (arith, full e, same, lt))
