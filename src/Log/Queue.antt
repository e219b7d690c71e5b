-- ===== src/Log/Queue.antt =====
-- src/gdpfs_log.c: the queue of precreated logs, its one producer and its consumers.
--
-- What runs with `precreated_mutex` held is one step; a wait on the condition variable gives the
-- mutex up and begins anew when it is woken. Both sides wait on the same condition variable.
pub mod Ring
pub mod Invariant
pub mod Laws
pub mod Progress
use gdpfs.Base.{
  ℕ, zero, suc, ◌+◌, ◌-◌, ◌%◌, ◌≡◌, Bool, true, false, List, [], ◌∷◌, ◌++◌, ◌==◌, get_or, set,
  replicate, if◌then◌else◌,
}
use gdpfs.Dir.Entry.{Bytes, gname_size}

-- `PRECREATED_MAX`
abbrev pub capacity : ℕ
capacity = 1024

-- `precreated_logs`, `precreated_front` and `precreated_back`
pub record Queue : Type 0 where
  pub logs : List Bytes
  pub front : ℕ
  pub back : ℕ

abbrev pub zero_name : Bytes
zero_name = replicate gname_size 0

-- As `init_gdpfs_log` leaves it; the array is static, so it begins as zeros.
abbrev pub initial : Queue
initial = record { logs = replicate capacity zero_name; front = 0; back = 0 }

abbrev pub following : ℕ → ℕ
following i = (i + 1) % capacity

abbrev pub is_full : Queue → Bool
is_full q = q.front == following q.back

abbrev pub is_empty : Queue → Bool
is_empty q = q.front == q.back

-- `_precreate_log(precreated_back)`: the name of the log, where it could be created, is copied.
unfoldable pub store : Bytes → Queue → Queue
store name q = record q { logs = set q.logs q.back name }

-- The producer's second critical section, and whether it broadcasts.
unfoldable pub publish : Queue → Queue
publish q = record q { back = following q.back }

abbrev pub broadcasts : Queue → Bool
broadcasts q = following q.back == following q.front

-- What `gdpfs_log_get_precreated` takes, and the queue after it.
abbrev pub front_log : Queue → Bytes
front_log q = get_or q.logs q.front zero_name

unfoldable pub advance : Queue → Queue
advance q = record q { front = following q.front }

-- Where the producer is: before the test for room, waiting, in `_precreate_log`, or behind it.
pub data Producer : Type 0 where
  looking asleep creating created_one : Producer

abbrev pub woken : Producer → Producer
woken asleep = looking
woken p = p

-- The threads, and what has happened: the logs that were created, the names that the producer made
-- available, those that consumers got, all in order, and whether a creation has failed.
pub record System : Type 0 where
  pub queue : Queue
  pub producer : Producer
  pub sleeping : ℕ
  pub created : List Bytes
  pub published : List Bytes
  pub granted : List Bytes
  pub failed : Bool

abbrev pub start : System
start = record {
  queue = initial;
  producer = looking;
  sleeping = 0;
  created = [];
  published = [];
  granted = [];
  failed = false;
}

-- A signal wakes one of the threads that wait, where there is one.
pub data Signal : Producer → ℕ → Producer → ℕ → Type 0 where
  nobody : (p : Producer) → woken p ≡ p → Signal p 0 p 0
  wakes_producer : (n : ℕ) → Signal asleep n looking n
  wakes_consumer : (p : Producer) (n : ℕ) → Signal p (suc n) p n

pub data Step : System → System → Type 0 where
  finds_full :
      (s : System)
      → s.producer ≡ looking
      → is_full s.queue ≡ true
      → Step s (record s { producer = asleep })
  finds_room :
      (s : System)
      → s.producer ≡ looking
      → is_full s.queue ≡ false
      → Step s (record s { producer = creating })
  -- A wait may end without a signal.
  producer_wakes : (s : System) → s.producer ≡ asleep → Step s (record s { producer = looking })
  creates :
      (s : System) (name : Bytes)
      → s.producer ≡ creating
      → Step s (record s {
        queue = store name s.queue;
        producer = created_one;
        created = s.created ++ (name ∷ []);
      })
  -- The queue is as before, and the producer goes on.
  creation_fails :
      (s : System)
      → s.producer ≡ creating
      → Step s (record s { producer = created_one; failed = true })
  publishes :
      (s : System)
      → s.producer ≡ created_one
      → Step s (record s {
        queue = publish s.queue;
        producer = looking;
        sleeping = if broadcasts s.queue then 0 else s.sleeping;
        published = s.published ++ (get_or s.queue.logs s.queue.back zero_name ∷ []);
      })
  finds_empty :
      (s : System) → is_empty s.queue ≡ true → Step s (record s { sleeping = suc s.sleeping })
  takes :
      (s : System) (p : Producer) (n : ℕ)
      → is_empty s.queue ≡ false
      → Signal s.producer s.sleeping p n
      → Step s (record s {
        queue = advance s.queue;
        producer = p;
        sleeping = n;
        granted = s.granted ++ (front_log s.queue ∷ []);
      })
  consumer_wakes : (s : System) (n : ℕ) → s.sleeping ≡ suc n → Step s (record s { sleeping = n })

pub data Reach : System → Type 0 where
  begins : Reach start
  later : {s t : System} → Reach s → Step s t → Reach t
