-- ===== src/Log/Tests.antt =====
-- Runs of src/gdpfs_log.c, and its laws at them.
use gdpfs.Base.{arith, ◌<◌, ◌≡◌, ◌≢◌, refl, true, [], ◌∷◌, ◌++◌, length, replicate, get_or}
use gdpfs.Dir.Entry.{Bytes, gname_size}
use gdpfs.Log.Queue.{
  capacity, following, zero_name, store, publish, advance, front_log, looking, asleep, creating,
  created_one, System, start, nobody, finds_room, creates, creation_fails, publishes, finds_empty,
  takes, Reach, begins, later,
}
use gdpfs.Log.Queue.Ring.{pending}
use gdpfs.Log.Queue.Invariant.{in_flight}
use gdpfs.Log.Queue.Progress.{Woken, Reach-Woken}
use gdpfs.Log.Queue.Laws.{Reach-awake, Reach-granted, Reach-pending}

abbrev first_log : Bytes
first_log = replicate gname_size 1

abbrev looked : System
looked = record start { producer = creating }

abbrev made : System
made = record looked {
  queue = store first_log looked.queue;
  producer = created_one;
  created = first_log ∷ [];
}

abbrev ready : System
ready = record made {
  queue = publish made.queue;
  producer = looking;
  published = get_or made.queue.logs made.queue.back zero_name ∷ [];
}

abbrev handed : System
handed = record ready { queue = advance ready.queue; granted = front_log ready.queue ∷ [] }

abbrev sleepy : System
sleepy = record start { sleeping = 1 }

-- The producer creates a log and makes it available; a consumer takes it.
Reach-handed : Reach handed
unfolding store publish
Reach-handed =
    later
      (later (later (later begins (finds_room start refl refl)) (creates looked first_log refl))
        (publishes made refl))
      (takes ready looking 0 refl (nobody looking refl))

hands_out_first : handed.granted ≡ first_log ∷ []
unfolding store publish
hands_out_first = refl

Reach-sleepy : Reach sleepy
Reach-sleepy = later begins (finds_empty start refl)

-- The first creation fails, and a consumer gets a name that is all zeros.
abbrev broken : System
broken = record looked { producer = created_one; failed = true }

abbrev offered : System
offered = record broken {
  queue = publish broken.queue;
  producer = looking;
  published = get_or broken.queue.logs broken.queue.back zero_name ∷ [];
}

abbrev misled : System
misled = record offered { queue = advance offered.queue; granted = front_log offered.queue ∷ [] }

Reach-misled : Reach misled
unfolding publish
Reach-misled =
    later
      (later (later (later begins (finds_room start refl refl)) (creation_fails looked refl))
        (publishes broken refl))
      (takes offered looking 0 refl (nobody looking refl))

hands_out_zeros : misled.granted ≡ zero_name ∷ []
unfolding publish
hands_out_zeros = refl

Reach-awake_example :
    (0 < 1 → sleepy.queue.front ≡ sleepy.queue.back)
    × (sleepy.producer ≡ asleep → sleepy.queue.front ≡ following sleepy.queue.back)
    × (0 < 1 → sleepy.producer ≢ asleep)
Reach-awake_example = Reach-awake sleepy Reach-sleepy

Reach-granted_example :
    handed.created
    ≡ handed.granted ++ (pending handed.queue ++ in_flight handed.producer handed.queue)
Reach-granted_example = Reach-granted handed Reach-handed refl

Reach-pending_example :
    (misled.queue.front < capacity)
    × (misled.queue.back < capacity)
    × (length (pending misled.queue) < capacity)
    × (misled.published ≡ misled.granted ++ pending misled.queue)
Reach-pending_example = Reach-pending misled Reach-misled

Reach-Woken_example : Woken sleepy
Reach-Woken_example = Reach-Woken sleepy first_log Reach-sleepy (omega arith)
