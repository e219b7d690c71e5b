-- ===== src/Log/Entry/Tests.antt =====
-- Entries of src/gdpfs_log.c that are opened and read, with buffers and files that are lists.
use gdpfs.Base.{
  ℕ, ◌+◌, ◌≤◌, ◌≡◌, refl, true, false, Option, none, some, [], ◌∷◌, ◌++◌, arith, leb, length, take,
  drop,
}
use gdpfs.Stat.{Stat}
use gdpfs.Dir.Entry.{Bytes}
use gdpfs.Log.Entry.{
  Library, LibraryLaws, Making, read_append, no_cache_file, LogEntry, in_datum, in_cache,
  ent_length, ent_read, ent_peek, ent_drain, ent_open, Caches,
}
use gdpfs.Log.Entry.Laws.{left_of, ent_read-left_of, ent_open-left_of, ent_open-no_bytes}

-- An open file is its bytes and the position.
abbrev OpenFile : Type 0
OpenFile = Bytes × ℕ

abbrev of_option : Option Bytes → Stat × Bytes
of_option none = (Stat.notfound, [])
of_option (some bs) = (Stat.ok, bs)

-- A log has at most one entry here, which it gives for each number.
abbrev lists : Library
lists = record {
  Buf = Bytes;
  getlength = λ b. length b;
  buf_read = λ n b. (take n b, drop n b);
  buf_peek = λ n b. (take n b, b);
  buf_drain = λ n b. (leb n (length b), drop n b);
  buf_write = λ bs b. (true, b ++ bs);
  Fd = OpenFile;
  fd_size = λ f. length f.0;
  fd_read = λ n f. (take n (drop f.1 f.0), (f.0, f.1 + length (take n (drop f.1 f.0))));
  tell = λ f. f.1;
  seek = λ n f. (f.0, n);
  opened_fd = λ bs. (bs, 0);
  Log = Option Bytes;
  gcl_read = λ recno l. of_option l;
  is_missing = λ estat. true;
}

fits : (n : ℕ) (b : Bytes) → n ≤ length b → leb n (length b) ≡ true
fits n b h = ground arith

abbrev lists_laws : LibraryLaws lists
lists_laws = record {
  contents = λ b. b;
  file_bytes = λ f. f.0;
  getlength_law = λ b. refl;
  read_law = λ n b. (refl, refl);
  peek_law = λ n b. (refl, refl);
  drain_law = λ n b h. (fits n b h, refl);
  write_law = λ bs b h. refl;
  fd_size_law = λ f. refl;
  fd_read_law = λ n f. (refl, refl, refl);
  seek_law = λ n f. (refl, refl);
  opened_law = λ bs. (refl, refl);
}

-- Two of the three bytes behind the first.
ent_read-left_of_example :
    ((ent_read lists 2 (in_cache 5 (1 ∷ (2 ∷ (3 ∷ (4 ∷ []))), 1))).0 ≡ 2 ∷ (3 ∷ []))
    × (left_of lists lists_laws (ent_read lists 2 (in_cache 5 (1 ∷ (2 ∷ (3 ∷ (4 ∷ []))), 1))).1
        ≡ 4 ∷ [])
    × ((ent_peek lists 2 (in_cache 5 (1 ∷ (2 ∷ (3 ∷ (4 ∷ []))), 1))).0 ≡ 2 ∷ (3 ∷ []))
    × (left_of lists lists_laws (ent_peek lists 2 (in_cache 5 (1 ∷ (2 ∷ (3 ∷ (4 ∷ []))), 1))).1
        ≡ 2 ∷ (3 ∷ (4 ∷ [])))
    × (2 ≤ 3
        → ((ent_drain lists 2 (in_cache 5 (1 ∷ (2 ∷ (3 ∷ (4 ∷ []))), 1))).0 ≡ true)
          × (left_of lists lists_laws
                (ent_drain lists 2 (in_cache 5 (1 ∷ (2 ∷ (3 ∷ (4 ∷ []))), 1))).1
              ≡ 4 ∷ []))
ent_read-left_of_example =
    ent_read-left_of lists lists_laws 2 (in_cache 5 (1 ∷ (2 ∷ (3 ∷ (4 ∷ []))), 1))

abbrev all_made : Making
all_made = record { datum_made = true; file_opened = true; file_written = true }

abbrev none_made : Making
none_made = record { datum_made = false; file_opened = false; file_written = false }

abbrev no_caches : Caches lists
no_caches = λ n. no_cache_file

ent_open-left_of_example :
    (e : LogEntry lists) × (after : Caches lists) × (ent_open lists all_made read_append false
        (some 3)
        (some (8 ∷ (9 ∷ [])))
        no_caches
      ≡ some ((Stat.ok, some e), after))
    × (ent_open lists none_made read_append false (some 3) none after
        ≡ some ((Stat.ok, some e), after))
    × (left_of lists lists_laws e ≡ 8 ∷ (9 ∷ []))
ent_open-left_of_example =
    ent_open-left_of lists lists_laws all_made none_made read_append 3 (some (8 ∷ (9 ∷ []))) none
      no_caches refl refl refl refl refl refl

ent_open-no_bytes_example :
    (estat : Stat) × (e : LogEntry lists) × (after : Caches lists) × (ent_open lists all_made
        read_append false
        (some 3)
        none
        no_caches
      ≡ some ((estat, none), after))
    × (ent_open lists none_made read_append false (some 3) (some (8 ∷ (9 ∷ []))) after
        ≡ some ((Stat.ok, some e), after))
    × (left_of lists lists_laws e ≡ [])
ent_open-no_bytes_example =
    ent_open-no_bytes lists lists_laws all_made none_made read_append 3 none (some (8 ∷ (9 ∷ [])))
      no_caches refl refl refl refl refl

-- After a byte has been read, the length of an entry differs with where it is read from.
length_from_log : ent_length lists (ent_read lists 1 (in_datum (some 5) (1 ∷ (2 ∷ [])))).1 ≡ 1
unfolding ent_length ent_read
length_from_log = refl

length_from_cache : ent_length lists (ent_read lists 1 (in_cache 5 (1 ∷ (2 ∷ []), 0))).1 ≡ 2
unfolding ent_length ent_read
length_from_cache = refl
