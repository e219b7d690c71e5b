-- ===== src/Log/Entry/Laws.antt =====
-- Entries of src/gdpfs_log.c are read alike from the log and from a cache file.
use native.Mathlib.Decide.{dec_le}
use gdpfs.Base.{
  ℕ, zero, suc, ◌+◌, ◌≤◌, ◌≡◌, refl, ap, ◌∙◌, sym, Bool, true, false, none, some, [], ◌∷◌, ◌==◌,
  if◌then◌else◌, arith, length, take, drop, drop_all, take_all, length-take,
}
use gdpfs.Stat.{Stat, is_ok}
use gdpfs.Dir.Entry.{Bytes}
use gdpfs.Log.Entry.{
  Library, LibraryLaws, Making, LogMode, append_only, read_only, read_append, CacheFile, cache_file,
  no_cache_file, LogEntry, in_datum, in_cache, ent_read, ent_peek, ent_drain, set_cache, Caches,
  read_error, fill_cache_file, open_cached, open_numbered, ent_open,
}

drop-add : (p n : ℕ) (xs : Bytes) → drop (p + n) xs ≡ drop n (drop p xs)
drop-add zero n xs = ap (λ k. drop k xs) {y = n} (omega arith)
drop-add (suc p) zero [] = ap (λ k. drop k []) {y = suc p} (omega arith)
drop-add (suc p) (suc n) [] = ap (λ k. drop k []) {y = suc (p + suc n)} (omega arith)
drop-add (suc p) n (x ∷ xs) =
    ap (λ k. drop k (x ∷ xs)) {y = suc (p + n)} (omega arith) ∙ drop-add p n xs

-- A file behind what was read of it at a position.
drop-read : (p n : ℕ) (xs : Bytes) → drop (p + length (take n (drop p xs))) xs ≡ drop n (drop p xs)
drop-read p n xs =
    drop-add p (length (take n (drop p xs))) xs ∙ elim (dec_le n (length (drop p xs))) [
      | yes fits ↦ ap (λ k. drop k (drop p xs)) {y = n} (omega (arith, length-take n (drop p xs)))
      | no more ↦
          drop_all (drop p xs) (length (take n (drop p xs)))
            (omega (arith, length-take n (drop p xs)))
          ∙ sym (drop_all (drop p xs) n (omega arith))
    ]

module _ (B : Library) (W : LibraryLaws B) where
  open B use {Buf, Fd, Log, tell, fd_read, gcl_read}
  open W use {contents, file_bytes}

  -- The bytes of an entry that are still to be read.
  abbrev pub left_of : LogEntry B → Bytes
  left_of (in_datum recno b) = contents b
  left_of (in_cache recno f) = drop (tell f) (file_bytes f)

  -- The bytes that are read are the first that are left, and are left no longer; those that are
  -- peeked at are the same, and stay; those that are drained, where there are as many, are gone.
  pub ent_read-left_of :
      (n : ℕ) (e : LogEntry B)
      → ((ent_read B n e).0 ≡ take n (left_of e))
        × (left_of (ent_read B n e).1 ≡ drop n (left_of e))
        × ((ent_peek B n e).0 ≡ take n (left_of e))
        × (left_of (ent_peek B n e).1 ≡ left_of e)
        × (n ≤ length (left_of e)
            → ((ent_drain B n e).0 ≡ true) × (left_of (ent_drain B n e).1 ≡ drop n (left_of e)))
  unfolding ent_read ent_peek ent_drain
  ent_read-left_of n (in_datum recno b) = (
    (W.read_law n b).0,
    (W.read_law n b).1,
    (W.peek_law n b).0,
    (W.peek_law n b).1,
    λ h. W.drain_law n b h,
  )
  ent_read-left_of n (in_cache recno f) =
      let (bs, same, moved) = W.fd_read_law n f in
      let (back, at) = W.seek_law (tell f) (fd_read n f).1 in
      let (kept, on) = W.seek_law (tell f + n) f in
      (
        bs,
        (λ i. drop (moved i) (same i))
            ∙ ap (λ r. drop (tell f + length r) (file_bytes f)) bs
            ∙ drop-read (tell f) n (file_bytes f),
        bs,
        (λ i. drop (at i) (back i)) ∙ ap (drop (tell f)) same,
        λ h. (refl, (λ i. drop (on i) (kept i)) ∙ drop-add (tell f) n (file_bytes f)),
      )

  set_cache-same : (n : ℕ) (c : CacheFile) (caches : Caches B) → set_cache B n c caches n ≡ c
  unfolding set_cache
  set_cache-same n c caches = ap (λ t. if t then c else caches n) (here n n refl)
    where
      here : (m n : ℕ) → m ≡ n → (m == n) ≡ true
      here m n e = ground arith

  -- A mode in which entries can be read.
  abbrev pub may_read : LogMode → Bool
  may_read append_only = false
  may_read read_only = true
  may_read read_append = true

  ent_open-numbered :
      (m : Making) (mode : LogMode) (n : ℕ) (l : Log) (caches : Caches B)
      → may_read mode ≡ true
      → ent_open B m mode false (some n) l caches ≡ open_cached B m n (caches n) l caches
  unfolding ent_open open_numbered
  ent_open-numbered m append_only n l caches e = absurd cc
  ent_open-numbered m read_only n l caches e = refl
  ent_open-numbered m read_append n l caches e = refl

  ent_open-found :
      (m : Making) (mode : LogMode) (n : ℕ) (bs : Bytes) (l : Log) (caches : Caches B)
      → may_read mode ≡ true
      → ent_open B m mode false (some n) l (set_cache B n (cache_file bs) caches)
        ≡ some ((Stat.ok, some (in_cache n (B.opened_fd bs))), set_cache B n (cache_file bs) caches)
  unfolding open_cached
  ent_open-found m mode n bs l caches e =
      ent_open-numbered m mode n l (set_cache B n (cache_file bs) caches) e
      ∙ ap (λ c. open_cached B m n c l (set_cache B n (cache_file bs) caches))
          (set_cache-same n (cache_file bs) caches)

  -- Where there is no cache file yet.
  ent_open-missing :
      (m : Making) (mode : LogMode) (n : ℕ) (l : Log) (caches : Caches B)
      → may_read mode ≡ true
      → caches n ≡ no_cache_file
      → m.datum_made ≡ true
      → m.file_opened ≡ true
      → ent_open B m mode false (some n) l caches
        ≡ fill_cache_file B m n (gcl_read (some n) l) caches
  unfolding open_cached
  ent_open-missing m mode n l caches may missing made opened =
      ent_open-numbered m mode n l caches may
      ∙ ap (λ c. open_cached B m n c l caches) missing
      ∙ rw (made, opened) refl

  opened_left : (n : ℕ) (bs : Bytes) → left_of (in_cache n (B.opened_fd bs)) ≡ bs
  opened_left n bs = let (all, start) = W.opened_law bs in λ i. drop (start i) (all i)

  -- The whole of a buffer.
  buf_read-all :
      (b : Buf)
      → ((B.buf_read (B.getlength b) b).0 ≡ contents b)
        × ((length (B.buf_read (B.getlength b) b).0 == B.getlength b) ≡ true)
  buf_read-all b =
      let all =
        (W.read_law (B.getlength b) b).0
        ∙ take_all (contents b) (B.getlength b) (omega (arith, W.getlength_law b)) in
      (all, equal _ _ (ap length all ∙ sym (W.getlength_law b)))
    where
      equal : (m n : ℕ) → m ≡ n → (m == n) ≡ true
      equal m n e = ground arith

  -- Where an entry has no cache file and the log has it, opening it through the cache gives all its
  -- bytes, and so does every later opening, without the log. The datum is allocated and the cache file
  -- is opened and written at the first opening.
  pub ent_open-left_of :
      (m later : Making) (mode : LogMode) (n : ℕ) (l later_log : Log) (caches : Caches B)
      → may_read mode ≡ true
      → caches n ≡ no_cache_file
      → m.datum_made ≡ true
      → m.file_opened ≡ true
      → m.file_written ≡ true
      → is_ok (gcl_read (some n) l).0 ≡ true
      → (e : LogEntry B) × (after : Caches B) × (ent_open B m mode false (some n) l caches
          ≡ some ((Stat.ok, some e), after))
        × (ent_open B later mode false (some n) later_log after ≡ some ((Stat.ok, some e), after))
        × (left_of e ≡ contents (gcl_read (some n) l).1)
  unfolding fill_cache_file
  ent_open-left_of m later mode n l later_log caches may missing made opened written fine =
      let b = (gcl_read (some n) l).1 in
      let bs = (B.buf_read (B.getlength b) b).0 in
      let (all, whole) = buf_read-all b in
      (
        in_cache n (B.opened_fd bs),
        set_cache B n (cache_file bs) caches,
        ent_open-missing m mode n l caches may missing made opened ∙ rw (fine, whole, written) refl,
        ent_open-found later mode n bs later_log caches may,
        opened_left n bs ∙ all,
      )

  -- Where an entry has no cache file and the log cannot give it, opening it through the cache fails,
  -- but every later opening succeeds with an entry of no bytes, whatever the log then has. The datum is
  -- allocated and the cache file is opened at the first opening.
  pub ent_open-no_bytes :
      (m later : Making) (mode : LogMode) (n : ℕ) (l later_log : Log) (caches : Caches B)
      → may_read mode ≡ true
      → caches n ≡ no_cache_file
      → m.datum_made ≡ true
      → m.file_opened ≡ true
      → is_ok (gcl_read (some n) l).0 ≡ false
      → (estat : Stat) × (e : LogEntry B) × (after : Caches B) × (ent_open B m mode false
            (some n)
            l
            caches
          ≡ some ((estat, none), after))
        × (ent_open B later mode false (some n) later_log after ≡ some ((Stat.ok, some e), after))
        × (left_of e ≡ [])
  unfolding fill_cache_file
  ent_open-no_bytes m later mode n l later_log caches may missing made opened bad = (
    read_error B (gcl_read (some n) l).0,
    in_cache n (B.opened_fd []),
    set_cache B n (cache_file []) caches,
    ent_open-missing m mode n l caches may missing made opened ∙ rw bad refl,
    ent_open-found later mode n [] later_log caches may,
    opened_left n [],
  )
