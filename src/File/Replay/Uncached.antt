-- ===== src/File/Replay/Uncached.antt =====
-- With the cache disabled, `open_file` of src/gdpfs_file.c ends the program on a log with data.
use gdpfs.Base.{
  ℕ, zero, suc, ◌≡◌, ◌≢◌, refl, ap, ◌∙◌, inl, inr, Bool-cases, true, false, Option, none, some,
  List, [], ◌∷◌, ◌++◌, arith, ◌==◌, if◌then◌else◌, length, take,
}
use gdpfs.Stat.{is_ok}
use gdpfs.Dir.Entry.{Bytes}
use gdpfs.File.Parts.{Record, is_intact, fetched, Platform}
use gdpfs.File.{and_then, File, fill_cache}
use gdpfs.File.Replay.{
  chunk, Numbered, fill_chunks, replay_entry, replay, gather, start_numbers, load_gathered,
  load_from, base_tree, open_index,
}

module _ (P : Platform) (uncached : P.use_cache ≡ false) where
  open P use {latest}

  fill_cache_bad :
      (bs : Bytes) (offset : ℕ) (f : File P) → is_ok (fill_cache P bs offset f).0 ≡ false
  unfolding fill_cache
  fill_cache_bad bs offset f = rw uncached refl

  fill_chunks-none :
      (fuel : ℕ) (bs : Bytes) (offset : ℕ) (f : File P)
      → length bs ≢ 0
      → fill_chunks P fuel bs offset f ≡ none
  unfolding fill_chunks
  fill_chunks-none zero bs offset f h = rw (test h) refl
    where
      test : length bs ≢ 0 → (length bs == 0) ≡ false
      test h = ground arith
  fill_chunks-none (suc fuel) bs offset f h =
      rw (test h, fill_cache_bad (take chunk bs) offset f) refl
    where
      test : length bs ≢ 0 → (length bs == 0) ≡ false
      test h = ground arith

  replay_entry-none :
      (k : ℕ) (r : Record) (f : File P) → r.meta.ent_size ≢ 0 → replay_entry P (k, r) f ≡ none
  unfolding replay_entry
  replay_entry-none k r f nz = elim (Bool-cases (is_intact r)) [
    | inl e ↦
        rw
          (
            e,
            no_zero nz,
            fill_chunks-none (length r.payload) r.payload r.meta.ent_offset _ (some_byte e),
          )
          refl
    | inr e ↦ rw e refl
  ]
    where
      no_zero : r.meta.ent_size ≢ 0 → (r.meta.ent_size == 0) ≡ false
      no_zero nz = ground arith

      some_byte : is_intact r ≡ true → length r.payload ≢ 0
      some_byte e = ground (arith, e, nz)

  replay-none :
      (old new : List Numbered) (k : ℕ) (r : Record) (f : File P)
      → r.meta.ent_size ≢ 0
      → replay P (old ++ ((k, r) ∷ new)) f ≡ none
  unfolding replay
  replay-none [] new k r f nz = ap (λ o. and_then o (replay P new)) (replay_entry-none k r f nz)
  replay-none (e ∷ old) new k r f nz = ends (replay_entry P e f) (λ g. replay-none old new k r g nz)
    where
      ends :
          (o : Option (File P))
          → ((g : File P) → replay P (old ++ ((k, r) ∷ new)) g ≡ none)
          → and_then o (replay P (old ++ ((k, r) ∷ new))) ≡ none
      ends none onward = refl
      ends (some g) onward = onward g

  -- With the cache disabled, opening a file object that has no index yet, not with strict
  -- initialization, ends the program where the first loop finds, among the entries behind the last
  -- checkpoint or at the beginning, one with data: an assertion fails, at the latest that on
  -- `gdpfs_file_fill_cache`.
  pub open_index-none :
      (last : ℕ) (newest r : Record) (base : Option Record) (old new : List Numbered) (k : ℕ)
      (f : File P)
      → f.figtree_initialized ≡ false
      → latest f.log_handle ≡ fetched last newest
      → gather P last f.log_handle [] ≡ some (base, old ++ ((k, r) ∷ new))
      → r.meta.ent_size ≢ 0
      → open_index P false f ≡ none
  unfolding open_index load_from load_gathered start_numbers
  open_index-none last newest r base old new k f closed there found nz =
      let f' = record f { last_recno = last } in
      ap (λ t. if t then some f else load_from P (start_numbers P (latest f.log_handle)) f) closed
      ∙ ap (λ o. load_from P (start_numbers P o) f) there
      ∙ ap (λ o. load_gathered P o f') found
      ∙ ap (λ o. and_then o (λ g. some (record g { figtree_initialized = true })))
          (replay-none old new k r (record f' { figtree = base_tree P base }) nz)
