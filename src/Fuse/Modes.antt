-- ===== src/Fuse/Modes.antt =====
-- The mode that `gdpfs_getattr` reports.
use Prim.Native.Nat.{bit_or}
use gdpfs.Base.{
  ℕ, ◌/◌, ◌%◌, ◌^◌, ◌<◌, ◌≡◌, refl, Bool, true, false, Option, some, ◌&&◌, ◌==◌, ==_iff, not,
  if◌then◌else◌,
}
use gdpfs.Base.Every.{every, every_at}
use gdpfs.Dir.Files.{FileType}
use gdpfs.Fuse.{FileMode, type_bits, restrict_mode, mode_of}

-- The bit at a position.
abbrev pub bit_at : ℕ → ℕ → ℕ
bit_at m j = m / 2 ^ j % 2

-- The permission bits that a file system of this mode shows: not the bits 1, 4 and 7 to write where
-- it is read-only, and not the bits 2, 5 and 8 to read where it is write-only.
abbrev pub shown : FileMode → ℕ → Bool
shown FileMode.ro j = not (j % 3 == 1)
shown FileMode.rw j = true
shown FileMode.wo j = not (j % 3 == 2)

abbrev right : FileMode → (bits perm : ℕ) → Bool
right fs_mode bits perm =
    (restrict_mode fs_mode (bit_or bits perm) / 2 ^ 9 == bits / 2 ^ 9)
    && every
        (λ j.
          bit_at (restrict_mode fs_mode (bit_or bits perm)) j
          == (if shown fs_mode j then bit_at perm j else 0))
        9

every_regular : (fs_mode : FileMode) → every (right fs_mode (2 ^ 15)) 512 ≡ true
unfolding every restrict_mode
every_regular FileMode.ro = refl
every_regular FileMode.rw = refl
every_regular FileMode.wo = refl

every_dir : (fs_mode : FileMode) → every (right fs_mode (2 ^ 14)) 512 ≡ true
unfolding every restrict_mode
every_dir FileMode.ro = refl
every_dir FileMode.rw = refl
every_dir FileMode.wo = refl

Reported : FileMode → (bits perm : ℕ) → Option ℕ → Type 0
Reported fs_mode bits perm mode =
    (m : ℕ) × (mode ≡ some m)
    × (m / 2 ^ 9 ≡ bits / 2 ^ 9)
    × ((j : ℕ) → j < 9 → bit_at m j ≡ (if shown fs_mode j then bit_at perm j else 0))

and_both : (b c : Bool) → (b && c) ≡ true → (b ≡ true) × (c ≡ true)
and_both true c h = (refl, h)
and_both false c h = absurd cc

reported :
    (fs_mode : FileMode) (bits perm : ℕ)
    → right fs_mode bits perm ≡ true
    → Reported fs_mode bits perm (some (restrict_mode fs_mode (bit_or bits perm)))
unfolding Reported
reported fs_mode bits perm h =
    let (same_type, same_perm) = and_both _ _ h in
    (
      restrict_mode fs_mode (bit_or bits perm),
      refl,
      (==_iff _ _).0 same_type,
      λ j lt. (==_iff _ _).0 (every_at _ j lt same_perm),
    )

-- The type bits of a file that `gdpfs_getattr` can report.
abbrev pub bits_of : Bool → ℕ
bits_of is_dir = if is_dir then 2 ^ 14 else 2 ^ 15

abbrev pub type_of : Bool → FileType
type_of is_dir = if is_dir then FileType.dir else FileType.regular

-- For a regular file or a directory with nine permission bits, `gdpfs_getattr` reports a mode with
-- the bits of its type and, of its permission bits, those that the mode of the file system shows.
pub mode_of-shown :
    (fs_mode : FileMode) (is_dir : Bool) (size perm : ℕ)
    → perm < 512
    → (m : ℕ) × (mode_of fs_mode
          (record { file_size = size; file_type = type_of is_dir; file_perm = perm })
        ≡ some m)
      × (m / 2 ^ 9 ≡ bits_of is_dir / 2 ^ 9)
      × ((j : ℕ) → j < 9 → bit_at m j ≡ (if shown fs_mode j then bit_at perm j else 0))
unfolding mode_of type_bits Reported
mode_of-shown fs_mode true size perm lt =
    reported fs_mode (2 ^ 14) perm (every_at _ perm lt (every_dir fs_mode))
mode_of-shown fs_mode false size perm lt =
    reported fs_mode (2 ^ 15) perm (every_at _ perm lt (every_regular fs_mode))
