-- ===== src/Stat.antt =====
-- src/gdpfs_stat.h: the statuses of the file system.
use gdpfs.Base.{ℕ, Bool, true, false}

-- `foreign` is a status of the GDP library or of libep: whether its severity is OK, and its code.
pub data Stat : Type 0 where
  ok eof notfound rw_failed oomem badfh invldparam invldmode invldftype badlogmode corrupt badpath
        create_failed file_exists dir_exists dir_not_empty local_fs_fail synch_fail :
      Stat
  foreign : Bool → ℕ → Stat

-- `EP_STAT_ISOK`: `GDPFS_STAT_OK` and `GDPFS_STAT_EOF` have the severity OK.
abbrev pub is_ok : Stat → Bool
is_ok ok = true
is_ok eof = true
is_ok (foreign fine code) = fine
is_ok _ = false

-- `EP_STAT_OK`
abbrev pub ep_ok : Stat
ep_ok = foreign true 0

-- `EP_STAT_IS_SAME(estat, GDPFS_STAT_EOF)`, and so for the other statuses that the code tests for
abbrev pub is_eof : Stat → Bool
is_eof eof = true
is_eof _ = false

abbrev pub is_file_exists : Stat → Bool
is_file_exists file_exists = true
is_file_exists _ = false

abbrev pub is_dir_exists : Stat → Bool
is_dir_exists dir_exists = true
is_dir_exists _ = false

abbrev pub is_dir_not_empty : Stat → Bool
is_dir_not_empty dir_not_empty = true
is_dir_not_empty _ = false
