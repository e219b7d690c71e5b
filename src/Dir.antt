-- ===== src/Dir.antt =====
-- src/gdpfs_dir.c: a directory is a file of fixed-size entries.
pub mod Entry
pub mod Files
pub mod Table
pub mod Create
pub mod Names
pub mod Path
pub mod AtPath
pub mod Tests
