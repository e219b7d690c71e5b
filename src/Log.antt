-- ===== src/Log.antt =====
-- src/gdpfs_log.c: the queue of logs that are created in advance, and the entries of a log.
pub mod Queue
pub mod Entry
mod Tests
