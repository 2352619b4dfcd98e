-- ===== src/Wal.antt =====
-- src/store/wal.rs: the write-ahead log.
pub mod Codec
pub mod Frame
pub mod Writer
pub mod Replay
pub mod Log
