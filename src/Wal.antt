-- ===== src/Wal.antt =====
-- src/core/wal.rs: the write-ahead log.
pub mod Checksum
pub mod Serial
pub mod Frame
pub mod Codec
pub mod Disk
pub mod Log
pub mod Reads
pub mod Checkpoint
pub mod Appends
pub mod Logged
pub mod ReadBack
pub mod Recovery
pub mod Opened
pub mod Durability
pub mod Pages
pub mod Checkpoints
pub mod Readers
pub mod SharedOffset
mod Tests
