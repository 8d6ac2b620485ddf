-- ===== src/Lru.antt =====
-- src/core/lru_cache.rs: the page cache.
pub mod Arena
pub mod Cache
pub mod Links
pub mod Moves
pub mod Valid
pub mod Removal
pub mod Evict
pub mod Replace
pub mod Add
pub mod Put
pub mod Calls
pub mod Sequences
mod Tests
