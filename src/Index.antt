-- ===== src/Index.antt =====
-- src/core/index_key.rs: the keys of indexes.
pub mod Keys
pub mod Order
pub mod RoundTrip
pub mod Compound
pub mod CompoundRoundTrip
pub mod CompoundOrder
pub mod Extraction
mod Tests
