-- ===== src/Pager.antt =====
-- src/core/pager.rs: the header page, allocation, and pages behind the cache.
pub mod Header
pub mod Codec
pub mod HeaderPage
pub mod State
pub mod Open
pub mod Files
pub mod Reopen
pub mod Allocation
pub mod Counts
pub mod Taken
pub mod InUse
pub mod Pages
pub mod Views
pub mod Access
pub mod Flush
pub mod Refinement
pub mod Direct
pub mod Batches
pub mod Tests
