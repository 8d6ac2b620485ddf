-- ===== src/Mvcc.antt =====
-- src/core/mvcc.rs: transaction ids, snapshots, and the versions of documents.
pub mod Manager
pub mod Versions
pub mod Valid
pub mod Snapshots
pub mod Oldest
pub mod Collection
pub mod Exact
mod Tests
