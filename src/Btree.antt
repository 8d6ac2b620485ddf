-- ===== src/Btree.antt =====
-- src/core/btree.rs: the tree of the documents' ids.
pub mod Utf8
pub mod Node
pub mod Written
pub mod NodePage
pub mod RoundTrip
pub mod Store
pub mod Tree
pub mod Operations
pub mod Changes
pub mod Iterator
pub mod Represented
pub mod Search
pub mod PagerStore
pub mod Leaves
pub mod Tests
pub mod Counting
