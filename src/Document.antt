-- ===== src/Document.antt =====
-- src/core/document.rs: documents on pages.
pub mod Bytes
pub mod Plain
pub mod Versioned
pub mod Chains
pub mod FirstPage
pub mod Read
pub mod Overflow
pub mod Giving
pub mod Growing
pub mod Written
pub mod Before
pub mod WriteRead
pub mod PagerGiver
pub mod Tests
