-- ===== src/Query.antt =====
-- src/core/query: the query language, from text to the test of a document.
pub mod Token
pub mod Lexer
pub mod Tokenize
pub mod Lexed
pub mod Ast
pub mod Parser
pub mod Eval
pub mod Fields
pub mod Orders
mod Tests
