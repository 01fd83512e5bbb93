-- ===== src/Query.antt =====
-- src/query: queries over JSON documents.
pub mod Value
pub mod Ast
pub mod Congruence
pub mod Parser
pub mod Compiler
mod Tests
