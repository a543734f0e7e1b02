-- ===== src/Semantic.antt =====
-- crates/luck_semantic: the scopes of a chunk and what its names refer to.
pub mod Scope
pub mod Builder
