-- ===== src/Minifier.antt =====
-- The minifier of crates/luck_minifier.
pub mod Names
pub mod Parens
pub mod Strings
