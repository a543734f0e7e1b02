-- ===== src/Linter.antt =====
-- crates/luck_linter: the automatic fixes, and the distance of names.
pub mod Fix
pub mod Suggest
