-- ===== src/Bundler.antt =====
-- The bundler of crates/luck_bundler.
pub mod Graph
