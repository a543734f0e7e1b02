-- ===== src/Literal.antt =====
-- crates/luck_token/src/literal.rs: string literals and the bytes that they stand for. `Encode`
-- writes a literal, `Decode` reads one.
pub mod Decode
pub mod Encode
pub mod Pieces
pub mod RoundTrip
