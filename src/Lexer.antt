-- ===== src/Lexer.antt =====
-- crates/luck_lexer: the cursor over the source, the search for bytes, number literals, and
-- strings.
pub mod Cursor
pub mod Number
pub mod Search
pub mod Escape
pub mod LongBracket
pub mod ShortString
