-- ===== src/Minifier/Strings.antt =====
-- What crates/luck_minifier/src/transforms/shorten_strings.rs does to the text of a string literal;
-- the walk over the syntax tree hands it each of them.
pub mod Shorter
use luck.Literal.Decode.{decode_string_literal}
use luck.Literal.Encode.{encode_string_literal}
use luck.Prelude.{Option, none, some, ltb, if◌then◌else◌, length, Bytes}
use luck.Version.{LuaVersion}

unfoldable pub shorten_literal : LuaVersion → Bytes → Bytes
shorten_literal version text = elim (decode_string_literal version text) [
  | none ↦ text
  | some bytes ↦
      let candidate = encode_string_literal bytes in
      if ltb (length candidate) (length text) then candidate else text
]
