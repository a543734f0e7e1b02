-- ===== src/Lexer/ShortString.antt =====
-- `lex_short_string` of crates/luck_lexer/src/string.rs. `memchr` and `memchr3` are parameters. The
-- loop runs on fuel, whose end is `none`; each round takes a byte at least.
pub mod Ordinary
pub mod Bytewise
pub mod Reads
pub mod Encoded
use luck.Lexer.Cursor.{Cursor, peek, advance, slice}
use luck.Lexer.Escape.{consumed, rejected, lex_escape}
use luck.Lexer.LongBracket.{StringResult, string_literal, refused, advance_by}
use luck.Lexer.Number.{error_at}
use luck.Lexer.Search.{find_match}
use luck.Prelude.{
  ℕ, zero, suc, ◌+◌, ◌||◌, Bool, true, false, Option, none, some, ◌==◌, ltb, if◌then◌else◌, take,
  drop, min, length, codes, Bytes,
}
use luck.Version.{LuaVersion}

-- `SHORT_STRING_STOP`
abbrev pub short_string_stop : ℕ → Bool
short_string_stop b = b == b'"' || b == b'\'' || b == b'\\' || b == b'\n' || b == b'\r'

abbrev pub unwrap_or : Option ℕ → ℕ → ℕ
unwrap_or none n = n
unwrap_or (some i) n = i

module _ (memchr : ℕ → Bytes → Option ℕ) (memchr3 : ℕ → ℕ → ℕ → Bytes → Option ℕ) where
  -- How many bytes a run of ordinary ones is taken to have.
  unfoldable pub count_ordinary : ℕ → Bytes → ℕ
  count_ordinary quote bytes =
      let prefix_length = min (length bytes) 8 in
      let offset = find_match short_string_stop (take prefix_length bytes) in
      let rest = drop prefix_length bytes in
      let end = unwrap_or (memchr3 quote b'\\' b'\n' rest) (length rest) in
      if ltb offset prefix_length
      then offset
      else prefix_length + unwrap_or (memchr b'\r' (take end rest)) end

  module _ (display : ℕ → Bytes) (version : LuaVersion) (start quote : ℕ) where
    abbrev pub unterminated : Cursor → Option (StringResult × Cursor)
    unterminated c = some (refused (error_at start c.position (codes "unterminated string")), c)

    unfoldable pub short_string_rounds : ℕ → Cursor → Option (StringResult × Cursor)
    short_string_rounds zero c = none
    short_string_rounds (suc f) c = elim (peek c) [
      | none ↦ unterminated c
      | some b ↦ elim (b == b'\n' || b == b'\r') [
        | true ↦ unterminated c
        | false ↦ elim (b == b'\\') [
          | true ↦
              let next = advance c in
              elim (peek next) [
                | none ↦ unterminated next
                | some escaped ↦ elim (lex_escape display version escaped next) [
                  | rejected error end ↦ some (refused error, end)
                  | consumed end ↦ short_string_rounds f end
                ]
              ]
          | false ↦ elim (b == quote) [
            | true ↦
                let end = advance c in
                some (string_literal (slice end.source start end.position), end)
            | false ↦
                let next = advance c in
                let skipped = count_ordinary quote (drop next.position next.source) in
                short_string_rounds f (advance_by skipped next)
          ]
        ]
      ]
    ]

  -- The cursor is on the opening quote; without one the source panics.
  unfoldable pub lex_short_string :
      (ℕ → Bytes) → LuaVersion → Cursor → Option (StringResult × Cursor)
  unfolding short_string_rounds
  lex_short_string display version c = elim (peek c) [
    | none ↦ none
    | some quote ↦
        short_string_rounds display version c.position quote (length c.source + 1) (advance c)
  ]
