-- ===== src/Lexer/LongBracket.antt =====
-- Long brackets in crates/luck_lexer/src/string.rs, `[==[` to `]==]`. `memchr::memchr` is a
-- parameter. The scan runs on fuel, whose end is `none`.
pub mod Closer
pub mod Closing
use luck.Lexer.Cursor.{Cursor, peek, peek_at, advance, count_while, slice}
use luck.Lexer.Number.{NumberResult, SourceError, error_at, is_byte}
use luck.Prelude.{
  ℕ, zero, suc, ◌+◌, Bool, true, false, not, ◌&&◌, Option, none, some, ◌==◌, if◌then◌else◌, drop,
  length, ◌>>=◌, codes, Bytes,
}

-- The count of `=` from an offset on, in the `while` loops.
abbrev pub count_equals_at : Cursor → ℕ → ℕ
count_equals_at c offset = count_while (λ b. b == b'=') (drop (c.position + offset) c.source)

unfoldable pub long_bracket_level : Cursor → Option ℕ
long_bracket_level c =
    if not (is_byte b'[' (peek c))
    then none
    else (let level = count_equals_at c 1 in
        if is_byte b'[' (peek_at c (1 + level)) then some level else none)

-- `cursor.advance_by(count)`
abbrev pub advance_by : ℕ → Cursor → Cursor
advance_by count c = record c { position = c.position + count }

abbrev advance_times : ℕ → Cursor → Cursor
advance_times zero c = c
advance_times (suc n) c = advance_times n (advance c)

unfoldable pub skip_long_bracket_open : ℕ → Cursor → Cursor
skip_long_bracket_open level c = advance (advance_times level (advance c))

-- The payload of `TokenKind::StringLiteral`, or an error.
pub data StringResult : Type 0 where
  string_literal : Bytes → StringResult
  refused : SourceError → StringResult

module _ (memchr : ℕ → Bytes → Option ℕ) where
  -- The rounds of `scan_to_long_bracket_close`.
  unfoldable pub scan_rounds : ℕ → ℕ → Cursor → Option (Bool × Cursor)
  scan_rounds zero level c = none
  scan_rounds (suc f) level c =
      let rest = drop c.position c.source in
      elim (memchr b']' rest) [
        | none ↦ some (false, advance_by (length rest) c)
        | some bracket_offset ↦
            let at = advance_by bracket_offset c in
            let closing_level = count_equals_at at 1 in
            elim (closing_level == level && is_byte b']' (peek_at at (closing_level + 1))) [
              | true ↦ some (true, advance_by (closing_level + 1 + 1) at)
              | false ↦ scan_rounds f level (advance at)
            ]
      ]

  -- A round takes a byte at least.
  unfoldable pub scan_to_long_bracket_close : ℕ → Cursor → Option (Bool × Cursor)
  unfolding scan_rounds
  scan_to_long_bracket_close level c = scan_rounds (length c.source + 1) level c

  unfoldable pub lex_long_bracket_body : ℕ → ℕ → Cursor → Option (StringResult × Cursor)
  unfolding scan_to_long_bracket_close
  lex_long_bracket_body start level c = scan_to_long_bracket_close level c >>= λ scan.
      let (is_closed, end) = scan in
      some (
        if not is_closed
        then (refused (error_at start end.position (codes "unterminated long bracket string")), end)
        else (string_literal (slice end.source start end.position), end))
