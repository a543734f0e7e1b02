-- ===== src/Lexer/Escape.antt =====
-- `lex_escape` of crates/luck_lexer/src/string.rs: one escape sequence, with the cursor on the byte
-- behind the backslash. `display` is what `format!` writes for a number.
pub mod Moves
use luck.Lexer.Cursor.{Cursor, peek, advance, eat_while, slice}
use luck.Lexer.Number.{SourceError, error_at, is_byte, is_some_and, is_digit, is_hexdigit, value_of}
use luck.Prelude.{
  ℕ, zero, suc, ◌+◌, ◌-◌, ◌*◌, ◌^◌, Bool, not, ◌&&◌, ◌||◌, Option, none, some, ◌++◌, ltb, leb, ◌==◌,
  within, if◌then◌else◌, any, codes, Bytes,
}
use luck.Version.{
  LuaVersion, is_luau, has_hex_escape, has_whitespace_escape, has_unicode_escape,
  has_strict_escapes,
}

-- The cursor behind the escape, or an error with the cursor where it was found.
pub data EscapeResult : Type 0 where
  consumed : Cursor → EscapeResult
  rejected : SourceError → Cursor → EscapeResult

-- `if cursor.peek() == Some(byte) { cursor.advance(); }`
unfoldable pub advance_over : ℕ → Cursor → Cursor
advance_over byte c = if is_byte byte (peek c) then advance c else c

-- At most `n` digits, and the value they add to.
unfoldable pub decimal_run : ℕ → ℕ → Cursor → ℕ × Cursor
decimal_run zero value c = (value, c)
decimal_run (suc n) value c = elim (peek c) [
  | none ↦ (value, c)
  | some d ↦
      let next = decimal_run n (value * 10 + (d - b'0')) (advance c) in
      if is_digit d then next else (value, c)
]

-- `n` hexadecimal digits, or how many there were.
unfoldable pub hex_run : ℕ → ℕ → Cursor → Option ℕ × Cursor
hex_run zero i c = (none, c)
hex_run (suc n) i c =
    let next = hex_run n (i + 1) (advance c) in
    if is_some_and (peek c) is_hexdigit then next else (some i, c)

-- What `\z` skips.
abbrev pub is_space : ℕ → Bool
is_space b = b == b' ' || b == b'\t' || b == b'\n' || b == b'\r' || b == 0x0B || b == 0x0C

abbrev pub is_continuation : ℕ → Bool
is_continuation b = within 0x80 0xBF b

abbrev pub is_simple_escape : ℕ → Bool
is_simple_escape b = any (◌== b) (codes "abfnrtv") || b == b'\\' || b == b'\'' || b == b'"'

-- `c` is the cursor on the digit, the `x`, the `u` or the character that is no escape.
module _ (display : ℕ → Bytes) where
  unfoldable pub lex_decimal_escape : Cursor → EscapeResult
  lex_decimal_escape c =
      let (value, end) = decimal_run 3 0 c in
      if ltb 255 value
      then rejected
          (error_at (c.position - 1) end.position
            (codes "decimal escape too large (\\" ++ display value ++ codes "), maximum is \\255"))
          end
      else consumed end

  unfoldable pub lex_hex_escape : Cursor → EscapeResult
  lex_hex_escape c =
      let (missing, end) = hex_run 2 0 (advance c) in
      elim missing [
        | none ↦ consumed end
        | some i ↦
            rejected
              (error_at (c.position - 1) end.position
                (codes "\\x escape requires exactly 2 hex digits, got " ++ display i))
              end
      ]

  unfoldable pub lex_unicode_escape : Cursor → EscapeResult
  lex_unicode_escape c =
      let start = c.position - 1 in
      let brace = advance c in
      let first = advance brace in
      let end = eat_while is_hexdigit first in
      let codepoint = value_of 16 0 (slice c.source first.position end.position) in
      let too_large =
        rejected
          (error_at start end.position (codes "\\u codepoint too large (must be less than 2^31)"))
          end in
      if not (is_byte b'{' (peek brace))
      then rejected (error_at start brace.position (codes "\\u escape requires '{'")) brace
      else if first.position == end.position
      then rejected (error_at start end.position (codes "\\u{} requires at least one hex digit"))
          end
      -- `u64::from_str_radix` fails from 2 ^ 64 on.
      else if leb (2 ^ 64) codepoint
      then too_large
      else if leb 0x80000000 codepoint
      then too_large
      else if not (is_byte b'}' (peek end))
      then rejected (error_at start end.position (codes "\\u escape missing closing '}'")) end
      else consumed (advance end)

  -- The source is UTF-8, so the bytes passed over are the character that the message shows.
  unfoldable pub reject_escape : Cursor → EscapeResult
  reject_escape c =
      let end = eat_while is_continuation (advance c) in
      rejected
        (error_at (c.position - 1) end.position (
          codes "invalid escape sequence '\\"
          ++ slice c.source c.position end.position
          ++ codes "'"))
        end

  unfoldable pub lex_escape : LuaVersion → ℕ → Cursor → EscapeResult
  unfolding lex_decimal_escape lex_hex_escape lex_unicode_escape reject_escape
  lex_escape version escaped c =
      if escaped == b'\n'
      then (let next = advance c in
          consumed (if is_luau version then next else advance_over b'\r' next))
      else if escaped == b'\r'
      then consumed (advance_over b'\n' (advance c))
      else if is_digit escaped
      then lex_decimal_escape c
      else if escaped == b'x' && has_hex_escape version
      then lex_hex_escape c
      else if escaped == b'z' && has_whitespace_escape version
      then consumed (eat_while is_space (advance c))
      else if escaped == b'u' && has_unicode_escape version
      then lex_unicode_escape c
      else if is_simple_escape escaped
      then consumed (advance c)
      else if not (has_strict_escapes version)
      then consumed (advance c)
      else reject_escape c
