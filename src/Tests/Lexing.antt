-- ===== src/Tests/Lexing.antt =====
-- Numbers and positions in small texts.
use luck.Lexer.Cursor.{Cursor, advance, eat_while, count_while}
use luck.Lexer.Search.{find_match, scan_prefix, skip_batches, scan_rest}
use luck.Lexer.Search.Batches.{first_match, find_match-first_match}
use luck.Lexer.LongBracket.{
  lex_long_bracket_body, scan_to_long_bracket_close, scan_rounds, skip_long_bracket_open,
  string_literal,
}
use luck.Lexer.LongBracket.Closer.{first_index, first_close}
use luck.Lexer.LongBracket.Closing.{scanned_to, scan_to_long_bracket_close-first_close}
use luck.Lexer.Number.Decimals.{start_cursor, end_cursor, lex_number-digits}
use luck.Lexer.Number.Bounds.{Sound}
use luck.Lexer.Number.Outcomes.{lex_number-Sound}
use luck.Lexer.Number.{number, fail, lex_number}
use luck.Span.Lines.{Lines, line_col-Lines, count_newlines}
use luck.Span.{line_col}
use luck.Prelude.{
  some, drop, arith, ℕ, Bool, ◌==◌, ◌++◌, replicate, ◌+◌, ◌≡◌, refl, codes, length, min, take,
  Bytes,
}
use luck.Version.{
  lua51, lua54, luau, has_binary_literals, has_underscore_separators, has_hex_floats, is_luau,
  has_luau_integer_literals,
}

abbrev at_start : Bytes → Cursor
at_start source = record { source = source; position = 0 }

abbrev hex_float : Bytes
hex_float = codes "0x1.8p-3 + y"

reads_hex_float :
    lex_number lua54 (at_start hex_float)
    ≡ (number (codes "0x1.8p-3"), record { source = hex_float; position = 8 })
unfolding lex_number advance eat_while count_while has_binary_literals has_underscore_separators
    has_hex_floats is_luau has_luau_integer_literals
reads_hex_float = refl

reads_binary : (lex_number luau (at_start (codes "0b1_01i"))).0 ≡ number (codes "0b1_01i")
unfolding lex_number advance eat_while count_while has_binary_literals has_underscore_separators
    has_hex_floats is_luau has_luau_integer_literals
reads_binary = refl

refuses_range :
    (lex_number luau (at_start (codes "9223372036854775808i"))).0
    ≡ fail (record {
      span = record { start = 0; end = 20 };
      message = codes "integer literal is outside the 64-bit range";
    })
unfolding lex_number advance eat_while count_while has_binary_literals has_underscore_separators
    has_hex_floats is_luau has_luau_integer_literals
refuses_range = refl

refuses_concat :
    (lex_number lua51 (at_start (codes "1..x"))).0
    ≡ fail (record {
      span = record { start = 0; end = 3 };
      message = codes "malformed number (a numeral cannot directly precede '..')";
    })
unfolding lex_number advance eat_while count_while has_binary_literals has_underscore_separators
    has_hex_floats is_luau has_luau_integer_literals
refuses_concat = refl

lex_number-Sound_example : Sound hex_float 0 lua54 (lex_number lua54 (at_start hex_float))
lex_number-Sound_example = lex_number-Sound lua54 (at_start hex_float) refl

abbrev two_lines : Bytes
two_lines = codes "local x\nx = 1"

third_column : line_col two_lines 10 ≡ (2, 3)
unfolding line_col
third_column = refl

line_col-Lines_example :
    (l : Lines (take (min 10 (length two_lines)) two_lines)) × (line_col two_lines 10
      ≡ (count_newlines (take (min 10 (length two_lines)) two_lines) + 1, length l.rest + 1))
line_col-Lines_example = line_col-Lines two_lines 10

abbrev is_quote : ℕ → Bool
is_quote b = b == b'"'

-- A match behind the prefix and a batch.
abbrev long_text : Bytes
long_text = replicate 45 b'a' ++ codes "\"b"

finds_quote : find_match is_quote long_text ≡ 45
unfolding find_match scan_prefix skip_batches scan_rest
finds_quote = refl

find_match-first_match_example : find_match is_quote long_text ≡ first_match is_quote long_text
find_match-first_match_example = find_match-first_match is_quote long_text

-- `]]` and `]=]` do not close a bracket of level two.
abbrev long_string : Bytes
long_string = codes "[==[a]]b]=]c]==]d"

reads_long_string :
    lex_long_bracket_body first_index 0 2 (skip_long_bracket_open 2 (at_start long_string))
    ≡ some
        (string_literal (codes "[==[a]]b]=]c]==]"), record { source = long_string; position = 16 })
unfolding lex_long_bracket_body scan_to_long_bracket_close scan_rounds skip_long_bracket_open
    advance count_while first_index
reads_long_string = refl

scan_to_long_bracket_close-first_close_example :
    scan_to_long_bracket_close first_index 2 (skip_long_bracket_open 2 (at_start long_string))
    ≡ some (
        scanned_to (skip_long_bracket_open 2 (at_start long_string)) (
          first_close 2 (
            drop
              (skip_long_bracket_open 2 (at_start long_string)).position
              (skip_long_bracket_open 2 (at_start long_string)).source)))
scan_to_long_bracket_close-first_close_example =
    scan_to_long_bracket_close-first_close first_index (λ needle s. refl) 2
      (skip_long_bracket_open 2 (at_start long_string))
      (unfold skip_long_bracket_open advance in omega arith)

lex_number-digits_example :
    lex_number luau (start_cursor (codes "y = ") (codes "1024") (codes " + x"))
    ≡ (number (codes "1024"), end_cursor (codes "y = ") (codes "1024") (codes " + x"))
lex_number-digits_example =
    lex_number-digits luau (codes "y = ") b'1' (codes "024") (codes " + x") refl refl
