-- ===== src/Tests/Strings.antt =====
-- Short strings in small texts, with the searches of the parameters instantiated.
use luck.Lexer.Escape.{lex_escape}
use luck.Lexer.LongBracket.{string_literal}
use luck.Lexer.ShortString.{lex_short_string, short_string_rounds, count_ordinary}
use luck.Lexer.ShortString.Bytewise.{at, left, bytewise, lex_short_string-bytewise}
use luck.Lexer.ShortString.Encoded.{lex_short_string-encode}
use luck.Lexer.ShortString.Ordinary.{first_index_by}
use luck.Lexer.Cursor.{advance}
use luck.Lexer.Search.{find_match, scan_prefix, skip_batches, scan_rest}
use luck.Literal.Encode.{encode_string_literal}
use luck.Prelude.{
  ℕ, ◌+◌, ◌≡◌, refl, ◌||◌, ◌==◌, Option, some, [], ◌∷◌, ◌++◌, length, Bytes, codes, arith,
}
use luck.Version.{lua54}

abbrev memchr : ℕ → Bytes → Option ℕ
memchr n s = first_index_by (◌== n) s

abbrev memchr3 : ℕ → ℕ → ℕ → Bytes → Option ℕ
memchr3 l m n s = first_index_by (λ b. b == l || b == m || b == n) s

abbrev no_digits : ℕ → Bytes
no_digits n = []

abbrev said : Bytes
said = codes "'it is \\\"late\\\"' .. x"

lex_short_string-bytewise_example :
    lex_short_string memchr memchr3 no_digits lua54 (at said 0)
    ≡ bytewise no_digits lua54 0 b'\'' (left (at said 0)) (advance (at said 0))
lex_short_string-bytewise_example =
    lex_short_string-bytewise memchr memchr3 no_digits lua54 b'\'' (at said 0) (λ n s. refl)
      (λ l m n s. refl) refl refl

abbrev mixed : Bytes
mixed = 1 ∷ b'0' ∷ b'"' ∷ 200 ∷ b'\\' ∷ b'x' ∷ []

lex_short_string-encode_example :
    let text = encode_string_literal mixed in
    let source = codes "s = " ++ (text ++ codes " .. t") in
    lex_short_string memchr memchr3 no_digits lua54 (at source (length (codes "s = ")))
    ≡ some (string_literal text, at source (length (codes "s = ") + length text))
lex_short_string-encode_example =
    lex_short_string-encode memchr memchr3 no_digits lua54 (codes "s = ") mixed (codes " .. t")
      (λ n s. refl) (λ l m n s. refl) (omega arith)

accepts :
    (lex_short_string memchr memchr3 no_digits lua54 (at said 0))
    ≡ some (string_literal (codes "'it is \\\"late\\\"'"), at said 16)
unfolding lex_short_string short_string_rounds count_ordinary find_match scan_prefix skip_batches
    scan_rest first_index_by advance lex_escape
accepts = refl
