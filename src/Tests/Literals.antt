-- ===== src/Tests/Literals.antt =====
-- Literals on concrete texts.
use luck.Literal.Decode.{
  decode_string_literal, decode_loop, decode_round, escape_arm, newline_loop, newline_round,
}
use luck.Literal.Encode.{
  encode_string_literal, push_escaped_text, push_break, push_chunks, push_invalid,
  push_decimal_escape,
}
use luck.Prelude.{◌≡◌, refl, some, [], ◌∷◌, codes, arith, Bytes}
use luck.Literal.RoundTrip.{decode-encode}
use luck.Utf8.{scan, next_chunk, utf8_chunks, is_utf8, char_from_u32, encode_utf8}
use luck.Version.{
  lua54, luau, is_luau, has_hex_escape, has_whitespace_escape, has_unicode_escape,
  has_strict_escapes,
}

encode_mixed :
    encode_string_literal (b'a' ∷ 0x01 ∷ 0xFF ∷ b'7' ∷ 0x7F ∷ 0xC3 ∷ b'3' ∷ b'"' ∷ 0x02 ∷ [])
    ≡ codes "\"a\\1\\2557\\127\\1953\\\"\\2\""
unfolding encode_string_literal push_escaped_text push_break push_chunks push_invalid
    push_decimal_escape scan next_chunk utf8_chunks is_utf8
encode_mixed = refl

decode_escapes :
    decode_string_literal lua54 (codes "\"\\65\\x42\\u{43}\\z  D\\n\"") ≡ some (codes "ABCD\n")
unfolding decode_string_literal decode_loop decode_round escape_arm char_from_u32 encode_utf8
    is_luau has_hex_escape has_whitespace_escape has_unicode_escape has_strict_escapes
decode_escapes = refl

decode_long_string :
    decode_string_literal lua54 (codes "[==[\n\nab\r\nc]==]") ≡ some (codes "\nab\nc")
unfolding decode_string_literal newline_loop newline_round is_luau
decode_long_string = refl

-- Text, a broken character before a digit, a quote and a control byte.
abbrev mixed : Bytes
mixed = b'a' ∷ 0xC3 ∷ b'3' ∷ b'"' ∷ 0x02 ∷ b'4' ∷ 0xFF ∷ []

decode-encode_example : decode_string_literal luau (encode_string_literal mixed) ≡ some mixed
decode-encode_example = decode-encode luau mixed (omega arith)
