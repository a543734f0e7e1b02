-- ===== src/Tests/Minifying.antt =====
-- Runs of the minifier's name generator and of the step on strings, and their theorems there.
use luck.Literal.Decode.{decode_string_literal, decode_loop, decode_round, escape_arm}
use luck.Minifier.Strings.{shorten_literal}
use luck.Minifier.Strings.Shorter.{decode-shorten_literal}
use luck.Version.{
  lua54, is_luau, has_hex_escape, has_whitespace_escape, has_unicode_escape, has_strict_escapes,
}
use luck.Minifier.Names.{
  name_for_index, find_length, combinations, lead_divisor, long_name, push_rest,
}
use luck.Minifier.Names.Ranks.{
  names_up_to, rank, is_name, name_for_index-ranks, name_for_index-shortlex,
}
use luck.Prelude.{◌≡◌, ◌≢◌, ◌≤◌, ◌<◌, refl, true, some, Bytes, codes, length, arith}

single_chars_come_first : name_for_index 3 ≡ some (codes "k")
unfolding name_for_index
single_chars_come_first = refl

rolls_over_to_two_chars : name_for_index 53 ≡ some (codes "ll")
unfolding name_for_index find_length combinations lead_divisor long_name push_rest
rolls_over_to_two_chars = refl

three_chars : name_for_index 3392 ≡ some (codes "lll")
unfolding name_for_index find_length combinations lead_divisor long_name push_rest
three_chars = refl

name_for_index-ranks_example :
    (name : Bytes) × (name_for_index 3392 ≡ some name)
    × (is_name name ≡ true)
    × (rank name ≡ 3392)
    × (3392 < names_up_to (length name))
name_for_index-ranks_example = name_for_index-ranks 3392 (omega arith)

name_for_index-shortlex_example :
    (codes "ll" ≢ codes "lll") × (length (codes "ll") ≤ length (codes "lll"))
name_for_index-shortlex_example =
    name_for_index-shortlex 53 3392 (codes "ll") (codes "lll") (omega arith) (omega arith)
      rolls_over_to_two_chars three_chars

abbrev spelled_out : Bytes
spelled_out = codes "'\\097\\098\\099'"

spells_abc : decode_string_literal lua54 spelled_out ≡ some (codes "abc")
unfolding decode_string_literal decode_loop decode_round escape_arm is_luau has_hex_escape
    has_whitespace_escape has_unicode_escape has_strict_escapes
spells_abc = refl

decode-shorten_literal_example :
    (decode_string_literal lua54 (shorten_literal lua54 spelled_out) ≡ some (codes "abc"))
    × (length (shorten_literal lua54 spelled_out) ≤ length spelled_out)
decode-shorten_literal_example =
    decode-shorten_literal lua54 spelled_out (codes "abc") (omega arith) spells_abc
