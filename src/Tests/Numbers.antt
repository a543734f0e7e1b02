-- ===== src/Tests/Numbers.antt =====
-- Number literals as the formatter spells them.
use luck.Formatter.Numbers.{
  lower, upper, preserve, normalize_number, normalize_decimal, normalize_bytes, normalize_byte,
  apply_hex_case,
}
use luck.Formatter.Numbers.Spelling.{
  lowered, zeroed, normalize_number-idempotent, normalize_number-lowered,
}
use luck.Prelude.{◌≡◌, refl, codes, Bytes, arith}

abbrev hex_float : Bytes
hex_float = codes "0XbeP-2"

digits_follow_config : normalize_number hex_float upper ≡ codes "0xBEp-2"
unfolding normalize_number normalize_bytes normalize_byte apply_hex_case
digits_follow_config = refl

leading_dot_gains_zero : normalize_number (codes ".5E2") preserve ≡ codes "0.5e2"
unfolding normalize_number normalize_decimal
leading_dot_gains_zero = refl

normalize_number-idempotent_example :
    normalize_number (normalize_number hex_float lower) lower ≡ normalize_number hex_float lower
normalize_number-idempotent_example = normalize_number-idempotent hex_float lower (omega arith)

normalize_number-lowered_example :
    lowered (normalize_number hex_float upper) ≡ lowered (zeroed hex_float)
normalize_number-lowered_example = normalize_number-lowered hex_float upper (omega arith)
