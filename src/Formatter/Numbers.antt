-- ===== src/Formatter/Numbers.antt =====
-- `normalize_number` of crates/luck_formatter/src/numbers.rs, on the bytes of a literal.
pub mod Spelling
use luck.Prelude.{
  ℕ, ◌+◌, ◌-◌, ◌/◌, ◌%◌, Bool, true, false, not, ◌&&◌, ◌||◌, List, [], ◌∷◌, ◌++◌, ltb, ◌==◌, within,
  if◌then◌else◌, any, map, Bytes,
}

pub data HexCase : Type 0 where
  preserve : HexCase
  lower : HexCase
  upper : HexCase

abbrev pub to_ascii_lowercase : ℕ → ℕ
to_ascii_lowercase b = if within b'A' b'Z' b then b + 32 else b

abbrev pub to_ascii_uppercase : ℕ → ℕ
to_ascii_uppercase b = if within b'a' b'z' b then b - 32 else b

-- `result.push(byte as char)`: a byte that is not ASCII becomes a character of two bytes.
abbrev pub pushed : ℕ → Bytes
pushed b = if ltb b 128 then b ∷ [] else (192 + b / 64) ∷ (128 + b % 64) ∷ []

unfoldable pub apply_hex_case : ℕ → HexCase → ℕ
apply_hex_case b preserve = b
apply_hex_case b lower = to_ascii_lowercase b
apply_hex_case b upper = to_ascii_uppercase b

-- What the loop over the bytes behind the prefix pushes for one.
unfoldable pub normalize_byte : Bool → HexCase → ℕ → Bytes
unfolding apply_hex_case
normalize_byte is_hex hex_case b =
    if is_hex && (b == b'p' || b == b'P')
    then b'p' ∷ []
    else if is_hex && (within b'a' b'f' b || within b'A' b'F' b)
    then apply_hex_case b hex_case ∷ []
    else pushed b

unfoldable pub normalize_bytes : Bool → HexCase → Bytes → Bytes
unfolding normalize_byte
normalize_bytes is_hex hex_case [] = []
normalize_bytes is_hex hex_case (b ∷ rest) =
    normalize_byte is_hex hex_case b ++ normalize_bytes is_hex hex_case rest

abbrev pub starts_with_dot : Bytes → Bool
starts_with_dot [] = false
starts_with_dot (b ∷ _) = b == b'.'

unfoldable pub normalize_decimal : Bytes → Bytes
normalize_decimal text =
    let lowered = map (λ b. if b == b'E' then b'e' else b) text in
    if not (starts_with_dot text) && not (any (◌== b'E') text)
    then text
    else if starts_with_dot text
    then b'0' ∷ lowered
    else lowered

unfoldable pub normalize_number : Bytes → HexCase → Bytes
unfolding normalize_bytes normalize_decimal
normalize_number (a ∷ b ∷ rest) hex_case =
    let is_hex = a == b'0' && (b == b'x' || b == b'X') in
    let is_binary = a == b'0' && (b == b'b' || b == b'B') in
    if not is_hex && not is_binary
    then normalize_decimal (a ∷ b ∷ rest)
    else b'0' ∷ to_ascii_lowercase b ∷ normalize_bytes is_hex hex_case rest
normalize_number text hex_case = normalize_decimal text
