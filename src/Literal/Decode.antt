-- ===== src/Literal/Decode.antt =====
-- `decode_string_literal` of crates/luck_token/src/literal.rs, over the bytes of the raw text. An
-- index into the input is the list from there on, and a loop that moves its index by more than one
-- skips that many bytes.
use luck.Literal.Encode.{is_ascii_digit}
use luck.Prelude.{
  ℕ, zero, suc, ◌+◌, ◌-◌, ◌*◌, ◌^◌, Bool, false, not, ◌&&◌, ◌||◌, Option, none, some, [], ◌∷◌, ◌++◌,
  ltb, ◌==◌, within, if◌then◌else◌, ◌>>=◌, any, take, drop, length, Bytes,
}
use luck.Utf8.{char_from_u32, encode_utf8}
use luck.Version.{
  LuaVersion, is_luau, has_hex_escape, has_whitespace_escape, has_unicode_escape,
  has_strict_escapes,
}

-- `slice.get(i) == Some(&b)`, at the first byte of what is left.
abbrev pub starts_with : ℕ → Bytes → Bool
starts_with b [] = false
starts_with b (c ∷ _) = c == b

-- `char::to_digit(16)`
unfoldable pub to_digit16 : ℕ → Option ℕ
to_digit16 c =
    if within b'0' b'9' c
    then some (c - b'0')
    else if within b'a' b'f' c
    then some (c - b'a' + 10)
    else if within b'A' b'F' c
    then some (c - b'A' + 10)
    else none

unfoldable pub hex_escape : Bytes → Option (Bytes × ℕ)
unfolding to_digit16
hex_escape [] = none
hex_escape (h ∷ []) = none
hex_escape (h ∷ l ∷ r) = do hi ← to_digit16 h; lo ← to_digit16 l; some ((hi * 16 + lo) ∷ [], 2)

abbrev is_space : ℕ → Bool
is_space b = b == b' ' || b == b'\t' || b == b'\n' || b == b'\r' || b == 0x0B || b == 0x0C

unfoldable pub count_spaces : Bytes → ℕ
count_spaces [] = 0
count_spaces (b ∷ r) = if is_space b then suc (count_spaces r) else 0

-- The `for _ in 0..2` loop of a decimal escape: its value, and the digits taken.
unfoldable pub decimal_digits : ℕ → ℕ → ℕ → Bytes → ℕ × ℕ
decimal_digits zero value taken r = (value, taken)
decimal_digits (suc n) value taken [] = (value, taken)
decimal_digits (suc n) value taken (d ∷ r) =
    if is_ascii_digit d
    then decimal_digits n (value * 10 + (d - b'0')) (taken + 1) r
    else (value, taken)

unfoldable pub decimal_escape : ℕ → Bytes → Option (Bytes × ℕ)
unfolding decimal_digits
decimal_escape escaped r =
    let (value, taken) = decimal_digits 2 (escaped - b'0') 0 r in
    if ltb 255 value then none else some (value ∷ [], taken)

abbrev checked_mul_u32 : ℕ → ℕ → Option ℕ
checked_mul_u32 a b = if ltb (a * b) (2 ^ 32) then some (a * b) else none

-- The `while let` loop of `\u{…}`: its value, and the bytes taken, the brace included.
unfoldable pub unicode_digits : ℕ → ℕ → Bytes → Option (ℕ × ℕ)
unicode_digits value taken [] = some (value, taken)
unicode_digits value taken (d ∷ r) =
    if d == b'}'
    then some (value, taken + 1)
    else (checked_mul_u32 value 16 >>= λ m.
        to_digit16 d >>= λ digit. unicode_digits (m + digit) (taken + 1) r)

unfoldable pub unicode_escape : Bytes → Option (Bytes × ℕ)
unfolding unicode_digits to_digit16
unicode_escape [] = none
unicode_escape (b ∷ r) =
    if not (b == b'{')
    then none
    else (unicode_digits 0 1 r >>= λ found.
        char_from_u32 (found.0) >>= λ ch. some (encode_utf8 ch, found.1))

-- The `match escaped`: what it appends, and how many bytes behind `escaped` it takes.
unfoldable pub escape_arm : LuaVersion → ℕ → Bytes → Option (Bytes × ℕ)
unfolding hex_escape count_spaces decimal_escape unicode_escape
escape_arm version escaped r =
    if escaped == b'a'
    then some (0x07 ∷ [], 0)
    else if escaped == b'b'
    then some (0x08 ∷ [], 0)
    else if escaped == b'f'
    then some (0x0C ∷ [], 0)
    else if escaped == b'n'
    then some (b'\n' ∷ [], 0)
    else if escaped == b'r'
    then some (b'\r' ∷ [], 0)
    else if escaped == b't'
    then some (b'\t' ∷ [], 0)
    else if escaped == b'v'
    then some (0x0B ∷ [], 0)
    else if escaped == b'\\'
    then some (b'\\' ∷ [], 0)
    else if escaped == b'"'
    then some (b'"' ∷ [], 0)
    else if escaped == b'\''
    then some (b'\'' ∷ [], 0)
    else if escaped == b'\n'
    then some (b'\n' ∷ [], (if not (is_luau version) && starts_with b'\r' r then 1 else 0))
    else if escaped == b'\r'
    then some (b'\n' ∷ [], (if starts_with b'\n' r then 1 else 0))
    else if escaped == b'x' && has_hex_escape version
    then hex_escape r
    else if escaped == b'z' && has_whitespace_escape version
    then some ([], count_spaces r)
    else if within b'0' b'9' escaped
    then decimal_escape escaped r
    else if escaped == b'u' && has_unicode_escape version
    then unicode_escape r
    else if not (has_strict_escapes version)
    then some (escaped ∷ [], 0)
    else none

-- One round of the loop at `byte`: what it appends, and how many bytes behind `byte` it takes.
unfoldable pub decode_round : LuaVersion → ℕ → Bytes → Option (Bytes × ℕ)
decode_round version byte r = if not (byte == b'\\') then some (byte ∷ [], 0) else elim r [
  | [] ↦ none
  | escaped ∷ r' ↦ elim (escape_arm version escaped r') [
    | none ↦ none
    | some (piece, taken) ↦ some (piece, suc taken)
  ]
]

-- `while idx < inner.len()`
unfoldable pub decode_loop : LuaVersion → Bytes → ℕ → Bytes → Option Bytes
decode_loop version out skip [] = some out
decode_loop version out (suc skip) (b ∷ r) = decode_loop version out skip r
decode_loop version out zero (b ∷ r) = elim (decode_round version b r) [
  | none ↦ none
  | some (piece, taken) ↦ decode_loop version (out ++ piece) taken r
]

-- One round of the loop over a long string.
unfoldable pub newline_round : LuaVersion → ℕ → Bytes → ℕ × ℕ
newline_round version byte r =
    if byte == b'\r' && starts_with b'\n' r
    then (b'\n', 1)
    else if byte == b'\r' && not (is_luau version)
    then (b'\n', 0)
    else if byte == b'\n' && starts_with b'\r' r && not (is_luau version)
    then (b'\n', 1)
    else (byte, 0)

unfoldable pub newline_loop : LuaVersion → Bytes → ℕ → Bytes → Bytes
newline_loop version out skip [] = out
newline_loop version out (suc skip) (b ∷ r) = newline_loop version out skip r
newline_loop version out zero (b ∷ r) =
    let (byte, taken) = newline_round version b r in newline_loop version (out ++ byte ∷ []) taken r

-- The line break right behind the opening bracket, which is dropped.
unfoldable pub leading_newline : LuaVersion → Bytes → ℕ
leading_newline version [] = 0
leading_newline version (b ∷ r) =
    if b == b'\r' && starts_with b'\n' r
    then 2
    else if b == b'\n' && starts_with b'\r' r && not (is_luau version)
    then 2
    else if b == b'\r' && not (is_luau version)
    then 1
    else if b == b'\n'
    then 1
    else 0

unfoldable pub count_equals : Bytes → ℕ
count_equals [] = 0
count_equals (b ∷ r) = if b == b'=' then suc (count_equals r) else 0

-- A raw text that starts with `[`; `r` is what follows that bracket.
unfoldable pub decode_long : LuaVersion → Bytes → Option Bytes
unfolding count_equals leading_newline
decode_long version r =
    let equals = count_equals r in
    let len = suc (length r) in
    let content_start = 1 + equals + 1 in
    if ltb len (2 + equals)
    then none
    else (let content_end = len - (2 + equals) in
        if ltb content_end content_start
        then some []
        else (let content = take (content_end - content_start) (drop content_start (b'[' ∷ r)) in
            some (newline_loop version [] (leading_newline version content) content)))

-- A raw text with quotes; `r` is what follows the first one. A lone quote has no `1..len - 1`.
unfoldable pub decode_quoted : LuaVersion → Bytes → Option Bytes
decode_quoted version [] = none
decode_quoted version (b ∷ r) =
    let inner = take (length r) (b ∷ r) in
    if not (any (λ c. c == b'\\') inner) then some inner else decode_loop version [] 0 inner

unfoldable pub decode_string_literal : LuaVersion → Bytes → Option Bytes
unfolding decode_long decode_quoted
decode_string_literal version [] = none
decode_string_literal version (quote ∷ r) =
    if quote == b'['
    then decode_long version r
    else if not (quote == b'"') && not (quote == b'\'')
    then none
    else decode_quoted version r
