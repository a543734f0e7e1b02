-- ===== src/Lexer/Number.antt =====
-- crates/luck_lexer/src/number.rs: number literals. An error carries its span and message; the
-- cursor stands where the lexer left it, in both cases.
pub mod Moves
pub mod Bounds
pub mod Outcomes
pub mod Decimals
use luck.Lexer.Cursor.{Cursor, peek, peek_at, advance, eat_while, slice}
use luck.Span.{Span}
use luck.Prelude.{
  ℕ, ◌+◌, ◌-◌, ◌*◌, ◌^◌, Bool, true, false, not, ◌&&◌, ◌||◌, Option, none, some, [], ◌∷◌, ltb, leb,
  ◌==◌, within, if◌then◌else◌, all, any, drop, length, codes, Bytes,
}
use luck.Version.{
  LuaVersion, luau, has_binary_literals, has_underscore_separators, has_hex_floats, is_luau,
  has_luau_integer_literals,
}

pub record SourceError : Type 0 where
  pub span : Span
  pub message : Bytes

-- The payload of `TokenKind::Number`, or an error.
pub data NumberResult : Type 0 where
  number : Bytes → NumberResult
  fail : SourceError → NumberResult

abbrev pub is_digit : ℕ → Bool
is_digit b = within b'0' b'9' b

abbrev pub is_hexdigit : ℕ → Bool
is_hexdigit b = is_digit b || within b'a' b'f' b || within b'A' b'F' b

abbrev pub is_alphabetic : ℕ → Bool
is_alphabetic b = within b'a' b'z' b || within b'A' b'Z' b

-- `Option::is_some_and`
abbrev pub is_some_and : Option ℕ → (ℕ → Bool) → Bool
is_some_and none p = false
is_some_and (some b) p = p b

-- `cursor.peek() == Some(byte)`
abbrev pub is_byte : ℕ → Option ℕ → Bool
is_byte byte o = is_some_and o (λ b. b == byte)

abbrev pub is_either : ℕ → ℕ → Option ℕ → Bool
is_either x y o = is_some_and o (λ b. b == x || b == y)

unfoldable pub eat_hex_digits : Bool → Cursor → Cursor
eat_hex_digits allow_underscores c =
    if allow_underscores
    then eat_while (λ b. is_hexdigit b || b == b'_') c
    else eat_while is_hexdigit c

unfoldable pub eat_decimal_digits : Bool → Cursor → Cursor
eat_decimal_digits allow_underscores c =
    if allow_underscores then eat_while (λ b. is_digit b || b == b'_') c else eat_while is_digit c

abbrev pub error_at : ℕ → ℕ → Bytes → SourceError
error_at start end message = record {
  span = record { start = start; end = end };
  message = message;
}

-- The error of `validate_underscore_placement`, if there is one.
unfoldable pub validate_underscore_placement : Bytes → ℕ → LuaVersion → Option SourceError
validate_underscore_placement raw start version =
    if any (λ b. b == b'_') raw && not (has_underscore_separators version)
    then some (
        error_at start (start + length raw)
          (codes "underscore separators in numbers are not supported in this Lua version"))
    else none

abbrev digit_value : ℕ → ℕ
digit_value b =
    if is_digit b then b - b'0' else if within b'a' b'f' b then b - b'a' + 10 else b - b'A' + 10

-- The value of a run of digits.
unfoldable pub value_of : ℕ → ℕ → Bytes → ℕ
value_of radix acc [] = acc
value_of radix acc (b ∷ r) = value_of radix (acc * radix + digit_value b) r

unfoldable pub strip_underscores : Bytes → Bytes
strip_underscores [] = []
strip_underscores (b ∷ r) = let rest = strip_underscores r in if b == b'_' then rest else b ∷ rest

abbrev is_radix_digit : ℕ → ℕ → Bool
is_radix_digit radix b = is_hexdigit b && ltb (digit_value b) radix

-- `parse::<i64>` and `u64::from_str_radix` on text without a sign.
unfoldable pub fits_64 : ℕ → Bytes → Bool
unfolding value_of
fits_64 radix digits =
    not (leb (length digits) 0)
    && all (is_radix_digit radix) digits
    && ltb (value_of radix 0 digits) (if radix == 10 then 2 ^ 63 else 2 ^ 64)

unfoldable pub validate_integer_range : Bytes → ℕ → ℕ → ℕ → Option SourceError
unfolding strip_underscores fits_64
validate_integer_range source start end radix =
    let raw = slice source start (end - 1) in
    let digits = if radix == 10 then raw else drop 2 raw in
    if fits_64 radix (strip_underscores digits)
    then none
    else some (error_at start end (codes "integer literal is outside the 64-bit range"))

-- The last two lines of each lexer: the text between `start` and the cursor.
unfoldable pub finish_number : Cursor → ℕ → LuaVersion → NumberResult × Cursor
unfolding validate_underscore_placement
finish_number c start version =
    let raw = slice c.source start c.position in
    elim (validate_underscore_placement raw start version) [
      | none ↦ (number raw, c)
      | some e ↦ (fail e, c)
    ]

abbrev pub stop : Cursor → ℕ → ℕ → Bytes → NumberResult × Cursor
stop c start end message = (fail (error_at start end message), c)

abbrev pub dot_dot_message : Bytes
dot_dot_message = codes "malformed number (a numeral cannot directly precede '..')"

abbrev pub before_dot_dot : Cursor → Bool
before_dot_dot c = is_byte b'.' (peek c) && is_byte b'.' (peek_at c 1)

-- A part of a numeral was read, or the lexer returned.
pub data Step : Type 0 where
  go : Cursor → Step
  halt : NumberResult × Cursor → Step

abbrev pub and_then : Step → (Cursor → NumberResult × Cursor) → NumberResult × Cursor
and_then (go c) k = k c
and_then (halt r) k = r

abbrev pub and_step : Step → (Cursor → Step) → Step
and_step (go c) k = k c
and_step (halt r) k = halt r

-- An exponent behind `x` or `y`, with its sign.
unfoldable pub lex_exponent : ℕ → ℕ → Bytes → Bool → ℕ → Cursor → Step
unfolding eat_decimal_digits
lex_exponent x y message allow_underscores start c =
    if is_either x y (peek c)
    then (let c1 = advance c in
        let c2 = if is_either b'+' b'-' (peek c1) then advance c1 else c1 in
        let c3 = eat_decimal_digits allow_underscores c2 in
        if c3.position == c2.position then halt (stop c3 start c3.position message) else go c3)
    else go c

-- The fraction of a hexadecimal float.
unfoldable pub lex_hex_fraction : Bool → Bool → ℕ → Cursor → Step
unfolding eat_hex_digits
lex_hex_fraction allow_underscores has_integer_part start c =
    if is_byte b'.' (peek c)
    then (let dot = advance c in
        let c1 = eat_hex_digits allow_underscores dot in
        if not has_integer_part && not (ltb dot.position c1.position)
        then halt (
            stop c1 start c1.position
              (codes "hex float requires digits before or after decimal point"))
        else go c1)
    else if not has_integer_part
    then halt (stop c start c.position (codes "hex literal requires at least one digit after '0x'"))
    else go c

-- Lua 5.2+ reads a fraction and an exponent, and no further dot.
unfoldable pub lex_hex_float : Bool → Bool → ℕ → Cursor → Step
unfolding lex_hex_fraction lex_exponent
lex_hex_float allow_underscores has_integer_part start c =
    and_step (lex_hex_fraction allow_underscores has_integer_part start c) λ c1.
      and_step
        (lex_exponent b'p' b'P' (codes "hex float exponent requires digits") allow_underscores start
          c1)
        λ c2.
          if is_byte b'.' (peek c2)
          then halt (stop c2 start (c2.position + 1) (codes "malformed hexadecimal number"))
          else go c2

-- Lua 5.1 and Luau refuse a hexadecimal float.
unfoldable pub reject_hex_float : Bool → ℕ → Cursor → Step
reject_hex_float has_integer_part start c =
    if not has_integer_part
    then halt (stop c start c.position (codes "hex literal requires at least one digit after '0x'"))
    else if (is_byte b'.' (peek c) && is_some_and (peek_at c 1) is_hexdigit)
        || is_either b'p' b'P' (peek c)
    then halt
        (stop c start c.position (codes "hex float literals are not supported in this Lua version"))
    else go c

-- The `i` of a Luau integer, whose range is checked.
unfoldable pub lex_integer_suffix : LuaVersion → ℕ → ℕ → Cursor → Step
unfolding validate_integer_range
lex_integer_suffix version radix start c =
    if has_luau_integer_literals version && is_byte b'i' (peek c)
    then (let c1 = advance c in
        elim (validate_integer_range c1.source start c1.position radix) [
          | none ↦ go c1
          | some e ↦ halt (fail e, c1)
        ])
    else go c

unfoldable pub lex_hex_number : LuaVersion → ℕ → Cursor → NumberResult × Cursor
unfolding lex_hex_float reject_hex_float lex_integer_suffix eat_hex_digits finish_number
lex_hex_number version start c0 =
    let allow_underscores = has_underscore_separators version in
    let digits = advance (advance c0) in
    let c = eat_hex_digits allow_underscores digits in
    let has_integer_part = any is_hexdigit (slice c.source digits.position c.position) in
    let float =
      if has_hex_floats version
      then lex_hex_float allow_underscores has_integer_part start c
      else reject_hex_float has_integer_part start c in
    and_then float λ c1.
      if is_luau version && before_dot_dot c1
      then stop c1 start (c1.position + 2) dot_dot_message
      else and_then (lex_integer_suffix version 16 start c1) λ c2.
        if is_some_and (peek c2) (λ b. is_alphabetic b || b == b'_')
        then stop c2 start (c2.position + 1) (codes "malformed hexadecimal number")
        else finish_number c2 start version

-- Binary literals are Luau's, and so is the check of their `i`.
unfoldable pub lex_binary_number : ℕ → Cursor → NumberResult × Cursor
unfolding validate_integer_range finish_number
lex_binary_number start c0 =
    let digits = advance (advance c0) in
    let c = eat_while (λ b. b == b'0' || b == b'1' || b == b'_') digits in
    if c.position == digits.position
    then stop c start c.position (codes "binary literal requires at least one digit")
    else if before_dot_dot c
    then stop c start (c.position + 2) dot_dot_message
    else if is_byte b'i' (peek c)
    then (let c1 = advance c in
        elim (validate_integer_range c1.source start c1.position 2) [
          | none ↦ finish_number c1 start luau
          | some e ↦ (fail e, c1)
        ])
    else finish_number c start luau

-- Whether the dot behind the digits belongs to the numeral.
unfoldable pub consume_dot : Option ℕ → Bool
consume_dot none = true
consume_dot (some b) =
    if is_digit b
    then true
    else if b == b'e' || b == b'E'
    then true
    else if b == b'.'
    then false
    else not (is_alphabetic b || b == b'_')

-- The fraction of a decimal numeral, and whether there is one.
unfoldable pub lex_fraction : Bool → Cursor → Bool × Cursor
unfolding consume_dot eat_decimal_digits
lex_fraction allow_underscores c =
    if is_byte b'.' (peek c) && consume_dot (peek_at c 1)
    then (true, eat_decimal_digits allow_underscores (advance c))
    else (false, c)

unfoldable pub lex_decimal_number : LuaVersion → ℕ → Cursor → NumberResult × Cursor
unfolding lex_fraction lex_exponent validate_integer_range finish_number eat_decimal_digits
lex_decimal_number version start c0 =
    let allow_underscores = has_underscore_separators version in
    let c = eat_decimal_digits allow_underscores c0 in
    let (has_fraction, c1) = lex_fraction allow_underscores c in
    let is_float = has_fraction || is_either b'e' b'E' (peek c1) in
    and_then
      (lex_exponent b'e' b'E' (codes "decimal exponent requires digits") allow_underscores start c1)
      λ c2.
        if before_dot_dot c2
        then stop c2 start (c2.position + 2) dot_dot_message
        else if has_luau_integer_literals version && is_byte b'i' (peek c2)
        then (let c3 = advance c2 in
            if is_float
            then stop c3 start c3.position
                (codes "the 'i' integer suffix is not allowed on float literals")
            else elim (validate_integer_range c3.source start c3.position 10) [
              | none ↦ finish_number c3 start version
              | some e ↦ (fail e, c3)
            ])
        else finish_number c2 start version

-- Where the lexer calls `lex_number`: at a digit, or at a dot in front of one.
abbrev pub starts_number : Cursor → Bool
starts_number c =
    is_some_and (peek c) is_digit || (is_byte b'.' (peek c) && is_some_and (peek_at c 1) is_digit)

unfoldable pub lex_number : LuaVersion → Cursor → NumberResult × Cursor
unfolding lex_hex_number lex_binary_number lex_decimal_number
lex_number version c =
    let start = c.position in
    if is_byte b'0' (peek c) && is_either b'x' b'X' (peek_at c 1)
    then lex_hex_number version start c
    else if has_binary_literals version
        && is_byte b'0' (peek c)
        && is_either b'b' b'B' (peek_at c 1)
    then lex_binary_number start c
    else lex_decimal_number version start c
