-- ===== src/Lexer/Number/Decimals.antt =====
-- Runs of decimal digits in crates/luck_lexer/src/number.rs.
use luck.Lexer.Cursor.{Cursor, peek, peek_at, eat_while, count_while, slice}
use luck.Lexer.Number.{
  number, is_some_and, is_byte, is_either, is_digit, eat_decimal_digits, lex_fraction, lex_exponent,
  finish_number, lex_decimal_number, go, lex_number, validate_underscore_placement,
}
use luck.Prelude.{
  suc, ℕ, ◌-◌, ◌+◌, ◌≡◌, refl, ap, ap₂, drop_prefix, ◌∙◌, inl, inr, Bool, true, false, ◌&&◌, ◌||◌,
  ◌==◌, [], ◌∷◌, ◌++◌, Bool-cases, all, any, take, length, get_elem?, take_prefix, Bytes, arith,
}
use luck.Version.{
  LuaVersion, has_binary_literals, has_luau_integer_literals, has_underscore_separators,
}

-- What ends a run of digits: no byte that could go on with a number.
abbrev pub goes_on : ℕ → Bool
goes_on b =
    is_digit b
    || b == b'_'
    || b == b'.'
    || b == b'e'
    || b == b'E'
    || b == b'i'
    || b == b'x'
    || b == b'X'
    || b == b'b'
    || b == b'B'

abbrev pub Ends : Bytes → Type 0
Ends rest = is_some_and (get_elem? rest 0) goes_on ≡ false

add_left_zero : (k : ℕ) → 0 + k ≡ k
add_left_zero k = omega arith

add_suc : (n k : ℕ) → suc n + k ≡ suc (n + k)
add_suc n k = omega arith

get_elem-behind : (x y : Bytes) (k : ℕ) → get_elem? (x ++ y) (length x + k) ≡ get_elem? y k
get_elem-behind [] y k = ap (get_elem? y) (add_left_zero k)
get_elem-behind (a ∷ x) y k =
    ap (get_elem? (a ∷ (x ++ y))) (add_suc (length x) k) ∙ get_elem-behind x y k

get_elem-there : (x y : Bytes) → get_elem? (x ++ y) (length x) ≡ get_elem? y 0
get_elem-there [] y = refl
get_elem-there (a ∷ x) y = get_elem-there x y

count_while-prefix :
    (p : ℕ → Bool) (x y : Bytes)
    → all p x ≡ true
    → is_some_and (get_elem? y 0) p ≡ false
    → count_while p (x ++ y) ≡ length x
unfolding count_while
count_while-prefix p [] [] h e = refl
count_while-prefix p [] (b ∷ y) h e = ground (arith, e)
count_while-prefix p (a ∷ x) y h e =
    ground (arith, h, count_while-prefix p x y (ground (arith, h)) e)

digits_or_separators :
    (x : Bytes) → all is_digit x ≡ true → all (λ b. is_digit b || b == b'_') x ≡ true
digits_or_separators [] h = refl
digits_or_separators (a ∷ x) h = ground (arith, h, digits_or_separators x (ground (arith, h)))

no_underscore : (x : Bytes) → all is_digit x ≡ true → any (λ b. b == b'_') x ≡ false
no_underscore [] h = refl
no_underscore (a ∷ x) h = ground (arith, h, no_underscore x (ground (arith, h)))

-- A test that none of the ending bytes passes.
fails_at_end :
    (p : ℕ → Bool) (rest : Bytes)
    → ((b : ℕ) → p b ≡ true → goes_on b ≡ true)
    → Ends rest
    → is_some_and (get_elem? rest 0) p ≡ false
fails_at_end p [] f e = refl
fails_at_end p (b ∷ rest) f e = ground (arith, e, f b)

minus_start : (s n : ℕ) → s + n - s ≡ n
minus_start s n = omega arith

-- The cursor in front of the digits, and behind them.
abbrev pub start_cursor : Bytes → Bytes → Bytes → Cursor
start_cursor before x rest = record { source = before ++ (x ++ rest); position = length before }

abbrev pub end_cursor : Bytes → Bytes → Bytes → Cursor
end_cursor before x rest = record {
  source = before ++ (x ++ rest);
  position = length before + length x;
}

module _ (before x rest : Bytes) (digits : all is_digit x ≡ true) (ends : Ends rest) where
  eat_decimal_digits_lem :
      (a : Bool) → eat_decimal_digits a (start_cursor before x rest) ≡ (end_cursor before x rest)
  unfolding eat_decimal_digits eat_while
  eat_decimal_digits_lem true =
      ap (λ n. record (start_cursor before x rest) { position = length before + n })
        (ap (count_while (λ b. is_digit b || b == b'_')) (drop_prefix before (x ++ rest))
          ∙ count_while-prefix (λ b. is_digit b || b == b'_') x rest (digits_or_separators x digits)
              (fails_at_end (λ b. is_digit b || b == b'_') rest (λ b h. ground (arith, h)) ends))
  eat_decimal_digits_lem false =
      ap (λ n. record (start_cursor before x rest) { position = length before + n })
        (ap (count_while is_digit) (drop_prefix before (x ++ rest))
          ∙ count_while-prefix is_digit x rest digits
              (fails_at_end is_digit rest (λ b h. ground (arith, h)) ends))

  peek-end : peek (end_cursor before x rest) ≡ get_elem? rest 0
  peek-end = get_elem-behind before (x ++ rest) (length x) ∙ get_elem-there x rest

  fails_there :
      (p : ℕ → Bool)
      → ((b : ℕ) → p b ≡ true → goes_on b ≡ true)
      → is_some_and (peek (end_cursor before x rest)) p ≡ false
  fails_there p f = ap (λ o. is_some_and o p) peek-end ∙ fails_at_end p rest f ends

  no_dot : is_byte b'.' (peek (end_cursor before x rest)) ≡ false
  no_dot = fails_there (λ b. b == b'.') (λ b h. ground (arith, h))

  lex_fraction_lem :
      (a : Bool) → lex_fraction a (end_cursor before x rest) ≡ (false, (end_cursor before x rest))
  unfolding lex_fraction
  lex_fraction_lem a = rw (no_dot, lex_fraction) refl

  no_exponent : is_either b'e' b'E' (peek (end_cursor before x rest)) ≡ false
  no_exponent = fails_there (λ b. b == b'e' || b == b'E') (λ b h. ground (arith, h))

  lex_exponent_lem :
      (m : Bytes) (a : Bool)
      → lex_exponent b'e' b'E' m a (length before) (end_cursor before x rest)
        ≡ go (end_cursor before x rest)
  unfolding lex_exponent
  lex_exponent_lem m a = rw (no_exponent, lex_exponent) refl

  no_suffix : is_byte b'i' (peek (end_cursor before x rest)) ≡ false
  no_suffix = fails_there (λ b. b == b'i') (λ b h. ground (arith, h))

  no_integer :
      (version : LuaVersion)
      → (has_luau_integer_literals version && is_byte b'i' (peek (end_cursor before x rest)))
        ≡ false
  no_integer version = elim (Bool-cases (has_luau_integer_literals version)) [
    | inl e ↦ rw (e, no_suffix) refl
    | inr e ↦ rw e refl
  ]

  slice_digits : slice (before ++ (x ++ rest)) (length before) (length before + length x) ≡ x
  slice_digits =
      ap₂ take (minus_start (length before) (length x)) (drop_prefix before (x ++ rest))
      ∙ take_prefix x rest

  finish_number_lem :
      (version : LuaVersion)
      → finish_number (end_cursor before x rest) (length before) version
        ≡ (number x, (end_cursor before x rest))
  unfolding finish_number validate_underscore_placement
  finish_number_lem version =
      rw
        (
          ap (any (λ b. b == b'_')) slice_digits ∙ no_underscore x digits,
          finish_number,
          validate_underscore_placement,
        )
        (ap (λ s. (number s, (end_cursor before x rest))) slice_digits)

  lex_decimal_number_lem :
      (version : LuaVersion)
      → lex_decimal_number version (length before) (start_cursor before x rest)
        ≡ (number x, (end_cursor before x rest))
  unfolding lex_decimal_number
  lex_decimal_number_lem version = rw (eat_decimal_digits_lem (has_underscore_separators version)) (
      rw (lex_fraction_lem (has_underscore_separators version))
        (rw (no_exponent, no_dot, no_integer version) (finish_number_lem version)))

-- The second byte is a digit, or the first behind the digits.
no_prefix :
    (p : ℕ → Bool) (d : ℕ) (x rest : Bytes)
    → ((b : ℕ) → p b ≡ true → goes_on b ≡ true)
    → ((b : ℕ) → is_digit b ≡ true → p b ≡ false)
    → all is_digit (d ∷ x) ≡ true
    → Ends rest
    → is_some_and (get_elem? (d ∷ (x ++ rest)) 1) p ≡ false
no_prefix p d [] rest f g h e = fails_at_end p rest f e
no_prefix p d (c ∷ x) rest f g h e = g c (ground (arith, h))

-- Anywhere in a source, a run of decimal digits is read as one number, whole, in every dialect, if
-- the byte behind it is none that could go on with a number.
pub lex_number-digits :
    (version : LuaVersion) (before : Bytes) (d : ℕ) (x rest : Bytes)
    → all is_digit (d ∷ x) ≡ true
    → Ends rest
    → lex_number version (start_cursor before (d ∷ x) rest)
      ≡ (number (d ∷ x), end_cursor before (d ∷ x) rest)
unfolding lex_number
lex_number-digits version before d x rest h e =
    let c : Cursor = start_cursor before (d ∷ x) rest in
    let second : peek_at c 1 ≡ get_elem? (d ∷ (x ++ rest)) 1 =
      get_elem-behind before (d ∷ (x ++ rest)) 1 in
    let no_x : is_either b'x' b'X' (peek_at c 1) ≡ false =
      ap (is_either b'x' b'X') second
      ∙ no_prefix (λ b. b == b'x' || b == b'X') d x rest (λ b k. ground (arith, k))
          (λ b k. ground (arith, k)) h e in
    let no_b : is_either b'b' b'B' (peek_at c 1) ≡ false =
      ap (is_either b'b' b'B') second
      ∙ no_prefix (λ b. b == b'b' || b == b'B') d x rest (λ b k. ground (arith, k))
          (λ b k. ground (arith, k)) h e in
    let hex : (is_byte b'0' (peek c) && is_either b'x' b'X' (peek_at c 1)) ≡ false =
      elim (Bool-cases (is_byte b'0' (peek c))) [ inl k ↦ rw (k, no_x) refl | inr k ↦ rw k refl ] in
    let binary : (has_binary_literals version
          && is_byte b'0' (peek c)
          && is_either b'b' b'B' (peek_at c 1))
        ≡ false =
      ground (arith, no_b) in
    rw (hex, binary, lex_number) (lex_decimal_number_lem before (d ∷ x) rest h e version)
