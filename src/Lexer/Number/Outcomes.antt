-- ===== src/Lexer/Number/Outcomes.antt =====
-- What `lex_number` of crates/luck_lexer/src/number.rs returns, for each of its three kinds of number.
use luck.Lexer.Cursor.{Cursor, peek, peek_at, advance, eat_while}
use luck.Lexer.Number.{
  fail, is_some_and, is_byte, is_either, is_digit, is_alphabetic, eat_decimal_digits,
  validate_integer_range, finish_number, stop, before_dot_dot, dot_dot_message, starts_number,
  lex_hex_float, reject_hex_float, lex_hex_number, lex_binary_number, consume_dot, lex_fraction,
  lex_decimal_number, lex_number,
}
use luck.Prelude.{
  ℕ, ◌+◌, ◌≤◌, ◌≡◌, ◌⊎◌, inl, inr, refl, Bool, true, false, ◌&&◌, ◌||◌, Option, none, some,
  if◌then◌else◌, Bytes, codes, arith, Bool-cases, Option-cases, ◌==◌,
}
use luck.Version.{
  LuaVersion, lua51, lua52, lua53, lua54, lua55, luau, has_binary_literals,
  has_underscore_separators, has_hex_floats, is_luau, has_luau_integer_literals,
}
use mathlib.Core.Path.{subst}
use luck.Lexer.Number.Moves.{At, advance-At, eat_while-At, eat_while_moves, eat_while_stays}
use luck.Lexer.Number.Bounds.{
  Sound, StepSound, and_then-Sound, eat_decimal_digits-At, eat_hex_digits-At, step-At, stop_here,
  stop_next, stop_dots, range-Points, range-Sound, finish_number-Sound, lex_exponent-StepSound,
  lex_hex_float-StepSound, reject_hex_float-StepSound, lex_integer_suffix-StepSound,
}

module _ (source : Bytes) (start : ℕ) where
  hex_rest-Sound :
      (version : LuaVersion) (c : Cursor)
      → At source start c
      → Sound source start version (
          if is_some_and (peek c) (λ b. is_alphabetic b || b == b'_')
          then stop c start (c.position + 1) (codes "malformed hexadecimal number")
          else finish_number c start version)
  hex_rest-Sound version c h =
      elim (Bool-cases (is_some_and (peek c) (λ b. is_alphabetic b || b == b'_'))) [
        | inl e ↦ rw e (
            stop_next source start version c (codes "malformed hexadecimal number")
              (λ b. is_alphabetic b || b == b'_') h e)
        | inr e ↦ rw e (finish_number-Sound source start version c h)
      ]

  -- The two bytes in front of the digits, as `0x`.
  prefix-At :
      (c : Cursor) (p q : ℕ → Bool)
      → c.source ≡ source
      → start ≡ c.position
      → is_some_and (peek c) p ≡ true
      → is_some_and (peek_at c 1) q ≡ true
      → At source start (advance (advance c))
  unfolding advance
  prefix-At c p q same here e f =
      let h1 = advance-At source start c p same (omega (arith, here)) e in
      step-At source start (advance c) q h1 (elim (Option-cases (peek c)) [
        | inl n ↦ absurd (cc (rw n at e))
        | inr (b, n) ↦ rw (n, advance) f
      ])

  float-StepSound :
      (version : LuaVersion) (a i : Bool) (c : Cursor)
      → At source start c
      → StepSound source start version
          (if has_hex_floats version then lex_hex_float a i start c else reject_hex_float i start c)
  float-StepSound version a i c h = elim (Bool-cases (has_hex_floats version)) [
    | inl e ↦ rw e (lex_hex_float-StepSound source start version a i c h)
    | inr e ↦ rw e (reject_hex_float-StepSound source start version i c h)
  ]

  lex_hex_number-Sound :
      (version : LuaVersion) (c : Cursor)
      → At source start (advance (advance c))
      → Sound source start version (lex_hex_number version start c)
  unfolding lex_hex_number
  lex_hex_number-Sound version c h =
      and_then-Sound source start version _ _
        (float-StepSound version _ _ _ (
          eat_hex_digits-At source start (has_underscore_separators version) (advance (advance c))
            h))
        λ c1 h1. elim (Bool-cases (is_luau version && before_dot_dot c1)) [
          | inl e ↦ rw e (stop_dots source start version c1 dot_dot_message h1 (ground (arith, e)))
          | inr e ↦ rw e (
              and_then-Sound source start version _ _
                (lex_integer_suffix-StepSound source start version 16 c1 h1)
                (hex_rest-Sound version))
        ]

  lex_binary_number-Sound :
      (c : Cursor)
      → At source start (advance (advance c))
      → Sound source start luau (lex_binary_number start c)
  unfolding lex_binary_number
  lex_binary_number-Sound c h =
      let d = advance (advance c) in
      let c1 = eat_while (λ b. b == b'0' || b == b'1' || b == b'_') d in
      let h1 = eat_while-At source start (λ b. b == b'0' || b == b'1' || b == b'_') d h in
      elim (Bool-cases (c1.position == d.position)) [
        | inl e ↦
            rw (e, lex_binary_number)
              (stop_here source start luau c1 (codes "binary literal requires at least one digit")
                h1)
        | inr e ↦ elim (Bool-cases (before_dot_dot c1)) [
          | inl f ↦
              rw (e, f, lex_binary_number) (stop_dots source start luau c1 dot_dot_message h1 f)
          | inr f ↦ elim (Bool-cases (is_byte b'i' (peek c1))) [
            | inl g ↦
                let h2 = step-At source start c1 (λ b. b == b'i') h1 g in
                rw (e, f, g, lex_binary_number)
                  (range-Sound source start luau (advance c1) _ _ h2
                    (range-Points source start (advance c1).source (advance c1).position 2)
                    (finish_number-Sound source start luau (advance c1) h2))
            | inr g ↦ rw (e, f, g, lex_binary_number) (finish_number-Sound source start luau c1 h1)
          ]
        ]
      ]

  -- In front of the fraction: behind the digits, or at the dot of a number that starts with it.
  abbrev Near : Cursor → Type 0
  Near c =
      At source start c
      ⊎ ((c.source ≡ source)
          × (start ≤ c.position)
          × (is_byte b'.' (peek c) ≡ true)
          × (is_some_and (peek_at c 1) is_digit ≡ true))

  consume_dot-digit : (o : Option ℕ) → is_some_and o is_digit ≡ true → consume_dot o ≡ true
  unfolding consume_dot
  consume_dot-digit none h = absurd (ground arith)
  consume_dot-digit (some b) h = rw h refl

  lex_fraction-At : (a : Bool) (c : Cursor) → Near c → At source start (lex_fraction a c).1
  unfolding lex_fraction
  lex_fraction-At a c (inl h) =
      elim (Bool-cases (is_byte b'.' (peek c) && consume_dot (peek_at c 1))) [
        | inl e ↦
            rw (e, lex_fraction)
              (eat_decimal_digits-At source start a (advance c)
                (step-At source start c (λ b. b == b'.') h (ground (arith, e))))
        | inr e ↦ rw (e, lex_fraction) h
      ]
  lex_fraction-At a c (inr (same, le, dot, digit)) =
      rw (dot, consume_dot-digit (peek_at c 1) digit, lex_fraction)
        (eat_decimal_digits-At source start a (advance c)
          (advance-At source start c (λ b. b == b'.') same le dot))

  digits_move :
      (a : Bool) (c : Cursor)
      → c.source ≡ source
      → start ≡ c.position
      → is_some_and (peek c) is_digit ≡ true
      → At source start (eat_decimal_digits a c)
  unfolding eat_decimal_digits
  digits_move true c same here e =
      eat_while_moves source start _ is_digit c (λ b d. rw d refl) same (omega (arith, here)) e
  digits_move false c same here e =
      eat_while_moves source start _ is_digit c (λ b d. d) same (omega (arith, here)) e

  digits_stay : (a : Bool) (c : Cursor) → is_byte b'.' (peek c) ≡ true → eat_decimal_digits a c ≡ c
  unfolding eat_decimal_digits
  digits_stay true c dot =
      eat_while_stays source start _ (λ b. b == b'.') c (λ b d. ground (arith, d)) dot
  digits_stay false c dot =
      eat_while_stays source start _ (λ b. b == b'.') c (λ b d. ground (arith, d)) dot

  digits-Near :
      (a : Bool) (c : Cursor)
      → c.source ≡ source
      → start ≡ c.position
      → starts_number c ≡ true
      → Near (eat_decimal_digits a c)
  digits-Near a c same here h = elim (Bool-cases (is_some_and (peek c) is_digit)) [
    | inl e ↦ inl (digits_move a c same here e)
    | inr e ↦
        let dot : is_byte b'.' (peek c) ≡ true = ground (arith, e, h) in
        let digit : is_some_and (peek_at c 1) is_digit ≡ true = ground (arith, e, h) in
        rw (digits_stay a c dot) (inr (same, omega (arith, here), dot, digit))
  ]

  decimal_rest-Sound :
      (version : LuaVersion) (is_float : Bool) (c : Cursor)
      → At source start c
      → Sound source start version (
          if before_dot_dot c
          then stop c start (c.position + 2) dot_dot_message
          else if has_luau_integer_literals version && is_byte b'i' (peek c)
          then (let c3 = advance c in
              if is_float
              then stop c3 start c3.position
                  (codes "the 'i' integer suffix is not allowed on float literals")
              else elim (validate_integer_range c3.source start c3.position 10) [
                | none ↦ finish_number c3 start version
                | some e ↦ (fail e, c3)
              ])
          else finish_number c start version)
  decimal_rest-Sound version is_float c h = elim (Bool-cases (before_dot_dot c)) [
    | inl e ↦ rw e (stop_dots source start version c dot_dot_message h e)
    | inr e ↦ elim (Bool-cases (has_luau_integer_literals version && is_byte b'i' (peek c))) [
      | inr f ↦ rw (e, f) (finish_number-Sound source start version c h)
      | inl f ↦
          let h3 : At source start (advance c) =
            step-At source start c (λ b. b == b'i') h (ground (arith, f)) in
          elim (Bool-cases is_float) [
            | inl g ↦
                rw (e, f, g)
                  (stop_here source start version (advance c)
                    (codes "the 'i' integer suffix is not allowed on float literals") h3)
            | inr g ↦
                rw (e, f, g)
                  (range-Sound source start version (advance c) _ _ h3
                    (range-Points source start (advance c).source (advance c).position 10)
                    (finish_number-Sound source start version (advance c) h3))
          ]
    ]
  ]

  lex_decimal_number-Sound :
      (version : LuaVersion) (c : Cursor)
      → c.source ≡ source
      → start ≡ c.position
      → starts_number c ≡ true
      → Sound source start version (lex_decimal_number version start c)
  unfolding lex_decimal_number
  lex_decimal_number-Sound version c same here h =
      let a = has_underscore_separators version in
      and_then-Sound source start version _ _
        (lex_exponent-StepSound source start version _ _ _ a _
          (lex_fraction-At a (eat_decimal_digits a c) (digits-Near a c same here h)))
        (decimal_rest-Sound version _)

binary_luau : (version : LuaVersion) → has_binary_literals version ≡ true → luau ≡ version
unfolding has_binary_literals
binary_luau luau h = refl
binary_luau lua51 h = ground arith
binary_luau lua52 h = ground arith
binary_luau lua53 h = ground arith
binary_luau lua54 h = ground arith
binary_luau lua55 h = ground arith

-- At a digit, or at a dot in front of one, the lexer moves on and stays in the source. A number is
-- the text that it read, with underscores only in a dialect that has them; an error points at a
-- range of the source that starts with the number and is not empty.
pub lex_number-Sound :
    (version : LuaVersion) (c : Cursor)
    → starts_number c ≡ true
    → Sound c.source c.position version (lex_number version c)
unfolding lex_number
lex_number-Sound version c h =
    elim (Bool-cases (is_byte b'0' (peek c) && is_either b'x' b'X' (peek_at c 1))) [
      | inl e ↦
          rw (e, lex_number)
            (lex_hex_number-Sound c.source c.position version c (
              prefix-At c.source c.position c (λ b. b == b'0') (λ b. b == b'x' || b == b'X') refl
                refl (ground (arith, e)) (ground (arith, e))))
      | inr e ↦
          elim (Bool-cases (
            has_binary_literals version
            && is_byte b'0' (peek c)
            && is_either b'b' b'B' (peek_at c 1))) [
              | inl f ↦
                  rw (e, f, lex_number)
                    (subst (λ v. Sound c.source c.position v (lex_binary_number c.position c))
                      (binary_luau version (ground (arith, f)))
                      (lex_binary_number-Sound c.source c.position c (
                        prefix-At c.source c.position c (λ b. b == b'0')
                          (λ b. b == b'b' || b == b'B') refl refl (ground (arith, f))
                          (ground (arith, f)))))
              | inr f ↦
                  rw (e, f, lex_number)
                    (lex_decimal_number-Sound c.source c.position version c refl refl h)
            ]
    ]
