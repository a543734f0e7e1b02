-- ===== src/Lexer/Number/Bounds.antt =====
-- Where the number lexer of crates/luck_lexer/src/number.rs leaves the cursor, and where its errors
-- point.
use luck.Lexer.Cursor.{Cursor, peek, peek_at, advance, slice}
use luck.Lexer.Number.{
  SourceError, NumberResult, number, fail, is_some_and, is_byte, is_either, is_hexdigit,
  eat_hex_digits, eat_decimal_digits, validate_underscore_placement, validate_integer_range,
  finish_number, stop, before_dot_dot, Step, go, halt, and_then, and_step, lex_exponent,
  lex_hex_fraction, lex_hex_float, reject_hex_float, lex_integer_suffix, fits_64, strip_underscores,
}
use luck.Prelude.{
  ℕ, ◌+◌, ◌-◌, ◌≤◌, ◌<◌, ◌≡◌, inl, inr, refl, ap, Bool, true, false, not, ◌&&◌, ◌||◌, Option, none,
  some, if◌then◌else◌, length, drop, any, Bytes, codes, ltb, arith, Bool-cases, if-cases,
  length-drop, length-take, ◌==◌,
}
use luck.Version.{LuaVersion, has_underscore_separators, has_luau_integer_literals}
use luck.Lexer.Number.Moves.{At, eat_while-At, peek_at-lt, peek-lt, advance-At}

module _ (source : Bytes) (start : ℕ) where
  -- A number is the text up to the cursor, with underscores only where the dialect has them; an
  -- error points at a range of the source that starts with the number and is not empty.
  abbrev pub Sound : LuaVersion → NumberResult × Cursor → Type 0
  Sound version (number raw, c) =
      At source start c
      × (raw ≡ slice source start c.position)
      × (has_underscore_separators version ≡ false → any (λ b. b == b'_') raw ≡ false)
  Sound version (fail e, c) =
      At source start c
      × (e.span.start ≡ start)
      × (start < e.span.end)
      × (e.span.end ≤ length source)

  abbrev pub StepSound : LuaVersion → Step → Type 0
  StepSound version (go c) = At source start c
  StepSound version (halt r) = Sound version r

  pub and_then-Sound :
      (version : LuaVersion) (s : Step) (k : Cursor → NumberResult × Cursor)
      → StepSound version s
      → ((c : Cursor) → At source start c → Sound version (k c))
      → Sound version (and_then s k)
  and_then-Sound version (go c) k h f = f c h
  and_then-Sound version (halt r) k h f = h

  and_step-Sound :
      (version : LuaVersion) (s : Step) (k : Cursor → Step)
      → StepSound version s
      → ((c : Cursor) → At source start c → StepSound version (k c))
      → StepSound version (and_step s k)
  and_step-Sound version (go c) k h f = f c h
  and_step-Sound version (halt r) k h f = h

  pub eat_decimal_digits-At :
      (a : Bool) (c : Cursor) → At source start c → At source start (eat_decimal_digits a c)
  unfolding eat_decimal_digits
  eat_decimal_digits-At true c h = eat_while-At source start _ c h
  eat_decimal_digits-At false c h = eat_while-At source start _ c h

  pub eat_hex_digits-At :
      (a : Bool) (c : Cursor) → At source start c → At source start (eat_hex_digits a c)
  unfolding eat_hex_digits
  eat_hex_digits-At true c h = eat_while-At source start _ c h
  eat_hex_digits-At false c h = eat_while-At source start _ c h

  pub step-At :
      (c : Cursor) (p : ℕ → Bool)
      → At source start c
      → is_some_and (peek c) p ≡ true
      → At source start (advance c)
  step-At c p h e = advance-At source start c p h.same (omega (arith, h.after)) e

  -- An error up to the cursor.
  pub stop_here :
      (version : LuaVersion) (c : Cursor) (m : Bytes)
      → At source start c
      → Sound version (stop c start c.position m)
  stop_here version c m h = (h, refl, h.after, h.in_range)

  pub stop_next :
      (version : LuaVersion) (c : Cursor) (m : Bytes) (p : ℕ → Bool)
      → At source start c
      → is_some_and (peek c) p ≡ true
      → Sound version (stop c start (c.position + 1) m)
  stop_next version c m p h e =
      (h, refl, omega (arith, h.after), omega (arith, peek-lt source start c p h.same e))

  pub stop_dots :
      (version : LuaVersion) (c : Cursor) (m : Bytes)
      → At source start c
      → before_dot_dot c ≡ true
      → Sound version (stop c start (c.position + 2) m)
  stop_dots version c m h e = (
    h,
    refl,
    omega (arith, h.after),
    omega (arith, peek_at-lt source start c (λ b. b == b'.') 1 h.same (ground (arith, e))),
  )

  -- The check of an integer's range, in a part of a lexer and at its end.
  abbrev pub RangePoints : ℕ → Option SourceError → Type 0
  RangePoints end none = Unit
  RangePoints end (some e) = (e.span.start ≡ start) × (e.span.end ≡ end)

  pub range-Points :
      (text : Bytes) (end radix : ℕ) → RangePoints end (validate_integer_range text start end radix)
  unfolding validate_integer_range
  range-Points text end radix =
      elim (Bool-cases (
        fits_64 radix (
          strip_underscores (
            if radix == 10
            then slice text start (end - 1)
            else drop 2 (slice text start (end - 1)))))) [
              | inl e ↦ rw (e, validate_integer_range) tt
              | inr e ↦ rw (e, validate_integer_range) (refl, refl)
            ]

  range-StepSound :
      (version : LuaVersion) (c : Cursor) (o : Option SourceError) (k : Step)
      → At source start c
      → RangePoints c.position o
      → StepSound version k
      → StepSound version (elim o [ none ↦ k | some e ↦ halt (fail e, c) ])
  range-StepSound version c none k h r f = f
  range-StepSound version c (some e) k h r f =
      (h, r.0, omega (arith, r.1, h.after), omega (arith, r.1, h.in_range))

  pub range-Sound :
      (version : LuaVersion) (c : Cursor) (o : Option SourceError) (k : NumberResult × Cursor)
      → At source start c
      → RangePoints c.position o
      → Sound version k
      → Sound version (elim o [ none ↦ k | some e ↦ (fail e, c) ])
  range-Sound version c none k h r f = f
  range-Sound version c (some e) k h r f =
      (h, r.0, omega (arith, r.1, h.after), omega (arith, r.1, h.in_range))

  length-slice :
      (c : Cursor)
      → At source start c
      → length (slice c.source start c.position) ≡ c.position - start
  length-slice c h =
      length-take (c.position - start) (drop start c.source)
        (omega (arith, length-drop start c.source, h.in_range, ap length h.same))

  pub finish_number-Sound :
      (version : LuaVersion) (c : Cursor)
      → At source start c
      → Sound version (finish_number c start version)
  unfolding finish_number validate_underscore_placement
  finish_number-Sound version c h =
      let raw = slice c.source start c.position in
      elim (Bool-cases (any (λ b. b == b'_') raw && not (has_underscore_separators version))) [
        | inl e ↦
            rw (e, finish_number)
              (
                h,
                refl,
                omega (arith, h.after, length-slice c h),
                omega (arith, h.after, h.in_range, length-slice c h),
              )
        | inr e ↦
            rw (e, finish_number)
              (h, ap (λ s. slice s start c.position) h.same, λ n. ground (arith, e, n))
      ]

  sign-At :
      (c : Cursor)
      → At source start c
      → At source start (if is_either b'+' b'-' (peek c) then advance c else c)
  sign-At c h =
      if-cases (At source start) (is_either b'+' b'-' (peek c)) (advance c) c
        (λ s. step-At c (λ b. b == b'+' || b == b'-') h s) (λ _. h)

  exponent-StepSound :
      (version : LuaVersion) (m : Bytes) (a : Bool) (c : Cursor)
      → At source start c
      → StepSound version (
          let c3 = eat_decimal_digits a c in
          if c3.position == c.position then halt (stop c3 start c3.position m) else go c3)
  exponent-StepSound version m a c h =
      let h3 = eat_decimal_digits-At a c h in
      elim (Bool-cases ((eat_decimal_digits a c).position == c.position)) [
        | inl e ↦ rw e (stop_here version (eat_decimal_digits a c) m h3)
        | inr e ↦ rw e h3
      ]

  pub lex_exponent-StepSound :
      (version : LuaVersion) (x y : ℕ) (m : Bytes) (a : Bool) (c : Cursor)
      → At source start c
      → StepSound version (lex_exponent x y m a start c)
  unfolding lex_exponent
  lex_exponent-StepSound version x y m a c h = elim (Bool-cases (is_either x y (peek c))) [
    | inl e ↦
        rw (e, lex_exponent)
          (exponent-StepSound version m a
            (if is_either b'+' b'-' (peek (advance c)) then advance (advance c) else advance c)
            (sign-At (advance c) (step-At c (λ b. b == x || b == y) h e)))
    | inr e ↦ rw (e, lex_exponent) h
  ]

  lex_hex_fraction-StepSound :
      (version : LuaVersion) (a i : Bool) (c : Cursor)
      → At source start c
      → StepSound version (lex_hex_fraction a i start c)
  unfolding lex_hex_fraction
  lex_hex_fraction-StepSound version a i c h = elim (Bool-cases (is_byte b'.' (peek c))) [
    | inl e ↦
        let h1 = eat_hex_digits-At a (advance c) (step-At c (λ b. b == b'.') h e) in
        elim (Bool-cases
          (not i && not (ltb (advance c).position (eat_hex_digits a (advance c)).position))) [
            | inl n ↦
                rw (e, n, lex_hex_fraction)
                  (stop_here version (eat_hex_digits a (advance c))
                    (codes "hex float requires digits before or after decimal point") h1)
            | inr n ↦ rw (e, n, lex_hex_fraction) h1
          ]
    | inr e ↦ elim (Bool-cases i) [
      | inl n ↦ rw (e, n, lex_hex_fraction) h
      | inr n ↦
          rw (e, n, lex_hex_fraction)
            (stop_here version c (codes "hex literal requires at least one digit after '0x'") h)
    ]
  ]

  pub lex_hex_float-StepSound :
      (version : LuaVersion) (a i : Bool) (c : Cursor)
      → At source start c
      → StepSound version (lex_hex_float a i start c)
  unfolding lex_hex_float
  lex_hex_float-StepSound version a i c h =
      and_step-Sound version _ _ (lex_hex_fraction-StepSound version a i c h) λ c1 h1.
        and_step-Sound version _ _ (lex_exponent-StepSound version _ _ _ a c1 h1) λ c2 h2.
          elim (Bool-cases (is_byte b'.' (peek c2))) [
            | inl e ↦
                rw e (
                  stop_next version c2 (codes "malformed hexadecimal number") (λ b. b == b'.') h2 e)
            | inr e ↦ rw e h2
          ]

  pub reject_hex_float-StepSound :
      (version : LuaVersion) (i : Bool) (c : Cursor)
      → At source start c
      → StepSound version (reject_hex_float i start c)
  unfolding reject_hex_float
  reject_hex_float-StepSound version false c h =
      stop_here version c (codes "hex literal requires at least one digit after '0x'") h
  reject_hex_float-StepSound version true c h =
      elim (Bool-cases (
        (is_byte b'.' (peek c) && is_some_and (peek_at c 1) is_hexdigit)
        || is_either b'p' b'P' (peek c))) [
          | inl e ↦
              rw (e, reject_hex_float)
                (stop_here version c
                  (codes "hex float literals are not supported in this Lua version") h)
          | inr e ↦ rw (e, reject_hex_float) h
        ]

  pub lex_integer_suffix-StepSound :
      (version : LuaVersion) (radix : ℕ) (c : Cursor)
      → At source start c
      → StepSound version (lex_integer_suffix version radix start c)
  unfolding lex_integer_suffix
  lex_integer_suffix-StepSound version radix c h =
      elim (Bool-cases (has_luau_integer_literals version && is_byte b'i' (peek c))) [
        | inl e ↦
            let h1 : At source start (advance c) =
              step-At c (λ b. b == b'i') h (ground (arith, e)) in
            rw (e, lex_integer_suffix)
              (range-StepSound version (advance c) _ (go (advance c)) h1
                (range-Points (advance c).source (advance c).position radix) h1)
        | inr e ↦ rw (e, lex_integer_suffix) h
      ]
