-- ===== src/Parser/Shrinks.antt =====
-- What else the termination of the parser asks: operators, separators, calls, and the parts that
-- are not modelled.
use luck.Prelude.{
  ◌+◌, true, false, ◌&&◌, List, [], ◌∷◌, none, some, ◌≡◌, refl, ◌≤◌, ◌<◌, arith, length,
  if◌then◌else◌, Bool-cases, inl, inr,
}
use luck.Version.{has_explicit_type_instantiation, is_luau}
use luck.Token.{
  TokenKind, not_kw, minus, hash, tilde, semicolon, comma, less, greater, eof, Token, is_unary_op,
}
use luck.Token.Operators.{UnOp, unop_of}
use luck.Parser.{
  unexpected_in_expression, Parser, rest_of, peek, peek_next, advance, is_kind, check,
}
use luck.Syntax.{Expression}
use luck.Parser.Expression.{
  Pieces, call, next_suffix, is_cast, check_newline_call, check_separator, parse_type_assertions,
  no_expression, parse_method_type_args,
}
use luck.Parser.Returns.{
  left, Returns, is_eof, left-advance, left-push_error, left-expect, check_peek, taken,
  next_suffix-call, check_newline_call-tokens,
}

pub is_unary_none : (k : TokenKind) → unop_of k ≡ none → is_unary_op k ≡ false
unfolding unop_of is_unary_op
is_unary_none minus h = absurd (cc h)
is_unary_none not_kw h = absurd (cc h)
is_unary_none hash h = absurd (cc h)
is_unary_none tilde h = absurd (cc h)
is_unary_none _ h = refl

pub is_unary_some : (k : TokenKind) (op : UnOp) → unop_of k ≡ some op → is_unary_op k ≡ true
unfolding unop_of is_unary_op
is_unary_some minus op h = refl
is_unary_some not_kw op h = refl
is_unary_some hash op h = refl
is_unary_some tilde op h = refl
is_unary_some _ op h = absurd (cc h)

pub is_unary_not_eof : (k : TokenKind) (op : UnOp) → unop_of k ≡ some op → is_eof k ≡ false
unfolding unop_of is_eof
is_unary_not_eof eof op h = absurd (cc h)
is_unary_not_eof _ op h = refl

pub separator_lt : (p : Parser) → check_separator p ≡ true → left (advance p) < left p
unfolding check_separator is_eof
separator_lt p h = elim (Bool-cases (check comma p)) [
  | inl c ↦ check_peek comma p refl c
  | inr c ↦ check_peek semicolon p refl (ground (arith, c, h))
]

-- Where a call follows, its arguments take a token.
pub check_newline_call-left :
    (p : Parser)
    → next_suffix p ≡ some call
    → (left (check_newline_call p) ≡ left p)
      × (left p ≤ left (advance p) + taken (peek (check_newline_call p)))
unfolding left peek advance rest_of
check_newline_call-left p h =
    rw (check_newline_call-tokens p) (refl, omega (arith, next_suffix-call p h, one_less p.tokens))
  where
    one_less : (ts : List Token) → length ts ≤ length (rest_of ts) + 1
    one_less [] = omega arith
    one_less (t ∷ ts) = omega arith

-- The parts that are not modelled take tokens from the front, and put none there.
pub record Shrinks {F : Type 0} (g : Pieces F) : Type 0 where
  pub function_def : (p : Parser) → left (g.parse_function_def p).1 ≤ left p
  pub interpolated_string : (p : Parser) → left (g.parse_interpolated_string p).1 ≤ left p
  pub type_annotation : (p : Parser) → left (g.parse_type p).1 ≤ left p
  pub type_args : (p : Parser) → left (g.parse_type_args p).1 ≤ left p

module _ {F : Type 0} (g : Pieces F) (s : Shrinks g) where
  pub no_expression_ends : (p : Parser) → Returns (some (no_expression g p)) (left p)
  unfolding no_expression
  no_expression_ends p =
      (_, _, refl, omega (arith, left-push_error (unexpected_in_expression (peek p)) p))

  pub left-assertions :
      (e : Expression F) (p : Parser) → left (parse_type_assertions g e p).1 ≤ left p
  unfolding parse_type_assertions
  left-assertions e p = elim (Bool-cases (is_cast p)) [
    | inl h ↦
        rw (h, parse_type_assertions) (omega (arith, left-advance p, s.type_annotation (advance p)))
    | inr h ↦ rw (h, parse_type_assertions) (omega arith)
  ]

  pub left-method_type_args : (p : Parser) → left (parse_method_type_args g p).1 ≤ left p
  unfolding parse_method_type_args
  left-method_type_args p =
      elim (Bool-cases
        (has_explicit_type_instantiation p.version && check less p && is_kind less (peek_next p))) [
          | inl h ↦
              rw (h, parse_method_type_args)
                (omega (
                  arith,
                  left-advance p,
                  s.type_args (advance p),
                  left-expect greater (g.parse_type_args (advance p)).1,
                ))
          | inr h ↦ rw (h, parse_method_type_args) (omega arith)
        ]

  pub at_ends :
      (p : Parser)
      → Returns
          (some (if is_luau p.version then g.parse_function_def p else no_expression g p))
          (left p)
  at_ends p = elim (Bool-cases (is_luau p.version)) [
    | inl h ↦ rw h (_, _, refl, s.function_def p)
    | inr h ↦ rw h (no_expression_ends p)
  ]
