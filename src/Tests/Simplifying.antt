-- ===== src/Tests/Simplifying.antt =====
-- Parentheses removed from `(a * b) + (-c) ^ (d ^ e)` and its like, and from a Luau expression.
use luck.Prelude.{[], ◌∷◌, some, Bytes, ◌≡◌, refl, arith, From, codes, true, false}
use luck.Version.{
  lua54, luau, has_bitwise_ops, has_explicit_type_instantiation, is_luau,
  has_ambiguous_call_newline_error,
}
use luck.Token.{end_kw, discriminant, is_unary_op}
use luck.Token.Operators.{
  unary_precedence, add, mul, pow, is_bitwise, binop_of, binop_token, precedence, neg, unop_of,
  unop_token,
}
use luck.Syntax.{
  Expression, number_lit, var, parenthesized, binary_op, unary_op, if_expression, name, no_clauses,
}
use luck.Parser.{
  max_nesting_depth, kind_at, rest_of, newline_at, peek, peek_next, newline_before_current, advance,
  is_kind, check, expect, enter_depth, exit_depth,
}
use luck.Parser.Expression.{
  next_op, right_min, suffix_of, next_suffix, is_cast, check_newline_call, ends_with_i, number_from,
  parse_type_assertions, parse_expression,
}
use luck.Parser.Fits.{level, behind, available, stops, Fits}
use luck.Parser.Moves.{state}
use luck.Codegen.{plain, emit_method, emit_type_arguments, emit_expression}
use luck.Minifier.Parens.{
  is_right_associative, binop_precedence, is_pow, can_remove_parens, is_simple,
  can_unwrap_in_binop_lhs, can_unwrap_in_binop_rhs, unwrap_lhs, unwrap_rhs, unwrap_operand,
  simplify_paren, transform_expression,
}
use luck.Minifier.Parens.Bare.{no_walk, bare}
use luck.Minifier.Parens.Kept.{parse_expression-transform}
use luck.Minifier.Parens.Meaning.{erased, parse_expression-bare}
use luck.Tests.Parsing.{no_pieces, end_none, end_Follow}

abbrev name_of : Bytes → Expression Unit
name_of s = var (name s)

abbrev power : Expression Unit
power = binary_op (parenthesized (binary_op (name_of (codes "a")) mul (name_of (codes "b")))) add (
    binary_op (parenthesized (unary_op neg (name_of (codes "c")))) pow
      (parenthesized (binary_op (name_of (codes "d")) pow (name_of (codes "e")))))

-- The parentheses around `-c` stay.
power_simplified :
    transform_expression no_walk power
    ≡ binary_op (binary_op (name_of (codes "a")) mul (name_of (codes "b"))) add (
        binary_op
          (parenthesized (unary_op neg (name_of (codes "c"))))
          pow
          (binary_op (name_of (codes "d")) pow (name_of (codes "e"))))
unfolding transform_expression unwrap_lhs unwrap_rhs can_unwrap_in_binop_lhs can_unwrap_in_binop_rhs
    binop_precedence precedence is_right_associative simplify_paren can_remove_parens is_pow
    unwrap_operand
power_simplified = refl

power-Fits : Fits lua54 true 0 0 power
unfolding Fits stops level precedence behind available is_bitwise has_bitwise_ops unary_precedence
    max_nesting_depth
power-Fits = (
  (ground arith, (tt, refl, ground arith, refl, ground arith, tt)),
  refl,
  ground arith,
  refl,
  ground arith,
  (
    (ground arith, (ground arith, tt)),
    refl,
    ground arith,
    refl,
    ground arith,
    (ground arith, (tt, refl, ground arith, refl, ground arith, tt)),
  ),
)

parse_expression-transform_example : From λ n.
    parse_expression no_pieces n 0 (
      state lua54 true [] 0
        (emit_expression no_pieces (transform_expression no_walk power) (plain end_kw ∷ [])))
    ≡ some (transform_expression no_walk power, state lua54 true [] 0 (plain end_kw ∷ []))
parse_expression-transform_example =
    parse_expression-transform no_walk lua54 true no_pieces [] power 0 0 (plain end_kw ∷ [])
      not_luau power-Fits end_none end_Follow
  where
    not_luau : is_luau lua54 ≡ false
    not_luau = unfold is_luau in refl

parse_expression-bare_example : From λ n.
    erased (
      parse_expression no_pieces n 0 (
        state lua54 true [] 0
          (emit_expression no_pieces (transform_expression no_walk power) (plain end_kw ∷ []))))
    ≡ some (bare no_walk power, state lua54 true [] 0 (plain end_kw ∷ []))
parse_expression-bare_example =
    parse_expression-bare no_walk lua54 true no_pieces [] power 0 0 (plain end_kw ∷ []) not_luau
      power-Fits end_none end_Follow
  where
    not_luau : is_luau lua54 ≡ false
    not_luau = unfold is_luau in refl

-- `(1 * if a then b else c) + 2`
abbrev conditional_product : Expression Unit
conditional_product =
    binary_op
      (parenthesized (
        binary_op (number_lit (codes "1")) mul (
          if_expression (name_of (codes "a")) (name_of (codes "b")) no_clauses
            (name_of (codes "c")))))
      add (number_lit (codes "2"))

-- In Luau it loses its parentheses and is then read as `1 * if a then b else c + 2`.
swallowed_sum :
    parse_expression no_pieces 30 0 (
      state luau true [] 0
        (emit_expression no_pieces (transform_expression no_walk conditional_product) []))
    ≡ some (
      binary_op (number_lit (codes "1")) mul (
          if_expression
            (name_of (codes "a"))
            (name_of (codes "b"))
            no_clauses
            (binary_op (name_of (codes "c")) add (number_lit (codes "2")))),
      state luau true [] 0 [],
    )
unfolding parse_expression emit_expression next_op right_min next_suffix suffix_of is_cast
    check_newline_call number_from ends_with_i peek peek_next kind_at rest_of advance expect check
    is_kind discriminant enter_depth exit_depth binop_of binop_token unop_of unop_token precedence
    is_bitwise has_bitwise_ops is_unary_op is_luau has_explicit_type_instantiation unary_precedence
    max_nesting_depth newline_before_current newline_at has_ambiguous_call_newline_error
    parse_type_assertions emit_method emit_type_arguments transform_expression unwrap_lhs unwrap_rhs
    can_unwrap_in_binop_lhs can_unwrap_in_binop_rhs binop_precedence is_right_associative
    simplify_paren is_simple can_remove_parens
swallowed_sum = refl
