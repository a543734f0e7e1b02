-- ===== src/Tests/Parsing.antt =====
-- Expressions printed and read: `a * -1 + "s" .. b .. f(a)` and a table with an index.
use mathlib.Core.Option
use luck.Prelude.{
  ◌*◌, ◌+◌, ◌≤◌, arith, [], ◌∷◌, none, some, Bytes, ◌≡◌, refl, arith, From, codes, true, false,
  is_some,
}
use luck.Version.{
  lua54, has_bitwise_ops, has_explicit_type_instantiation, is_luau,
  has_ambiguous_call_newline_error,
}
use luck.Token.{plus, left_paren, end_kw, dot_dot, discriminant, is_unary_op}
use luck.Token.Operators.{
  unary_precedence, binary_precedence, add, mul, concat, is_bitwise, binop_of, binop_token,
  precedence, neg, unop_of, unop_token,
}
use luck.Token.Operators.Tables.{binary_precedence-binop_of}
use luck.Syntax.{
  Expression, nil_lit, error, number_lit, string_lit, var, function_call, parenthesized,
  table_constructor, binary_op, unary_op, name, index, parenthesized_args, table, named, positional,
  no_fields, add_field, no_expressions, add_expression,
}
use luck.Parser.{
  Parser, max_nesting_depth, kind_at, rest_of, newline_at, peek, peek_next, newline_before_current,
  advance, is_kind, check, expect, enter_depth, exit_depth,
}
use luck.Parser.Expression.{
  Pieces, next_op, right_min, suffix_of, next_suffix, is_cast, check_newline_call, ends_with_i,
  number_from, parse_type_assertions, parse_expression,
}
use luck.Parser.Fits.{level, behind, available, stops, is_prefix, Fits, Follow}
use luck.Parser.Moves.{state}
use luck.Parser.Returns.{left}
use luck.Parser.Shrinks.{Shrinks}
use luck.Parser.Termination.{parse_expression-ends}
use luck.Parser.RoundTrip.{parse_expression-emit, emit_expression-injective}
use luck.Codegen.{plain, emit_method, emit_type_arguments, emit_expression}

-- Functions, interpolated strings and types that are never read.
abbrev pub no_pieces : Pieces Unit
no_pieces = record {
  parse_function_def = λ p. (error, p);
  parse_interpolated_string = λ p. (error, p);
  parse_type = λ p. (tt, p);
  parse_type_args = λ p. (tt, p);
  emit_function_def = λ f. [];
  emit_interpolated_string = λ f. [];
  emit_type = λ f. [];
  emit_type_args = λ f. [];
}

abbrev name_of : Bytes → Expression Unit
name_of s = var (name s)

abbrev sum : Expression Unit
sum = binary_op (binary_op (name_of (codes "a")) mul (unary_op neg (number_lit (codes "1")))) add (
    parenthesized (
      binary_op (string_lit (codes "s")) concat (
        binary_op (name_of (codes "b")) concat (
          function_call (name_of (codes "f"))
            (parenthesized_args (add_expression (name_of (codes "a")) no_expressions)) none none))))

abbrev indexed_table : Expression Unit
indexed_table = table_constructor (
    table
      (add_field (named (codes "n") (number_lit (codes "1"))) (
        add_field (positional (var (index (parenthesized (name_of (codes "t"))) nil_lit)))
          no_fields))
      false)

sum-Fits : Fits lua54 true 0 0 sum
unfolding Fits stops level precedence behind available is_bitwise has_bitwise_ops ends_with_i
    unary_precedence max_nesting_depth is_prefix
sum-Fits = (
  (tt, refl, ground arith, refl, ground arith, (ground arith, refl)),
  refl,
  ground arith,
  refl,
  ground arith,
  (
    ground arith,
    (
      tt,
      refl,
      ground arith,
      refl,
      ground arith,
      (tt, refl, ground arith, refl, ground arith, (refl, tt, (tt, tt), refl)),
    ),
  ),
)

indexed_table-Fits : Fits lua54 true 0 0 indexed_table
unfolding Fits ends_with_i max_nesting_depth is_prefix
indexed_table-Fits = (ground arith, refl, (refl, ((refl, (ground arith, tt), tt), tt)))

pub end_Follow : Follow lua54 (plain end_kw ∷ [])
unfolding suffix_of has_explicit_type_instantiation is_kind kind_at rest_of is_luau discriminant
end_Follow = record { no_suffix = refl; no_cast = refl; no_equal = refl }

pub end_none : binop_of (kind_at (plain end_kw ∷ [])) ≡ none
unfolding binop_of kind_at
end_none = refl

sum_parsed :
    parse_expression no_pieces 30 0 (state lua54 true [] 0 (emit_expression no_pieces sum []))
    ≡ some (sum, state lua54 true [] 0 [])
unfolding parse_expression emit_expression next_op right_min next_suffix suffix_of is_cast
    check_newline_call number_from ends_with_i peek peek_next kind_at rest_of advance expect check
    is_kind discriminant enter_depth exit_depth binop_of binop_token unop_of unop_token precedence
    is_bitwise has_bitwise_ops is_unary_op is_luau has_explicit_type_instantiation unary_precedence
    max_nesting_depth newline_before_current newline_at has_ambiguous_call_newline_error
    parse_type_assertions emit_method emit_type_arguments
sum_parsed = refl

parse_expression-emit_example : From λ n.
    parse_expression no_pieces n 0
      (state lua54 true [] 0 (emit_expression no_pieces sum (plain end_kw ∷ [])))
    ≡ some (sum, state lua54 true [] 0 (plain end_kw ∷ []))
parse_expression-emit_example =
    parse_expression-emit no_pieces lua54 true [] sum 0 0 (plain end_kw ∷ []) sum-Fits end_none
      end_Follow

emit_expression-injective_example : indexed_table ≡ indexed_table
emit_expression-injective_example =
    emit_expression-injective no_pieces lua54 true [] indexed_table indexed_table 0
      (plain end_kw ∷ []) indexed_table-Fits indexed_table-Fits end_none end_Follow refl

binary_precedence-binop_of_example :
    (binary_precedence dot_dot ≡ Option.map precedence (binop_of dot_dot))
    × (is_unary_op dot_dot ≡ is_some (unop_of dot_dot))
binary_precedence-binop_of_example = binary_precedence-binop_of dot_dot

no_pieces-Shrinks : Shrinks no_pieces
no_pieces-Shrinks = record {
  function_def = λ p. omega arith;
  interpolated_string = λ p. omega arith;
  type_annotation = λ p. omega arith;
  type_args = λ p. omega arith;
}

-- `+ (` is no expression.
abbrev unfinished : Parser
unfinished = state lua54 true [] 0 (plain plus ∷ plain left_paren ∷ [])

unfinished-enough : 16 * left unfinished + 6 ≤ 38
unfolding left
unfinished-enough = omega arith

parse_expression-ends_example :
    (e : Expression Unit) × (q : Parser) × (parse_expression no_pieces 38 0 unfinished
      ≡ some (e, q))
    × (left q ≤ left unfinished)
parse_expression-ends_example =
    parse_expression-ends no_pieces no_pieces-Shrinks 38 0 unfinished unfinished-enough
