-- ===== src/Parser/Expression.antt =====
-- crates/luck_parser/src/expr.rs: the expression parser. Fuel bounds the depth of its calls and
-- loops; what reads functions, interpolated strings, types and type arguments is a parameter.
use luck.Prelude.{
  ℕ, zero, suc, ◌+◌, Bool, true, false, not, ◌&&◌, ◌||◌, List, [], ◌∷◌, Option, none, some, ltb,
  ◌==◌, if◌then◌else◌, Bytes, ◌>>=◌,
}
use luck.Version.{
  has_bitwise_ops, has_ambiguous_call_newline_error, has_explicit_type_instantiation, is_luau,
}
use luck.Token.{
  TokenKind, identifier, number, string_literal, else_kw, elseif_kw, false_kw, function_kw, if_kw,
  nil_kw, then_kw, true_kw, dot, dot_dot_dot, semicolon, colon, double_colon, comma, equal, less,
  greater, left_paren, right_paren, left_brace, right_brace, left_bracket, right_bracket,
  interp_begin, at, eof, Token, is_unary_op,
}
use luck.Token.Operators.{
  Assoc, left_assoc, right_assoc, unary_precedence, BinOp, is_bitwise, binop_of, precedence,
  unop_of,
}
use luck.Syntax.{
  Expression, nil_lit, false_lit, true_lit, var_arg, error, number_lit, integer_lit, string_lit,
  var, function_call, parenthesized, table_constructor, binary_op, unary_op, if_expression,
  type_cast, type_instantiation, name, index, field_access, FunctionArgs, parenthesized_args,
  table_args, string_args, TableConstructor, table, Field, bracketed, named, positional, Fields,
  no_fields, add_field, Expressions, no_expressions, add_expression, Clauses, no_clauses,
  add_clause,
}
use luck.Parser.{
  nesting_too_deep, vararg_outside_function, ambiguous_call, expected_arguments,
  unexpected_separator, unexpected_in_expression, Parser, peek, peek_next, newline_before_current,
  advance, push_error, is_kind, check, expect, expect_identifier_recover, enter_depth, exit_depth,
}

-- The parts of the parser and of the emitter that this model leaves out.
pub record Pieces (F : Type 0) : Type 0 where
  pub parse_function_def : Parser → Expression F × Parser
  pub parse_interpolated_string : Parser → Expression F × Parser
  pub parse_type : Parser → F × Parser
  pub parse_type_args : Parser → F × Parser
  pub emit_function_def : F → List Token
  pub emit_interpolated_string : F → List Token
  pub emit_type : F → List Token
  pub emit_type_args : F → List Token

-- The operator that the loop takes next, if there is one that binds tightly enough.
unfoldable pub next_op : ℕ → Parser → Option BinOp
next_op min p = filter (binop_of (peek p))
  where
    filter : Option BinOp → Option BinOp
    filter none = none
    filter (some op) =
        if is_bitwise op && not (has_bitwise_ops p.version)
        then none
        else if ltb (precedence op).0 min
        then none
        else some op

unfoldable pub right_min : BinOp → ℕ
right_min op = for_assoc (precedence op)
  where
    for_assoc : ℕ × Assoc → ℕ
    for_assoc (level, right_assoc) = level
    for_assoc (level, left_assoc) = level + 1

-- What a suffix chain goes on with.
pub data Suffix : Type 0 where
  instantiation dotted indexed method_call call : Suffix

unfoldable pub suffix_of : Bool → TokenKind → Option Suffix
suffix_of true less = some instantiation
suffix_of _ dot = some dotted
suffix_of _ left_bracket = some indexed
suffix_of _ colon = some method_call
suffix_of _ left_paren = some call
suffix_of _ left_brace = some call
suffix_of _ (string_literal s) = some call
suffix_of _ _ = none

unfoldable pub next_suffix : Parser → Option Suffix
next_suffix p =
    suffix_of (has_explicit_type_instantiation p.version && is_kind less (peek_next p)) (peek p)

unfoldable pub is_cast : Parser → Bool
is_cast p = is_luau p.version && check double_colon p

unfoldable pub check_newline_call : Parser → Parser
check_newline_call p =
    if check left_paren p && has_ambiguous_call_newline_error p.version && newline_before_current p
    then push_error ambiguous_call p
    else p

unfoldable pub check_vararg : Parser → Parser
check_vararg p = if p.is_vararg_scope then p else push_error vararg_outside_function p

unfoldable pub ends_with_i : Bytes → Bool
ends_with_i [] = false
ends_with_i (b ∷ []) = b == 105
ends_with_i (b ∷ c ∷ s) = ends_with_i (c ∷ s)

unfoldable pub number_from : {F : Type 0} → Bytes → Expression F
number_from s = if ends_with_i s then integer_lit s else number_lit s

unfoldable pub check_separator : Parser → Bool
check_separator p = check comma p || check semicolon p

unfoldable pub skip_leading_separator : Parser → Parser
skip_leading_separator p =
    if check_separator p then advance (push_error unexpected_separator p) else p

unfoldable pub is_identifier : TokenKind → Bool
is_identifier (identifier s) = true
is_identifier _ = false

unfoldable pub is_named_field : Parser → Bool
is_named_field p = is_identifier (peek p) && is_kind equal (peek_next p)

module _ {F : Type 0} (g : Pieces F) where
  unfoldable pub parse_type_assertions : Expression F → Parser → Expression F × Parser
  parse_type_assertions e p = elim (is_cast p) [
    | true ↦ let r = g.parse_type (advance p) in (type_cast e r.0, r.1)
    | false ↦ (e, p)
  ]

  unfoldable pub no_expression : Parser → Expression F × Parser
  no_expression p = (error, push_error (unexpected_in_expression (peek p)) p)

  unfoldable pub parse_method_type_args : Parser → Option F × Parser
  parse_method_type_args p =
      elim (has_explicit_type_instantiation p.version
        && check less p
        && is_kind less (peek_next p)) [
          | true ↦ let r = g.parse_type_args (advance p) in (some r.0, expect greater r.1)
          | false ↦ (none, p)
        ]

  unfoldable mutual
    pub parse_expression : ℕ → ℕ → Parser → Option (Expression F × Parser)
    parse_expression zero min p = none
    parse_expression (suc n) min p = parse_prefix n p >>= λ (left, q). climb n min left q

    -- The loop over the operators behind the left side.
    pub climb : ℕ → ℕ → Expression F → Parser → Option (Expression F × Parser)
    climb zero min left p = none
    climb (suc n) min left p = elim (next_op min p) [
      | none ↦ some (left, p)
      | some op ↦ elim (enter_depth (advance p)) [
        | none ↦ some (binary_op left op error, push_error nesting_too_deep (advance p))
        | some q ↦ parse_expression n (right_min op) q >>= λ (right, r).
            climb n min (binary_op left op right) (exit_depth r)
      ]
    ]

    pub parse_prefix : ℕ → Parser → Option (Expression F × Parser)
    parse_prefix zero p = none
    parse_prefix (suc n) p = elim (is_unary_op (peek p)) [
      | true ↦ unop_of (peek p) >>= λ op. elim (enter_depth (advance p)) [
        | none ↦ some (error, push_error nesting_too_deep (advance p))
        | some q ↦ parse_expression n unary_precedence q >>= λ (operand, r).
            some (unary_op op operand, exit_depth r)
      ]
      | false ↦ parse_primary_expression n (peek p) p >>= λ (primary, q).
          some (parse_type_assertions primary q)
    ]

    -- By the kind of the current token.
    pub parse_primary_expression : ℕ → TokenKind → Parser → Option (Expression F × Parser)
    parse_primary_expression zero k p = none
    parse_primary_expression (suc n) nil_kw p = some (nil_lit, advance p)
    parse_primary_expression (suc n) false_kw p = some (false_lit, advance p)
    parse_primary_expression (suc n) true_kw p = some (true_lit, advance p)
    parse_primary_expression (suc n) (number s) p = some (number_from s, advance p)
    parse_primary_expression (suc n) (string_literal s) p = some (string_lit s, advance p)
    parse_primary_expression (suc n) dot_dot_dot p = some (var_arg, check_vararg (advance p))
    parse_primary_expression (suc n) function_kw p = some (g.parse_function_def p)
    parse_primary_expression (suc n) at p =
        some (if is_luau p.version then g.parse_function_def p else no_expression p)
    parse_primary_expression (suc n) left_brace p =
        parse_table_constructor n p >>= λ (t, q). some (table_constructor t, q)
    parse_primary_expression (suc n) left_paren p = elim (enter_depth (advance p)) [
      | none ↦ some (error, push_error nesting_too_deep (advance p))
      | some q ↦ parse_expression n 0 q >>= λ (e, r).
          parse_suffixes n (parenthesized e) (expect right_paren (exit_depth r))
    ]
    parse_primary_expression (suc n) if_kw p = elim (is_luau p.version) [
      | true ↦ parse_if_expression n p
      | false ↦ some (no_expression p)
    ]
    parse_primary_expression (suc n) (interp_begin s) p = some (g.parse_interpolated_string p)
    parse_primary_expression (suc n) (identifier s) p = parse_suffixes n (var (name s)) (advance p)
    parse_primary_expression (suc n) k p = some (no_expression p)

    pub parse_suffixes : ℕ → Expression F → Parser → Option (Expression F × Parser)
    parse_suffixes zero e p = none
    parse_suffixes (suc n) e p = elim (next_suffix p) [
      | none ↦ some (e, p)
      | some instantiation ↦
          let r = g.parse_type_args (advance p) in
          parse_suffixes n (type_instantiation e r.0) (expect greater r.1)
      | some dotted ↦
          let r = expect_identifier_recover (advance p) in
          parse_suffixes n (var (field_access e r.0)) r.1
      | some indexed ↦ parse_expression n 0 (advance p) >>= λ (i, q).
          parse_suffixes n (var (index e i)) (expect right_bracket q)
      | some method_call ↦
          let r = expect_identifier_recover (advance p) in
          let t = parse_method_type_args r.1 in
          parse_function_args n (peek t.1) t.1 >>= λ (args, q).
          parse_suffixes n (function_call e args (some r.0) t.0) q
      | some call ↦
          let q = check_newline_call p in
          parse_function_args n (peek q) q >>= λ (args, r).
          parse_suffixes n (function_call e args none none) r
    ]

    -- By the kind of the current token.
    pub parse_function_args : ℕ → TokenKind → Parser → Option (FunctionArgs F × Parser)
    parse_function_args zero k p = none
    parse_function_args (suc n) left_paren p = elim (check right_paren (advance p)) [
      | true ↦ some (parenthesized_args no_expressions, expect right_paren (advance p))
      | false ↦ parse_expression_list n (advance p) >>= λ (es, q).
          some (parenthesized_args es, expect right_paren q)
    ]
    parse_function_args (suc n) left_brace p =
        parse_table_constructor n p >>= λ (t, q). some (table_args t, q)
    parse_function_args (suc n) (string_literal s) p = some (string_args s, advance p)
    parse_function_args (suc n) k p =
        some (parenthesized_args no_expressions, push_error expected_arguments p)

    pub parse_expression_list : ℕ → Parser → Option (Expressions F × Parser)
    parse_expression_list zero p = none
    parse_expression_list (suc n) p = parse_expression n 0 p >>= λ (e, q). elim (check comma q) [
      | true ↦ parse_expression_list n (advance q) >>= λ (es, r). some (add_expression e es, r)
      | false ↦ some (add_expression e no_expressions, q)
    ]

    pub parse_if_expression : ℕ → Parser → Option (Expression F × Parser)
    parse_if_expression zero p = none
    parse_if_expression (suc n) p = elim (enter_depth (advance p)) [
      | none ↦ some (error, push_error nesting_too_deep (advance p))
      | some q ↦ parse_expression n 0 q >>= λ (condition, r).
          parse_expression n 0 (expect then_kw r) >>= λ (then_expr, s).
          parse_elseif_clauses n s >>= λ (clauses, t).
          parse_expression n 0 (expect else_kw t) >>= λ (else_expr, u).
          some (if_expression condition then_expr clauses else_expr, exit_depth u)
    ]

    pub parse_elseif_clauses : ℕ → Parser → Option (Clauses F × Parser)
    parse_elseif_clauses zero p = none
    parse_elseif_clauses (suc n) p = elim (check elseif_kw p) [
      | true ↦ parse_expression n 0 (advance p) >>= λ (condition, q).
          parse_expression n 0 (expect then_kw q) >>= λ (e, r).
          parse_elseif_clauses n r >>= λ (clauses, s). some (add_clause condition e clauses, s)
      | false ↦ some (no_clauses, p)
    ]

    pub parse_table_constructor : ℕ → Parser → Option (TableConstructor F × Parser)
    parse_table_constructor zero p = none
    parse_table_constructor (suc n) p = elim (enter_depth (advance p)) [
      | none ↦ some (table no_fields false, push_error nesting_too_deep (advance p))
      | some q ↦ parse_fields n false (skip_leading_separator q) >>= λ (fields, trailing, r).
          some (table fields trailing, expect right_brace (exit_depth r))
    ]

    -- The loop over the fields; the flag says whether a separator stands behind the last one.
    pub parse_fields : ℕ → Bool → Parser → Option (Fields F × Bool × Parser)
    parse_fields zero trailing p = none
    parse_fields (suc n) trailing p = elim (check right_brace p || check eof p) [
      | true ↦ some (no_fields, trailing, p)
      | false ↦ parse_field n p >>= λ (f, q). elim (check_separator q) [
        | true ↦ parse_fields n true (advance q) >>= λ (fs, t, r). some (add_field f fs, t, r)
        | false ↦ some (add_field f no_fields, false, q)
      ]
    ]

    pub parse_field : ℕ → Parser → Option (Field F × Parser)
    parse_field zero p = none
    parse_field (suc n) p = elim (check left_bracket p) [
      | true ↦ parse_expression n 0 (advance p) >>= λ (key, q).
          parse_expression n 0 (expect equal (expect right_bracket q)) >>= λ (value, r).
          some (bracketed key value, r)
      | false ↦ elim (is_named_field p) [
        | true ↦
            let r = expect_identifier_recover p in
            parse_expression n 0 (advance r.1) >>= λ (value, q). some (named r.0 value, q)
        | false ↦ parse_expression n 0 p >>= λ (value, q). some (positional value, q)
      ]
    ]
