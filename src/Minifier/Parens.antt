-- ===== src/Minifier/Parens.antt =====
-- crates/luck_minifier/src/transforms/simplify_parens.rs: the pass that removes redundant
-- parentheses, on expressions, with the walk over them of crates/luck_ast/src/transform.rs.
pub mod Depth
pub mod Unwrap
pub mod Kept
pub mod Meaning
pub mod Bare
pub mod Same
use luck.Prelude.{ℕ, Bool, true, false, not, ◌&&◌, Option, none, some, ltb, ◌==◌, if◌then◌else◌}
use luck.Token.Operators.{Assoc, left_assoc, right_assoc, BinOp, pow, precedence}
use luck.Syntax.{
  Expression, nil_lit, false_lit, true_lit, var_arg, error, number_lit, integer_lit, string_lit,
  function_def, interpolated_string, var, function_call, parenthesized, table_constructor,
  binary_op, unary_op, if_expression, type_cast, type_instantiation, Var, name, index, field_access,
  FunctionArgs, parenthesized_args, table_args, string_args, TableConstructor, table, Field,
  bracketed, named, positional, Fields, no_fields, add_field, Expressions, no_expressions,
  add_expression, Clauses, no_clauses, add_clause,
}

-- What the walk does inside the parts that are not modelled.
pub record Walks (F : Type 0) : Type 0 where
  pub walk_function_body : F → F
  pub walk_segments : F → F
  pub transform_type : F → F
  pub walk_type_args : F → F

unfoldable pub is_right_associative : BinOp → Bool
is_right_associative op = is_right (precedence op)
  where
    is_right : ℕ × Assoc → Bool
    is_right (n, right_assoc) = true
    is_right (n, left_assoc) = false

unfoldable pub binop_precedence : BinOp → ℕ
binop_precedence op = (precedence op).0

unfoldable pub is_pow : BinOp → Bool
is_pow pow = true
is_pow _ = false

module _ {F : Type 0} where
  unfoldable pub can_remove_parens : Expression F → Bool
  can_remove_parens (number_lit s) = true
  can_remove_parens (integer_lit s) = true
  can_remove_parens (string_lit s) = true
  can_remove_parens nil_lit = true
  can_remove_parens true_lit = true
  can_remove_parens false_lit = true
  can_remove_parens (var x) = true
  can_remove_parens (table_constructor t) = true
  can_remove_parens (parenthesized e) = true
  can_remove_parens (function_def f) = true
  can_remove_parens _ = false

  -- The arms that the three tests below share.
  unfoldable pub is_simple : Expression F → Bool
  is_simple (number_lit s) = true
  is_simple (integer_lit s) = true
  is_simple (string_lit s) = true
  is_simple nil_lit = true
  is_simple true_lit = true
  is_simple false_lit = true
  is_simple (var x) = true
  is_simple (table_constructor t) = true
  is_simple (function_def f) = true
  is_simple _ = false

  unfoldable pub can_unwrap_in_binop_lhs : Expression F → BinOp → Bool
  can_unwrap_in_binop_lhs (unary_op op e) outer = not (is_pow outer)
  can_unwrap_in_binop_lhs (binary_op left op right) outer =
      let inner_prec = binop_precedence op in
      let outer_prec = binop_precedence outer in
      if ltb outer_prec inner_prec
      then true
      else if inner_prec == outer_prec && not (is_right_associative outer)
      then true
      else false
  can_unwrap_in_binop_lhs e outer = is_simple e

  unfoldable pub can_unwrap_in_binop_rhs : Expression F → BinOp → Bool
  can_unwrap_in_binop_rhs (unary_op op e) outer = true
  can_unwrap_in_binop_rhs (binary_op left op right) outer =
      let inner_prec = binop_precedence op in
      let outer_prec = binop_precedence outer in
      if ltb outer_prec inner_prec
      then true
      else if inner_prec == outer_prec && is_right_associative outer
      then true
      else false
  can_unwrap_in_binop_rhs e outer = is_simple e

  unfoldable pub can_unwrap_in_unary : Expression F → Bool
  can_unwrap_in_unary (unary_op op e) = true
  can_unwrap_in_unary e = is_simple e

  -- An operand without its parentheses, where the test allows that.
  unfoldable pub unwrap_lhs : Expression F → BinOp → Expression F
  unwrap_lhs (parenthesized e) op = if can_unwrap_in_binop_lhs e op then e else parenthesized e
  unwrap_lhs e op = e

  unfoldable pub unwrap_rhs : Expression F → BinOp → Expression F
  unwrap_rhs (parenthesized e) op = if can_unwrap_in_binop_rhs e op then e else parenthesized e
  unwrap_rhs e op = e

  unfoldable pub unwrap_operand : Expression F → Expression F
  unwrap_operand (parenthesized e) = if can_unwrap_in_unary e then e else parenthesized e
  unwrap_operand e = e

  unfoldable pub simplify_paren : Expression F → Expression F
  simplify_paren e = if can_remove_parens e then e else parenthesized e

  unfoldable pub walk_type_arguments : Walks F → Option F → Option F
  walk_type_arguments w none = none
  walk_type_arguments w (some t) = some (w.walk_type_args t)

module _ {F : Type 0} (w : Walks F) where
  unfoldable mutual
    pub transform_expression : Expression F → Expression F
    transform_expression nil_lit = nil_lit
    transform_expression false_lit = false_lit
    transform_expression true_lit = true_lit
    transform_expression var_arg = var_arg
    transform_expression error = error
    transform_expression (number_lit s) = number_lit s
    transform_expression (integer_lit s) = integer_lit s
    transform_expression (string_lit s) = string_lit s
    transform_expression (function_def f) = function_def (w.walk_function_body f)
    transform_expression (interpolated_string f) = interpolated_string (w.walk_segments f)
    transform_expression (var x) = var (transform_var x)
    transform_expression (function_call (parenthesized e) args method type_args) =
        function_call (parenthesized (transform_expression e)) (walk_function_args args) method
          (walk_type_arguments w type_args)
    transform_expression (function_call callee args method type_args) =
        function_call (transform_expression callee) (walk_function_args args) method
          (walk_type_arguments w type_args)
    transform_expression (parenthesized e) = simplify_paren (transform_expression e)
    transform_expression (table_constructor t) = table_constructor (walk_table_constructor t)
    transform_expression (binary_op left op right) =
        binary_op (unwrap_lhs (transform_expression left) op) op
          (unwrap_rhs (transform_expression right) op)
    transform_expression (unary_op op operand) =
        unary_op op (unwrap_operand (transform_expression operand))
    transform_expression (if_expression condition then_expr cs else_expr) =
        if_expression (transform_expression condition) (transform_expression then_expr)
          (walk_clauses cs) (transform_expression else_expr)
    transform_expression (type_cast e t) = type_cast (transform_expression e) (w.transform_type t)
    transform_expression (type_instantiation e t) =
        type_instantiation (transform_expression e) (w.walk_type_args t)

    pub transform_var : Var F → Var F
    transform_var (name s) = name s
    transform_var (index (parenthesized e) i) =
        index (parenthesized (transform_expression e)) (transform_expression i)
    transform_var (index prefix i) = index (transform_expression prefix) (transform_expression i)
    transform_var (field_access (parenthesized e) s) =
        field_access (parenthesized (transform_expression e)) s
    transform_var (field_access prefix s) = field_access (transform_expression prefix) s

    pub walk_function_args : FunctionArgs F → FunctionArgs F
    walk_function_args (parenthesized_args (add_expression (string_lit s) no_expressions)) =
        string_args s
    walk_function_args (parenthesized_args (add_expression (table_constructor t) no_expressions)) =
        table_args (walk_table_constructor t)
    walk_function_args (parenthesized_args es) = parenthesized_args (walk_punctuated_exprs es)
    walk_function_args (table_args t) = table_args (walk_table_constructor t)
    walk_function_args (string_args s) = string_args s

    pub walk_punctuated_exprs : Expressions F → Expressions F
    walk_punctuated_exprs no_expressions = no_expressions
    walk_punctuated_exprs (add_expression e es) =
        add_expression (transform_expression e) (walk_punctuated_exprs es)

    pub walk_clauses : Clauses F → Clauses F
    walk_clauses no_clauses = no_clauses
    walk_clauses (add_clause condition e cs) =
        add_clause (transform_expression condition) (transform_expression e) (walk_clauses cs)

    pub walk_table_constructor : TableConstructor F → TableConstructor F
    walk_table_constructor (table fs trailing) = table (walk_fields fs) trailing

    pub walk_fields : Fields F → Fields F
    walk_fields no_fields = no_fields
    walk_fields (add_field f fs) = add_field (walk_field f) (walk_fields fs)

    pub walk_field : Field F → Field F
    walk_field (bracketed key value) =
        bracketed (transform_expression key) (transform_expression value)
    walk_field (named s value) = named s (transform_expression value)
    walk_field (positional value) = positional (transform_expression value)
