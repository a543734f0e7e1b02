-- ===== src/Minifier/Parens/Bare.antt =====
-- A tree without the parentheses that group, for the pass of
-- crates/luck_minifier/src/transforms/simplify_parens.rs.
use luck.Prelude.{Bool, true, false, if◌then◌else◌}
use luck.Syntax.{
  Expression, nil_lit, false_lit, true_lit, var_arg, error, number_lit, integer_lit, string_lit,
  function_def, interpolated_string, var, function_call, parenthesized, table_constructor,
  binary_op, unary_op, if_expression, type_cast, type_instantiation, Var, name, index, field_access,
  FunctionArgs, parenthesized_args, table_args, string_args, TableConstructor, table, Field,
  bracketed, named, positional, Fields, no_fields, add_field, Expressions, no_expressions,
  add_expression, Clauses, no_clauses, add_clause,
}
use luck.Minifier.Parens.{Walks, walk_type_arguments}

module _ {F : Type 0} where
  -- What may stand for more than one value, or for none.
  unfoldable pub is_multi : Expression F → Bool
  is_multi (function_call callee args method type_args) = true
  is_multi var_arg = true
  is_multi _ = false

  -- Parentheses in front of a tree, kept where they cut it down to one value.
  unfoldable pub one_value : Expression F → Expression F
  one_value e = if is_multi e then parenthesized e else e

  -- A walk that changes nothing.
  abbrev pub no_walk : Walks F
  no_walk = record {
    walk_function_body = λ f. f;
    walk_segments = λ f. f;
    transform_type = λ f. f;
    walk_type_args = λ f. f;
  }

module _ {F : Type 0} (w : Walks F) where
  -- The tree with parentheses around calls and `...` only, every argument list in parentheses, and the
  -- parts that are not modelled walked.
  unfoldable mutual
    pub bare : Expression F → Expression F
    bare nil_lit = nil_lit
    bare false_lit = false_lit
    bare true_lit = true_lit
    bare var_arg = var_arg
    bare error = error
    bare (number_lit s) = number_lit s
    bare (integer_lit s) = integer_lit s
    bare (string_lit s) = string_lit s
    bare (function_def f) = function_def (w.walk_function_body f)
    bare (interpolated_string f) = interpolated_string (w.walk_segments f)
    bare (var x) = var (bare_var x)
    bare (function_call callee args method type_args) =
        function_call (bare callee) (bare_args args) method (walk_type_arguments w type_args)
    bare (parenthesized e) = one_value (bare e)
    bare (table_constructor t) = table_constructor (bare_table t)
    bare (binary_op left op right) = binary_op (bare left) op (bare right)
    bare (unary_op op operand) = unary_op op (bare operand)
    bare (if_expression condition then_expr cs else_expr) =
        if_expression (bare condition) (bare then_expr) (bare_clauses cs) (bare else_expr)
    bare (type_cast e t) = type_cast (bare e) (w.transform_type t)
    bare (type_instantiation e t) = type_instantiation (bare e) (w.walk_type_args t)

    pub bare_var : Var F → Var F
    bare_var (name s) = name s
    bare_var (index prefix i) = index (bare prefix) (bare i)
    bare_var (field_access prefix s) = field_access (bare prefix) s

    pub bare_args : FunctionArgs F → FunctionArgs F
    bare_args (parenthesized_args es) = parenthesized_args (bare_expressions es)
    bare_args (table_args t) =
        parenthesized_args (add_expression (table_constructor (bare_table t)) no_expressions)
    bare_args (string_args s) = parenthesized_args (add_expression (string_lit s) no_expressions)

    pub bare_expressions : Expressions F → Expressions F
    bare_expressions no_expressions = no_expressions
    bare_expressions (add_expression e es) = add_expression (bare e) (bare_expressions es)

    pub bare_clauses : Clauses F → Clauses F
    bare_clauses no_clauses = no_clauses
    bare_clauses (add_clause condition e cs) =
        add_clause (bare condition) (bare e) (bare_clauses cs)

    pub bare_table : TableConstructor F → TableConstructor F
    bare_table (table fs trailing) = table (bare_fields fs) trailing

    pub bare_fields : Fields F → Fields F
    bare_fields no_fields = no_fields
    bare_fields (add_field f fs) = add_field (bare_field f) (bare_fields fs)

    pub bare_field : Field F → Field F
    bare_field (bracketed key value) = bracketed (bare key) (bare value)
    bare_field (named s value) = named s (bare value)
    bare_field (positional value) = positional (bare value)
