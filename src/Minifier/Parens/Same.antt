-- ===== src/Minifier/Parens/Same.antt =====
-- What crates/luck_minifier/src/transforms/simplify_parens.rs keeps of a tree, up to parentheses that
-- do not stand around a call or `...`.
use luck.Prelude.{
  Bool, true, false, Option, none, some, Bytes, ◌≡◌, refl, if◌then◌else◌, ◌∙◌, ap, sym,
}
use luck.Token.Operators.{BinOp}
use luck.Syntax.{
  Expression, nil_lit, false_lit, true_lit, var_arg, error, number_lit, integer_lit, string_lit,
  function_def, interpolated_string, var, function_call, parenthesized, table_constructor,
  binary_op, unary_op, if_expression, type_cast, type_instantiation, Var, name, index, field_access,
  FunctionArgs, parenthesized_args, table_args, string_args, TableConstructor, table, Field,
  bracketed, named, positional, Fields, no_fields, add_field, Expressions, no_expressions,
  add_expression, Clauses, no_clauses, add_clause,
}
use luck.Minifier.Parens.{
  Walks, can_remove_parens, is_simple, can_unwrap_in_binop_lhs, can_unwrap_in_binop_rhs,
  can_unwrap_in_unary, unwrap_lhs, unwrap_rhs, unwrap_operand, simplify_paren, walk_type_arguments,
  transform_expression, transform_var, walk_function_args, walk_punctuated_exprs, walk_clauses,
  walk_table_constructor, walk_fields, walk_field,
}
use luck.Minifier.Parens.Bare.{
  is_multi, one_value, no_walk, bare, bare_var, bare_args, bare_expressions, bare_clauses,
  bare_table, bare_fields, bare_field,
}

module _ {F : Type 0} where
  one_value_single : (e : Expression F) → is_multi (one_value e) ≡ false
  unfolding one_value is_multi
  one_value_single (function_call e a m t) = refl
  one_value_single var_arg = refl
  one_value_single _ = refl

  one_value_same : (e : Expression F) → is_multi e ≡ false → one_value e ≡ e
  unfolding one_value
  one_value_same e h = rw h

  simple_single : (e : Expression F) → is_simple e ≡ true → is_multi (bare no_walk e) ≡ false
  unfolding is_simple is_multi bare
  simple_single (function_call e a m t) h = absurd (cc h)
  simple_single var_arg h = absurd (cc h)
  simple_single (parenthesized e) h = absurd (cc h)
  simple_single _ h = refl

  removed_single :
      (e : Expression F) → can_remove_parens e ≡ true → is_multi (bare no_walk e) ≡ false
  unfolding can_remove_parens is_multi bare
  removed_single (function_call e a m t) h = absurd (cc h)
  removed_single var_arg h = absurd (cc h)
  removed_single (parenthesized e) h = one_value_single (bare no_walk e)
  removed_single _ h = refl

  lhs_single :
      (e : Expression F) (op : BinOp)
      → can_unwrap_in_binop_lhs e op ≡ true
      → is_multi (bare no_walk e) ≡ false
  unfolding can_unwrap_in_binop_lhs is_simple is_multi bare
  lhs_single (function_call e a m t) op h = absurd (cc h)
  lhs_single var_arg op h = absurd (cc h)
  lhs_single (parenthesized e) op h = absurd (cc h)
  lhs_single _ op h = refl

  rhs_single :
      (e : Expression F) (op : BinOp)
      → can_unwrap_in_binop_rhs e op ≡ true
      → is_multi (bare no_walk e) ≡ false
  unfolding can_unwrap_in_binop_rhs is_simple is_multi bare
  rhs_single (function_call e a m t) op h = absurd (cc h)
  rhs_single var_arg op h = absurd (cc h)
  rhs_single (parenthesized e) op h = absurd (cc h)
  rhs_single _ op h = refl

  operand_single :
      (e : Expression F) → can_unwrap_in_unary e ≡ true → is_multi (bare no_walk e) ≡ false
  unfolding can_unwrap_in_unary is_simple is_multi bare
  operand_single (function_call e a m t) h = absurd (cc h)
  operand_single var_arg h = absurd (cc h)
  operand_single (parenthesized e) h = absurd (cc h)
  operand_single _ h = refl

  -- Parentheses that go only where nothing is cut down.
  paren_same :
      (e : Expression F) (b : Bool)
      → (b ≡ true → is_multi (bare no_walk e) ≡ false)
      → bare no_walk (if b then e else parenthesized e) ≡ one_value (bare no_walk e)
  unfolding bare
  paren_same e true h = sym (one_value_same (bare no_walk e) (h refl))
  paren_same e false h = refl

  simplify_same : (e : Expression F) → bare no_walk (simplify_paren e) ≡ one_value (bare no_walk e)
  unfolding simplify_paren
  simplify_same e = paren_same e (can_remove_parens e) (removed_single e)

  lhs_same : (e : Expression F) (op : BinOp) → bare no_walk (unwrap_lhs e op) ≡ bare no_walk e
  unfolding unwrap_lhs bare
  lhs_same (parenthesized e) op = paren_same e (can_unwrap_in_binop_lhs e op) (lhs_single e op)
  lhs_same _ op = refl

  rhs_same : (e : Expression F) (op : BinOp) → bare no_walk (unwrap_rhs e op) ≡ bare no_walk e
  unfolding unwrap_rhs bare
  rhs_same (parenthesized e) op = paren_same e (can_unwrap_in_binop_rhs e op) (rhs_single e op)
  rhs_same _ op = refl

  operand_same : (e : Expression F) → bare no_walk (unwrap_operand e) ≡ bare no_walk e
  unfolding unwrap_operand bare
  operand_same (parenthesized e) = paren_same e (can_unwrap_in_unary e) (operand_single e)
  operand_same _ = refl

  walk_type_arguments-no_walk :
      (w : Walks F) (t : Option F)
      → walk_type_arguments no_walk (walk_type_arguments w t) ≡ walk_type_arguments w t
  unfolding walk_type_arguments
  walk_type_arguments-no_walk w none = refl
  walk_type_arguments-no_walk w (some t) = refl

module _ {F : Type 0} (w : Walks F) where
  call_same :
      (e : Expression F) (a : FunctionArgs F) (m : Option Bytes) (t : Option F)
      → bare no_walk (transform_expression w (function_call e a m t))
        ≡ function_call
            (bare no_walk (transform_expression w e))
            (bare_args no_walk (walk_function_args w a))
            m
            (walk_type_arguments w t)
  unfolding transform_expression bare
  call_same (parenthesized e) a m t =
      cc (simplify_same (transform_expression w e), walk_type_arguments-no_walk w t)
  call_same _ a m t = cc (walk_type_arguments-no_walk w t)

  index_same :
      (p i : Expression F)
      → bare_var no_walk (transform_var w (index p i))
        ≡ index (bare no_walk (transform_expression w p)) (bare no_walk (transform_expression w i))
  unfolding transform_expression bare
  index_same (parenthesized e) i = cc (simplify_same (transform_expression w e))
  index_same _ i = refl

  field_same :
      (p : Expression F) (s : Bytes)
      → bare_var no_walk (transform_var w (field_access p s))
        ≡ field_access (bare no_walk (transform_expression w p)) s
  unfolding transform_expression bare
  field_same (parenthesized e) s = cc (simplify_same (transform_expression w e))
  field_same _ s = refl

  args_same :
      (es : Expressions F)
      → bare_args no_walk (walk_function_args w (parenthesized_args es))
        ≡ parenthesized_args (bare_expressions no_walk (walk_punctuated_exprs w es))
  unfolding transform_expression bare
  args_same (add_expression (string_lit s) no_expressions) = refl
  args_same (add_expression (table_constructor t) no_expressions) = refl
  args_same _ = refl

  mutual
    unfolding transform_expression bare

    tree_back : (e : Expression F) → bare no_walk (transform_expression w e) ≡ bare w e
    tree_back nil_lit = refl
    tree_back false_lit = refl
    tree_back true_lit = refl
    tree_back var_arg = refl
    tree_back error = refl
    tree_back (number_lit s) = refl
    tree_back (integer_lit s) = refl
    tree_back (string_lit s) = refl
    tree_back (function_def f) = refl
    tree_back (interpolated_string f) = refl
    tree_back (var x) = cc (var_back x)
    tree_back (function_call e a m t) = call_same e a m t ∙ cc (tree_back e, args_back a)
    tree_back (parenthesized e) =
        simplify_same (transform_expression w e) ∙ ap one_value (tree_back e)
    tree_back (table_constructor t) = cc (table_back t)
    tree_back (binary_op l op r) = cc (
      lhs_same (transform_expression w l) op,
      tree_back l,
      rhs_same (transform_expression w r) op,
      tree_back r,
    )
    tree_back (unary_op op e) = cc (operand_same (transform_expression w e), tree_back e)
    tree_back (if_expression c t cs e) = cc (tree_back c, tree_back t, clauses_back cs, tree_back e)
    tree_back (type_cast e t) = cc (tree_back e)
    tree_back (type_instantiation e t) = cc (tree_back e)

    var_back : (x : Var F) → bare_var no_walk (transform_var w x) ≡ bare_var w x
    var_back (name s) = refl
    var_back (index p i) = index_same p i ∙ cc (tree_back p, tree_back i)
    var_back (field_access p s) = field_same p s ∙ cc (tree_back p)

    args_back : (a : FunctionArgs F) → bare_args no_walk (walk_function_args w a) ≡ bare_args w a
    args_back (parenthesized_args es) = args_same es ∙ cc (expressions_back es)
    args_back (table_args t) = cc (table_back t)
    args_back (string_args s) = refl

    expressions_back :
        (es : Expressions F)
        → bare_expressions no_walk (walk_punctuated_exprs w es) ≡ bare_expressions w es
    expressions_back no_expressions = refl
    expressions_back (add_expression e es) = cc (tree_back e, expressions_back es)

    clauses_back : (cs : Clauses F) → bare_clauses no_walk (walk_clauses w cs) ≡ bare_clauses w cs
    clauses_back no_clauses = refl
    clauses_back (add_clause c e cs) = cc (tree_back c, tree_back e, clauses_back cs)

    table_back :
        (t : TableConstructor F) → bare_table no_walk (walk_table_constructor w t) ≡ bare_table w t
    table_back (table fs b) = cc (fields_back fs)

    fields_back : (fs : Fields F) → bare_fields no_walk (walk_fields w fs) ≡ bare_fields w fs
    fields_back no_fields = refl
    fields_back (add_field f fs) = cc (field_back f, fields_back fs)

    field_back : (f : Field F) → bare_field no_walk (walk_field w f) ≡ bare_field w f
    field_back (bracketed k e) = cc (tree_back k, tree_back e)
    field_back (named s e) = cc (tree_back e)
    field_back (positional e) = cc (tree_back e)

  -- A simplified tree and its source are the same up to the parentheses that are erased.
  pub bare-transform : (e : Expression F) → bare no_walk (transform_expression w e) ≡ bare w e
  bare-transform e = tree_back e
