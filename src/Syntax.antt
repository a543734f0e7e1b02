-- ===== src/Syntax.antt =====
-- crates/luck_ast/src/expr.rs: the tree of an expression, without its spans. What stands for a
-- function's body, an interpolated string, a type or type arguments is left to the parameter `F`.
use luck.Prelude.{Bytes, Bool, Option}
use luck.Token.Operators.{BinOp, UnOp}

mutual
  pub data Expression (F : Type 0) : Type 0 where
    nil_lit false_lit true_lit var_arg error : Expression F
    number_lit integer_lit string_lit : Bytes → Expression F
    function_def interpolated_string : F → Expression F
    var : Var F → Expression F
    function_call : Expression F → FunctionArgs F → Option Bytes → Option F → Expression F
    parenthesized : Expression F → Expression F
    table_constructor : TableConstructor F → Expression F
    binary_op : Expression F → BinOp → Expression F → Expression F
    unary_op : UnOp → Expression F → Expression F
    if_expression : Expression F → Expression F → Clauses F → Expression F → Expression F
    type_cast type_instantiation : Expression F → F → Expression F

  pub data Var (F : Type 0) : Type 0 where
    name : Bytes → Var F
    index : Expression F → Expression F → Var F
    field_access : Expression F → Bytes → Var F

  pub data FunctionArgs (F : Type 0) : Type 0 where
    parenthesized_args : Expressions F → FunctionArgs F
    table_args : TableConstructor F → FunctionArgs F
    string_args : Bytes → FunctionArgs F

  -- The fields, and whether a separator stands behind the last one.
  pub data TableConstructor (F : Type 0) : Type 0 where
    table : Fields F → Bool → TableConstructor F

  pub data Field (F : Type 0) : Type 0 where
    bracketed : Expression F → Expression F → Field F
    named : Bytes → Expression F → Field F
    positional : Expression F → Field F

  pub data Fields (F : Type 0) : Type 0 where
    no_fields : Fields F
    add_field : Field F → Fields F → Fields F

  pub data Expressions (F : Type 0) : Type 0 where
    no_expressions : Expressions F
    add_expression : Expression F → Expressions F → Expressions F

  -- The `elseif` clauses of an if-expression.
  pub data Clauses (F : Type 0) : Type 0 where
    no_clauses : Clauses F
    add_clause : Expression F → Expression F → Clauses F → Clauses F
