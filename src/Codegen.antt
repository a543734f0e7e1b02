-- ===== src/Codegen.antt =====
-- crates/luck_codegen/src/compact.rs: the tokens that the compact printer writes for an expression,
-- in front of those that follow. The spaces between them are not modelled, and no line breaks are
-- written.
use luck.Prelude.{Bytes, false, List, ◌∷◌, ◌++◌, Option, none, some}
use luck.Token.{
  TokenKind, identifier, number, string_literal, else_kw, elseif_kw, false_kw, if_kw, nil_kw,
  then_kw, true_kw, dot, dot_dot_dot, colon, double_colon, comma, equal, less, greater, left_paren,
  right_paren, left_brace, right_brace, left_bracket, right_bracket, Token,
}
use luck.Token.Operators.{binop_token, unop_token}
use luck.Syntax.{
  Expression, nil_lit, false_lit, true_lit, var_arg, error, number_lit, integer_lit, string_lit,
  function_def, interpolated_string, var, function_call, parenthesized, table_constructor,
  binary_op, unary_op, if_expression, type_cast, type_instantiation, Var, name, index, field_access,
  FunctionArgs, parenthesized_args, table_args, string_args, TableConstructor, table, Field,
  bracketed, named, positional, Fields, no_fields, add_field, Expressions, no_expressions,
  add_expression, Clauses, no_clauses, add_clause,
}
use luck.Parser.Expression.{Pieces}

abbrev pub plain : TokenKind → Token
plain k = record { kind = k; newline_before = false }

module _ {F : Type 0} (g : Pieces F) where
  unfoldable pub emit_method : Option Bytes → List Token → List Token
  emit_method none rest = rest
  emit_method (some s) rest = plain colon ∷ plain (identifier s) ∷ rest

  unfoldable pub emit_type_arguments : Option F → List Token → List Token
  emit_type_arguments none rest = rest
  emit_type_arguments (some t) rest =
      plain less ∷ plain less ∷ g.emit_type_args t ++ plain greater ∷ plain greater ∷ rest

  unfoldable mutual
    pub emit_expression : Expression F → List Token → List Token
    emit_expression nil_lit rest = plain nil_kw ∷ rest
    emit_expression false_lit rest = plain false_kw ∷ rest
    emit_expression true_lit rest = plain true_kw ∷ rest
    emit_expression var_arg rest = plain dot_dot_dot ∷ rest
    emit_expression (number_lit s) rest = plain (number s) ∷ rest
    emit_expression (integer_lit s) rest = plain (number s) ∷ rest
    emit_expression (string_lit s) rest = plain (string_literal s) ∷ rest
    emit_expression (function_def f) rest = g.emit_function_def f ++ rest
    emit_expression (var v) rest = emit_var v rest
    emit_expression (function_call callee args method type_args) rest =
        emit_expression callee
          (emit_method method (emit_type_arguments type_args (emit_function_args args rest)))
    emit_expression (parenthesized e) rest =
        plain left_paren ∷ emit_expression e (plain right_paren ∷ rest)
    emit_expression (table_constructor t) rest = emit_table_constructor t rest
    emit_expression (binary_op left op right) rest =
        emit_expression left (plain (binop_token op) ∷ emit_expression right rest)
    emit_expression (unary_op op operand) rest =
        plain (unop_token op) ∷ emit_expression operand rest
    emit_expression (if_expression condition then_expr clauses else_expr) rest =
        plain if_kw
        ∷ emit_expression condition (
            plain then_kw
            ∷ emit_expression then_expr
                (emit_clauses clauses (plain else_kw ∷ emit_expression else_expr rest)))
    emit_expression (interpolated_string f) rest = g.emit_interpolated_string f ++ rest
    emit_expression (type_cast e t) rest =
        emit_expression e (plain double_colon ∷ g.emit_type t ++ rest)
    emit_expression (type_instantiation e t) rest =
        emit_expression e (emit_type_arguments (some t) rest)
    emit_expression error rest = rest

    pub emit_var : Var F → List Token → List Token
    emit_var (name s) rest = plain (identifier s) ∷ rest
    emit_var (index prefix i) rest =
        emit_expression prefix (plain left_bracket ∷ emit_expression i (plain right_bracket ∷ rest))
    emit_var (field_access prefix s) rest =
        emit_expression prefix (plain dot ∷ plain (identifier s) ∷ rest)

    pub emit_function_args : FunctionArgs F → List Token → List Token
    emit_function_args (parenthesized_args es) rest =
        plain left_paren ∷ emit_expressions es (plain right_paren ∷ rest)
    emit_function_args (table_args t) rest = emit_table_constructor t rest
    emit_function_args (string_args s) rest = plain (string_literal s) ∷ rest

    -- `emit_separated`, without its trailing separator, which the parser sets for no list of
    -- expressions.
    pub emit_expressions : Expressions F → List Token → List Token
    emit_expressions no_expressions rest = rest
    emit_expressions (add_expression e es) rest = emit_expression e (emit_more_expressions es rest)

    pub emit_more_expressions : Expressions F → List Token → List Token
    emit_more_expressions no_expressions rest = rest
    emit_more_expressions (add_expression e es) rest =
        plain comma ∷ emit_expression e (emit_more_expressions es rest)

    pub emit_clauses : Clauses F → List Token → List Token
    emit_clauses no_clauses rest = rest
    emit_clauses (add_clause condition e clauses) rest =
        plain elseif_kw
        ∷ emit_expression condition (plain then_kw ∷ emit_expression e (emit_clauses clauses rest))

    -- The separator behind the last field is not written.
    pub emit_table_constructor : TableConstructor F → List Token → List Token
    emit_table_constructor (table fields trailing) rest =
        plain left_brace ∷ emit_fields fields (plain right_brace ∷ rest)

    pub emit_fields : Fields F → List Token → List Token
    emit_fields no_fields rest = rest
    emit_fields (add_field f fs) rest = emit_field f (emit_more_fields fs rest)

    pub emit_more_fields : Fields F → List Token → List Token
    emit_more_fields no_fields rest = rest
    emit_more_fields (add_field f fs) rest = plain comma ∷ emit_field f (emit_more_fields fs rest)

    pub emit_field : Field F → List Token → List Token
    emit_field (bracketed key value) rest =
        plain left_bracket
        ∷ emit_expression key (plain right_bracket ∷ plain equal ∷ emit_expression value rest)
    emit_field (named s value) rest =
        plain (identifier s) ∷ plain equal ∷ emit_expression value rest
    emit_field (positional value) rest = emit_expression value rest
