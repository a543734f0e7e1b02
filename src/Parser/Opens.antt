-- ===== src/Parser/Opens.antt =====
-- What the first tokens of a printed expression are, and what they are not.
use luck.Prelude.{ℕ, Bool, false, ◌&&◌, List, ◌∷◌, Option, none, some, Bytes, ◌≡◌, refl}
use luck.Version.{LuaVersion}
use luck.Token.{
  TokenKind, identifier, number, string_literal, false_kw, if_kw, nil_kw, true_kw, dot, dot_dot_dot,
  semicolon, comma, equal, less, left_paren, right_paren, left_brace, right_brace, left_bracket,
  eof, Token, discriminant,
}
use luck.Token.Operators.{BinOp, add, binop_token, UnOp, not_op, neg, len, bit_not, unop_token}
use luck.Syntax.{
  Expression, nil_lit, false_lit, true_lit, var_arg, error, number_lit, integer_lit, string_lit,
  function_def, interpolated_string, var, function_call, parenthesized, table_constructor,
  binary_op, unary_op, if_expression, type_cast, type_instantiation, Var, name, index, field_access,
  FunctionArgs, parenthesized_args, table_args, string_args, table,
}
use luck.Parser.{kind_at, rest_of, is_kind}
use luck.Parser.Expression.{Pieces, is_identifier}
use luck.Parser.Fits.{Fits, FitsVar}
use luck.Codegen.{
  plain, emit_method, emit_type_arguments, emit_expression, emit_var, emit_function_args,
}

-- The kinds that an expression starts with, a name apart.
pub data Start : TokenKind → Type 0 where
  start_nil : Start nil_kw
  start_false : Start false_kw
  start_true : Start true_kw
  start_vararg : Start dot_dot_dot
  start_number : (s : Bytes) → Start (number s)
  start_string : (s : Bytes) → Start (string_literal s)
  start_paren : Start left_paren
  start_table : Start left_brace
  start_if : Start if_kw
  start_unary : (op : UnOp) → Start (unop_token op)

-- A name in front is not that of a field.
pub data Opens : List Token → Type 0 where
  by_kind : (k : TokenKind) (ts : List Token) → Start k → Opens (plain k ∷ ts)
  by_name :
      (s : Bytes) (ts : List Token)
      → is_kind equal (kind_at ts) ≡ false
      → Opens (plain (identifier s) ∷ ts)

-- What is seen at the start of an expression by the tests that the parser makes there.
pub record Seen (ts : List Token) : Type 0 where
  pub no_right_paren : is_kind right_paren (kind_at ts) ≡ false
  pub no_right_brace : is_kind right_brace (kind_at ts) ≡ false
  pub no_eof : is_kind eof (kind_at ts) ≡ false
  pub no_left_bracket : is_kind left_bracket (kind_at ts) ≡ false
  pub no_comma : is_kind comma (kind_at ts) ≡ false
  pub no_semicolon : is_kind semicolon (kind_at ts) ≡ false
  pub no_less : is_kind less (kind_at ts) ≡ false
  pub no_named : is_identifier (kind_at ts) && is_kind equal (kind_at (rest_of ts)) ≡ false

Start-Seen : (k : TokenKind) (ts : List Token) → Start k → Seen (plain k ∷ ts)
unfolding is_kind kind_at discriminant is_identifier unop_token
Start-Seen _ ts start_nil = record {
  no_right_paren = refl;
  no_right_brace = refl;
  no_eof = refl;
  no_left_bracket = refl;
  no_comma = refl;
  no_semicolon = refl;
  no_less = refl;
  no_named = refl;
}
Start-Seen _ ts start_false = record {
  no_right_paren = refl;
  no_right_brace = refl;
  no_eof = refl;
  no_left_bracket = refl;
  no_comma = refl;
  no_semicolon = refl;
  no_less = refl;
  no_named = refl;
}
Start-Seen _ ts start_true = record {
  no_right_paren = refl;
  no_right_brace = refl;
  no_eof = refl;
  no_left_bracket = refl;
  no_comma = refl;
  no_semicolon = refl;
  no_less = refl;
  no_named = refl;
}
Start-Seen _ ts start_vararg = record {
  no_right_paren = refl;
  no_right_brace = refl;
  no_eof = refl;
  no_left_bracket = refl;
  no_comma = refl;
  no_semicolon = refl;
  no_less = refl;
  no_named = refl;
}
Start-Seen _ ts (start_number s) = record {
  no_right_paren = refl;
  no_right_brace = refl;
  no_eof = refl;
  no_left_bracket = refl;
  no_comma = refl;
  no_semicolon = refl;
  no_less = refl;
  no_named = refl;
}
Start-Seen _ ts (start_string s) = record {
  no_right_paren = refl;
  no_right_brace = refl;
  no_eof = refl;
  no_left_bracket = refl;
  no_comma = refl;
  no_semicolon = refl;
  no_less = refl;
  no_named = refl;
}
Start-Seen _ ts start_paren = record {
  no_right_paren = refl;
  no_right_brace = refl;
  no_eof = refl;
  no_left_bracket = refl;
  no_comma = refl;
  no_semicolon = refl;
  no_less = refl;
  no_named = refl;
}
Start-Seen _ ts start_table = record {
  no_right_paren = refl;
  no_right_brace = refl;
  no_eof = refl;
  no_left_bracket = refl;
  no_comma = refl;
  no_semicolon = refl;
  no_less = refl;
  no_named = refl;
}
Start-Seen _ ts start_if = record {
  no_right_paren = refl;
  no_right_brace = refl;
  no_eof = refl;
  no_left_bracket = refl;
  no_comma = refl;
  no_semicolon = refl;
  no_less = refl;
  no_named = refl;
}
Start-Seen _ ts (start_unary not_op) = record {
  no_right_paren = refl;
  no_right_brace = refl;
  no_eof = refl;
  no_left_bracket = refl;
  no_comma = refl;
  no_semicolon = refl;
  no_less = refl;
  no_named = refl;
}
Start-Seen _ ts (start_unary neg) = record {
  no_right_paren = refl;
  no_right_brace = refl;
  no_eof = refl;
  no_left_bracket = refl;
  no_comma = refl;
  no_semicolon = refl;
  no_less = refl;
  no_named = refl;
}
Start-Seen _ ts (start_unary len) = record {
  no_right_paren = refl;
  no_right_brace = refl;
  no_eof = refl;
  no_left_bracket = refl;
  no_comma = refl;
  no_semicolon = refl;
  no_less = refl;
  no_named = refl;
}
Start-Seen _ ts (start_unary bit_not) = record {
  no_right_paren = refl;
  no_right_brace = refl;
  no_eof = refl;
  no_left_bracket = refl;
  no_comma = refl;
  no_semicolon = refl;
  no_less = refl;
  no_named = refl;
}

pub Opens-Seen : (ts : List Token) → Opens ts → Seen ts
unfolding is_kind kind_at rest_of discriminant is_identifier
Opens-Seen _ (by_kind k ts s) = Start-Seen k ts s
Opens-Seen _ (by_name s ts h) = record {
  no_right_paren = refl;
  no_right_brace = refl;
  no_eof = refl;
  no_left_bracket = refl;
  no_comma = refl;
  no_semicolon = refl;
  no_less = refl;
  no_named = h;
}

module _ (v : LuaVersion) (va : Bool) {F : Type 0} (g : Pieces F) where
  op_ne_equal :
      (op : BinOp) (ts : List Token) → is_kind equal (kind_at (plain (binop_token op) ∷ ts)) ≡ false
  unfolding is_kind binop_token kind_at discriminant
  op_ne_equal add ts = refl
  op_ne_equal _ ts = refl

  method_ne_equal :
      (m : Option Bytes) (d : ℕ) (a : FunctionArgs F) (rest : List Token)
      → is_kind equal
          (kind_at (emit_method g m (emit_type_arguments g none (emit_function_args g a rest))))
        ≡ false
  unfolding is_kind kind_at discriminant emit_method emit_function_args emit_type_arguments
      emit_expression
  method_ne_equal (some s) d a rest = refl
  method_ne_equal none d (parenthesized_args es) rest = refl
  method_ne_equal none d (table_args (table fs t)) rest = refl
  method_ne_equal none d (string_args s) rest = refl

  dot_ne_equal : (ts : List Token) → is_kind equal (kind_at (plain dot ∷ ts)) ≡ false
  unfolding is_kind kind_at discriminant
  dot_ne_equal ts = refl

  bracket_ne_equal : (ts : List Token) → is_kind equal (kind_at (plain left_bracket ∷ ts)) ≡ false
  unfolding is_kind kind_at discriminant
  bracket_ne_equal ts = refl

  mutual
    unfolding Fits emit_expression

    pub emit_expression-Opens :
        (e : Expression F) (d min : ℕ) (rest : List Token)
        → Fits v va d min e
        → is_kind equal (kind_at rest) ≡ false
        → Opens (emit_expression g e rest)
    emit_expression-Opens nil_lit d min rest h q = by_kind _ _ start_nil
    emit_expression-Opens false_lit d min rest h q = by_kind _ _ start_false
    emit_expression-Opens true_lit d min rest h q = by_kind _ _ start_true
    emit_expression-Opens var_arg d min rest h q = by_kind _ _ start_vararg
    emit_expression-Opens (number_lit s) d min rest h q = by_kind _ _ (start_number s)
    emit_expression-Opens (integer_lit s) d min rest h q = by_kind _ _ (start_number s)
    emit_expression-Opens (string_lit s) d min rest h q = by_kind _ _ (start_string s)
    emit_expression-Opens (var x) d min rest h q = emit_var-Opens x d rest h q
    emit_expression-Opens (function_call f a m none) d min rest (_, h, _, _) q =
        emit_expression-Opens f d 0 _ h (method_ne_equal m d a rest)
    emit_expression-Opens (function_call f a m (some t)) d min rest (_, _, _, h) q = absurd (cc h)
    emit_expression-Opens (parenthesized e) d min rest h q = by_kind _ _ start_paren
    emit_expression-Opens (table_constructor (table fs t)) d min rest h q = by_kind _ _ start_table
    emit_expression-Opens (binary_op l op r) d min rest (h, _, _, _, _, _) q =
        emit_expression-Opens l d min _ h (op_ne_equal op _)
    emit_expression-Opens (unary_op op e) d min rest h q = by_kind _ _ (start_unary op)
    emit_expression-Opens (if_expression c t cs e) d min rest h q = by_kind _ _ start_if
    emit_expression-Opens (function_def f) d min rest h q = absurd h
    emit_expression-Opens (interpolated_string f) d min rest h q = absurd h
    emit_expression-Opens (type_cast e t) d min rest h q = absurd h
    emit_expression-Opens (type_instantiation e t) d min rest h q = absurd h
    emit_expression-Opens error d min rest h q = absurd h

    emit_var-Opens :
        (x : Var F) (d : ℕ) (rest : List Token)
        → FitsVar v va d x
        → is_kind equal (kind_at rest) ≡ false
        → Opens (emit_var g x rest)
    emit_var-Opens (name s) d rest h q = by_name s rest q
    emit_var-Opens (index p i) d rest (_, h, _) q =
        emit_expression-Opens p d 0 _ h (bracket_ne_equal _)
    emit_var-Opens (field_access p s) d rest (_, h) q =
        emit_expression-Opens p d 0 _ h (dot_ne_equal _)
