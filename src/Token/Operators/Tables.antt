-- ===== src/Token/Operators/Tables.antt =====
-- What the tables of operators say of each other.
use luck.Prelude.{true, is_some, ◌≡◌, refl}
use mathlib.Core.Option
use mathlib.Core.Option.{Option, none, some}
use luck.Token.{
  TokenKind, identifier, number, string_literal, and_kw, break_kw, do_kw, else_kw, elseif_kw,
  end_kw, false_kw, for_kw, function_kw, if_kw, in_kw, local_kw, nil_kw, not_kw, or_kw, repeat_kw,
  return_kw, then_kw, true_kw, until_kw, while_kw, goto_kw, global_kw, plus, minus, star, slash,
  floor_div, percent, caret, hash, ampersand, tilde, pipe, shift_left, shift_right, dot, dot_dot,
  dot_dot_dot, semicolon, colon, double_colon, comma, equal, equal_equal, tilde_equal, less,
  less_equal, greater, greater_equal, left_paren, right_paren, left_brace, right_brace,
  left_bracket, right_bracket, plus_equal, minus_equal, star_equal, slash_equal, floor_div_equal,
  percent_equal, caret_equal, dot_dot_equal, interp_begin, interp_mid, interp_end, at, arrow,
  question, eof, is_unary_op,
}
use luck.Token.Operators.{
  binary_precedence, BinOp, add, sub, mul, div, floor_div_op, mod_op, pow, concat, eq, ne, lt, le,
  gt, ge, and_op, or_op, bit_and, bit_or, bit_xor, shl, shr, binop_of, binop_token, precedence,
  UnOp, not_op, neg, len, bit_not, unop_of, unop_token,
}

-- The two tables of precedence, by token and by operator, agree on every kind of token, and the
-- kinds that start a unary operation are the ones that a unary operator is written with.
pub binary_precedence-binop_of :
    (k : TokenKind)
    → (binary_precedence k ≡ Option.map precedence (binop_of k))
      × (is_unary_op k ≡ is_some (unop_of k))
unfolding binary_precedence binop_of precedence is_unary_op unop_of
binary_precedence-binop_of (identifier s) = (refl, refl)
binary_precedence-binop_of (number s) = (refl, refl)
binary_precedence-binop_of (string_literal s) = (refl, refl)
binary_precedence-binop_of and_kw = (refl, refl)
binary_precedence-binop_of break_kw = (refl, refl)
binary_precedence-binop_of do_kw = (refl, refl)
binary_precedence-binop_of else_kw = (refl, refl)
binary_precedence-binop_of elseif_kw = (refl, refl)
binary_precedence-binop_of end_kw = (refl, refl)
binary_precedence-binop_of false_kw = (refl, refl)
binary_precedence-binop_of for_kw = (refl, refl)
binary_precedence-binop_of function_kw = (refl, refl)
binary_precedence-binop_of if_kw = (refl, refl)
binary_precedence-binop_of in_kw = (refl, refl)
binary_precedence-binop_of local_kw = (refl, refl)
binary_precedence-binop_of nil_kw = (refl, refl)
binary_precedence-binop_of not_kw = (refl, refl)
binary_precedence-binop_of or_kw = (refl, refl)
binary_precedence-binop_of repeat_kw = (refl, refl)
binary_precedence-binop_of return_kw = (refl, refl)
binary_precedence-binop_of then_kw = (refl, refl)
binary_precedence-binop_of true_kw = (refl, refl)
binary_precedence-binop_of until_kw = (refl, refl)
binary_precedence-binop_of while_kw = (refl, refl)
binary_precedence-binop_of goto_kw = (refl, refl)
binary_precedence-binop_of global_kw = (refl, refl)
binary_precedence-binop_of plus = (refl, refl)
binary_precedence-binop_of minus = (refl, refl)
binary_precedence-binop_of star = (refl, refl)
binary_precedence-binop_of slash = (refl, refl)
binary_precedence-binop_of floor_div = (refl, refl)
binary_precedence-binop_of percent = (refl, refl)
binary_precedence-binop_of caret = (refl, refl)
binary_precedence-binop_of hash = (refl, refl)
binary_precedence-binop_of ampersand = (refl, refl)
binary_precedence-binop_of tilde = (refl, refl)
binary_precedence-binop_of pipe = (refl, refl)
binary_precedence-binop_of shift_left = (refl, refl)
binary_precedence-binop_of shift_right = (refl, refl)
binary_precedence-binop_of dot = (refl, refl)
binary_precedence-binop_of dot_dot = (refl, refl)
binary_precedence-binop_of dot_dot_dot = (refl, refl)
binary_precedence-binop_of semicolon = (refl, refl)
binary_precedence-binop_of colon = (refl, refl)
binary_precedence-binop_of double_colon = (refl, refl)
binary_precedence-binop_of comma = (refl, refl)
binary_precedence-binop_of equal = (refl, refl)
binary_precedence-binop_of equal_equal = (refl, refl)
binary_precedence-binop_of tilde_equal = (refl, refl)
binary_precedence-binop_of less = (refl, refl)
binary_precedence-binop_of less_equal = (refl, refl)
binary_precedence-binop_of greater = (refl, refl)
binary_precedence-binop_of greater_equal = (refl, refl)
binary_precedence-binop_of left_paren = (refl, refl)
binary_precedence-binop_of right_paren = (refl, refl)
binary_precedence-binop_of left_brace = (refl, refl)
binary_precedence-binop_of right_brace = (refl, refl)
binary_precedence-binop_of left_bracket = (refl, refl)
binary_precedence-binop_of right_bracket = (refl, refl)
binary_precedence-binop_of plus_equal = (refl, refl)
binary_precedence-binop_of minus_equal = (refl, refl)
binary_precedence-binop_of star_equal = (refl, refl)
binary_precedence-binop_of slash_equal = (refl, refl)
binary_precedence-binop_of floor_div_equal = (refl, refl)
binary_precedence-binop_of percent_equal = (refl, refl)
binary_precedence-binop_of caret_equal = (refl, refl)
binary_precedence-binop_of dot_dot_equal = (refl, refl)
binary_precedence-binop_of (interp_begin s) = (refl, refl)
binary_precedence-binop_of (interp_mid s) = (refl, refl)
binary_precedence-binop_of (interp_end s) = (refl, refl)
binary_precedence-binop_of at = (refl, refl)
binary_precedence-binop_of arrow = (refl, refl)
binary_precedence-binop_of question = (refl, refl)
binary_precedence-binop_of eof = (refl, refl)

-- The parser reads the spelling of an operator as that operator.
pub binop_of-binop_token : (op : BinOp) → binop_of (binop_token op) ≡ some op
unfolding binop_of binop_token
binop_of-binop_token add = refl
binop_of-binop_token sub = refl
binop_of-binop_token mul = refl
binop_of-binop_token div = refl
binop_of-binop_token floor_div_op = refl
binop_of-binop_token mod_op = refl
binop_of-binop_token pow = refl
binop_of-binop_token concat = refl
binop_of-binop_token eq = refl
binop_of-binop_token ne = refl
binop_of-binop_token lt = refl
binop_of-binop_token le = refl
binop_of-binop_token gt = refl
binop_of-binop_token ge = refl
binop_of-binop_token and_op = refl
binop_of-binop_token or_op = refl
binop_of-binop_token bit_and = refl
binop_of-binop_token bit_or = refl
binop_of-binop_token bit_xor = refl
binop_of-binop_token shl = refl
binop_of-binop_token shr = refl

pub unop_of-unop_token : (op : UnOp) → unop_of (unop_token op) ≡ some op
unfolding unop_of unop_token
unop_of-unop_token not_op = refl
unop_of-unop_token neg = refl
unop_of-unop_token len = refl
unop_of-unop_token bit_not = refl

pub is_unary_op-unop_token : (op : UnOp) → is_unary_op (unop_token op) ≡ true
unfolding is_unary_op unop_token
is_unary_op-unop_token not_op = refl
is_unary_op-unop_token neg = refl
is_unary_op-unop_token len = refl
is_unary_op-unop_token bit_not = refl
