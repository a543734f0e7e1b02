-- ===== src/Token/Operators.antt =====
-- crates/luck_token/src/token.rs: the operators, their precedence and the tokens that they are
-- written with.
pub mod Tables
use luck.Prelude.{ℕ, suc, Bool, true, false, Option, none, some, ◌≡◌}
use luck.Token.{
  TokenKind, identifier, number, string_literal, and_kw, break_kw, do_kw, else_kw, elseif_kw,
  end_kw, false_kw, for_kw, function_kw, if_kw, in_kw, local_kw, nil_kw, not_kw, or_kw, repeat_kw,
  return_kw, then_kw, true_kw, until_kw, while_kw, goto_kw, global_kw, plus, minus, star, slash,
  floor_div, percent, caret, hash, ampersand, tilde, pipe, shift_left, shift_right, dot, dot_dot,
  dot_dot_dot, semicolon, colon, double_colon, comma, equal, equal_equal, tilde_equal, less,
  less_equal, greater, greater_equal, left_paren, right_paren, left_brace, right_brace,
  left_bracket, right_bracket, plus_equal, minus_equal, star_equal, slash_equal, floor_div_equal,
  percent_equal, caret_equal, dot_dot_equal, interp_begin, interp_mid, interp_end, at, arrow,
  question, eof, Token, discriminant, is_stat_start, is_unary_op,
}

pub data Assoc : Type 0 where
  left_assoc right_assoc : Assoc

unfoldable pub unary_precedence : ℕ
unary_precedence = 11

unfoldable pub binary_precedence : TokenKind → Option (ℕ × Assoc)
binary_precedence or_kw = some (1, left_assoc)
binary_precedence and_kw = some (2, left_assoc)
binary_precedence equal_equal = some (3, left_assoc)
binary_precedence tilde_equal = some (3, left_assoc)
binary_precedence less = some (3, left_assoc)
binary_precedence less_equal = some (3, left_assoc)
binary_precedence greater = some (3, left_assoc)
binary_precedence greater_equal = some (3, left_assoc)
binary_precedence pipe = some (4, left_assoc)
binary_precedence tilde = some (5, left_assoc)
binary_precedence ampersand = some (6, left_assoc)
binary_precedence shift_left = some (7, left_assoc)
binary_precedence shift_right = some (7, left_assoc)
binary_precedence dot_dot = some (8, right_assoc)
binary_precedence plus = some (9, left_assoc)
binary_precedence minus = some (9, left_assoc)
binary_precedence star = some (10, left_assoc)
binary_precedence slash = some (10, left_assoc)
binary_precedence floor_div = some (10, left_assoc)
binary_precedence percent = some (10, left_assoc)
binary_precedence caret = some (12, right_assoc)
binary_precedence _ = none

pub data BinOp : Type 0 where
  add sub mul div floor_div_op mod_op pow concat eq ne lt le gt ge and_op or_op bit_and bit_or
        bit_xor shl shr :
      BinOp

unfoldable pub is_bitwise : BinOp → Bool
is_bitwise bit_and = true
is_bitwise bit_or = true
is_bitwise bit_xor = true
is_bitwise shl = true
is_bitwise shr = true
is_bitwise _ = false

unfoldable pub binop_of : TokenKind → Option BinOp
binop_of plus = some add
binop_of minus = some sub
binop_of star = some mul
binop_of slash = some div
binop_of floor_div = some floor_div_op
binop_of percent = some mod_op
binop_of caret = some pow
binop_of dot_dot = some concat
binop_of equal_equal = some eq
binop_of tilde_equal = some ne
binop_of less = some lt
binop_of less_equal = some le
binop_of greater = some gt
binop_of greater_equal = some ge
binop_of and_kw = some and_op
binop_of or_kw = some or_op
binop_of ampersand = some bit_and
binop_of pipe = some bit_or
binop_of tilde = some bit_xor
binop_of shift_left = some shl
binop_of shift_right = some shr
binop_of _ = none

-- The token that the spelling of the operator is.
unfoldable pub binop_token : BinOp → TokenKind
binop_token add = plus
binop_token sub = minus
binop_token mul = star
binop_token div = slash
binop_token floor_div_op = floor_div
binop_token mod_op = percent
binop_token pow = caret
binop_token concat = dot_dot
binop_token eq = equal_equal
binop_token ne = tilde_equal
binop_token lt = less
binop_token le = less_equal
binop_token gt = greater
binop_token ge = greater_equal
binop_token and_op = and_kw
binop_token or_op = or_kw
binop_token bit_and = ampersand
binop_token bit_or = pipe
binop_token bit_xor = tilde
binop_token shl = shift_left
binop_token shr = shift_right

unfoldable pub precedence : BinOp → ℕ × Assoc
precedence or_op = (1, left_assoc)
precedence and_op = (2, left_assoc)
precedence eq = (3, left_assoc)
precedence ne = (3, left_assoc)
precedence lt = (3, left_assoc)
precedence le = (3, left_assoc)
precedence gt = (3, left_assoc)
precedence ge = (3, left_assoc)
precedence bit_or = (4, left_assoc)
precedence bit_xor = (5, left_assoc)
precedence bit_and = (6, left_assoc)
precedence shl = (7, left_assoc)
precedence shr = (7, left_assoc)
precedence concat = (8, right_assoc)
precedence add = (9, left_assoc)
precedence sub = (9, left_assoc)
precedence mul = (10, left_assoc)
precedence div = (10, left_assoc)
precedence floor_div_op = (10, left_assoc)
precedence mod_op = (10, left_assoc)
precedence pow = (12, right_assoc)

unfoldable pub is_comparison : BinOp → Bool
is_comparison eq = true
is_comparison ne = true
is_comparison lt = true
is_comparison le = true
is_comparison gt = true
is_comparison ge = true
is_comparison _ = false

pub data UnOp : Type 0 where
  not_op neg len bit_not : UnOp

unfoldable pub unop_of : TokenKind → Option UnOp
unop_of not_kw = some not_op
unop_of minus = some neg
unop_of hash = some len
unop_of tilde = some bit_not
unop_of _ = none

-- The token that the spelling of the operator is.
unfoldable pub unop_token : UnOp → TokenKind
unop_token not_op = not_kw
unop_token neg = minus
unop_token len = hash
unop_token bit_not = tilde

pub data CompoundOp : Type 0 where
  add_assign sub_assign mul_assign div_assign floor_div_assign mod_assign pow_assign concat_assign :
      CompoundOp

unfoldable pub compound_of : TokenKind → Option CompoundOp
compound_of plus_equal = some add_assign
compound_of minus_equal = some sub_assign
compound_of star_equal = some mul_assign
compound_of slash_equal = some div_assign
compound_of floor_div_equal = some floor_div_assign
compound_of percent_equal = some mod_assign
compound_of caret_equal = some pow_assign
compound_of dot_dot_equal = some concat_assign
compound_of _ = none

-- The token that the spelling of the operator is.
unfoldable pub compound_token : CompoundOp → TokenKind
compound_token add_assign = plus_equal
compound_token sub_assign = minus_equal
compound_token mul_assign = star_equal
compound_token div_assign = slash_equal
compound_token floor_div_assign = floor_div_equal
compound_token mod_assign = percent_equal
compound_token pow_assign = caret_equal
compound_token concat_assign = dot_dot_equal

-- The operation of a compound assignment.
unfoldable pub binop : CompoundOp → BinOp
binop add_assign = add
binop sub_assign = sub
binop mul_assign = mul
binop div_assign = div
binop floor_div_assign = floor_div_op
binop mod_assign = mod_op
binop pow_assign = pow
binop concat_assign = concat
