-- ===== src/Parser/Ends.antt =====
-- How the loops of the parser end behind an expression.
use luck.Prelude.{ℕ, Bool, true, false, ◌&&◌, List, ◌∷◌, none, ◌≡◌, refl, arith}
use luck.Version.{LuaVersion, has_explicit_type_instantiation, is_luau}
use luck.Token.{
  TokenKind, else_kw, elseif_kw, then_kw, double_colon, comma, equal, right_paren, right_brace,
  right_bracket, Token, discriminant,
}
use luck.Token.Operators.{unary_precedence, BinOp, add, binop_of, binop_token, UnOp}
use luck.Syntax.{Expression, binary_op, unary_op, if_expression, Clauses}
use luck.Parser.{ParseError, kind_at, rest_of, is_kind}
use luck.Parser.Expression.{next_op, suffix_of}
use luck.Parser.Fits.{behind, stops, Follow, Ending, no_operator, operator}
use luck.Parser.Moves.{state, next_op-none, next_op-left}
use luck.Parser.Opens.{Seen}
use luck.Codegen.{plain}

-- The kinds that follow an expression inside another one.
pub data Closer : TokenKind → Type 0 where
  close_paren : Closer right_paren
  close_bracket : Closer right_bracket
  close_brace : Closer right_brace
  close_comma : Closer comma
  close_then : Closer then_kw
  close_else : Closer else_kw
  close_elseif : Closer elseif_kw

pub Closer-kind : (k : TokenKind) → Closer k → is_kind k k ≡ true
unfolding is_kind discriminant
Closer-kind _ close_paren = refl
Closer-kind _ close_bracket = refl
Closer-kind _ close_brace = refl
Closer-kind _ close_comma = refl
Closer-kind _ close_then = refl
Closer-kind _ close_else = refl
Closer-kind _ close_elseif = refl

pub Closer-none : (k : TokenKind) → Closer k → binop_of k ≡ none
unfolding binop_of
Closer-none _ close_paren = refl
Closer-none _ close_bracket = refl
Closer-none _ close_brace = refl
Closer-none _ close_comma = refl
Closer-none _ close_then = refl
Closer-none _ close_else = refl
Closer-none _ close_elseif = refl

pub Closer-equal : (k : TokenKind) → Closer k → is_kind equal k ≡ false
unfolding is_kind discriminant
Closer-equal _ close_paren = refl
Closer-equal _ close_bracket = refl
Closer-equal _ close_brace = refl
Closer-equal _ close_comma = refl
Closer-equal _ close_then = refl
Closer-equal _ close_else = refl
Closer-equal _ close_elseif = refl

Closer-suffix : (b : Bool) (k : TokenKind) → Closer k → suffix_of b k ≡ none
unfolding suffix_of
Closer-suffix true _ close_paren = refl
Closer-suffix true _ close_bracket = refl
Closer-suffix true _ close_brace = refl
Closer-suffix true _ close_comma = refl
Closer-suffix true _ close_then = refl
Closer-suffix true _ close_else = refl
Closer-suffix true _ close_elseif = refl
Closer-suffix false _ close_paren = refl
Closer-suffix false _ close_bracket = refl
Closer-suffix false _ close_brace = refl
Closer-suffix false _ close_comma = refl
Closer-suffix false _ close_then = refl
Closer-suffix false _ close_else = refl
Closer-suffix false _ close_elseif = refl

Closer-cast : (k : TokenKind) → Closer k → is_kind double_colon k ≡ false
unfolding is_kind discriminant
Closer-cast _ close_paren = refl
Closer-cast _ close_bracket = refl
Closer-cast _ close_brace = refl
Closer-cast _ close_comma = refl
Closer-cast _ close_then = refl
Closer-cast _ close_else = refl
Closer-cast _ close_elseif = refl

pub Closer-Follow :
    (v : LuaVersion) (k : TokenKind) (ts : List Token) → Closer k → Follow v (plain k ∷ ts)
unfolding kind_at
Closer-Follow v k ts c = record {
  no_suffix = Closer-suffix _ k c;
  no_cast = rw (Closer-cast k c) (ground arith);
  no_equal = Closer-equal k c;
}

binop-suffix : (op : BinOp) → suffix_of false (binop_token op) ≡ none
unfolding suffix_of binop_token
binop-suffix add = refl
binop-suffix _ = refl

binop-cast : (op : BinOp) → is_kind double_colon (binop_token op) ≡ false
unfolding is_kind discriminant binop_token
binop-cast add = refl
binop-cast _ = refl

pub binop-equal : (op : BinOp) → is_kind equal (binop_token op) ≡ false
unfolding is_kind discriminant binop_token
binop-equal add = refl
binop-equal _ = refl

-- An operator is no suffix, since no operand starts with the `<` of a type instantiation.
pub binop-Follow :
    (v : LuaVersion) (op : BinOp) (ts : List Token)
    → Seen ts
    → Follow v (plain (binop_token op) ∷ ts)
unfolding kind_at rest_of
binop-Follow v op ts s = record {
  no_suffix = rw (s.no_less, no_flag (has_explicit_type_instantiation v)) (binop-suffix op);
  no_cast = rw (binop-cast op) (no_flag (is_luau v));
  no_equal = binop-equal op;
}
  where
    no_flag : (b : Bool) → b && false ≡ false
    no_flag b = ground arith

-- Tokens that start with such a kind.
pub data AtCloser : List Token → Type 0 where
  at_closer : (k : TokenKind) (ts : List Token) → Closer k → AtCloser (plain k ∷ ts)

module _ {F : Type 0} (v : LuaVersion) (va : Bool) (errs : List ParseError) where
  -- The operand behind an operator ends where the operation does.
  pub right_ends :
      (l r : Expression F) (op : BinOp) (d : ℕ) (rest : List Token)
      → Ending (binary_op l op r) rest
      → (next_op (behind op) (state v va errs d rest) ≡ none) × Ending r rest
  unfolding stops
  right_ends l r op d rest (no_operator h) =
      (next_op-none v va errs (behind op) d rest h, no_operator h)
  right_ends l r op d rest (operator o k h) =
      (next_op-left v va errs (behind op) d o rest k (ground arith), operator o k (ground arith))

  pub operand_ends :
      (e : Expression F) (op : UnOp) (d : ℕ) (rest : List Token)
      → Ending (unary_op op e) rest
      → (next_op unary_precedence (state v va errs d rest) ≡ none) × Ending e rest
  unfolding stops
  operand_ends e op d rest (no_operator h) =
      (next_op-none v va errs unary_precedence d rest h, no_operator h)
  operand_ends e op d rest (operator o k h) = (
    next_op-left v va errs unary_precedence d o rest k (ground arith),
    operator o k (ground arith),
  )

  -- Nothing but the end of the operators ends an if-expression.
  pub else_ends :
      (c t e : Expression F) (cs : Clauses F) (d : ℕ) (rest : List Token)
      → Ending (if_expression c t cs e) rest
      → (next_op 0 (state v va errs d rest) ≡ none) × Ending e rest
  unfolding stops
  else_ends c t e cs d rest (no_operator h) = (next_op-none v va errs 0 d rest h, no_operator h)
  else_ends c t e cs d rest (operator o k h) = absurd (cc h)
