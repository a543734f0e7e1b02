-- ===== src/Parser/Moves.antt =====
-- What the parts of the parser's state do at printed tokens.
use luck.Prelude.{
  ℕ, suc, Bool, true, false, List, ◌∷◌, none, some, ltb, leb, ◌≡◌, refl, ap, ◌≤◌, ◌<◌, arith,
}
use luck.Version.{LuaVersion}
use luck.Token.{TokenKind, Token}
use luck.Token.Operators.{precedence, add, BinOp, binop_of, binop_token}
use luck.Token.Operators.Tables.{binop_of-binop_token}
use luck.Parser.{
  max_nesting_depth, ParseError, Parser, kind_at, rest_of, peek, advance, is_kind, check, expect,
  enter_depth, exit_depth,
}
use luck.Parser.Expression.{right_min, next_op}
use luck.Parser.Fits.{behind, level, available}
use luck.Codegen.{plain}

-- The state in front of some tokens at a nesting depth.
abbrev pub state : LuaVersion → Bool → List ParseError → ℕ → List Token → Parser
state v is_vararg errors d ts = record {
  tokens = ts;
  version = v;
  depth = d;
  is_vararg_scope = is_vararg;
  errors = errors;
}

pub behind-right_min : (op : BinOp) → behind op ≡ right_min op
unfolding behind right_min level precedence
behind-right_min add = refl
behind-right_min _ = refl

module _ (v : LuaVersion) (va : Bool) (errs : List ParseError) where
  pub enter_depth-state :
      (d : ℕ) (ts : List Token)
      → d < max_nesting_depth
      → enter_depth (state v va errs d ts) ≡ some (state v va errs (suc d) ts)
  unfolding enter_depth
  enter_depth-state d ts h = rw (below (leb max_nesting_depth d) refl)
    where
      below : (b : Bool) → leb max_nesting_depth d ≡ b → leb max_nesting_depth d ≡ false
      below b e = ground arith

  pub exit_depth-state :
      (d : ℕ) (ts : List Token) → exit_depth (state v va errs (suc d) ts) ≡ state v va errs d ts
  unfolding exit_depth
  exit_depth-state d ts = ap (λ n. state v va errs n ts) (omega arith)

  pub expect-state :
      (k : TokenKind) (d : ℕ) (ts : List Token)
      → is_kind k k ≡ true
      → expect k (state v va errs d (plain k ∷ ts)) ≡ state v va errs d ts
  unfolding expect check peek kind_at advance rest_of
  expect-state k d ts h = rw h

  pub next_op-none :
      (min d : ℕ) (ts : List Token)
      → binop_of (kind_at ts) ≡ none
      → next_op min (state v va errs d ts) ≡ none
  unfolding next_op peek
  next_op-none min d ts h = rw h

  -- An operator of the dialect is taken at its level and below.
  pub next_op-taken :
      (min d : ℕ) (op : BinOp) (ts : List Token)
      → min ≤ level op
      → available v op ≡ true
      → next_op min (state v va errs d (plain (binop_token op) ∷ ts)) ≡ some op
  unfolding next_op peek kind_at level available
  next_op-taken min d op ts h a = rw (binop_of-binop_token op) (ground (arith))

  -- And left where only higher levels are read.
  pub next_op-left :
      (min d : ℕ) (op : BinOp) (ts : List Token)
      → kind_at ts ≡ binop_token op
      → ltb (level op) min ≡ true
      → next_op min (state v va errs d ts) ≡ none
  unfolding next_op peek level
  next_op-left min d op ts e h = rw (e, binop_of-binop_token op) (ground arith)
