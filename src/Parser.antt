-- ===== src/Parser.antt =====
-- crates/luck_parser/src/parser.rs: the state of the parser and what its parts do with it. A token
-- carries no span here, and an error is kept as what it reports.
pub mod Expression
pub mod Fits
pub mod Moves
pub mod Opens
pub mod Ends
pub mod Steps
pub mod Reading
pub mod Chains
pub mod Parts
pub mod Tables
pub mod Back
pub mod RoundTrip
pub mod Returns
pub mod Shrinks
pub mod Termination
use luck.Prelude.{
  ℕ, suc, ◌-◌, Bool, true, false, ◌&&◌, List, [], ◌∷◌, ◌++◌, Option, none, some, leb, ◌==◌,
  if◌then◌else◌, Bytes,
}
use luck.Version.{LuaVersion}
use luck.Token.{TokenKind, Token, identifier, eof, discriminant}

unfoldable pub max_nesting_depth : ℕ
max_nesting_depth = 256

pub data ParseError : Type 0 where
  expected : TokenKind → TokenKind → ParseError
  expected_identifier : TokenKind → ParseError
  nesting_too_deep vararg_outside_function ambiguous_call : ParseError
  expected_arguments unexpected_separator : ParseError
  unexpected_in_expression : TokenKind → ParseError

pub record Parser : Type 0 where
  pub tokens : List Token
  pub version : LuaVersion
  pub depth : ℕ
  pub is_vararg_scope : Bool
  pub errors : List ParseError

-- The kind of the first token, `eof` behind the last.
unfoldable pub kind_at : List Token → TokenKind
kind_at [] = eof
kind_at (t ∷ ts) = t.kind

unfoldable pub rest_of : List Token → List Token
rest_of [] = []
rest_of (t ∷ ts) = ts

unfoldable pub newline_at : List Token → Bool
newline_at [] = false
newline_at (t ∷ ts) = t.newline_before

unfoldable pub peek : Parser → TokenKind
peek p = kind_at p.tokens

unfoldable pub peek_next : Parser → TokenKind
peek_next p = kind_at (rest_of p.tokens)

unfoldable pub newline_before_current : Parser → Bool
newline_before_current p = newline_at p.tokens

unfoldable pub advance : Parser → Parser
advance p = record p { tokens = rest_of p.tokens }

unfoldable pub push_error : ParseError → Parser → Parser
push_error e p = record p { errors = p.errors ++ e ∷ [] }

-- `matches!` on a kind without a payload.
unfoldable pub is_kind : TokenKind → TokenKind → Bool
is_kind k found = discriminant found == discriminant k

unfoldable pub check : TokenKind → Parser → Bool
check k p = is_kind k (peek p)

unfoldable pub expect : TokenKind → Parser → Parser
expect k p = if check k p then advance p else push_error (expected k (peek p)) p

-- The name, and the empty name of the placeholder where there is none.
unfoldable pub expect_identifier_recover : Parser → Bytes × Parser
expect_identifier_recover p = recover (peek p)
  where
    recover : TokenKind → Bytes × Parser
    recover (identifier s) = (s, advance p)
    recover found = ([], push_error (expected_identifier found) p)

-- `none` where the limit is reached: the caller pushes the error.
unfoldable pub enter_depth : Parser → Option Parser
enter_depth p =
    if leb max_nesting_depth p.depth then none else some (record p { depth = suc p.depth })

unfoldable pub exit_depth : Parser → Parser
exit_depth p = record p { depth = p.depth - 1 }
