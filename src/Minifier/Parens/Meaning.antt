-- ===== src/Minifier/Parens/Meaning.antt =====
-- What the output of crates/luck_minifier/src/transforms/simplify_parens.rs means to a parser.
use luck.Prelude.{ℕ, Bool, List, Option, none, some, ◌≡◌, ap, ◌∙◌, false, From}
use luck.Version.{LuaVersion, is_luau}
use luck.Token.{Token}
use luck.Token.Operators.{binop_of}
use luck.Syntax.{Expression}
use luck.Parser.{Parser, ParseError, kind_at}
use luck.Parser.Expression.{Pieces, parse_expression}
use luck.Parser.Fits.{Fits, Follow}
use luck.Parser.Moves.{state}
use luck.Codegen.{emit_expression}
use luck.Minifier.Parens.{Walks, transform_expression}
use luck.Minifier.Parens.Bare.{no_walk, bare}
use luck.Minifier.Parens.Kept.{parse_expression-transform}
use luck.Minifier.Parens.Same.{bare-transform}

module _ {F : Type 0} where
  -- A tree read up to the parentheses that group.
  abbrev pub erased : Option (Expression F × Parser) → Option (Expression F × Parser)
  erased none = none
  erased (some (e, p)) = some (bare no_walk e, p)

module _ {F : Type 0} (w : Walks F) (v : LuaVersion) (va : Bool) where
  -- In a dialect without if-expressions, the printed output of the pass on a tree that fits means
  -- what its input did: with enough fuel the parser reads from it the tree that was put in, up to
  -- parentheses around anything but a call or `...` and those of an argument list that is one string
  -- or table, and with the parts that are not modelled walked, adds no error and leaves what follows,
  -- which is no operator, suffix, cast or `=`.
  pub parse_expression-bare :
      (g : Pieces F) (errs : List ParseError) (e : Expression F) (d min : ℕ) (rest : List Token)
      → is_luau v ≡ false
      → Fits v va d min e
      → binop_of (kind_at rest) ≡ none
      → Follow v rest
      → From λ n.
        erased (
          parse_expression g n min
            (state v va errs d (emit_expression g (transform_expression w e) rest)))
        ≡ some (bare w e, state v va errs d rest)
  parse_expression-bare g errs e d min rest n h b follow =
      let (bound, reads) = parse_expression-transform w v va g errs e d min rest n h b follow in
      (
        bound,
        λ k le.
            ap erased (reads k le)
            ∙ ap (λ t. some (t, state v va errs d rest)) (bare-transform w e),
      )
