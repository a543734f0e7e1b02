-- ===== src/Parser/Reading.antt =====
-- How printed tokens are read, from how their parts are: operators and the front of a chain.
use luck.Prelude.{
  ℕ, suc, Bool, true, false, List, ◌∷◌, none, some, ◌≡◌, ◌∙◌, sym, ap, ◌≤◌, ◌<◌, From, From-map,
  From-both, From-one, From-suc, From-shift, more, more-suc, From-more,
}
use luck.Version.{LuaVersion}
use luck.Token.{Token, is_unary_op}
use luck.Token.Operators.{unary_precedence, BinOp, binop_token, UnOp, unop_token}
use luck.Token.Operators.Tables.{unop_of-unop_token, is_unary_op-unop_token}
use luck.Syntax.{Expression, binary_op, unary_op}
use luck.Parser.{max_nesting_depth, ParseError, kind_at, rest_of, peek, peek_next, advance, check}
use luck.Parser.Expression.{
  Pieces, next_op, next_suffix, is_cast, parse_expression, climb, parse_primary_expression,
  parse_suffixes,
}
use luck.Parser.Fits.{behind, level, available, Follow}
use luck.Parser.Moves.{behind-right_min, state, enter_depth-state, exit_depth-state, next_op-taken}
use luck.Parser.Steps.{
  prefix-expression, climb_ends, climb_grows, prefix_primary, prefix_unary, suffixes_end,
}
use luck.Codegen.{plain}

module _ {F : Type 0} (g : Pieces F) (v : LuaVersion) (va : Bool) (errs : List ParseError) where
  -- The tokens `ts` are read as the tree, and `rest` is left.
  abbrev pub Reads : ℕ → ℕ → List Token → Expression F → List Token → Type 0
  Reads d min ts e rest =
      From λ m. parse_expression g m min (state v va errs d ts) ≡ some (e, state v va errs d rest)

  -- The tokens `ts` are read as the left side of the operators to come.
  abbrev pub Climbs : ℕ → ℕ → List Token → Expression F → List Token → Type 0
  Climbs d min ts e rest =
      (k : ℕ) × From λ m.
        parse_expression g (suc (more k m)) min (state v va errs d ts)
        ≡ climb g m min e (state v va errs d rest)

  -- The tokens `ts` are read as the front of a chain of suffixes.
  abbrev pub Chains : ℕ → List Token → Expression F → List Token → Type 0
  Chains d ts e rest =
      (is_unary_op (kind_at ts) ≡ false)
      × (k : ℕ) × From λ m.
          parse_primary_expression g (suc (more k m)) (kind_at ts) (state v va errs d ts)
          ≡ parse_suffixes g m e (state v va errs d rest)

  pub Climbs-Reads :
      (d min : ℕ) (ts : List Token) (e : Expression F) (rest : List Token)
      → Climbs d min ts e rest
      → next_op min (state v va errs d rest) ≡ none
      → Reads d min ts e rest
  Climbs-Reads d min ts e rest (k, c) h = From-more (suc k) (
      From-map (λ m (p, q). p ∙ q)
        (From-both c (From-one λ m. climb_ends g m min (state v va errs d rest) e h)))

  pub primary-Climbs :
      (d min : ℕ) (ts : List Token) (e : Expression F) (rest : List Token)
      → is_unary_op (kind_at ts) ≡ false
      → Follow v rest
      → (From λ m.
          parse_primary_expression g m (kind_at ts) (state v va errs d ts)
          ≡ some (e, state v va errs d rest))
      → Climbs d min ts e rest
  unfolding peek is_cast check
  primary-Climbs d min ts e rest h f p = (
    0,
    From-suc
        (λ m q.
          prefix-expression g (suc m) min (state v va errs d ts) (state v va errs d rest) e
            (prefix_primary g m (state v va errs d ts) (state v va errs d rest) e h q f.no_cast))
        p,
  )

  pub Chains-Climbs :
      (d min : ℕ) (ts : List Token) (e : Expression F) (rest : List Token)
      → Chains d ts e rest
      → Follow v rest
      → Climbs d min ts e rest
  unfolding next_suffix peek peek_next
  Chains-Climbs d min ts e rest (h, k, c) f = primary-Climbs d min ts e rest h f (
      From-more (suc k) (
        From-map (λ m (p, q). p ∙ q)
          (From-both c (From-one λ m. suffixes_end g m (state v va errs d rest) e f.no_suffix))))

  pub unary-Climbs :
      (d min : ℕ) (op : UnOp) (ts : List Token) (e : Expression F) (rest : List Token)
      → d < max_nesting_depth
      → Reads (suc d) unary_precedence ts e rest
      → Climbs d min (plain (unop_token op) ∷ ts) (unary_op op e) rest
  unfolding peek kind_at advance rest_of
  unary-Climbs d min op ts e rest h p = (
    0,
    From-suc
        (λ m q.
          prefix-expression g (suc m) min (state v va errs d (plain (unop_token op) ∷ ts))
            (state v va errs d rest) (unary_op op e)
            (prefix_unary g m (state v va errs d (plain (unop_token op) ∷ ts))
                (state v va errs (suc d) ts) (state v va errs (suc d) rest) op e
                (is_unary_op-unop_token op) (unop_of-unop_token op)
                (enter_depth-state v va errs d ts h) q
              ∙ ap (λ p. some (unary_op op e, p)) (exit_depth-state v va errs d rest)))
        p,
  )

  climb-suc :
      (d min : ℕ) (op : BinOp) (us : List Token) (l r : Expression F) (rest : List Token)
      → min ≤ level op
      → available v op ≡ true
      → d < max_nesting_depth
      → Reads (suc d) (behind op) us r rest
      → From λ m.
        climb g (suc m) min l (state v va errs d (plain (binop_token op) ∷ us))
        ≡ climb g m min (binary_op l op r) (state v va errs d rest)
  unfolding advance rest_of
  climb-suc d min op us l r rest h a b p =
      From-map
        (λ m q.
          climb_grows g m min (state v va errs d (plain (binop_token op) ∷ us))
            (state v va errs (suc d) us) (state v va errs (suc d) rest) l r op
            (next_op-taken v va errs min d op us h a) (enter_depth-state v va errs d us b)
            (ap (λ k. parse_expression g m k (state v va errs (suc d) us))
                (sym (behind-right_min op))
              ∙ q)
          ∙ ap (climb g m min (binary_op l op r)) (exit_depth-state v va errs d rest))
        p

  pub binary-Climbs :
      (d min : ℕ) (op : BinOp) (ts us : List Token) (l r : Expression F) (rest : List Token)
      → min ≤ level op
      → available v op ≡ true
      → d < max_nesting_depth
      → Climbs d min ts l (plain (binop_token op) ∷ us)
      → Reads (suc d) (behind op) us r rest
      → Climbs d min ts (binary_op l op r) rest
  binary-Climbs d min op ts us l r rest h a b (k, c) p = (
    suc k,
    From-map
        (λ m (x, y).
          ap (λ n. parse_expression g (suc n) min (state v va errs d ts)) (sym (more-suc k m))
          ∙ x
          ∙ y)
        (From-both (From-shift c) (climb-suc d min op us l r rest h a b p)),
  )
