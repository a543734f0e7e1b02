-- ===== src/Parser/Back.antt =====
-- What the compact printer writes for a tree that fits, the parser reads back as that tree.
use luck.Prelude.{ℕ, suc, Bool, true, false, List, ◌∷◌, some, ◌≡◌, refl}
use luck.Version.{LuaVersion}
use luck.Token.{
  TokenKind, else_kw, semicolon, comma, equal, less, right_paren, right_brace, Token, discriminant,
  is_unary_op,
}
use luck.Syntax.{
  Expression, FunctionArgs, parenthesized_args, table_args, string_args, table, Field, bracketed,
  named, positional, Fields, no_fields, add_field, Expressions, no_expressions, add_expression,
  Clauses, no_clauses, add_clause,
}
use luck.Parser.{ParseError, kind_at, newline_at, is_kind}
use luck.Parser.Expression.{Pieces, call, suffix_of, parse_primary_expression}
use luck.Parser.Fits.{is_prefix, Fits, FitsField, Follow, Ending, no_operator}
use luck.Parser.Moves.{state, next_op-none}
use luck.Parser.Opens.{Seen, Opens-Seen, emit_expression-Opens}
use luck.Parser.Ends.{
  close_paren, close_brace, close_comma, close_else, close_elseif, Closer-none, Closer-equal,
  Closer-Follow, AtCloser, at_closer,
}
use luck.Parser.Reading.{Reads, Climbs, Chains, Climbs-Reads, Chains-Climbs}
use luck.Codegen.{
  plain, emit_expression, emit_function_args, emit_more_expressions, emit_clauses, emit_more_fields,
  emit_field,
}
use luck.Parser.Parts.{leaf-Climbs}
use luck.Parser.Tables.{FieldSeen, Seen-FieldSeen, bracket-FieldSeen, name-FieldSeen}

module _ {F : Type 0} (g : Pieces F) (v : LuaVersion) (va : Bool) (errs : List ParseError) where
  abbrev pub ClimbsBack : Expression F → Type 0
  ClimbsBack e =
      (d min : ℕ) (rest : List Token)
      → Fits v va d min e
      → Ending e rest
      → Follow v rest
      → Climbs g v va errs d min (emit_expression g e rest) e rest

  abbrev pub ChainsBack : Expression F → Type 0
  ChainsBack e =
      (d min : ℕ) (rest : List Token)
      → is_prefix e ≡ true
      → Fits v va d min e
      → Chains g v va errs d (emit_expression g e rest) e rest

  abbrev pub ReadsBack : Expression F → Type 0
  ReadsBack e = ClimbsBack e × ChainsBack e

  pub operand : (e : Expression F) → is_prefix e ≡ false → ClimbsBack e → ReadsBack e
  operand e h c = (c, λ d min rest p f. absurd (cc (h, p)))

  pub prefix : (e : Expression F) → is_prefix e ≡ true → ChainsBack e → ReadsBack e
  prefix e h c = (
    λ d min rest f end follow.
        Chains-Climbs g v va errs d min (emit_expression g e rest) e rest (c d min rest h f) follow,
    c,
  )

  pub leaf :
      (e : Expression F) (k : TokenKind)
      → is_prefix e ≡ false
      → is_unary_op k ≡ false
      → ((rest : List Token) → emit_expression g e rest ≡ plain k ∷ rest)
      → ((d min m : ℕ) (rest : List Token)
          → Fits v va d min e
          → parse_primary_expression g (suc m) k (state v va errs d (plain k ∷ rest))
            ≡ some (e, state v va errs d rest))
      → ReadsBack e
  leaf e k h u t p = operand e h λ d min rest f end follow.
      rw (t rest) (leaf-Climbs g v va errs d min k e rest u (λ m. p d min m rest f) follow)

  -- The tree is read up to a closing token.
  pub up_to :
      (e : Expression F) (d : ℕ) (rest : List Token)
      → ReadsBack e
      → AtCloser rest
      → Fits v va d 0 e
      → Reads g v va errs d 0 (emit_expression g e rest) e rest
  unfolding kind_at
  up_to e d _ (c, _) (at_closer k ts close) f =
      Climbs-Reads g v va errs d 0 (emit_expression g e (plain k ∷ ts)) e (plain k ∷ ts)
        (c d 0 (plain k ∷ ts) f (no_operator (Closer-none k close)) (Closer-Follow v k ts close))
        (next_op-none v va errs 0 d (plain k ∷ ts) (Closer-none k close))

  pub seen :
      (e : Expression F) (d min : ℕ) (rest : List Token)
      → Fits v va d min e
      → is_kind equal (kind_at rest) ≡ false
      → Seen (emit_expression g e rest)
  seen e d min rest f q = Opens-Seen _ (emit_expression-Opens v va g e d min rest f q)

  pub closer_ne_equal : (rest : List Token) → AtCloser rest → is_kind equal (kind_at rest) ≡ false
  unfolding kind_at
  closer_ne_equal _ (at_closer k ts c) = Closer-equal k c

  pub brace_ne_comma :
      (rest : List Token) → is_kind comma (kind_at (plain right_brace ∷ rest)) ≡ false
  unfolding kind_at is_kind discriminant
  brace_ne_comma rest = refl

  pub brace_ne_semicolon :
      (rest : List Token) → is_kind semicolon (kind_at (plain right_brace ∷ rest)) ≡ false
  unfolding kind_at is_kind discriminant
  brace_ne_semicolon rest = refl

  pub args_suffix :
      (a : FunctionArgs F) (rest : List Token) (b : Bool)
      → suffix_of b (kind_at (emit_function_args g a rest)) ≡ some call
  unfolding suffix_of kind_at emit_expression
  args_suffix (parenthesized_args es) rest true = refl
  args_suffix (parenthesized_args es) rest false = refl
  args_suffix (table_args (table fs t)) rest true = refl
  args_suffix (table_args (table fs t)) rest false = refl
  args_suffix (string_args s) rest true = refl
  args_suffix (string_args s) rest false = refl

  pub args_newline :
      (a : FunctionArgs F) (rest : List Token) → newline_at (emit_function_args g a rest) ≡ false
  unfolding newline_at emit_expression
  args_newline (parenthesized_args es) rest = refl
  args_newline (table_args (table fs t)) rest = refl
  args_newline (string_args s) rest = refl

  pub args_ne_less :
      (a : FunctionArgs F) (rest : List Token)
      → is_kind less (kind_at (emit_function_args g a rest)) ≡ false
  unfolding kind_at is_kind discriminant emit_expression
  args_ne_less (parenthesized_args es) rest = refl
  args_ne_less (table_args (table fs t)) rest = refl
  args_ne_less (string_args s) rest = refl

  pub more_expressions-AtCloser :
      (es : Expressions F) (rest : List Token)
      → AtCloser (emit_more_expressions g es (plain right_paren ∷ rest))
  unfolding emit_expression
  more_expressions-AtCloser no_expressions rest = at_closer _ _ close_paren
  more_expressions-AtCloser (add_expression e es) rest = at_closer _ _ close_comma

  pub more_fields-AtCloser :
      (fs : Fields F) (rest : List Token)
      → AtCloser (emit_more_fields g fs (plain right_brace ∷ rest))
  unfolding emit_expression
  more_fields-AtCloser no_fields rest = at_closer _ _ close_brace
  more_fields-AtCloser (add_field f fs) rest = at_closer _ _ close_comma

  pub clauses-AtCloser :
      (cs : Clauses F) (rest : List Token) → AtCloser (emit_clauses g cs (plain else_kw ∷ rest))
  unfolding emit_expression
  clauses-AtCloser no_clauses rest = at_closer _ _ close_else
  clauses-AtCloser (add_clause c e cs) rest = at_closer _ _ close_elseif

  pub field-FieldSeen :
      (f : Field F) (d : ℕ) (rest : List Token)
      → FitsField v va d f
      → AtCloser rest
      → FieldSeen (emit_field g f rest)
  unfolding emit_expression Fits
  field-FieldSeen (bracketed k e) d rest h c = bracket-FieldSeen _
  field-FieldSeen (named s e) d rest h c = name-FieldSeen s _
  field-FieldSeen (positional e) d rest h c =
      Seen-FieldSeen _ (seen e d 0 rest h (closer_ne_equal rest c))
