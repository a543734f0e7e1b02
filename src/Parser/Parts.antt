-- ===== src/Parser/Parts.antt =====
-- How arguments, lists, tables and if-expressions are read.
use luck.Prelude.{
  ℕ, suc, Bool, true, false, List, ◌∷◌, some, Bytes, ◌≡◌, refl, ◌∙◌, ap, ◌<◌, From, From-both,
  From-one, From-suc, From-both3, From-both4,
}
use luck.Version.{LuaVersion, is_luau}
use luck.Token.{
  TokenKind, string_literal, else_kw, elseif_kw, if_kw, then_kw, comma, left_paren, right_paren,
  left_brace, Token, discriminant, is_unary_op,
}
use luck.Syntax.{
  Expression, table_constructor, if_expression, parenthesized_args, table_args, string_args,
  TableConstructor, Field, Fields, Expressions, no_expressions, add_expression, Clauses, no_clauses,
  add_clause,
}
use luck.Parser.{max_nesting_depth, ParseError, kind_at, rest_of, peek, advance, is_kind, check}
use luck.Parser.Expression.{
  Pieces, parse_expression, parse_primary_expression, parse_elseif_clauses, parse_table_constructor,
  parse_fields, parse_field,
}
use luck.Parser.Fits.{Follow}
use luck.Parser.Moves.{state, enter_depth-state, exit_depth-state, expect-state}
use luck.Parser.Opens.{Seen}
use luck.Parser.Ends.{close_paren, close_comma, close_then, close_else, close_elseif, Closer-kind}
use luck.Parser.Steps.{
  primary_table, primary_if, args_empty, args_list, args_table, list_last, list_more, if_step,
  clauses_end, clauses_more,
}
use luck.Parser.Reading.{Reads, Climbs, primary-Climbs}
use luck.Codegen.{plain}
use luck.Parser.Chains.{ReadsArgs, ReadsList}

module _ {F : Type 0} (g : Pieces F) (v : LuaVersion) (va : Bool) (errs : List ParseError) where
  abbrev pub ReadsTable : ℕ → List Token → TableConstructor F → List Token → Type 0
  ReadsTable d ts t rest =
      From
        λ m. parse_table_constructor g m (state v va errs d ts) ≡ some (t, state v va errs d rest)

  -- With the flag that the loop starts with, and the one that it ends with.
  abbrev pub ReadsFields : ℕ → Bool → List Token → Fields F → Bool → List Token → Type 0
  ReadsFields d before ts fs after rest =
      From λ m.
        parse_fields g m before (state v va errs d ts) ≡ some (fs, after, state v va errs d rest)

  abbrev pub ReadsField : ℕ → List Token → Field F → List Token → Type 0
  ReadsField d ts f rest =
      From λ m. parse_field g m (state v va errs d ts) ≡ some (f, state v va errs d rest)

  abbrev pub ReadsClauses : ℕ → List Token → Clauses F → List Token → Type 0
  ReadsClauses d ts cs rest =
      From λ m. parse_elseif_clauses g m (state v va errs d ts) ≡ some (cs, state v va errs d rest)

  pub leaf-Climbs :
      (d min : ℕ) (k : TokenKind) (e : Expression F) (rest : List Token)
      → is_unary_op k ≡ false
      → ((m : ℕ)
          → parse_primary_expression g (suc m) k (state v va errs d (plain k ∷ rest))
            ≡ some (e, state v va errs d rest))
      → Follow v rest
      → Climbs g v va errs d min (plain k ∷ rest) e rest
  unfolding kind_at
  leaf-Climbs d min k e rest h p f =
      primary-Climbs g v va errs d min (plain k ∷ rest) e rest h f (From-one p)

  pub table-Climbs :
      (d min : ℕ) (us : List Token) (t : TableConstructor F) (rest : List Token)
      → ReadsTable d (plain left_brace ∷ us) t rest
      → Follow v rest
      → Climbs g v va errs d min (plain left_brace ∷ us) (table_constructor t) rest
  unfolding kind_at is_unary_op
  table-Climbs d min us t rest p f =
      primary-Climbs g v va errs d min (plain left_brace ∷ us) (table_constructor t) rest refl f (
        From-suc
          (λ m q.
            primary_table g m (state v va errs d (plain left_brace ∷ us)) (state v va errs d rest) t
              q)
          p)

  pub if-Climbs :
      (d min : ℕ) (ts us ws xs : List Token) (c t e : Expression F) (cs : Clauses F)
      (rest : List Token)
      → is_luau v ≡ true
      → d < max_nesting_depth
      → Reads g v va errs (suc d) 0 ts c (plain then_kw ∷ us)
      → Reads g v va errs (suc d) 0 us t ws
      → ReadsClauses (suc d) ws cs (plain else_kw ∷ xs)
      → Reads g v va errs (suc d) 0 xs e rest
      → Follow v rest
      → Climbs g v va errs d min (plain if_kw ∷ ts) (if_expression c t cs e) rest
  unfolding kind_at is_unary_op advance rest_of
  if-Climbs d min ts us ws xs c t e cs rest l h a b x y f =
      primary-Climbs g v va errs d min (plain if_kw ∷ ts) (if_expression c t cs e) rest refl f (
        From-suc (λ m q. primary_if g m (state v va errs d (plain if_kw ∷ ts)) l ∙ q)
          (From-suc
            (λ m (a, b, x, y).
              if_step g m (state v va errs d (plain if_kw ∷ ts)) (state v va errs (suc d) ts)
                (state v va errs (suc d) (plain then_kw ∷ us)) (state v va errs (suc d) ws)
                (state v va errs (suc d) (plain else_kw ∷ xs)) (state v va errs (suc d) rest) c t e
                cs (enter_depth-state v va errs d ts h) a
                (ap (parse_expression g m 0)
                    (expect-state v va errs then_kw (suc d) us (Closer-kind then_kw close_then))
                  ∙ b)
                x
                (ap (parse_expression g m 0)
                    (expect-state v va errs else_kw (suc d) xs (Closer-kind else_kw close_else))
                  ∙ y)
              ∙ ap (λ p. some (if_expression c t cs e, p)) (exit_depth-state v va errs d rest))
            (From-both4 a b x y)))

  pub clauses_end-Reads :
      (d : ℕ) (rest : List Token)
      → ReadsClauses d (plain else_kw ∷ rest) no_clauses (plain else_kw ∷ rest)
  unfolding check peek kind_at is_kind discriminant
  clauses_end-Reads d rest =
      From-one λ m. clauses_end g m (state v va errs d (plain else_kw ∷ rest)) refl

  pub clauses_more-Reads :
      (d : ℕ) (ts us ws : List Token) (c e : Expression F) (cs : Clauses F) (rest : List Token)
      → Reads g v va errs d 0 ts c (plain then_kw ∷ us)
      → Reads g v va errs d 0 us e ws
      → ReadsClauses d ws cs rest
      → ReadsClauses d (plain elseif_kw ∷ ts) (add_clause c e cs) rest
  unfolding check peek kind_at advance rest_of
  clauses_more-Reads d ts us ws c e cs rest a b x =
      From-suc
        (λ m (a, b, x).
          clauses_more g m (state v va errs d (plain elseif_kw ∷ ts))
            (state v va errs d (plain then_kw ∷ us)) (state v va errs d ws) (state v va errs d rest)
            c e cs (Closer-kind elseif_kw close_elseif) a
            (ap (parse_expression g m 0)
                (expect-state v va errs then_kw d us (Closer-kind then_kw close_then))
              ∙ b)
            x)
        (From-both3 a b x)

  pub list_last-Reads :
      (d : ℕ) (ts : List Token) (e : Expression F) (rest : List Token)
      → Reads g v va errs d 0 ts e (plain right_paren ∷ rest)
      → ReadsList g v va errs d ts (add_expression e no_expressions) (plain right_paren ∷ rest)
  unfolding check peek kind_at is_kind discriminant
  list_last-Reads d ts e rest p =
      From-suc
        (λ m q.
          list_last g m (state v va errs d ts) (state v va errs d (plain right_paren ∷ rest)) e q
            refl)
        p

  pub list_more-Reads :
      (d : ℕ) (ts us : List Token) (e : Expression F) (es : Expressions F) (rest : List Token)
      → Reads g v va errs d 0 ts e (plain comma ∷ us)
      → ReadsList g v va errs d us es rest
      → ReadsList g v va errs d ts (add_expression e es) rest
  unfolding check peek kind_at advance rest_of
  list_more-Reads d ts us e es rest p q =
      From-suc
        (λ m (p, q).
          list_more g m (state v va errs d ts) (state v va errs d (plain comma ∷ us))
            (state v va errs d rest) e es p (Closer-kind comma close_comma) q)
        (From-both p q)

  pub args_empty-Reads :
      (d : ℕ) (rest : List Token)
      → ReadsArgs g v va errs d
          (plain left_paren ∷ plain right_paren ∷ rest)
          (parenthesized_args no_expressions)
          rest
  unfolding check peek kind_at advance rest_of
  args_empty-Reads d rest = From-one λ m.
      args_empty g m (state v va errs d (plain left_paren ∷ plain right_paren ∷ rest))
        (Closer-kind right_paren close_paren)
      ∙ ap (λ p. some (parenthesized_args no_expressions, p))
          (expect-state v va errs right_paren d rest (Closer-kind right_paren close_paren))

  pub args_list-Reads :
      (d : ℕ) (ts : List Token) (es : Expressions F) (rest : List Token)
      → Seen ts
      → ReadsList g v va errs d ts es (plain right_paren ∷ rest)
      → ReadsArgs g v va errs d (plain left_paren ∷ ts) (parenthesized_args es) rest
  unfolding check peek kind_at advance rest_of
  args_list-Reads d ts es rest s p =
      From-suc
        (λ m q.
          args_list g m (state v va errs d (plain left_paren ∷ ts))
            (state v va errs d (plain right_paren ∷ rest)) es s.no_right_paren q
          ∙ ap (λ p. some (parenthesized_args es, p))
              (expect-state v va errs right_paren d rest (Closer-kind right_paren close_paren)))
        p

  pub args_table-Reads :
      (d : ℕ) (us : List Token) (t : TableConstructor F) (rest : List Token)
      → ReadsTable d (plain left_brace ∷ us) t rest
      → ReadsArgs g v va errs d (plain left_brace ∷ us) (table_args t) rest
  unfolding kind_at
  args_table-Reads d us t rest p =
      From-suc
        (λ m q.
          args_table g m (state v va errs d (plain left_brace ∷ us)) (state v va errs d rest) t q)
        p

  pub args_string-Reads :
      (d : ℕ) (s : Bytes) (rest : List Token)
      → ReadsArgs g v va errs d (plain (string_literal s) ∷ rest) (string_args s) rest
  unfolding kind_at parse_expression advance rest_of
  args_string-Reads d s rest = From-one λ m. refl
