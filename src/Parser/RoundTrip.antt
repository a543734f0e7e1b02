-- ===== src/Parser/RoundTrip.antt =====
-- What the compact printer writes for a tree that fits, the parser reads back as that tree.
use luck.Prelude.{
  From-both, arith, ℕ, suc, Bool, true, false, List, ◌∷◌, none, some, ◌≡◌, refl, From,
}
use luck.Version.{LuaVersion}
use luck.Token.{
  identifier, number, string_literal, else_kw, false_kw, nil_kw, true_kw, dot, dot_dot_dot, colon,
  right_paren, right_brace, left_bracket, right_bracket, Token, is_unary_op,
}
use luck.Token.Operators.{unary_precedence, binop_of}
use luck.Syntax.{
  Expression, nil_lit, false_lit, true_lit, var_arg, error, number_lit, integer_lit, string_lit,
  function_def, interpolated_string, var, function_call, parenthesized, table_constructor,
  binary_op, unary_op, if_expression, type_cast, type_instantiation, Var, name, index, field_access,
  FunctionArgs, parenthesized_args, table_args, string_args, TableConstructor, table, Field,
  bracketed, named, positional, Fields, no_fields, add_field, Expressions, no_expressions,
  add_expression, Clauses, no_clauses, add_clause,
}
use luck.Parser.{ParseError, kind_at, rest_of, advance}
use luck.Parser.Expression.{Pieces, check_vararg, number_from, parse_expression}
use luck.Parser.Fits.{
  behind, is_prefix, Fits, FitsVar, FitsArgs, FitsExpressions, FitsClauses, FitsTable, FitsFields,
  FitsField, Follow, no_operator, operator,
}
use luck.Parser.Moves.{state, next_op-none}
use luck.Parser.Ends.{
  close_paren, close_bracket, close_brace, close_comma, close_then, binop-Follow, AtCloser,
  at_closer, right_ends, operand_ends, else_ends,
}
use luck.Parser.Reading.{Chains, Climbs-Reads, unary-Climbs, binary-Climbs}
use luck.Codegen.{
  plain, emit_method, emit_type_arguments, emit_expression, emit_var, emit_function_args,
  emit_more_expressions, emit_clauses, emit_table_constructor, emit_more_fields, emit_field,
}
use luck.Parser.Chains.{
  ReadsArgs, ReadsList, name-Chains, paren-Chains, field-Chains, index-Chains, call-Chains,
  method-Chains,
}
use luck.Parser.Parts.{
  ReadsTable, ReadsFields, ReadsField, ReadsClauses, table-Climbs, if-Climbs, clauses_end-Reads,
  clauses_more-Reads, list_last-Reads, list_more-Reads, args_empty-Reads, args_list-Reads,
  args_table-Reads, args_string-Reads,
}
use luck.Parser.Tables.{
  field_positional-Reads, field_named-Reads, field_bracketed-Reads, fields_end-Reads,
  fields_last-Reads, fields_more-Reads, table-Reads,
}
use luck.Parser.Back.{
  brace_ne_comma, brace_ne_semicolon, ReadsBack, operand, prefix, leaf, up_to, seen,
  closer_ne_equal, args_suffix, args_newline, args_ne_less, more_expressions-AtCloser,
  more_fields-AtCloser, clauses-AtCloser, field-FieldSeen,
}

module _ {F : Type 0} (g : Pieces F) (v : LuaVersion) (va : Bool) (errs : List ParseError) where
  mutual
    unfolding Fits emit_expression emit_method emit_type_arguments is_prefix is_unary_op
        parse_expression check_vararg number_from advance rest_of kind_at

    reads_back : (e : Expression F) → ReadsBack g v va errs e
    reads_back nil_lit =
        leaf g v va errs nil_lit nil_kw refl refl (λ rest. refl) λ d min m rest f. refl
    reads_back false_lit =
        leaf g v va errs false_lit false_kw refl refl (λ rest. refl) λ d min m rest f. refl
    reads_back true_lit =
        leaf g v va errs true_lit true_kw refl refl (λ rest. refl) λ d min m rest f. refl
    reads_back var_arg =
        leaf g v va errs var_arg dot_dot_dot refl refl (λ rest. refl) λ d min m rest f. rw f
    reads_back (number_lit s) =
        leaf g v va errs (number_lit s) (number s) refl refl (λ rest. refl) λ d min m rest f. rw f
    reads_back (integer_lit s) =
        leaf g v va errs (integer_lit s) (number s) refl refl (λ rest. refl) λ d min m rest f. rw f
    reads_back (string_lit s) =
        leaf g v va errs (string_lit s) (string_literal s) refl refl (λ rest. refl)
          λ d min m rest f. refl
    reads_back (function_def f) = operand g v va errs (function_def f) refl λ d min rest h. absurd h
    reads_back (interpolated_string f) =
        operand g v va errs (interpolated_string f) refl λ d min rest h. absurd h
    reads_back (type_cast e t) = operand g v va errs (type_cast e t) refl λ d min rest h. absurd h
    reads_back (type_instantiation e t) =
        operand g v va errs (type_instantiation e t) refl λ d min rest h. absurd h
    reads_back error = operand g v va errs error refl λ d min rest h. absurd h
    reads_back (var x) = prefix g v va errs (var x) refl λ d min rest p f. reads_var x d rest f
    reads_back (function_call e a none none) =
        prefix g v va errs (function_call e a none none) refl λ d min rest p (hp, he, ha, _).
          call-Chains g v va errs d (emit_expression g e (emit_function_args g a rest))
            (emit_function_args g a rest) e a rest (args_suffix g v va errs a rest)
            (args_newline g v va errs a rest) ((reads_back e).1 d 0 _ hp he)
            (reads_args a d rest ha)
    reads_back (function_call e a (some s) none) =
        prefix g v va errs (function_call e a (some s) none) refl λ d min rest p (hp, he, ha, _).
          method-Chains g v va errs d
            (emit_expression g e (plain colon ∷ plain (identifier s) ∷ emit_function_args g a rest))
            (emit_function_args g a rest) e s a rest (args_ne_less g v va errs a rest)
            ((reads_back e).1 d 0 _ hp he) (reads_args a d rest ha)
    reads_back (function_call e a m (some t)) =
        prefix g v va errs (function_call e a m (some t)) refl
          λ d min rest p (_, _, _, h). absurd (cc h)
    reads_back (parenthesized e) = prefix g v va errs (parenthesized e) refl λ d min rest p (h, f).
        paren-Chains g v va errs d _ e rest h
          (up_to g v va errs e (suc d) _ (reads_back e) (at_closer _ _ close_paren) f)
    reads_back (table_constructor (table fs t)) =
        operand g v va errs (table_constructor (table fs t)) refl λ d min rest f end follow.
          table-Climbs g v va errs d min _ (table fs t) rest (reads_table (table fs t) d rest f)
            follow
    reads_back (binary_op l op r) =
        operand g v va errs (binary_op l op r) refl
          λ d min rest (hl, hs, hm, ha, hd, hr) end follow.
            let ends = right_ends v va errs l r op (suc d) rest end in
            binary-Climbs g v va errs d min op _ (emit_expression g r rest) l r rest hm ha hd
              ((reads_back l).0 d min _ hl (operator op refl hs) (
                binop-Follow v op _
                  (seen g v va errs r (suc d) (behind op) rest hr follow.no_equal)))
              (Climbs-Reads g v va errs (suc d) (behind op) _ r rest
                ((reads_back r).0 (suc d) (behind op) rest hr ends.1 follow) ends.0)
    reads_back (unary_op op e) =
        operand g v va errs (unary_op op e) refl λ d min rest (hd, he) end follow.
          let ends = operand_ends v va errs e op (suc d) rest end in
          unary-Climbs g v va errs d min op _ e rest hd (
            Climbs-Reads g v va errs (suc d) unary_precedence _ e rest
              ((reads_back e).0 (suc d) unary_precedence rest he ends.1 follow) ends.0)
    reads_back (if_expression c t cs e) =
        operand g v va errs (if_expression c t cs e) refl
          λ d min rest (hl, hd, hc, ht, hcs, he) end follow.
            let ends = else_ends v va errs c t e cs (suc d) rest end in
            if-Climbs g v va errs d min _ _ _ _ c t e cs rest hl hd
              (up_to g v va errs c (suc d) _ (reads_back c) (at_closer _ _ close_then) hc)
              (up_to g v va errs t (suc d) _ (reads_back t) (clauses-AtCloser g v va errs cs _) ht)
              (reads_clauses cs (suc d) _ hcs)
              (Climbs-Reads g v va errs (suc d) 0 _ e rest
                ((reads_back e).0 (suc d) 0 rest he ends.1 follow) ends.0)
              follow

    reads_var :
        (x : Var F) (d : ℕ) (rest : List Token)
        → FitsVar v va d x
        → Chains g v va errs d (emit_var g x rest) (var x) rest
    reads_var (name s) d rest h = name-Chains g v va errs d s rest
    reads_var (index p i) d rest (hp, hf, hi) =
        index-Chains g v va errs d
          (emit_expression g p
            (plain left_bracket ∷ emit_expression g i (plain right_bracket ∷ rest)))
          (emit_expression g i (plain right_bracket ∷ rest)) p i rest ((reads_back p).1 d 0 _ hp hf)
          (up_to g v va errs i d _ (reads_back i) (at_closer _ _ close_bracket) hi)
    reads_var (field_access p s) d rest (hp, hf) =
        field-Chains g v va errs d (emit_expression g p (plain dot ∷ plain (identifier s) ∷ rest)) p
          s rest ((reads_back p).1 d 0 _ hp hf)

    reads_args :
        (a : FunctionArgs F) (d : ℕ) (rest : List Token)
        → FitsArgs v va d a
        → ReadsArgs g v va errs d (emit_function_args g a rest) a rest
    reads_args (parenthesized_args no_expressions) d rest h = args_empty-Reads g v va errs d rest
    reads_args (parenthesized_args (add_expression e es)) d rest (he, hes) =
        args_list-Reads g v va errs d _ (add_expression e es) rest
          (seen g v va errs e d 0 _ he
            (closer_ne_equal g v va errs _ (more_expressions-AtCloser g v va errs es rest)))
          (reads_more es e (reads_back e) d rest he hes)
    reads_args (table_args (table fs t)) d rest h =
        args_table-Reads g v va errs d _ (table fs t) rest (reads_table (table fs t) d rest h)
    reads_args (string_args s) d rest h = args_string-Reads g v va errs d s rest

    reads_more :
        (es : Expressions F) (e : Expression F)
        → ReadsBack g v va errs e
        → (d : ℕ) (rest : List Token) → Fits v va d 0 e
        → FitsExpressions v va d es
        → ReadsList g v va errs d
            (emit_expression g e (emit_more_expressions g es (plain right_paren ∷ rest)))
            (add_expression e es)
            (plain right_paren ∷ rest)
    reads_more no_expressions e b d rest h hs =
        list_last-Reads g v va errs d _ e rest
          (up_to g v va errs e d _ b (at_closer _ _ close_paren) h)
    reads_more (add_expression f es) e b d rest h (hf, hs) =
        list_more-Reads g v va errs d _ _ e (add_expression f es) _
          (up_to g v va errs e d _ b (at_closer _ _ close_comma) h)
          (reads_more es f (reads_back f) d rest hf hs)

    reads_clauses :
        (cs : Clauses F) (d : ℕ) (rest : List Token)
        → FitsClauses v va d cs
        → ReadsClauses g v va errs d
            (emit_clauses g cs (plain else_kw ∷ rest))
            cs
            (plain else_kw ∷ rest)
    reads_clauses no_clauses d rest h = clauses_end-Reads g v va errs d rest
    reads_clauses (add_clause c e cs) d rest (hc, he, hs) =
        clauses_more-Reads g v va errs d _ _ _ c e cs _
          (up_to g v va errs c d _ (reads_back c) (at_closer _ _ close_then) hc)
          (up_to g v va errs e d _ (reads_back e) (clauses-AtCloser g v va errs cs rest) he)
          (reads_clauses cs d rest hs)

    reads_table :
        (t : TableConstructor F) (d : ℕ) (rest : List Token)
        → FitsTable v va d t
        → ReadsTable g v va errs d (emit_table_constructor g t rest) t rest
    reads_table (table no_fields true) d rest (_, h, _) = absurd (cc h)
    reads_table (table no_fields false) d rest (hd, _, _) =
        table-Reads g v va errs d _ no_fields rest hd (brace_ne_comma g v va errs rest)
          (brace_ne_semicolon g v va errs rest) (fields_end-Reads g v va errs (suc d) false rest)
    reads_table (table (add_field f fs) true) d rest (_, h, _) = absurd (cc h)
    reads_table (table (add_field f fs) false) d rest (hd, _, (hf, hs)) =
        let s =
          field-FieldSeen g v va errs f (suc d) _ hf (more_fields-AtCloser g v va errs fs rest) in
        table-Reads g v va errs d _ (add_field f fs) rest hd s.no_comma s.no_semicolon
          (reads_fields fs f (suc d) (λ r. reads_field f (suc d) r) false rest hf hs)

    reads_fields :
        (fs : Fields F) (f : Field F)
        → (d : ℕ)
        → ((r : List Token)
            → FitsField v va d f
            → AtCloser r
            → ReadsField g v va errs d (emit_field g f r) f r)
        → (b : Bool) (rest : List Token) → FitsField v va d f
        → FitsFields v va d fs
        → ReadsFields g v va errs d b
            (emit_field g f (emit_more_fields g fs (plain right_brace ∷ rest)))
            (add_field f fs)
            false
            (plain right_brace ∷ rest)
    reads_fields no_fields f d p b rest h hs =
        fields_last-Reads g v va errs d b _ f rest
          (field-FieldSeen g v va errs f d _ h (at_closer _ _ close_brace))
          (p _ h (at_closer _ _ close_brace))
    reads_fields (add_field k fs) f d p b rest h (hk, hs) =
        fields_more-Reads g v va errs d b false _ _ f (add_field k fs) _
          (field-FieldSeen g v va errs f d _ h (at_closer _ _ close_comma))
          (p _ h (at_closer _ _ close_comma))
          (reads_fields fs k d (λ r. reads_field k d r) true rest hk hs)

    reads_field :
        (f : Field F) (d : ℕ) (rest : List Token)
        → FitsField v va d f
        → AtCloser rest
        → ReadsField g v va errs d (emit_field g f rest) f rest
    reads_field (bracketed k e) d rest (hk, he) c =
        field_bracketed-Reads g v va errs d _ _ k e rest
          (up_to g v va errs k d _ (reads_back k) (at_closer _ _ close_bracket) hk)
          (up_to g v va errs e d _ (reads_back e) c he)
    reads_field (named s e) d rest h c =
        field_named-Reads g v va errs d s _ e rest (up_to g v va errs e d _ (reads_back e) c h)
    reads_field (positional e) d rest h c =
        field_positional-Reads g v va errs d _ e rest
          (seen g v va errs e d 0 rest h (closer_ne_equal g v va errs rest c))
          (up_to g v va errs e d _ (reads_back e) c h)

  -- A tree that fits at a nesting depth below the limit is read back from the tokens that the
  -- compact printer writes for it, whatever follows that is no operator, suffix, cast or `=`: with
  -- enough fuel the parser returns that tree, adds no error and leaves exactly what follows.
  pub parse_expression-emit :
      (e : Expression F) (d min : ℕ) (rest : List Token)
      → Fits v va d min e
      → binop_of (kind_at rest) ≡ none
      → Follow v rest
      → From λ n.
        parse_expression g n min (state v va errs d (emit_expression g e rest))
        ≡ some (e, state v va errs d rest)
  parse_expression-emit e d min rest f h follow =
      Climbs-Reads g v va errs d min (emit_expression g e rest) e rest
        ((reads_back e).0 d min rest f (no_operator h) follow) (next_op-none v va errs min d rest h)

  -- Two trees that fit are the same tree when the compact printer writes the same tokens for them.
  pub emit_expression-injective :
      (e f : Expression F) (d : ℕ) (rest : List Token)
      → Fits v va d 0 e
      → Fits v va d 0 f
      → binop_of (kind_at rest) ≡ none
      → Follow v rest
      → emit_expression g e rest ≡ emit_expression g f rest
      → e ≡ f
  emit_expression-injective e f d rest he hf h follow same =
      let both =
        From-both (parse_expression-emit e d 0 rest he h follow)
          (parse_expression-emit f d 0 rest hf h follow) in
      let reads = both.1 both.0 (omega arith) in cc (reads.0, reads.1, same)
