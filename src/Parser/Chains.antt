-- ===== src/Parser/Chains.antt =====
-- How chains of suffixes and the arguments of calls are read.
use luck.Prelude.{
  ℕ, suc, Bool, true, false, ◌&&◌, List, ◌∷◌, none, some, Bytes, if◌then◌else◌, ◌≡◌, refl, ◌∙◌, sym,
  ap, ◌<◌, arith, From, From-map, From-both, From-shift, more-suc,
}
use luck.Version.{LuaVersion, has_ambiguous_call_newline_error, has_explicit_type_instantiation}
use luck.Token.{
  identifier, dot, colon, less, left_paren, right_paren, left_bracket, right_bracket, Token,
  is_unary_op,
}
use luck.Syntax.{
  Expression, var, function_call, parenthesized, name, index, field_access, FunctionArgs,
  Expressions,
}
use luck.Parser.{
  max_nesting_depth, ParseError, ambiguous_call, kind_at, rest_of, newline_at, peek, peek_next,
  newline_before_current, advance, push_error, is_kind, check, expect, expect_identifier_recover,
}
use luck.Parser.Expression.{
  Pieces, dotted, indexed, method_call, call, suffix_of, next_suffix, check_newline_call,
  parse_method_type_args, parse_expression, parse_primary_expression, parse_suffixes,
  parse_function_args, parse_expression_list,
}
use luck.Parser.Moves.{state, enter_depth-state, exit_depth-state, expect-state}
use luck.Parser.Ends.{close_paren, close_bracket, Closer-kind}
use luck.Parser.Steps.{primary_paren, suffix_field, suffix_index, suffix_method, suffix_call}
use luck.Parser.Reading.{Reads, Chains}
use luck.Codegen.{plain}

module _ {F : Type 0} (g : Pieces F) (v : LuaVersion) (va : Bool) (errs : List ParseError) where
  abbrev pub ReadsArgs : ℕ → List Token → FunctionArgs F → List Token → Type 0
  ReadsArgs d ts args rest = From λ m.
      parse_function_args g m (kind_at ts) (state v va errs d ts)
      ≡ some (args, state v va errs d rest)

  abbrev pub ReadsList : ℕ → List Token → Expressions F → List Token → Type 0
  ReadsList d ts es rest =
      From λ m. parse_expression_list g m (state v va errs d ts) ≡ some (es, state v va errs d rest)

  pub name-Chains :
      (d : ℕ) (s : Bytes) (rest : List Token)
      → Chains g v va errs d (plain (identifier s) ∷ rest) (var (name s)) rest
  unfolding parse_expression is_unary_op kind_at advance rest_of
  name-Chains d s rest = (refl, 0, (0, λ m _. refl))

  pub paren-Chains :
      (d : ℕ) (ts : List Token) (e : Expression F) (rest : List Token)
      → d < max_nesting_depth
      → Reads g v va errs (suc d) 0 ts e (plain right_paren ∷ rest)
      → Chains g v va errs d (plain left_paren ∷ ts) (parenthesized e) rest
  unfolding is_unary_op kind_at advance rest_of
  paren-Chains d ts e rest h p = (
    refl,
    0,
    From-map
        (λ m q.
          primary_paren g m (state v va errs d (plain left_paren ∷ ts)) (state v va errs (suc d) ts)
            (state v va errs (suc d) (plain right_paren ∷ rest)) e
            (enter_depth-state v va errs d ts h) q
          ∙ ap (parse_suffixes g m (parenthesized e)) (
              ap (expect right_paren) (exit_depth-state v va errs d (plain right_paren ∷ rest))
              ∙ expect-state v va errs right_paren d rest (Closer-kind right_paren close_paren)))
        p,
  )

  Chains-suc :
      (d : ℕ) (ts us : List Token) (e f : Expression F) (rest : List Token)
      → Chains g v va errs d ts e us
      → (From λ m.
          parse_suffixes g (suc m) e (state v va errs d us)
          ≡ parse_suffixes g m f (state v va errs d rest))
      → Chains g v va errs d ts f rest
  Chains-suc d ts us e f rest (h, k, c) p = (
    h,
    suc k,
    From-map
        (λ m (x, y).
          ap (λ n. parse_primary_expression g (suc n) (kind_at ts) (state v va errs d ts))
            (sym (more-suc k m))
          ∙ x
          ∙ y)
        (From-both (From-shift c) p),
  )

  suffix_of-dot : (b : Bool) → suffix_of b dot ≡ some dotted
  unfolding suffix_of
  suffix_of-dot true = refl
  suffix_of-dot false = refl

  suffix_of-bracket : (b : Bool) → suffix_of b left_bracket ≡ some indexed
  unfolding suffix_of
  suffix_of-bracket true = refl
  suffix_of-bracket false = refl

  suffix_of-colon : (b : Bool) → suffix_of b colon ≡ some method_call
  unfolding suffix_of
  suffix_of-colon true = refl
  suffix_of-colon false = refl

  pub field-Chains :
      (d : ℕ) (ts : List Token) (e : Expression F) (s : Bytes) (rest : List Token)
      → Chains g v va errs d ts e (plain dot ∷ plain (identifier s) ∷ rest)
      → Chains g v va errs d ts (var (field_access e s)) rest
  unfolding next_suffix peek peek_next kind_at rest_of advance expect_identifier_recover
  field-Chains d ts e s rest c =
      Chains-suc d ts (plain dot ∷ plain (identifier s) ∷ rest) e (var (field_access e s)) rest c (
        0,
        λ m _.
            suffix_field g m (state v va errs d (plain dot ∷ plain (identifier s) ∷ rest))
              (state v va errs d rest) e s (suffix_of-dot _) refl,
      )

  pub index-Chains :
      (d : ℕ) (ts us : List Token) (e i : Expression F) (rest : List Token)
      → Chains g v va errs d ts e (plain left_bracket ∷ us)
      → Reads g v va errs d 0 us i (plain right_bracket ∷ rest)
      → Chains g v va errs d ts (var (index e i)) rest
  unfolding next_suffix peek peek_next kind_at rest_of advance
  index-Chains d ts us e i rest c p =
      Chains-suc d ts (plain left_bracket ∷ us) e (var (index e i)) rest c (
        From-map
          (λ m q.
            suffix_index g m (state v va errs d (plain left_bracket ∷ us))
              (state v va errs d (plain right_bracket ∷ rest)) e i (suffix_of-bracket _) q
            ∙ ap (parse_suffixes g m (var (index e i))) (
                expect-state v va errs right_bracket d rest
                  (Closer-kind right_bracket close_bracket)))
          p)

  and_false : (a : Bool) → a && false ≡ false
  and_false a = ground arith

  pub call-Chains :
      (d : ℕ) (ts us : List Token) (e : Expression F) (a : FunctionArgs F) (rest : List Token)
      → ((b : Bool) → suffix_of b (kind_at us) ≡ some call)
      → newline_at us ≡ false
      → Chains g v va errs d ts e us
      → ReadsArgs d us a rest
      → Chains g v va errs d ts (function_call e a none none) rest
  unfolding next_suffix peek peek_next check_newline_call newline_before_current
  call-Chains d ts us e a rest s h c p = Chains-suc d ts us e (function_call e a none none) rest c (
      From-map
        (λ m q.
          suffix_call g m (state v va errs d us) (state v va errs d us) (state v va errs d rest) e a
            (s _)
            (rw h (
              no_newline (check left_paren (state v va errs d us))
                (has_ambiguous_call_newline_error v)))
            q)
        p)
    where
      no_newline :
          (x y : Bool)
          → (if x && y && false
              then push_error ambiguous_call (state v va errs d us)
              else state v va errs d us)
            ≡ state v va errs d us
      no_newline x y = ground arith

  no_type_args :
      (d : ℕ) (us : List Token)
      → is_kind less (kind_at us) ≡ false
      → parse_method_type_args g (state v va errs d us) ≡ (none, state v va errs d us)
  unfolding parse_method_type_args check peek
  no_type_args d us h =
      rw (h, and_false (has_explicit_type_instantiation v), parse_method_type_args)

  pub method-Chains :
      (d : ℕ) (ts us : List Token) (e : Expression F) (s : Bytes) (a : FunctionArgs F)
      (rest : List Token)
      → is_kind less (kind_at us) ≡ false
      → Chains g v va errs d ts e (plain colon ∷ plain (identifier s) ∷ us)
      → ReadsArgs d us a rest
      → Chains g v va errs d ts (function_call e a (some s) none) rest
  unfolding next_suffix peek peek_next kind_at rest_of advance expect_identifier_recover
  method-Chains d ts us e s a rest h c p =
      Chains-suc d ts (plain colon ∷ plain (identifier s) ∷ us) e (function_call e a (some s) none)
        rest c
        (From-map
          (λ m q.
            suffix_method g m (state v va errs d (plain colon ∷ plain (identifier s) ∷ us))
              (state v va errs d us) (state v va errs d rest) e s a (suffix_of-colon _) refl
              (no_type_args d us h) q)
          p)
