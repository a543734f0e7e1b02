-- ===== src/Minifier/Parens/Kept.antt =====
-- Outside Luau the pass keeps a tree printable, and what it leaves reads back.
use luck.Prelude.{
  ℕ, suc, Bool, true, false, ◌&&◌, List, Option, none, some, ltb, Bytes, ◌≡◌, refl, ◌<◌, arith,
  From,
}
use luck.Version.{LuaVersion, is_luau}
use luck.Token.{Token}
use luck.Token.Operators.{unary_precedence, BinOp, binop_of}
use luck.Syntax.{
  Expression, nil_lit, false_lit, true_lit, var_arg, error, number_lit, integer_lit, string_lit,
  function_def, interpolated_string, var, function_call, parenthesized, table_constructor,
  binary_op, unary_op, if_expression, type_cast, type_instantiation, Var, name, index, field_access,
  FunctionArgs, parenthesized_args, table_args, string_args, TableConstructor, table, Field,
  bracketed, named, positional, Fields, no_fields, add_field, Expressions, no_expressions,
  add_expression,
}
use luck.Parser.{ParseError, kind_at}
use luck.Parser.Expression.{Pieces, parse_expression}
use luck.Parser.Fits.{
  level, behind, stops, is_prefix, Fits, FitsVar, FitsArgs, FitsExpressions, FitsTable, FitsFields,
  FitsField, Follow,
}
use luck.Parser.Moves.{state}
use luck.Parser.RoundTrip.{parse_expression-emit}
use luck.Codegen.{emit_expression}
use luck.Minifier.Parens.Depth.{behind_bounds, Fits-stops}
use luck.Minifier.Parens.Unwrap.{
  unwrap_lhs-Fits, unwrap_rhs-Fits, unwrap_operand-Fits, simplify_paren-Fits, simplify_paren-stops,
}
use luck.Minifier.Parens.{
  Walks, unwrap_rhs, unwrap_operand, walk_type_arguments, transform_expression, transform_var,
  walk_function_args, walk_punctuated_exprs, walk_table_constructor, walk_fields, walk_field,
}

module _ {F : Type 0} (w : Walks F) (v : LuaVersion) (va : Bool) where
  call_is_prefix :
      (e : Expression F) (a : FunctionArgs F) (m : Option Bytes) (t : Option F)
      → is_prefix (transform_expression w (function_call e a m t)) ≡ true
  unfolding transform_expression is_prefix
  call_is_prefix (parenthesized e) a m t = refl
  call_is_prefix _ a m t = refl

  call_stops :
      (e : Expression F) (a : FunctionArgs F) (m : Option Bytes) (t : Option F) (k : ℕ)
      → stops k (transform_expression w (function_call e a m t)) ≡ true
  unfolding transform_expression stops
  call_stops (parenthesized e) a m t k = refl
  call_stops _ a m t k = refl

  -- An operator that a tree leaves to its context is left by the simplified tree too.
  transform-stops :
      (e : Expression F) (d min : ℕ) (op : BinOp)
      → is_luau v ≡ false
      → Fits v va d min (transform_expression w e)
      → stops (level op) e ≡ true
      → stops (level op) (transform_expression w e) ≡ true
  unfolding transform_expression stops Fits unary_precedence
  transform-stops (binary_op l o r) d min op n (_, _, _, _, _, hr) s =
      let b = front (behind o) (stops (level op) r) s in
      ground (
        arith,
        b,
        Fits-stops v va (unwrap_rhs (transform_expression w r) o) (suc d) (behind o) op n hr b
            (behind_bounds o).2,
      )
    where
      front : (k : ℕ) (x : Bool) → ltb (level op) k && x ≡ true → level op < k
      front k x s = ground arith
  transform-stops (unary_op o e) d min op n (_, he) s =
      let b = front (stops (level op) e) s in
      ground (
        arith,
        b,
        Fits-stops v va (unwrap_operand (transform_expression w e)) (suc d) 11 op n he b
            (omega arith),
      )
    where
      front : (x : Bool) → ltb (level op) 11 && x ≡ true → level op < 11
      front x s = ground arith
  transform-stops (if_expression c t cs e) d min op n h s = absurd (cc s)
  transform-stops (parenthesized e) d min op n h s =
      simplify_paren-stops v va (transform_expression w e) (level op)
  transform-stops (function_call e a m t) d min op n h s = call_stops e a m t (level op)
  transform-stops _ d min op n h s = refl

  args_kept :
      (es : Expressions F) (d : ℕ)
      → FitsExpressions v va d (walk_punctuated_exprs w es)
      → FitsArgs v va d (walk_function_args w (parenthesized_args es))
  unfolding Fits transform_expression
  args_kept (add_expression (string_lit s) no_expressions) d h = tt
  args_kept (add_expression (table_constructor t) no_expressions) d (h, _) = h
  args_kept _ d h = h

  mutual
    unfolding Fits transform_expression is_prefix walk_type_arguments

    keep :
        (e : Expression F) (d min : ℕ)
        → is_luau v ≡ false
        → Fits v va d min e
        → Fits v va d min (transform_expression w e)
    keep nil_lit d min n h = tt
    keep false_lit d min n h = tt
    keep true_lit d min n h = tt
    keep var_arg d min n h = h
    keep error d min n h = h
    keep (number_lit s) d min n h = h
    keep (integer_lit s) d min n h = h
    keep (string_lit s) d min n h = tt
    keep (function_def f) d min n h = h
    keep (interpolated_string f) d min n h = h
    keep (type_cast e t) d min n h = h
    keep (type_instantiation e t) d min n h = h
    keep (var x) d min n h = keep_var x d n h
    keep (function_call (parenthesized e) a m none) d min n (_, (hd, he), ha, _) =
        (refl, (hd, keep e (suc d) 0 n he), keep_args a d n ha, refl)
    keep (function_call (var x) a m none) d min n (_, he, ha, _) =
        (refl, keep_var x d n he, keep_args a d n ha, refl)
    keep (function_call (function_call e b k t) a m none) d min n (_, he, ha, _) =
        (call_is_prefix e b k t, keep (function_call e b k t) d 0 n he, keep_args a d n ha, refl)
    keep (function_call _ a m none) d min n (hp, _, _, _) = absurd (cc hp)
    keep (function_call _ a m (some t)) d min n (_, _, _, ht) = absurd (cc ht)
    keep (parenthesized e) d min n (hd, he) =
        simplify_paren-Fits v va (transform_expression w e) d min hd (keep e (suc d) 0 n he)
    keep (table_constructor t) d min n h = keep_table t d n h
    keep (binary_op l op r) d min n (hl, hs, hm, ha, hd, hr) =
        let kept = keep l d min n hl in
        let left =
          unwrap_lhs-Fits v va (transform_expression w l) op d min n hm kept
            (transform-stops l d min op n kept hs) in
        (
          left.0,
          left.1,
          hm,
          ha,
          hd,
          unwrap_rhs-Fits v va (transform_expression w r) op (suc d)
              (keep r (suc d) (behind op) n hr),
        )
    keep (unary_op op e) d min n (hd, he) = (
      hd,
      unwrap_operand-Fits v va (transform_expression w e) (suc d) unary_precedence
          (keep e (suc d) unary_precedence n he),
    )
    keep (if_expression c t cs e) d min n (hl, _, _, _, _, _) = absurd (cc (n, hl))

    keep_var :
        (x : Var F) (d : ℕ)
        → is_luau v ≡ false
        → FitsVar v va d x
        → FitsVar v va d (transform_var w x)
    keep_var (name s) d n h = tt
    keep_var (index (parenthesized e) i) d n (_, (hd, he), hi) =
        (refl, (hd, keep e (suc d) 0 n he), keep i d 0 n hi)
    keep_var (index (var x) i) d n (_, he, hi) = (refl, keep_var x d n he, keep i d 0 n hi)
    keep_var (index (function_call e b k t) i) d n (_, he, hi) =
        (call_is_prefix e b k t, keep (function_call e b k t) d 0 n he, keep i d 0 n hi)
    keep_var (index _ i) d n (hp, _, _) = absurd (cc hp)
    keep_var (field_access (parenthesized e) s) d n (_, (hd, he)) =
        (refl, (hd, keep e (suc d) 0 n he))
    keep_var (field_access (var x) s) d n (_, he) = (refl, keep_var x d n he)
    keep_var (field_access (function_call e b k t) s) d n (_, he) =
        (call_is_prefix e b k t, keep (function_call e b k t) d 0 n he)
    keep_var (field_access _ s) d n (hp, _) = absurd (cc hp)

    keep_args :
        (a : FunctionArgs F) (d : ℕ)
        → is_luau v ≡ false
        → FitsArgs v va d a
        → FitsArgs v va d (walk_function_args w a)
    keep_args (parenthesized_args es) d n h = args_kept es d (keep_expressions es d n h)
    keep_args (table_args t) d n h = keep_table t d n h
    keep_args (string_args s) d n h = tt

    keep_expressions :
        (es : Expressions F) (d : ℕ)
        → is_luau v ≡ false
        → FitsExpressions v va d es
        → FitsExpressions v va d (walk_punctuated_exprs w es)
    keep_expressions no_expressions d n h = tt
    keep_expressions (add_expression e es) d n (he, hs) =
        (keep e d 0 n he, keep_expressions es d n hs)

    keep_table :
        (t : TableConstructor F) (d : ℕ)
        → is_luau v ≡ false
        → FitsTable v va d t
        → FitsTable v va d (walk_table_constructor w t)
    keep_table (table fs b) d n (hd, hb, hf) = (hd, hb, keep_fields fs (suc d) n hf)

    keep_fields :
        (fs : Fields F) (d : ℕ)
        → is_luau v ≡ false
        → FitsFields v va d fs
        → FitsFields v va d (walk_fields w fs)
    keep_fields no_fields d n h = tt
    keep_fields (add_field f fs) d n (hf, hs) = (keep_field f d n hf, keep_fields fs d n hs)

    keep_field :
        (f : Field F) (d : ℕ)
        → is_luau v ≡ false
        → FitsField v va d f
        → FitsField v va d (walk_field w f)
    keep_field (bracketed k e) d n (hk, he) = (keep k d 0 n hk, keep e d 0 n he)
    keep_field (named s e) d n h = keep e d 0 n h
    keep_field (positional e) d n h = keep e d 0 n h

  -- In a dialect without if-expressions, what the compact printer writes for a tree that fits is
  -- still parsed as the tree that was printed once its redundant parentheses are removed: with
  -- enough fuel the parser reads the simplified tree back, adds no error and leaves what follows,
  -- which is no operator, suffix, cast or `=`.
  pub parse_expression-transform :
      (g : Pieces F) (errs : List ParseError) (e : Expression F) (d min : ℕ) (rest : List Token)
      → is_luau v ≡ false
      → Fits v va d min e
      → binop_of (kind_at rest) ≡ none
      → Follow v rest
      → From λ n.
        parse_expression g n min
          (state v va errs d (emit_expression g (transform_expression w e) rest))
        ≡ some (transform_expression w e, state v va errs d rest)
  parse_expression-transform g errs e d min rest n h b follow =
      parse_expression-emit g v va errs (transform_expression w e) d min rest (keep e d min n h) b
        follow
