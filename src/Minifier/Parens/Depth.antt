-- ===== src/Minifier/Parens/Depth.antt =====
-- A tree that fits at a nesting depth fits at lesser ones, and an operand that fits at a level
-- leaves the operators of lower levels behind it to its context.
use luck.Prelude.{◌⊎◌, inl, inr, ℕ, suc, Bool, true, false, ◌&&◌, ltb, ◌≡◌, refl, ◌≤◌, ◌<◌, arith}
use luck.Version.{LuaVersion, is_luau}
use luck.Token.Operators.{unary_precedence, BinOp, add, pow, precedence}
use luck.Syntax.{
  Expression, nil_lit, false_lit, true_lit, var_arg, error, number_lit, integer_lit, string_lit,
  function_def, interpolated_string, var, function_call, parenthesized, table_constructor,
  binary_op, unary_op, if_expression, type_cast, type_instantiation, Var, name, index, field_access,
  FunctionArgs, parenthesized_args, table_args, string_args, TableConstructor, table, Field,
  bracketed, named, positional, Fields, no_fields, add_field, Expressions, no_expressions,
  add_expression, Clauses, no_clauses, add_clause,
}
use luck.Parser.{max_nesting_depth}
use luck.Parser.Fits.{
  level, behind, stops, Fits, FitsVar, FitsArgs, FitsExpressions, FitsClauses, FitsTable,
  FitsFields, FitsField,
}

-- No operator stands at the level of the unary ones, and none above that of `^`.
pub level_bounds : (op : BinOp) → (level op < 11) ⊎ (level op ≡ 12)
unfolding level precedence
level_bounds pow = inr refl
level_bounds _ = inl (ground arith)

pub behind_bounds :
    (op : BinOp) → (level op ≤ behind op) × (behind op ≤ suc (level op)) × (behind op ≤ 12)
unfolding level precedence behind
behind_bounds add = (ground arith, ground arith, ground arith)
behind_bounds _ = (ground arith, ground arith, ground arith)

module _ {F : Type 0} (v : LuaVersion) (va : Bool) where
  mutual
    unfolding Fits max_nesting_depth

    pub lower_Fits : (e : Expression F) (d min : ℕ) → Fits v va (suc d) min e → Fits v va d min e
    lower_Fits nil_lit d min h = tt
    lower_Fits false_lit d min h = tt
    lower_Fits true_lit d min h = tt
    lower_Fits var_arg d min h = h
    lower_Fits error d min h = h
    lower_Fits (number_lit s) d min h = h
    lower_Fits (integer_lit s) d min h = h
    lower_Fits (string_lit s) d min h = tt
    lower_Fits (function_def f) d min h = h
    lower_Fits (interpolated_string f) d min h = h
    lower_Fits (type_cast e t) d min h = h
    lower_Fits (type_instantiation e t) d min h = h
    lower_Fits (var x) d min h = lower_var x d h
    lower_Fits (function_call e a m t) d min (hp, he, ha, ht) =
        (hp, lower_Fits e d 0 he, lower_args a d ha, ht)
    lower_Fits (parenthesized e) d min (hd, he) = (omega arith, lower_Fits e (suc d) 0 he)
    lower_Fits (table_constructor t) d min h = lower_table t d h
    lower_Fits (binary_op l op r) d min (hl, hs, hm, ha, hd, hr) =
        (lower_Fits l d min hl, hs, hm, ha, omega arith, lower_Fits r (suc d) (behind op) hr)
    lower_Fits (unary_op op e) d min (hd, he) =
        (omega arith, lower_Fits e (suc d) unary_precedence he)
    lower_Fits (if_expression c t cs e) d min (hl, hd, hc, ht, hcs, he) = (
      hl,
      omega arith,
      lower_Fits c (suc d) 0 hc,
      lower_Fits t (suc d) 0 ht,
      lower_clauses cs (suc d) hcs,
      lower_Fits e (suc d) 0 he,
    )

    lower_var : (x : Var F) (d : ℕ) → FitsVar v va (suc d) x → FitsVar v va d x
    lower_var (name s) d h = tt
    lower_var (index p i) d (hp, hf, hi) = (hp, lower_Fits p d 0 hf, lower_Fits i d 0 hi)
    lower_var (field_access p s) d (hp, hf) = (hp, lower_Fits p d 0 hf)

    lower_args : (a : FunctionArgs F) (d : ℕ) → FitsArgs v va (suc d) a → FitsArgs v va d a
    lower_args (parenthesized_args es) d h = lower_expressions es d h
    lower_args (table_args t) d h = lower_table t d h
    lower_args (string_args s) d h = tt

    lower_expressions :
        (es : Expressions F) (d : ℕ) → FitsExpressions v va (suc d) es → FitsExpressions v va d es
    lower_expressions no_expressions d h = tt
    lower_expressions (add_expression e es) d (he, hs) =
        (lower_Fits e d 0 he, lower_expressions es d hs)

    lower_clauses : (cs : Clauses F) (d : ℕ) → FitsClauses v va (suc d) cs → FitsClauses v va d cs
    lower_clauses no_clauses d h = tt
    lower_clauses (add_clause c e cs) d (hc, he, hs) =
        (lower_Fits c d 0 hc, lower_Fits e d 0 he, lower_clauses cs d hs)

    lower_table : (t : TableConstructor F) (d : ℕ) → FitsTable v va (suc d) t → FitsTable v va d t
    lower_table (table fs b) d (hd, hb, hf) = (omega arith, hb, lower_fields fs (suc d) hf)

    lower_fields : (fs : Fields F) (d : ℕ) → FitsFields v va (suc d) fs → FitsFields v va d fs
    lower_fields no_fields d h = tt
    lower_fields (add_field f fs) d (hf, hs) = (lower_field f d hf, lower_fields fs d hs)

    lower_field : (f : Field F) (d : ℕ) → FitsField v va (suc d) f → FitsField v va d f
    lower_field (bracketed k e) d (hk, he) = (lower_Fits k d 0 hk, lower_Fits e d 0 he)
    lower_field (named s e) d h = lower_Fits e d 0 h
    lower_field (positional e) d h = lower_Fits e d 0 h

  -- Without if-expressions, an operator of a level below those that are read is left behind the
  -- tree.
  pub Fits-stops :
      (e : Expression F) (d min : ℕ) (op : BinOp)
      → is_luau v ≡ false
      → Fits v va d min e
      → level op < min
      → min ≤ 12
      → stops (level op) e ≡ true
  unfolding Fits stops unary_precedence
  Fits-stops (binary_op l o r) d min op n (hl, hs, hm, ha, hd, hr) k b =
      let (x, y, z) = behind_bounds o in
      ground (arith, x, Fits-stops r (suc d) (behind o) op n hr (omega arith) z)
  Fits-stops (unary_op o e) d min op n (hd, he) k b =
      let below = below_unary (level_bounds op) k b in
      ground (arith, below, Fits-stops e (suc d) 11 op n he below (omega arith))
    where
      below_unary : (level op < 11) ⊎ (level op ≡ 12) → level op < min → min ≤ 12 → level op < 11
      below_unary (inl h) k b = h
      below_unary (inr h) k b = absurd (omega arith)
  Fits-stops (if_expression c t cs e) d min op n (hl, _, _, _, _, _) k b = absurd (cc (n, hl))
  Fits-stops (function_def f) d min op n h k b = absurd h
  Fits-stops _ d min op n h k b = refl

  -- A tree whose operators stand above a level fits there.
  pub raise_Fits :
      (e : Expression F) (d low min k : ℕ)
      → min ≤ k
      → Fits v va d low e
      → stops k e ≡ true
      → Fits v va d min e
  unfolding Fits stops
  raise_Fits (binary_op l o r) d low min k m (hl, hs, hm, ha, hd, hr) s =
      let (x, y, z) = behind_bounds o in
      let enough = above (behind o) y s in
      (raise_Fits l d low min (level o) enough hl hs, hs, enough, ha, hd, hr)
    where
      above : (b : ℕ) → b ≤ suc (level o) → ltb k b && stops k r ≡ true → min ≤ level o
      above b y s = ground arith
  raise_Fits (function_call e a t u) d low min k m h s = h
  raise_Fits _ d low min k m h s = h
