-- ===== src/Minifier/Parens/Unwrap.antt =====
-- What is left of an operand when its parentheses go fits where they stood.
use luck.Prelude.{
  ℕ, suc, Bool, true, false, not, ◌||◌, ◌==◌, ◌≡◌, refl, ◌≤◌, ◌<◌, arith, Bool-cases, if◌then◌else◌,
  inl, inr,
}
use luck.Version.{LuaVersion, is_luau}
use luck.Token.Operators.{unary_precedence, BinOp, add, pow, precedence}
use luck.Syntax.{Expression, parenthesized, binary_op, unary_op, if_expression}
use luck.Parser.{max_nesting_depth}
use luck.Parser.Fits.{level, behind, stops, Fits}
use luck.Minifier.Parens.Depth.{behind_bounds, lower_Fits, Fits-stops, raise_Fits}
use luck.Minifier.Parens.{
  is_right_associative, binop_precedence, is_pow, can_remove_parens, is_simple,
  can_unwrap_in_binop_lhs, can_unwrap_in_binop_rhs, can_unwrap_in_unary, unwrap_lhs, unwrap_rhs,
  unwrap_operand, simplify_paren,
}

-- The level decides on which side an operator takes its like.
right_level : (op : BinOp) → is_right_associative op ≡ (level op == 8 || level op == 12)
unfolding is_right_associative level precedence
right_level add = refl
right_level _ = refl

behind_level :
    (op : BinOp)
    → behind op ≡ (if level op == 8 || level op == 12 then level op else suc (level op))
unfolding behind level precedence
behind_level add = refl
behind_level _ = refl

pow_level : (op : BinOp) → not (is_pow op) ≡ true → level op < 11
unfolding is_pow level precedence
pow_level pow h = absurd (cc h)
pow_level _ h = ground arith

module _ {F : Type 0} (v : LuaVersion) (va : Bool) where
  lhs_levels :
      (l r : Expression F) (i o : BinOp)
      → can_unwrap_in_binop_lhs (binary_op l i r) o ≡ true
      → (level o ≤ level i) × (level o < behind i)
  unfolding can_unwrap_in_binop_lhs binop_precedence level
  lhs_levels l r i o h = (ground arith, ground (arith, right_level o, behind_level i))

  rhs_levels :
      (l r : Expression F) (i o : BinOp)
      → can_unwrap_in_binop_rhs (binary_op l i r) o ≡ true
      → behind o ≤ level i
  unfolding can_unwrap_in_binop_rhs binop_precedence level
  rhs_levels l r i o h = ground (arith, right_level o, behind_level o)

  lhs_stops :
      (x : Expression F) (o : BinOp) (d : ℕ)
      → is_luau v ≡ false
      → Fits v va d 0 x
      → can_unwrap_in_binop_lhs x o ≡ true
      → stops (level o) x ≡ true
  unfolding Fits stops can_unwrap_in_binop_lhs unary_precedence is_simple
  lhs_stops (binary_op l i r) o d n (_, _, _, _, _, hr) h =
      let (a, b) = lhs_levels l r i o h in
      ground (arith, b, Fits-stops v va r (suc d) (behind i) o n hr b (behind_bounds i).2)
  lhs_stops (unary_op u e) o d n (_, he) h =
      let below = pow_level o h in
      ground (arith, below, Fits-stops v va e (suc d) 11 o n he below (omega arith))
  lhs_stops (if_expression c t cs e) o d n f h = absurd (cc h)
  lhs_stops _ o d n f h = refl

  pub unwrap_lhs-Fits :
      (e : Expression F) (op : BinOp) (d min : ℕ)
      → is_luau v ≡ false
      → min ≤ level op
      → Fits v va d min e
      → stops (level op) e ≡ true
      → Fits v va d min (unwrap_lhs e op) × (stops (level op) (unwrap_lhs e op) ≡ true)
  unfolding Fits unwrap_lhs stops
  unwrap_lhs-Fits (parenthesized x) op d min n k (hd, hx) s =
      elim (Bool-cases (can_unwrap_in_binop_lhs x op)) [
        | inl h ↦
            let stopped = lhs_stops x op (suc d) n hx h in
            rw h
              (raise_Fits v va x d 0 min (level op) k (lower_Fits v va x d 0 hx) stopped, stopped)
        | inr h ↦ rw h ((hd, hx), refl)
      ]
  unwrap_lhs-Fits _ op d min n k h s = (h, s)

  rhs_Fits :
      (x : Expression F) (o : BinOp) (d low : ℕ)
      → Fits v va d low x
      → can_unwrap_in_binop_rhs x o ≡ true
      → Fits v va d (behind o) x
  unfolding Fits can_unwrap_in_binop_rhs is_simple
  rhs_Fits (binary_op l i r) o d low (hl, hs, hm, ha, hd, hr) h =
      let k = rhs_levels l r i o h in
      (raise_Fits v va l d low (behind o) (level i) k hl hs, hs, k, ha, hd, hr)
  rhs_Fits _ o d low f h = f

  pub unwrap_rhs-Fits :
      (e : Expression F) (op : BinOp) (d : ℕ)
      → Fits v va d (behind op) e
      → Fits v va d (behind op) (unwrap_rhs e op)
  unfolding Fits unwrap_rhs
  unwrap_rhs-Fits (parenthesized x) op d (hd, hx) =
      elim (Bool-cases (can_unwrap_in_binop_rhs x op)) [
        | inl h ↦ rw h (rhs_Fits x op d 0 (lower_Fits v va x d 0 hx) h)
        | inr h ↦ rw h (hd, hx)
      ]
  unwrap_rhs-Fits _ op d h = h

  operand_Fits :
      (x : Expression F) (d low min : ℕ)
      → Fits v va d low x
      → can_unwrap_in_unary x ≡ true
      → Fits v va d min x
  unfolding Fits can_unwrap_in_unary is_simple
  operand_Fits (binary_op l i r) d low min f h = absurd (cc h)
  operand_Fits _ d low min f h = f

  pub unwrap_operand-Fits :
      (e : Expression F) (d min : ℕ) → Fits v va d min e → Fits v va d min (unwrap_operand e)
  unfolding Fits unwrap_operand
  unwrap_operand-Fits (parenthesized x) d min (hd, hx) = elim (Bool-cases (can_unwrap_in_unary x)) [
    | inl h ↦ rw h (operand_Fits x d 0 min (lower_Fits v va x d 0 hx) h)
    | inr h ↦ rw h (hd, hx)
  ]
  unwrap_operand-Fits _ d min h = h

  removed_Fits :
      (x : Expression F) (d low min : ℕ)
      → Fits v va d low x
      → can_remove_parens x ≡ true
      → Fits v va d min x
  unfolding Fits can_remove_parens
  removed_Fits (binary_op l i r) d low min f h = absurd (cc h)
  removed_Fits _ d low min f h = f

  pub simplify_paren-Fits :
      (x : Expression F) (d min : ℕ)
      → d < max_nesting_depth
      → Fits v va (suc d) 0 x
      → Fits v va d min (simplify_paren x)
  unfolding simplify_paren Fits
  simplify_paren-Fits x d min hd hx = elim (Bool-cases (can_remove_parens x)) [
    | inl h ↦ rw h (removed_Fits x d 0 min (lower_Fits v va x d 0 hx) h)
    | inr h ↦ rw h (hd, hx)
  ]

  removed_stops : (x : Expression F) (k : ℕ) → can_remove_parens x ≡ true → stops k x ≡ true
  unfolding stops can_remove_parens
  removed_stops (binary_op l i r) k h = absurd (cc h)
  removed_stops (unary_op o e) k h = absurd (cc h)
  removed_stops (if_expression c t cs e) k h = absurd (cc h)
  removed_stops _ k h = refl

  pub simplify_paren-stops : (x : Expression F) (k : ℕ) → stops k (simplify_paren x) ≡ true
  unfolding simplify_paren stops
  simplify_paren-stops x k = elim (Bool-cases (can_remove_parens x)) [
    | inl h ↦ rw h (removed_stops x k h)
    | inr h ↦ rw h
  ]
