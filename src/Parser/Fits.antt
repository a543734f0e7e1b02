-- ===== src/Parser/Fits.antt =====
-- The trees whose printed tokens read back: operands stand in parentheses where the grammar of the
-- dialect asks for them, and the nesting keeps to the limit of the parser.
use luck.Prelude.{ℕ, suc, Bool, true, false, not, ◌&&◌, List, none, ltb, ◌≡◌, ◌≤◌, ◌<◌}
use luck.Version.{LuaVersion, has_bitwise_ops, has_explicit_type_instantiation, is_luau}
use luck.Token.{equal, double_colon, less, Token}
use luck.Token.Operators.{
  concat, pow, unary_precedence, BinOp, is_bitwise, binop_of, binop_token, precedence,
}
use luck.Syntax.{
  Expression, nil_lit, false_lit, true_lit, var_arg, number_lit, integer_lit, string_lit, var,
  function_call, parenthesized, table_constructor, binary_op, unary_op, if_expression, Var, name,
  index, field_access, FunctionArgs, parenthesized_args, table_args, string_args, TableConstructor,
  table, Field, bracketed, named, positional, Fields, no_fields, add_field, Expressions,
  no_expressions, add_expression, Clauses, no_clauses, add_clause,
}
use luck.Parser.{max_nesting_depth, kind_at, rest_of, is_kind}
use luck.Parser.Expression.{suffix_of, ends_with_i}

unfoldable pub level : BinOp → ℕ
level op = (precedence op).0

-- The least level behind the operator: `..` and `^` take their like on the right, the others do not.
unfoldable pub behind : BinOp → ℕ
behind concat = level concat
behind pow = level pow
behind op = suc (level op)

-- Whether the dialect has the operator.
unfoldable pub available : LuaVersion → BinOp → Bool
available v op = not (is_bitwise op && not (has_bitwise_ops v))

module _ {F : Type 0} where
  -- Whether an operator of the level that stands behind the tree is left to the context, and not
  -- taken into the tree's last operand.
  unfoldable pub stops : ℕ → Expression F → Bool
  stops k (binary_op left op right) = ltb k (behind op) && stops k right
  stops k (unary_op op operand) = ltb k unary_precedence && stops k operand
  stops k (if_expression c t cs e) = false
  stops k _ = true

  -- Whether suffixes may stand behind the tree.
  unfoldable pub is_prefix : Expression F → Bool
  is_prefix (var x) = true
  is_prefix (function_call callee args method type_args) = true
  is_prefix (parenthesized e) = true
  is_prefix _ = false

module _ {F : Type 0} (v : LuaVersion) (is_vararg : Bool) where
  -- The tree can stand at a nesting depth where operators of at least the level `min` are read.
  -- Functions, interpolated strings, types and errors have no place in it.
  unfoldable mutual
    pub Fits : ℕ → ℕ → Expression F → Type 0
    Fits d min nil_lit = Unit
    Fits d min false_lit = Unit
    Fits d min true_lit = Unit
    Fits d min var_arg = is_vararg ≡ true
    Fits d min (number_lit s) = ends_with_i s ≡ false
    Fits d min (integer_lit s) = ends_with_i s ≡ true
    Fits d min (string_lit s) = Unit
    Fits d min (var x) = FitsVar d x
    Fits d min (function_call callee args method type_args) =
        (is_prefix callee ≡ true) × Fits d 0 callee × FitsArgs d args × (type_args ≡ none)
    Fits d min (parenthesized e) = (d < max_nesting_depth) × Fits (suc d) 0 e
    Fits d min (table_constructor t) = FitsTable d t
    Fits d min (binary_op left op right) =
        Fits d min left
        × (stops (level op) left ≡ true)
        × (min ≤ level op)
        × (available v op ≡ true)
        × (d < max_nesting_depth)
        × Fits (suc d) (behind op) right
    Fits d min (unary_op op operand) =
        (d < max_nesting_depth) × Fits (suc d) unary_precedence operand
    Fits d min (if_expression condition then_expr cs else_expr) =
        (is_luau v ≡ true)
        × (d < max_nesting_depth)
        × Fits (suc d) 0 condition
        × Fits (suc d) 0 then_expr
        × FitsClauses (suc d) cs
        × Fits (suc d) 0 else_expr
    Fits d min _ = ⊥

    pub FitsVar : ℕ → Var F → Type 0
    FitsVar d (name s) = Unit
    FitsVar d (index prefix i) = (is_prefix prefix ≡ true) × Fits d 0 prefix × Fits d 0 i
    FitsVar d (field_access prefix s) = (is_prefix prefix ≡ true) × Fits d 0 prefix

    pub FitsArgs : ℕ → FunctionArgs F → Type 0
    FitsArgs d (parenthesized_args es) = FitsExpressions d es
    FitsArgs d (table_args t) = FitsTable d t
    FitsArgs d (string_args s) = Unit

    pub FitsExpressions : ℕ → Expressions F → Type 0
    FitsExpressions d no_expressions = Unit
    FitsExpressions d (add_expression e es) = Fits d 0 e × FitsExpressions d es

    pub FitsClauses : ℕ → Clauses F → Type 0
    FitsClauses d no_clauses = Unit
    FitsClauses d (add_clause condition e cs) = Fits d 0 condition × Fits d 0 e × FitsClauses d cs

    pub FitsTable : ℕ → TableConstructor F → Type 0
    FitsTable d (table fields trailing) =
        (d < max_nesting_depth) × (trailing ≡ false) × FitsFields (suc d) fields

    pub FitsFields : ℕ → Fields F → Type 0
    FitsFields d no_fields = Unit
    FitsFields d (add_field f fs) = FitsField d f × FitsFields d fs

    pub FitsField : ℕ → Field F → Type 0
    FitsField d (bracketed key value) = Fits d 0 key × Fits d 0 value
    FitsField d (named s value) = Fits d 0 value
    FitsField d (positional value) = Fits d 0 value

-- The tokens behind an expression: no suffix, cast or assignment starts there.
pub record Follow (v : LuaVersion) (rest : List Token) : Type 0 where
  pub no_suffix :
      suffix_of
        (has_explicit_type_instantiation v && is_kind less (kind_at (rest_of rest)))
        (kind_at rest)
      ≡ none
  pub no_cast : is_luau v && is_kind double_colon (kind_at rest) ≡ false
  pub no_equal : is_kind equal (kind_at rest) ≡ false

-- No operator stands behind the tree, or one that the tree leaves to its context.
pub data Ending {F : Type 0} (e : Expression F) (rest : List Token) : Type 0 where
  no_operator : binop_of (kind_at rest) ≡ none → Ending e rest
  operator :
      (op : BinOp) → kind_at rest ≡ binop_token op → stops (level op) e ≡ true → Ending e rest
