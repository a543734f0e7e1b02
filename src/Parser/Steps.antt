-- ===== src/Parser/Steps.antt =====
-- One step of each function of the parser, from what the calls in it give.
use luck.Prelude.{◌>>=◌, ℕ, suc, Bool, true, false, ◌||◌, none, some, Bytes, ◌≡◌}
use luck.Version.{is_luau}
use luck.Token.{
  else_kw, elseif_kw, if_kw, then_kw, comma, equal, left_paren, right_paren, left_brace,
  right_brace, left_bracket, right_bracket, eof, is_unary_op,
}
use luck.Token.Operators.{unary_precedence, BinOp, UnOp, unop_of}
use luck.Syntax.{
  Expression, var, function_call, parenthesized, table_constructor, binary_op, unary_op,
  if_expression, index, field_access, FunctionArgs, parenthesized_args, table_args,
  TableConstructor, table, Field, bracketed, named, positional, Fields, no_fields, add_field,
  Expressions, no_expressions, add_expression, Clauses, no_clauses, add_clause,
}
use luck.Parser.{
  Parser, peek, advance, check, expect, expect_identifier_recover, enter_depth, exit_depth,
}
use luck.Parser.Expression.{
  Pieces, next_op, right_min, dotted, indexed, method_call, call, next_suffix, is_cast,
  check_newline_call, check_separator, skip_leading_separator, is_named_field,
  parse_type_assertions, parse_method_type_args, parse_expression, climb, parse_prefix,
  parse_primary_expression, parse_suffixes, parse_function_args, parse_expression_list,
  parse_if_expression, parse_elseif_clauses, parse_table_constructor, parse_fields, parse_field,
}

module _ {F : Type 0} (g : Pieces F) (n : ℕ) where
  pub prefix-expression :
      (min : ℕ) (p q : Parser) (e : Expression F)
      → parse_prefix g n p ≡ some (e, q)
      → parse_expression g (suc n) min p ≡ climb g n min e q
  unfolding parse_expression
  prefix-expression min p q e h = rw h

  pub climb_ends :
      (min : ℕ) (p : Parser) (e : Expression F)
      → next_op min p ≡ none
      → climb g (suc n) min e p ≡ some (e, p)
  unfolding parse_expression
  climb_ends min p e h = rw (h, climb)

  pub climb_grows :
      (min : ℕ) (p q r : Parser) (left right : Expression F) (op : BinOp)
      → next_op min p ≡ some op
      → enter_depth (advance p) ≡ some q
      → parse_expression g n (right_min op) q ≡ some (right, r)
      → climb g (suc n) min left p ≡ climb g n min (binary_op left op right) (exit_depth r)
  unfolding parse_expression
  climb_grows min p q r left right op a b c = rw (a, b, c, climb)

  pub prefix_primary :
      (p q : Parser) (e : Expression F)
      → is_unary_op (peek p) ≡ false
      → parse_primary_expression g n (peek p) p ≡ some (e, q)
      → is_cast q ≡ false
      → parse_prefix g (suc n) p ≡ some (e, q)
  unfolding parse_expression parse_type_assertions
  prefix_primary p q e a b c = rw (a, b, c, parse_prefix, parse_type_assertions, ◌>>=◌)

  pub prefix_unary :
      (p q r : Parser) (op : UnOp) (e : Expression F)
      → is_unary_op (peek p) ≡ true
      → unop_of (peek p) ≡ some op
      → enter_depth (advance p) ≡ some q
      → parse_expression g n unary_precedence q ≡ some (e, r)
      → parse_prefix g (suc n) p ≡ some (unary_op op e, exit_depth r)
  unfolding parse_expression
  prefix_unary p q r op e a b c h = rw (a, b, c, h, parse_prefix)

  pub primary_paren :
      (p q r : Parser) (e : Expression F)
      → enter_depth (advance p) ≡ some q
      → parse_expression g n 0 q ≡ some (e, r)
      → parse_primary_expression g (suc n) left_paren p
        ≡ parse_suffixes g n (parenthesized e) (expect right_paren (exit_depth r))
  unfolding parse_expression
  primary_paren p q r e a b = rw (a, b, parse_primary_expression)

  pub primary_table :
      (p q : Parser) (t : TableConstructor F)
      → parse_table_constructor g n p ≡ some (t, q)
      → parse_primary_expression g (suc n) left_brace p ≡ some (table_constructor t, q)
  unfolding parse_expression
  primary_table p q t a = rw a

  pub primary_if :
      (p : Parser)
      → is_luau p.version ≡ true
      → parse_primary_expression g (suc n) if_kw p ≡ parse_if_expression g n p
  unfolding parse_expression
  primary_if p a = rw (a, parse_primary_expression)

  pub suffixes_end :
      (p : Parser) (e : Expression F)
      → next_suffix p ≡ none
      → parse_suffixes g (suc n) e p ≡ some (e, p)
  unfolding parse_expression
  suffixes_end p e a = rw (a, parse_suffixes)

  pub suffix_field :
      (p q : Parser) (e : Expression F) (s : Bytes)
      → next_suffix p ≡ some dotted
      → expect_identifier_recover (advance p) ≡ (s, q)
      → parse_suffixes g (suc n) e p ≡ parse_suffixes g n (var (field_access e s)) q
  unfolding parse_expression
  suffix_field p q e s a b = rw (a, b, parse_suffixes)

  pub suffix_index :
      (p q : Parser) (e i : Expression F)
      → next_suffix p ≡ some indexed
      → parse_expression g n 0 (advance p) ≡ some (i, q)
      → parse_suffixes g (suc n) e p ≡ parse_suffixes g n (var (index e i)) (expect right_bracket q)
  unfolding parse_expression
  suffix_index p q e i a b = rw (a, b, parse_suffixes)

  pub suffix_method :
      (p q r : Parser) (e : Expression F) (s : Bytes) (args : FunctionArgs F)
      → next_suffix p ≡ some method_call
      → expect_identifier_recover (advance p) ≡ (s, q)
      → parse_method_type_args g q ≡ (none, q)
      → parse_function_args g n (peek q) q ≡ some (args, r)
      → parse_suffixes g (suc n) e p ≡ parse_suffixes g n (function_call e args (some s) none) r
  unfolding parse_expression
  suffix_method p q r e s args a b c h = rw (a, b, c, h, parse_suffixes)

  pub suffix_call :
      (p q r : Parser) (e : Expression F) (args : FunctionArgs F)
      → next_suffix p ≡ some call
      → check_newline_call p ≡ q
      → parse_function_args g n (peek q) q ≡ some (args, r)
      → parse_suffixes g (suc n) e p ≡ parse_suffixes g n (function_call e args none none) r
  unfolding parse_expression
  suffix_call p q r e args a b h = rw (a, b, h, parse_suffixes)

  pub args_empty :
      (p : Parser)
      → check right_paren (advance p) ≡ true
      → parse_function_args g (suc n) left_paren p
        ≡ some (parenthesized_args no_expressions, expect right_paren (advance p))
  unfolding parse_expression
  args_empty p a = rw (a, parse_function_args)

  pub args_list :
      (p q : Parser) (es : Expressions F)
      → check right_paren (advance p) ≡ false
      → parse_expression_list g n (advance p) ≡ some (es, q)
      → parse_function_args g (suc n) left_paren p
        ≡ some (parenthesized_args es, expect right_paren q)
  unfolding parse_expression
  args_list p q es a b = rw (a, b, parse_function_args)

  pub args_table :
      (p q : Parser) (t : TableConstructor F)
      → parse_table_constructor g n p ≡ some (t, q)
      → parse_function_args g (suc n) left_brace p ≡ some (table_args t, q)
  unfolding parse_expression
  args_table p q t a = rw a

  pub list_last :
      (p q : Parser) (e : Expression F)
      → parse_expression g n 0 p ≡ some (e, q)
      → check comma q ≡ false
      → parse_expression_list g (suc n) p ≡ some (add_expression e no_expressions, q)
  unfolding parse_expression
  list_last p q e a b = rw (a, b, parse_expression_list, ◌>>=◌)

  pub list_more :
      (p q r : Parser) (e : Expression F) (es : Expressions F)
      → parse_expression g n 0 p ≡ some (e, q)
      → check comma q ≡ true
      → parse_expression_list g n (advance q) ≡ some (es, r)
      → parse_expression_list g (suc n) p ≡ some (add_expression e es, r)
  unfolding parse_expression
  list_more p q r e es a b c = rw (a, b, c, parse_expression_list, ◌>>=◌)

  pub if_step :
      (p q r s t u : Parser) (c e f : Expression F) (cs : Clauses F)
      → enter_depth (advance p) ≡ some q
      → parse_expression g n 0 q ≡ some (c, r)
      → parse_expression g n 0 (expect then_kw r) ≡ some (e, s)
      → parse_elseif_clauses g n s ≡ some (cs, t)
      → parse_expression g n 0 (expect else_kw t) ≡ some (f, u)
      → parse_if_expression g (suc n) p ≡ some (if_expression c e cs f, exit_depth u)
  unfolding parse_expression
  if_step p q r s t u c e f cs h1 h2 h3 h4 h5 = rw (h1, h2, h3, h4, h5, parse_if_expression)

  pub clauses_end :
      (p : Parser)
      → check elseif_kw p ≡ false
      → parse_elseif_clauses g (suc n) p ≡ some (no_clauses, p)
  unfolding parse_expression
  clauses_end p a = rw (a, parse_elseif_clauses)

  pub clauses_more :
      (p q r s : Parser) (c e : Expression F) (cs : Clauses F)
      → check elseif_kw p ≡ true
      → parse_expression g n 0 (advance p) ≡ some (c, q)
      → parse_expression g n 0 (expect then_kw q) ≡ some (e, r)
      → parse_elseif_clauses g n r ≡ some (cs, s)
      → parse_elseif_clauses g (suc n) p ≡ some (add_clause c e cs, s)
  unfolding parse_expression
  clauses_more p q r s c e cs a b h k = rw (a, b, h, k, parse_elseif_clauses)

  pub table_step :
      (p q r : Parser) (fs : Fields F) (trailing : Bool)
      → enter_depth (advance p) ≡ some q
      → parse_fields g n false (skip_leading_separator q) ≡ some (fs, trailing, r)
      → parse_table_constructor g (suc n) p
        ≡ some (table fs trailing, expect right_brace (exit_depth r))
  unfolding parse_expression
  table_step p q r fs trailing a b = rw (a, b, parse_table_constructor)

  pub fields_end :
      (trailing : Bool) (p : Parser)
      → check right_brace p ≡ true
      → parse_fields g (suc n) trailing p ≡ some (no_fields, trailing, p)
  unfolding parse_expression
  fields_end trailing p a = rw (a, parse_fields)

  pub fields_last :
      (trailing : Bool) (p q : Parser) (f : Field F)
      → check right_brace p || check eof p ≡ false
      → parse_field g n p ≡ some (f, q)
      → check_separator q ≡ false
      → parse_fields g (suc n) trailing p ≡ some (add_field f no_fields, false, q)
  unfolding parse_expression
  fields_last trailing p q f a b c = rw (a, b, c, parse_fields, ◌>>=◌)

  pub fields_more :
      (trailing t : Bool) (p q r : Parser) (f : Field F) (fs : Fields F)
      → check right_brace p || check eof p ≡ false
      → parse_field g n p ≡ some (f, q)
      → check_separator q ≡ true
      → parse_fields g n true (advance q) ≡ some (fs, t, r)
      → parse_fields g (suc n) trailing p ≡ some (add_field f fs, t, r)
  unfolding parse_expression
  fields_more trailing t p q r f fs a b c h = rw (a, b, c, h, parse_fields, ◌>>=◌)

  pub field_bracketed :
      (p q r : Parser) (key value : Expression F)
      → check left_bracket p ≡ true
      → parse_expression g n 0 (advance p) ≡ some (key, q)
      → parse_expression g n 0 (expect equal (expect right_bracket q)) ≡ some (value, r)
      → parse_field g (suc n) p ≡ some (bracketed key value, r)
  unfolding parse_expression
  field_bracketed p q r key value a b c = rw (a, b, c, parse_field)

  pub field_named :
      (p q r : Parser) (s : Bytes) (value : Expression F)
      → check left_bracket p ≡ false
      → is_named_field p ≡ true
      → expect_identifier_recover p ≡ (s, q)
      → parse_expression g n 0 (advance q) ≡ some (value, r)
      → parse_field g (suc n) p ≡ some (named s value, r)
  unfolding parse_expression
  field_named p q r s value a b c h = rw (a, b, c, h, parse_field)

  pub field_positional :
      (p q : Parser) (value : Expression F)
      → check left_bracket p ≡ false
      → is_named_field p ≡ false
      → parse_expression g n 0 p ≡ some (value, q)
      → parse_field g (suc n) p ≡ some (positional value, q)
  unfolding parse_expression
  field_positional p q value a b c = rw (a, b, c, parse_field)
