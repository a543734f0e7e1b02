-- ===== src/Parser/Termination.antt =====
-- The expression parser comes to an end on every list of tokens.
use luck.Prelude.{
  ℕ, zero, suc, ◌+◌, ◌*◌, Bool, true, false, ◌||◌, some, ◌≡◌, refl, ◌≤◌, arith, ◌>>=◌, Bool-cases,
  Option-cases, inl, inr,
}
use luck.Version.{is_luau}
use luck.Token.{
  TokenKind, identifier, number, string_literal, else_kw, elseif_kw, false_kw, function_kw, if_kw,
  nil_kw, then_kw, true_kw, dot_dot_dot, comma, equal, greater, left_paren, right_paren, left_brace,
  right_brace, left_bracket, right_bracket, interp_begin, at, eof,
}
use luck.Token.Operators.{unary_precedence, unop_of}
use luck.Syntax.{Expression, error, var, parenthesized, binary_op, unary_op, name, Fields}
use luck.Parser.{
  nesting_too_deep, expected_arguments, Parser, peek, advance, push_error, check, expect,
  expect_identifier_recover, enter_depth, exit_depth,
}
use luck.Parser.Expression.{
  Pieces, next_op, right_min, instantiation, dotted, indexed, method_call, call, next_suffix,
  check_newline_call, check_separator, skip_leading_separator, is_named_field,
  parse_method_type_args, parse_expression, climb, parse_prefix, parse_primary_expression,
  parse_suffixes, parse_function_args, parse_expression_list, parse_if_expression,
  parse_elseif_clauses, parse_table_constructor, parse_fields, parse_field,
}
use luck.Parser.Returns.{
  left, Returns, Returns-bind, Returns-le, is_eof, left-advance, left-advance_lt, left-push_error,
  left-exit_depth, left-enter_depth, left-expect, check_peek, next_op_lt, next_suffix_lt, taken,
  left-check_vararg, left-skip, left-expect_identifier,
}
use luck.Parser.Shrinks.{
  is_unary_none, is_unary_some, is_unary_not_eof, separator_lt, check_newline_call-left, Shrinks,
  no_expression_ends, left-assertions, left-method_type_args, at_ends,
}

module _ {F : Type 0} (g : Pieces F) (s : Shrinks g) where
  mutual
    unfolding parse_expression taken is_eof

    expression_ends :
        (n min : ℕ) (p : Parser)
        → 16 * left p + 6 ≤ n
        → Returns (parse_expression g n min p) (left p)
    expression_ends zero min p h = absurd (omega arith)
    expression_ends (suc n) min p h =
        Returns-bind _ _ (left p) (left p) (prefix_ends n p (omega arith))
          λ e q l. Returns-le _ (left q) (left p) l (climb_end_all n min e q (omega arith))

    climb_end_all :
        (n min : ℕ) (e : Expression F) (p : Parser)
        → 16 * left p + 1 ≤ n
        → Returns (climb g n min e p) (left p)
    climb_end_all zero min e p h = absurd (omega arith)
    climb_end_all (suc n) min e p h = elim (Option-cases (next_op min p)) [
      | inl x ↦ rw (x, climb) (e, p, refl, omega arith)
      | inr (op, x) ↦ elim (Option-cases (enter_depth (advance p))) [
        | inl y ↦
            rw (x, y, climb)
              (
                binary_op e op error,
                push_error nesting_too_deep (advance p),
                refl,
                omega (arith, left-push_error nesting_too_deep (advance p), left-advance p),
              )
        | inr (q, y) ↦
            let a = next_op_lt min p op x in
            let b = left-enter_depth (advance p) q y in
            rw (x, y, climb)
              (Returns-bind _ _ (left q) (left p) (expression_ends n (right_min op) q (omega arith))
                λ r t l.
                  let c = left-exit_depth t in
                  Returns-le _ (left (exit_depth t)) (left p) (omega arith)
                    (climb_end_all n min (binary_op e op r) (exit_depth t) (omega arith)))
      ]
    ]

    prefix_ends : (n : ℕ) (p : Parser) → 16 * left p + 5 ≤ n → Returns (parse_prefix g n p) (left p)
    prefix_ends zero p h = absurd (omega arith)
    prefix_ends (suc n) p h = elim (Option-cases (unop_of (peek p))) [
      | inl x ↦
          rw (is_unary_none (peek p) x, parse_prefix)
            (Returns-bind _ _ (left p) (left p) (primary_ends n (peek p) p refl (omega arith))
              λ e q l. let a = left-assertions g s e q in (_, _, refl, omega arith))
      | inr (op, x) ↦ elim (Option-cases (enter_depth (advance p))) [
        | inl y ↦
            rw (is_unary_some (peek p) op x, x, y, parse_prefix, ◌>>=◌)
              (
                error,
                push_error nesting_too_deep (advance p),
                refl,
                omega (arith, left-push_error nesting_too_deep (advance p), left-advance p),
              )
        | inr (q, y) ↦
            let a = left-advance_lt p (peek p) refl (is_unary_not_eof (peek p) op x) in
            let b = left-enter_depth (advance p) q y in
            rw (is_unary_some (peek p) op x, x, y, parse_prefix, ◌>>=◌)
              (Returns-bind _ _ (left q) (left p)
                (expression_ends n unary_precedence q (omega arith))
                λ r t l.
                  let c = left-exit_depth t in (unary_op op r, exit_depth t, refl, omega arith))
      ]
    ]

    primary_ends :
        (n : ℕ) (k : TokenKind) (p : Parser)
        → peek p ≡ k
        → 16 * left p + 4 ≤ n
        → Returns (parse_primary_expression g n k p) (left p)
    primary_ends zero k p e h = absurd (omega arith)
    primary_ends (suc n) nil_kw p e h = (_, _, refl, left-advance p)
    primary_ends (suc n) false_kw p e h = (_, _, refl, left-advance p)
    primary_ends (suc n) true_kw p e h = (_, _, refl, left-advance p)
    primary_ends (suc n) (number x) p e h = (_, _, refl, left-advance p)
    primary_ends (suc n) (string_literal x) p e h = (_, _, refl, left-advance p)
    primary_ends (suc n) dot_dot_dot p e h =
        (_, _, refl, omega (arith, left-advance p, left-check_vararg (advance p)))
    primary_ends (suc n) function_kw p e h = (_, _, refl, s.function_def p)
    primary_ends (suc n) at p e h = at_ends g s p
    primary_ends (suc n) left_brace p e h =
        let a = left-advance_lt p left_brace e refl in
        Returns-bind _ _ (left (advance p)) (left p) (table_ends n p (omega arith))
          λ t q l. (_, _, refl, omega arith)
    primary_ends (suc n) left_paren p e h = elim (Option-cases (enter_depth (advance p))) [
      | inl y ↦
          rw (y, parse_primary_expression)
            (
              error,
              push_error nesting_too_deep (advance p),
              refl,
              omega (arith, left-push_error nesting_too_deep (advance p), left-advance p),
            )
      | inr (q, y) ↦
          let a = left-advance_lt p left_paren e refl in
          let b = left-enter_depth (advance p) q y in
          rw (y, parse_primary_expression)
            (Returns-bind _ _ (left q) (left p) (expression_ends n 0 q (omega arith)) λ r t l.
              let c = left-exit_depth t in
              let d = left-expect right_paren (exit_depth t) in
              Returns-le _ (left (expect right_paren (exit_depth t))) (left p) (omega arith) (
                suffixes_end_all n (parenthesized r) (expect right_paren (exit_depth t))
                  (omega arith)))
    ]
    primary_ends (suc n) if_kw p e h = elim (Bool-cases (is_luau p.version)) [
      | inl y ↦
          let a = left-advance_lt p if_kw e refl in
          rw (y, parse_primary_expression)
            (Returns-le _ (left (advance p)) (left p) (omega arith) (if_ends n p (omega arith)))
      | inr y ↦ rw (y, parse_primary_expression) (no_expression_ends g s p)
    ]
    primary_ends (suc n) (interp_begin x) p e h = (_, _, refl, s.interpolated_string p)
    primary_ends (suc n) (identifier x) p e h =
        let a = left-advance_lt p (identifier x) e refl in
        Returns-le _ (left (advance p)) (left p) (omega arith)
          (suffixes_end_all n (var (name x)) (advance p) (omega arith))
    primary_ends (suc n) _ p e h = no_expression_ends g s p

    suffixes_end_all :
        (n : ℕ) (e : Expression F) (p : Parser)
        → 16 * left p + 3 ≤ n
        → Returns (parse_suffixes g n e p) (left p)
    suffixes_end_all zero e p h = absurd (omega arith)
    suffixes_end_all (suc n) e p h = elim (Option-cases (next_suffix p)) [
      | inl x ↦ rw (x, parse_suffixes) (e, p, refl, omega arith)
      | inr (instantiation, x) ↦
          let a = next_suffix_lt p instantiation x in
          let b = s.type_args (advance p) in
          let c = left-expect greater (g.parse_type_args (advance p)).1 in
          rw (x, parse_suffixes)
            (Returns-le _ (left (expect greater (g.parse_type_args (advance p)).1)) (left p)
              (omega arith)
              (suffixes_end_all n _ (expect greater (g.parse_type_args (advance p)).1)
                (omega arith)))
      | inr (dotted, x) ↦
          let a = next_suffix_lt p dotted x in
          let b = left-expect_identifier (advance p) in
          rw (x, parse_suffixes)
            (Returns-le _ (left (expect_identifier_recover (advance p)).1) (left p) (omega arith)
              (suffixes_end_all n _ (expect_identifier_recover (advance p)).1 (omega arith)))
      | inr (indexed, x) ↦
          let a = next_suffix_lt p indexed x in
          rw (x, parse_suffixes)
            (Returns-bind _ _ (left (advance p)) (left p)
              (expression_ends n 0 (advance p) (omega arith))
              λ i q l.
                let b = left-expect right_bracket q in
                Returns-le _ (left (expect right_bracket q)) (left p) (omega arith)
                  (suffixes_end_all n _ (expect right_bracket q) (omega arith)))
      | inr (method_call, x) ↦
          let a = next_suffix_lt p method_call x in
          let b = left-expect_identifier (advance p) in
          let c = left-method_type_args g s (expect_identifier_recover (advance p)).1 in
          let t = (parse_method_type_args g (expect_identifier_recover (advance p)).1).1 in
          rw (x, parse_suffixes)
            (Returns-bind _ _ (left t) (left p)
              (args_end n (peek t) t (left t) refl (omega arith) (omega arith))
              λ r q l.
                Returns-le _ (left q) (left p) (omega arith) (suffixes_end_all n _ q (omega arith)))
      | inr (call, x) ↦
          let a = next_suffix_lt p call x in
          let (t, b) = check_newline_call-left p x in
          rw (x, parse_suffixes)
            (Returns-bind _ _ (left (advance p)) (left p)
              (args_end n (peek (check_newline_call p)) (check_newline_call p) (left (advance p))
                refl (omega arith) (omega arith))
              λ r q l.
                Returns-le _ (left q) (left p) (omega arith) (suffixes_end_all n _ q (omega arith)))
    ]

    args_end :
        (n : ℕ) (k : TokenKind) (p : Parser) (m : ℕ)
        → peek p ≡ k
        → left p ≤ m + taken k
        → 16 * left p + 2 ≤ n
        → Returns (parse_function_args g n k p) m
    args_end zero k p m e t h = absurd (omega arith)
    args_end (suc n) left_paren p m e t h =
        let a = left-advance_lt p left_paren e refl in
        let f = left-expect right_paren (advance p) in
        elim (Bool-cases (check right_paren (advance p))) [
          | inl y ↦ rw (y, parse_function_args) (_, _, refl, omega (arith))
          | inr y ↦
              rw (y, parse_function_args)
                (Returns-bind _ _ (left (advance p)) m (list_ends n (advance p) (omega arith))
                  λ es q l. (_, _, refl, omega (arith, left-expect right_paren q)))
        ]
    args_end (suc n) left_brace p m e t h =
        let a = left-advance_lt p left_brace e refl in
        Returns-bind _ _ (left (advance p)) m (table_ends n p (omega arith))
          λ r q l. (_, _, refl, omega (arith))
    args_end (suc n) (string_literal x) p m e t h =
        let a = left-advance_lt p (string_literal x) e refl in (_, _, refl, omega (arith))
    args_end (suc n) k p m e t h = (_, _, refl, omega (arith, left-push_error expected_arguments p))

    list_ends :
        (n : ℕ) (p : Parser) → 16 * left p + 7 ≤ n → Returns (parse_expression_list g n p) (left p)
    list_ends zero p h = absurd (omega arith)
    list_ends (suc n) p h =
        Returns-bind _ _ (left p) (left p) (expression_ends n 0 p (omega arith)) λ e q l.
          elim (Bool-cases (check comma q)) [
            | inl y ↦
                let a = check_peek comma q refl y in
                rw y (
                  Returns-bind _ _ (left (advance q)) (left p)
                    (list_ends n (advance q) (omega arith)) λ es r k. (_, _, refl, omega arith))
            | inr y ↦ rw y (_, _, refl, omega arith)
          ]

    if_ends :
        (n : ℕ) (p : Parser)
        → 16 * left (advance p) + 7 ≤ n
        → Returns (parse_if_expression g n p) (left (advance p))
    if_ends zero p h = absurd (omega arith)
    if_ends (suc n) p h = elim (Option-cases (enter_depth (advance p))) [
      | inl y ↦
          rw (y, parse_if_expression)
            (
              error,
              push_error nesting_too_deep (advance p),
              refl,
              omega (arith, left-push_error nesting_too_deep (advance p)),
            )
      | inr (q, y) ↦
          let b = left-enter_depth (advance p) q y in
          rw (y, parse_if_expression)
            (Returns-bind _ _ (left q) _ (expression_ends n 0 q (omega arith)) λ c r l.
              let d = left-expect then_kw r in
              Returns-bind _ _ (left (expect then_kw r)) _
                (expression_ends n 0 (expect then_kw r) (omega arith))
                λ t u k. Returns-bind _ _ (left u) _ (clauses_end_all n u (omega arith)) λ cs x j.
                  let f = left-expect else_kw x in
                  Returns-bind _ _ (left (expect else_kw x)) _
                    (expression_ends n 0 (expect else_kw x) (omega arith))
                    λ e z i. (_, _, refl, omega (arith, left-exit_depth z)))
    ]

    clauses_end_all :
        (n : ℕ) (p : Parser) → 16 * left p + 1 ≤ n → Returns (parse_elseif_clauses g n p) (left p)
    clauses_end_all zero p h = absurd (omega arith)
    clauses_end_all (suc n) p h = elim (Bool-cases (check elseif_kw p)) [
      | inl y ↦
          let a = check_peek elseif_kw p refl y in
          rw (y, parse_elseif_clauses)
            (Returns-bind _ _ (left (advance p)) _ (expression_ends n 0 (advance p) (omega arith))
              λ c q l.
                let d = left-expect then_kw q in
                Returns-bind _ _ (left (expect then_kw q)) _
                  (expression_ends n 0 (expect then_kw q) (omega arith))
                  λ e r k.
                    Returns-bind _ _ (left r) _ (clauses_end_all n r (omega arith))
                      λ cs x j. (_, _, refl, omega arith))
      | inr y ↦ rw (y, parse_elseif_clauses) (_, _, refl, omega arith)
    ]

    table_ends :
        (n : ℕ) (p : Parser)
        → 16 * left (advance p) + 9 ≤ n
        → Returns (parse_table_constructor g n p) (left (advance p))
    table_ends zero p h = absurd (omega arith)
    table_ends (suc n) p h = elim (Option-cases (enter_depth (advance p))) [
      | inl y ↦
          rw (y, parse_table_constructor)
            (_, _, refl, omega (arith, left-push_error nesting_too_deep (advance p)))
      | inr (q, y) ↦
          let b = left-enter_depth (advance p) q y in
          let a = left-skip q in
          let (fs, t, r, e, l) = fields_end_all n false (skip_leading_separator q) (omega arith) in
          rw (y, e, parse_table_constructor)
            (_, _, refl, omega (arith, left-expect right_brace (exit_depth r), left-exit_depth r))
    ]

    fields_end_all :
        (n : ℕ) (b : Bool) (p : Parser)
        → 16 * left p + 8 ≤ n
        → (fs : Fields F) × (t : Bool) × (r : Parser) × (parse_fields g n b p ≡ some (fs, t, r))
          × (left r ≤ left p)
    fields_end_all zero b p h = absurd (omega arith)
    fields_end_all (suc n) b p h = elim (Bool-cases (check right_brace p || check eof p)) [
      | inl y ↦ rw (y, parse_fields) (_, _, _, refl, omega arith)
      | inr y ↦
          let (f, q, e, l) = field_ends n p (omega arith) in
          elim (Bool-cases (check_separator q)) [
            | inl z ↦
                let a = separator_lt q z in
                let (fs, t, r, d, k) = fields_end_all n true (advance q) (omega arith) in
                rw (y, e, z, d, parse_fields, ◌>>=◌) (_, _, _, refl, omega arith)
            | inr z ↦ rw (y, e, z, parse_fields, ◌>>=◌) (_, _, _, refl, omega arith)
          ]
    ]

    field_ends : (n : ℕ) (p : Parser) → 16 * left p + 7 ≤ n → Returns (parse_field g n p) (left p)
    field_ends zero p h = absurd (omega arith)
    field_ends (suc n) p h = elim (Bool-cases (check left_bracket p)) [
      | inl y ↦
          let a = left-advance p in
          rw (y, parse_field)
            (Returns-bind _ _ (left (advance p)) _ (expression_ends n 0 (advance p) (omega arith))
              λ c q l.
                let d = left-expect right_bracket q in
                let f = left-expect equal (expect right_bracket q) in
                Returns-bind _ _ (left (expect equal (expect right_bracket q))) _
                  (expression_ends n 0 (expect equal (expect right_bracket q)) (omega arith))
                  λ e r k. (_, _, refl, omega arith))
      | inr y ↦ elim (Bool-cases (is_named_field p)) [
        | inl z ↦
            let q = (expect_identifier_recover p).1 in
            let a = left-expect_identifier p in
            let b = left-advance q in
            rw (y, z, parse_field)
              (Returns-bind _ _ (left (advance q)) _ (expression_ends n 0 (advance q) (omega arith))
                λ e r k. (_, _, refl, omega arith))
        | inr z ↦
            rw (y, z, parse_field)
              (Returns-bind _ _ (left p) _ (expression_ends n 0 p (omega arith))
                λ e r k. (_, _, refl, omega arith))
      ]
    ]

  -- On every list of tokens, in every dialect and state, the expression parser returns a tree, with
  -- fuel for sixteen units a token and six more, and leaves no more tokens than it was given. The
  -- parts that are not modelled are taken to leave no more tokens than they are given.
  pub parse_expression-ends :
      (n min : ℕ) (p : Parser)
      → 16 * left p + 6 ≤ n
      → (e : Expression F) × (q : Parser) × (parse_expression g n min p ≡ some (e, q))
        × (left q ≤ left p)
  parse_expression-ends n min p h = expression_ends n min p h
