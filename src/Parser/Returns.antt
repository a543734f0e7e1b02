-- ===== src/Parser/Returns.antt =====
-- The tokens that are left after each part of the parser's state is used, and what it means that a
-- part of the parser returns.
use luck.Prelude.{
  ℕ, suc, Bool, true, false, List, [], ◌∷◌, Option, none, some, ◌≡◌, refl, sym, ap, ◌≤◌, ◌<◌, arith,
  length, leb, ◌>>=◌, if◌then◌else◌, inl, inr, ◌⊎◌,
}
use luck.Token.{
  TokenKind, identifier, string_literal, less, left_paren, left_brace, eof, Token, discriminant,
}
use luck.Token.Operators.{BinOp, binop_of}
use luck.Parser.{
  max_nesting_depth, ParseError, expected, expected_identifier, vararg_outside_function,
  ambiguous_call, unexpected_separator, Parser, kind_at, rest_of, peek, advance, push_error,
  is_kind, check, expect, expect_identifier_recover, enter_depth, exit_depth,
}
use luck.Parser.Expression.{
  next_op, Suffix, call, suffix_of, next_suffix, check_newline_call, check_vararg, check_separator,
  skip_leading_separator,
}

-- How many tokens are left.
unfoldable pub left : Parser → ℕ
left p = length p.tokens

-- A result that leaves no more than so many tokens.
abbrev pub Returns : {A : Type 0} → Option (A × Parser) → ℕ → Type 0
Returns {A} o m = (a : A) × (q : Parser) × (o ≡ some (a, q)) × (left q ≤ m)

pub Returns-bind :
    {A B : Type 0} (o : Option (A × Parser)) (k : A × Parser → Option (B × Parser)) (m l : ℕ)
    → Returns o m
    → ((a : A) (q : Parser) → left q ≤ m → Returns (k (a, q)) l)
    → Returns (o >>= k) l
Returns-bind o k m l (a, q, e, h) f = rw e (f a q h)

pub Returns-le :
    {A : Type 0} (o : Option (A × Parser)) (m l : ℕ) → m ≤ l → Returns o m → Returns o l
Returns-le o m l k (a, q, e, h) = (a, q, e, omega arith)

unfoldable pub is_eof : TokenKind → Bool
is_eof eof = true
is_eof _ = false

pub left-advance : (p : Parser) → left (advance p) ≤ left p
unfolding left advance rest_of
left-advance p = shorter p.tokens
  where
    shorter : (ts : List Token) → length (rest_of ts) ≤ length ts
    shorter [] = omega arith
    shorter (t ∷ ts) = omega arith

pub left-advance_lt :
    (p : Parser) (k : TokenKind) → peek p ≡ k → is_eof k ≡ false → left (advance p) < left p
unfolding left advance peek kind_at rest_of is_eof
left-advance_lt p k e h = shorter p.tokens e
  where
    shorter : (ts : List Token) → kind_at ts ≡ k → length (rest_of ts) < length ts
    shorter [] e = absurd (cc (ap is_eof e, h))
    shorter (t ∷ ts) e = omega arith

pub left-push_error : (e : ParseError) (p : Parser) → left (push_error e p) ≡ left p
unfolding left push_error
left-push_error e p = refl

pub left-exit_depth : (p : Parser) → left (exit_depth p) ≡ left p
unfolding left exit_depth
left-exit_depth p = refl

pub left-enter_depth : (p q : Parser) → enter_depth p ≡ some q → left q ≡ left p
unfolding left enter_depth
left-enter_depth p q h = entered (leb max_nesting_depth p.depth) h
  where
    entered :
        (b : Bool)
        → (if b then none else some (record p { depth = suc p.depth })) ≡ some q
        → length q.tokens ≡ length p.tokens
    entered true h = absurd (cc h)
    entered false h = ap (λ r. length r.tokens) (some_eq (sym h))
      where
        some_eq : {x y : Parser} → some x ≡ some y → x ≡ y
        some_eq e = cc e

pub left-expect : (k : TokenKind) (p : Parser) → left (expect k p) ≤ left p
unfolding expect
left-expect k p = branch (check k p)
  where
    branch :
        (b : Bool) → left (if b then advance p else push_error (expected k (peek p)) p) ≤ left p
    branch true = left-advance p
    branch false = omega (arith, left-push_error (expected k (peek p)) p)

ended : (k : TokenKind) → is_eof k ≡ false → is_kind k eof ≡ true → ⊥
unfolding is_eof is_kind discriminant
ended eof h c = absurd (cc h)
ended _ h c = absurd (cc c)

-- A kind that is seen and is not `eof` stands in front of the tokens.
pub check_peek :
    (k : TokenKind) (p : Parser) → is_eof k ≡ false → check k p ≡ true → left (advance p) < left p
unfolding left advance check peek kind_at rest_of
check_peek k p h c = shorter p.tokens c
  where
    shorter : (ts : List Token) → is_kind k (kind_at ts) ≡ true → length (rest_of ts) < length ts
    shorter [] c = absurd (ended k h c)
    shorter (t ∷ ts) c = omega arith

advance_or_eof : (p : Parser) → (peek p ≡ eof) ⊎ (left (advance p) < left p)
unfolding left advance peek kind_at rest_of
advance_or_eof p = split p.tokens
  where
    split : (ts : List Token) → (kind_at ts ≡ eof) ⊎ (length (rest_of ts) < length ts)
    split [] = inl refl
    split (t ∷ ts) = inr (omega arith)

next_op-eof : (min : ℕ) (p : Parser) → peek p ≡ eof → next_op min p ≡ none
unfolding next_op binop_of
next_op-eof min p h = rw h

suffix_of-eof : (b : Bool) → suffix_of b eof ≡ none
unfolding suffix_of
suffix_of-eof true = refl
suffix_of-eof false = refl

next_suffix-eof : (p : Parser) → peek p ≡ eof → next_suffix p ≡ none
unfolding next_suffix
next_suffix-eof p h = rw h (suffix_of-eof _)

pub next_op_lt :
    (min : ℕ) (p : Parser) (op : BinOp) → next_op min p ≡ some op → left (advance p) < left p
next_op_lt min p op h = elim (advance_or_eof p) [
  | inl e ↦ absurd (cc (h, next_op-eof min p e))
  | inr l ↦ l
]

pub next_suffix_lt : (p : Parser) (s : Suffix) → next_suffix p ≡ some s → left (advance p) < left p
next_suffix_lt p s h = elim (advance_or_eof p) [
  | inl e ↦ absurd (cc (h, next_suffix-eof p e))
  | inr l ↦ l
]

-- The kinds that start the arguments of a call, which the call takes.
unfoldable pub taken : TokenKind → ℕ
taken left_paren = 1
taken left_brace = 1
taken (string_literal s) = 1
taken _ = 0

suffix_of-call : (b : Bool) (k : TokenKind) → suffix_of b k ≡ some call → taken k ≡ 1
unfolding suffix_of taken
suffix_of-call b left_paren h = refl
suffix_of-call b left_brace h = refl
suffix_of-call b (string_literal s) h = refl
suffix_of-call true less h = absurd (cc h)
suffix_of-call false less h = absurd (cc h)
suffix_of-call true _ h = absurd (cc h)
suffix_of-call false _ h = absurd (cc h)

pub next_suffix-call : (p : Parser) → next_suffix p ≡ some call → taken (peek p) ≡ 1
unfolding next_suffix
next_suffix-call p h = suffix_of-call _ (peek p) h

pub left-check_vararg : (p : Parser) → left (check_vararg p) ≡ left p
unfolding check_vararg
left-check_vararg p = branch p.is_vararg_scope
  where
    branch : (b : Bool) → left (if b then p else push_error vararg_outside_function p) ≡ left p
    branch true = refl
    branch false = left-push_error vararg_outside_function p

-- The check of a call changes neither the tokens nor what is seen of them.
pub check_newline_call-tokens : (p : Parser) → (check_newline_call p).tokens ≡ p.tokens
unfolding check_newline_call push_error
check_newline_call-tokens p = branch _
  where
    branch : (b : Bool) → (if b then push_error ambiguous_call p else p).tokens ≡ p.tokens
    branch true = refl
    branch false = refl

pub left-skip : (p : Parser) → left (skip_leading_separator p) ≤ left p
unfolding skip_leading_separator
left-skip p = branch (check_separator p)
  where
    branch :
        (b : Bool) → left (if b then advance (push_error unexpected_separator p) else p) ≤ left p
    branch true = omega (
      arith,
      left-advance (push_error unexpected_separator p),
      left-push_error unexpected_separator p,
    )
    branch false = omega arith

pub left-expect_identifier : (p : Parser) → left (expect_identifier_recover p).1 ≤ left p
unfolding expect_identifier_recover
left-expect_identifier p = by_kind (peek p) refl
  where
    by_kind : (k : TokenKind) → peek p ≡ k → left (expect_identifier_recover p).1 ≤ left p
    by_kind (identifier s) e = rw (e, expect_identifier_recover) (left-advance p)
    by_kind k e =
        rw (e, expect_identifier_recover) (omega (arith, left-push_error (expected_identifier k) p))
