-- ===== src/Lexer/ShortString/Reads.antt =====
-- How the loop of `lex_short_string` (crates/luck_lexer/src/string.rs) reads the escapes that
-- `encode_string_literal` of crates/luck_token/src/literal.rs writes.
use luck.Lexer.Cursor.{Cursor, peek, advance}
use luck.Lexer.Escape.{consumed, decimal_run, lex_decimal_escape, lex_escape, is_simple_escape}
use luck.Lexer.LongBracket.Closer.{get_elem-drop, drop-drop}
use luck.Lexer.Number.{is_digit}
use luck.Lexer.ShortString.Bytewise.{at, advance-some, bytewise, short_string_round}
use luck.Literal.Encode.{starts_with_digit, push_decimal_escape, backslashed}
use luck.Literal.Pieces.{break_text}
use luck.Prelude.{
  ℕ, zero, suc, ◌+◌, ◌-◌, ◌*◌, ◌/◌, ◌%◌, ◌<◌, ◌≡◌, inl, inr, refl, ap, ap₂, ◌∙◌, Bool, true, false,
  not, ◌&&◌, ◌||◌, none, some, [], ◌∷◌, ◌++◌, ◌==◌, leb, Bool-cases, get_elem?, drop, length,
  IsByte, Bytes, arith,
}
use mathlib.Core.Path.{subst}
use luck.Version.{LuaVersion}

-- What follows the position `p`.
module _ (s : Bytes) (p b : ℕ) (r : Bytes) (e : drop p s ≡ b ∷ r) where
  pub drop-head : get_elem? s p ≡ some b
  drop-head =
      subst (λ (q : ℕ). get_elem? s q ≡ some b) (omega arith)
        (get_elem-drop p 0 s ∙ ap (λ l. get_elem? l 0) e)

  pub drop-next : drop (p + 1) s ≡ r
  drop-next = drop-drop p 1 s ∙ ap (drop 1) e

module _ (s : Bytes) where
  decimal_run-digit :
      (n value p x : ℕ) (r : Bytes)
      → drop p s ≡ x ∷ r
      → is_digit x ≡ true
      → decimal_run (suc n) value (at s p) ≡ decimal_run n (value * 10 + (x - b'0')) (at s (p + 1))
  unfolding decimal_run
  decimal_run-digit n value p x r e d =
      let here = drop-head s p x r e in rw (here, decimal_run, d, advance-some (at s p) x here) refl

  decimal_run-end :
      (n value p : ℕ) (r : Bytes)
      → drop p s ≡ r
      → starts_with_digit r ≡ false
      → decimal_run n value (at s p) ≡ (value, at s p)
  unfolding decimal_run
  decimal_run-end zero value p r e h = refl
  decimal_run-end (suc n) value p [] e h = rw (nothing, decimal_run) refl
    where
      nothing : get_elem? s p ≡ none
      nothing =
          subst (λ (q : ℕ). get_elem? s q ≡ none) (omega arith)
            (get_elem-drop p 0 s ∙ ap (λ l. get_elem? l 0) e)
  decimal_run-end (suc n) value p (x ∷ r) e h = rw (drop-head s p x r e, decimal_run, h) refl

-- A round of the loop, and how a piece of a literal is read in one.
module _ (display : ℕ → Bytes) (version : LuaVersion) (start quote : ℕ) (s : Bytes) where
  -- The text at `p` is read in one round.
  abbrev pub Read : ℕ → Bytes → Type 0
  Read p text =
      (g : ℕ)
      → bytewise display version start quote (suc g) (at s p)
        ≡ bytewise display version start quote g (at s (p + length text))

  Read-escape :
      (p x : ℕ) (r text : Bytes)
      → drop p s ≡ b'\\' ∷ x ∷ r
      → lex_escape display version x (at s (p + 1)) ≡ consumed (at s (p + 1 + length text))
      → Read p (b'\\' ∷ text)
  unfolding bytewise
  Read-escape p x r text e h g =
      let here = drop-head s p _ _ e in
      let behind = drop-head s (p + 1) x r (drop-next s p _ _ e) in
      let moved = advance-some (at s p) _ here in
      let next : peek (advance (at s p)) ≡ some x = ap peek moved ∙ behind in
      let arm = ap (lex_escape display version x) moved ∙ h in
      rw (here, bytewise, short_string_round, next, arm)
        (ap (λ q. bytewise display version start quote g (at s q)) (omega arith))

  -- The letters and signs that stand for one byte behind a backslash in every dialect.
  abbrev is_letter : ℕ → Bool
  is_letter x =
      is_simple_escape x
      && not (x == b'\n' || x == b'\r' || x == b'x' || x == b'z' || x == b'u' || is_digit x)

  lex_escape-letter :
      (x : ℕ) (c : Cursor)
      → is_letter x ≡ true
      → lex_escape display version x c ≡ consumed (advance c)
  unfolding lex_escape
  lex_escape-letter x c h = ground (arith, h)

  Read-letter :
      (p x : ℕ) (r : Bytes)
      → is_letter x ≡ true
      → drop p s ≡ backslashed x ++ r
      → Read p (backslashed x)
  Read-letter p x r h e =
      let behind = drop-head s (p + 1) x r (drop-next s p _ _ e) in
      Read-escape p x r (x ∷ []) e
        (lex_escape-letter x (at s (p + 1)) h ∙ ap consumed (advance-some (at s (p + 1)) x behind))

  lex_escape-digit :
      (x value q : ℕ) (c : Cursor)
      → is_digit x ≡ true
      → decimal_run 3 0 c ≡ (value, at s q)
      → value < 256
      → lex_escape display version x c ≡ consumed (at s q)
  unfolding lex_escape lex_decimal_escape
  lex_escape-digit x value q c d e lt = ground (arith, d, e, lt)

  -- The digits that a decimal escape may write.
  module _ (p b : ℕ) (rest : Bytes) (is_byte : IsByte b) where
    Read-three :
        drop p s ≡ b'\\' ∷ (b'0' + b / 100) ∷ (b'0' + b / 10 % 10) ∷ (b'0' + b % 10) ∷ rest
        → Read p (b'\\' ∷ (b'0' + b / 100) ∷ (b'0' + b / 10 % 10) ∷ (b'0' + b % 10) ∷ [])
    Read-three e =
        let e1 = drop-next s p _ _ e in
        let e2 = drop-next s (p + 1) _ _ e1 in
        let e3 = drop-next s (p + 1 + 1) _ _ e2 in
        Read-escape p _ _ ((b'0' + b / 100) ∷ (b'0' + b / 10 % 10) ∷ (b'0' + b % 10) ∷ []) e (
          lex_escape-digit (b'0' + b / 100) b (p + 1 + 3) _ (ground (arith, is_byte))
            (decimal_run-digit s 2 0 (p + 1) _ _ e1 (ground (arith, is_byte))
              ∙ decimal_run-digit s 1 _ (p + 1 + 1) _ _ e2 (ground (arith, is_byte))
              ∙ decimal_run-digit s 0 _ (p + 1 + 1 + 1) _ _ e3 (ground (arith, is_byte))
              ∙ unfold decimal_run in
                ap₂ (λ v q. (v, at s q)) (omega (arith, is_byte)) (omega arith))
            is_byte)

    Read-two :
        b < 100
        → starts_with_digit rest ≡ false
        → drop p s ≡ b'\\' ∷ (b'0' + b / 10 % 10) ∷ (b'0' + b % 10) ∷ rest
        → Read p (b'\\' ∷ (b'0' + b / 10 % 10) ∷ (b'0' + b % 10) ∷ [])
    Read-two lt end e =
        let e1 = drop-next s p _ _ e in
        let e2 = drop-next s (p + 1) _ _ e1 in
        let e3 = drop-next s (p + 1 + 1) _ _ e2 in
        Read-escape p _ _ ((b'0' + b / 10 % 10) ∷ (b'0' + b % 10) ∷ []) e (
          lex_escape-digit (b'0' + b / 10 % 10) b (p + 1 + 2) _ (ground (arith, lt))
            (decimal_run-digit s 2 0 (p + 1) _ _ e1 (ground (arith, lt))
              ∙ decimal_run-digit s 1 _ (p + 1 + 1) _ _ e2 (ground (arith, lt))
              ∙ decimal_run-end s 1 _ (p + 1 + 1 + 1) rest e3 end
              ∙ ap₂ (λ v q. (v, at s q)) (omega (arith, lt)) (omega arith))
            is_byte)

    Read-one :
        b < 10
        → starts_with_digit rest ≡ false
        → drop p s ≡ b'\\' ∷ (b'0' + b % 10) ∷ rest
        → Read p (b'\\' ∷ (b'0' + b % 10) ∷ [])
    Read-one lt end e =
        let e1 = drop-next s p _ _ e in
        let e2 = drop-next s (p + 1) _ _ e1 in
        Read-escape p _ _ ((b'0' + b % 10) ∷ []) e (
          lex_escape-digit (b'0' + b % 10) b (p + 1 + 1) _ (ground (arith, lt))
            (decimal_run-digit s 2 0 (p + 1) _ _ e1 (ground (arith, lt))
              ∙ decimal_run-end s 2 _ (p + 1 + 1) rest e2 end
              ∙ ap₂ (λ v q. (v, at s q)) (omega (arith, lt)) (omega arith))
            is_byte)

    pub Read-decimal :
        (d : Bool)
        → (d ≡ false → starts_with_digit rest ≡ false)
        → drop p s ≡ push_decimal_escape [] b d ++ rest
        → Read p (push_decimal_escape [] b d)
    unfolding push_decimal_escape
    Read-decimal d h = elim (Bool-cases (leb 100 b || d)) [
      | inl e ↦ let wide : (leb 10 b || d) ≡ true = ground (arith, e) in rw (e, wide) Read-three
      | inr e ↦ elim (Bool-cases (leb 10 b || d)) [
        | inl e' ↦ rw (e, e') (Read-two (ground (arith, e)) (h (ground (arith, e))))
        | inr e' ↦ rw (e, e') (Read-one (ground (arith, e')) (h (ground (arith, e))))
      ]
    ]

    pub Read-break :
        (d : Bool)
        → (d ≡ false → starts_with_digit rest ≡ false)
        → drop p s ≡ break_text b d ++ rest
        → Read p (break_text b d)
    unfolding break_text
    Read-break d h = ground (
      arith,
      Read-decimal d h,
      Read-letter p b'"' rest refl,
      Read-letter p b'\\' rest refl,
      Read-letter p b'n' rest refl,
      Read-letter p b'r' rest refl,
      Read-letter p b'a' rest refl,
      Read-letter p b'b' rest refl,
      Read-letter p b'f' rest refl,
      Read-letter p b't' rest refl,
      Read-letter p b'v' rest refl,
    )
