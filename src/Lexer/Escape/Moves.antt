-- ===== src/Lexer/Escape/Moves.antt =====
-- The cursor of crates/luck_lexer/src/cursor.rs does not move back over an escape sequence.
use luck.Lexer.Cursor.{Cursor, peek, advance, eat_while}
use luck.Lexer.Escape.{
  EscapeResult, consumed, rejected, advance_over, decimal_run, hex_run, lex_decimal_escape,
  lex_hex_escape, lex_unicode_escape, reject_escape, lex_escape, is_space, is_continuation,
}
use luck.Lexer.Number.{is_byte, is_digit, is_hexdigit, is_some_and}
use luck.Prelude.{
  ℕ, zero, suc, ◌≤◌, ◌≡◌, inl, inr, refl, ◌∙◌, Bool, Option, if-cases, Option-cases, Bytes, arith,
}
use luck.Version.{LuaVersion}

-- In the same source, no earlier.
pub record Later (c d : Cursor) : Type 0 where
  pub same : d.source ≡ c.source
  pub after : c.position ≤ d.position

pub Later-refl : (c : Cursor) → Later c c
Later-refl c = record { same = refl; after = omega arith }

pub Later-trans : (a b c : Cursor) → Later a b → Later b c → Later a c
Later-trans a b c x y = record { same = y.same ∙ x.same; after = omega (arith, x.after, y.after) }

pub advance-Later : (c : Cursor) → Later c (advance c)
unfolding advance
advance-Later c = elim (Option-cases (peek c)) [
  | inl e ↦ rw (e, advance) (Later-refl c)
  | inr (b, e) ↦ rw (e, advance) (record { same = refl; after = omega arith })
]

eat_while-Later : (p : ℕ → Bool) (c : Cursor) → Later c (eat_while p c)
unfolding eat_while
eat_while-Later p c = record { same = refl; after = omega arith }

advance_over-Later : (b : ℕ) (c : Cursor) → Later c (advance_over b c)
unfolding advance_over
advance_over-Later b c =
    if-cases (Later c) (is_byte b (peek c)) _ _ (λ _. advance-Later c) (λ _. Later-refl c)

decimal_run-Later : (n value : ℕ) (c : Cursor) → Later c (decimal_run n value c).1
unfolding decimal_run
decimal_run-Later zero value c = Later-refl c
decimal_run-Later (suc n) value c = elim (Option-cases (peek c)) [
  | inl e ↦ rw (e, decimal_run) (Later-refl c)
  | inr (d, e) ↦
      rw (e, decimal_run)
        (if-cases (λ (r : ℕ × Cursor). Later c r.1) (is_digit d) _ _
          (λ _. Later-trans c _ _ (advance-Later c) (decimal_run-Later n _ (advance c)))
          (λ _. Later-refl c))
]

hex_run-Later : (n i : ℕ) (c : Cursor) → Later c (hex_run n i c).1
unfolding hex_run
hex_run-Later zero i c = Later-refl c
hex_run-Later (suc n) i c =
    if-cases (λ (r : Option ℕ × Cursor). Later c r.1) (is_some_and (peek c) is_hexdigit) _ _
      (λ _. Later-trans c _ _ (advance-Later c) (hex_run-Later n _ (advance c))) (λ _. Later-refl c)

-- Where an escape leaves the cursor, in both cases.
abbrev pub end_of : EscapeResult → Cursor
end_of (consumed d) = d
end_of (rejected e d) = d

abbrev pub EndsLater : Cursor → EscapeResult → Type 0
EndsLater c r = Later c (end_of r)

module _ (display : ℕ → Bytes) (c : Cursor) where
  lex_decimal_escape-EndsLater : EndsLater c (lex_decimal_escape display c)
  unfolding lex_decimal_escape
  lex_decimal_escape-EndsLater = let later = decimal_run-Later 3 0 c in ground (arith, later)

  lex_hex_escape-EndsLater : EndsLater c (lex_hex_escape display c)
  unfolding lex_hex_escape
  lex_hex_escape-EndsLater =
      let later = Later-trans c _ _ (advance-Later c) (hex_run-Later 2 0 (advance c)) in
      elim (Option-cases (hex_run 2 0 (advance c)).0) [
        | inl e ↦ rw (e, lex_hex_escape) later
        | inr (i, e) ↦ rw (e, lex_hex_escape) later
      ]

  lex_unicode_escape-EndsLater : EndsLater c (lex_unicode_escape display c)
  unfolding lex_unicode_escape
  lex_unicode_escape-EndsLater =
      let brace = advance-Later c in
      let first = Later-trans c _ _ brace (advance-Later (advance c)) in
      let end = Later-trans c _ _ first (eat_while-Later is_hexdigit (advance (advance c))) in
      let over = Later-trans c _ _ end (advance-Later _) in ground (arith, brace, end, over)

  pub lex_escape-EndsLater :
      (version : LuaVersion) (escaped : ℕ) → EndsLater c (lex_escape display version escaped c)
  unfolding lex_escape reject_escape
  lex_escape-EndsLater version escaped =
      let next = advance-Later c in
      let carriage_return = Later-trans c _ _ next (advance_over-Later b'\r' (advance c)) in
      let line_feed = Later-trans c _ _ next (advance_over-Later b'\n' (advance c)) in
      let spaces = Later-trans c _ _ next (eat_while-Later is_space (advance c)) in
      let character = Later-trans c _ _ next (eat_while-Later is_continuation (advance c)) in
      ground (
        arith, next, carriage_return, line_feed, spaces, character, lex_decimal_escape-EndsLater,
        lex_hex_escape-EndsLater, lex_unicode_escape-EndsLater,
      )
