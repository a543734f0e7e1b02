-- ===== src/Lexer/LongBracket/Closing.antt =====
-- The bracket that closes a long bracket, as crates/luck_lexer/src/string.rs finds it.
use luck.Lexer.Cursor.{Cursor, peek, peek_at, advance, count_while}
use luck.Lexer.LongBracket.{count_equals_at, advance_by, scan_rounds, scan_to_long_bracket_close}
use luck.Lexer.Number.{is_byte}
use luck.Prelude.{
  ℕ, zero, suc, ◌+◌, ◌-◌, ◌≤◌, ◌<◌, ◌≡◌, inl, inr, refl, sym, ap, ◌∙◌, Bool, true, false, ◌&&◌,
  Option, none, some, ◌∷◌, ◌==◌, Bool-cases, Option-cases, get_elem?, drop, length, length-drop,
  Bytes, arith,
}
use luck.Lexer.LongBracket.Closer.{
  bracket_lem, closer, drop-drop, first_close, first_close-AtBracket, first_close-cons,
  first_close-none, first_index, get_elem-drop, plus_one, plus_zero, shift, starts_with,
}

-- What the scan returns, for what the first closer is.
abbrev pub scanned_to : Cursor → Option ℕ → Bool × Cursor
scanned_to c none = (false, advance_by (length c.source - c.position) c)
scanned_to c (some n) = (true, advance_by n c)

behind_bracket : (s : Bytes) (pos : ℕ) (r : Bytes) → drop pos s ≡ b']' ∷ r → drop (pos + 1) s ≡ r
behind_bracket s pos r h = drop-drop pos 1 s ∙ ap (drop 1) h

get_elem_suc : (b : ℕ) (s : Bytes) (k : ℕ) → get_elem? (b ∷ s) (k + 1) ≡ get_elem? s k
get_elem_suc b s k = ap (get_elem? (b ∷ s)) (plus_one k)

-- The test of a round at a bracket.
closing_test :
    (level : ℕ) (c : Cursor) (r : Bytes)
    → drop c.position c.source ≡ b']' ∷ r
    → (count_equals_at c 1 == level && is_byte b']' (peek_at c (count_equals_at c 1 + 1)))
      ≡ starts_with (closer level) (b']' ∷ r)
closing_test level c r h =
    let k = count_while (λ b. b == b'=') r in
    rw (behind_bracket c.source c.position r h) (
      ap (λ o. (k == level) && is_byte b']' o)
        (get_elem-drop c.position (k + 1) c.source
          ∙ ap (λ s. get_elem? s (k + 1)) h
          ∙ get_elem_suc b']' r k)
      ∙ sym (bracket_lem level r))

counted :
    (level : ℕ) (c : Cursor) (r : Bytes)
    → drop c.position c.source ≡ b']' ∷ r
    → starts_with (closer level) (b']' ∷ r) ≡ true
    → count_equals_at c 1 ≡ level
counted level c r h y = ground (arith, closing_test level c r h ∙ y)

advance-bracket :
    (c : Cursor) (r : Bytes) → drop c.position c.source ≡ b']' ∷ r → advance c ≡ advance_by 1 c
unfolding advance
advance-bracket c r h =
    let there : peek c ≡ some b']' =
      ap (get_elem? c.source) (plus_zero c.position)
      ∙ get_elem-drop c.position 0 c.source
      ∙ ap (λ s. get_elem? s 0) h in
    rw (there, advance) refl

scanned_to-shift :
    (c : Cursor) (i : ℕ) (o : Option ℕ)
    → c.position + i < length c.source
    → scanned_to (advance_by 1 (advance_by i c)) o ≡ scanned_to c (shift i (shift 1 o))
scanned_to-shift c i none h = ap (λ n. (false, record c { position = n })) (omega (arith, h))
scanned_to-shift c i (some n) h = ap (λ n. (true, record c { position = n })) (omega arith)

closes_here :
    (level : ℕ) (s : Bytes)
    → starts_with (closer level) (b']' ∷ s) ≡ true
    → first_close level (b']' ∷ s) ≡ some (level + 2)
unfolding first_close
closes_here level s h = rw (h, first_close) refl

module _ (memchr : ℕ → Bytes → Option ℕ)
    (finds : (needle : ℕ) (s : Bytes) → memchr needle s ≡ first_index needle s) where
  scan_rounds_lem :
      (f level : ℕ) (c : Cursor)
      → c.position ≤ length c.source
      → length c.source - c.position < f
      → scan_rounds memchr f level c
        ≡ some (scanned_to c (first_close level (drop c.position c.source)))
  unfolding scan_rounds
  scan_rounds_lem zero level c le lt = absurd (omega (arith, lt))
  scan_rounds_lem (suc f) level c le lt =
      elim (Option-cases (memchr b']' (drop c.position c.source))) [
        | inl e ↦
            rw (e, first_close-none level _ (sym (finds b']' _) ∙ e), scan_rounds)
              (ap (λ n. some (false, advance_by n c)) (length-drop c.position c.source))
        | inr (i, e) ↦
            let a =
              first_close-AtBracket level (drop c.position c.source) i (sym (finds b']' _) ∙ e) in
            let at = advance_by i c in
            let here : drop at.position at.source ≡ b']' ∷ a.behind =
              drop-drop c.position i c.source ∙ a.here in
            elim (Bool-cases (starts_with (closer level) (b']' ∷ a.behind))) [
              | inl y ↦
                  rw (e, closing_test level at a.behind here ∙ y, scan_rounds)
                    (ap (λ n. some (true, record c { position = n }))
                        (omega (arith, counted level at a.behind here y))
                      ∙ sym (
                          ap (λ o. some (scanned_to c o))
                            (a.close ∙ ap (shift i) (closes_here level a.behind y))))
              | inr n ↦
                  rw (e, closing_test level at a.behind here ∙ n, scan_rounds)
                    (rw (advance-bracket at a.behind here) (
                      scan_rounds_lem f level (advance_by 1 at)
                        (omega (arith, a.in_range, length-drop c.position c.source))
                        (omega (arith, lt, a.in_range, length-drop c.position c.source))
                      ∙ ap (λ s. some (scanned_to (advance_by 1 at) (first_close level s)))
                          (behind_bracket c.source (c.position + i) a.behind here)
                      ∙ ap some (
                          scanned_to-shift c i (first_close level a.behind)
                            (omega (arith, a.in_range, length-drop c.position c.source)))
                      ∙ sym (
                          ap (λ o. some (scanned_to c o))
                            (a.close ∙ ap (shift i) (first_close-cons level b']' a.behind n)))))
            ]
      ]

  -- From a position in the source, the scan ends, behind the first closing bracket of the level if
  -- there is one, and else at the end of the source, and reports which.
  pub scan_to_long_bracket_close-first_close :
      (level : ℕ) (c : Cursor)
      → c.position ≤ length c.source
      → scan_to_long_bracket_close memchr level c
        ≡ some (scanned_to c (first_close level (drop c.position c.source)))
  unfolding scan_to_long_bracket_close
  scan_to_long_bracket_close-first_close level c le =
      scan_rounds_lem (length c.source + 1) level c le (omega arith)
