-- ===== src/Lexer/ShortString/Bytewise.antt =====
-- `lex_short_string` of crates/luck_lexer/src/string.rs against the loop without its searches.
use luck.Lexer.Cursor.{Cursor, peek, advance, slice}
use luck.Lexer.Escape.{EscapeResult, consumed, rejected, lex_escape}
use luck.Lexer.Escape.Moves.{Later, Later-refl, lex_escape-EndsLater}
use luck.Lexer.LongBracket.{StringResult, string_literal, refused, advance_by}
use luck.Lexer.LongBracket.Closer.{get_elem-drop}
use luck.Lexer.ShortString.{count_ordinary, short_string_rounds, lex_short_string}
use luck.Lexer.ShortString.Ordinary.{first_index_by, Clear-le, ends_run, count_ordinary-Clear}
use luck.Lexer.Number.{SourceError, error_at}
use luck.Prelude.{
  ℕ, zero, suc, ◌+◌, ◌-◌, ◌≤◌, ◌<◌, ◌≡◌, inl, inr, refl, sym, ap, ap₂, ◌⊎◌, ◌∙◌, true, false, ◌||◌,
  Option, none, some, ◌==◌, Bool-cases, Option-cases, codes, get_elem?, drop, length, length-drop,
  [], ◌∷◌, Bytes, arith,
}
use mathlib.Core.Path.{subst}
use luck.Version.{LuaVersion}

module _ (display : ℕ → Bytes) (version : LuaVersion) (start quote : ℕ) where
  -- What a byte does, for the rounds that follow.
  abbrev pub short_string_round :
      (Cursor → Option (StringResult × Cursor)) → Cursor → ℕ → Option (StringResult × Cursor)
  short_string_round next c b = elim (b == b'\n' || b == b'\r') [
    | true ↦ some (refused (error_at start c.position (codes "unterminated string")), c)
    | false ↦ elim (b == b'\\') [
      | true ↦ elim (peek (advance c)) [
        | none ↦
            some (
              refused (error_at start (advance c).position (codes "unterminated string")),
              advance c,
            )
        | some escaped ↦ elim (lex_escape display version escaped (advance c)) [
          | rejected error end ↦ some (refused error, end)
          | consumed end ↦ next end
        ]
      ]
      | false ↦ elim (b == quote) [
        | true ↦
            some (string_literal (slice (advance c).source start (advance c).position), advance c)
        | false ↦ next (advance c)
      ]
    ]
  ]

  -- One byte, or one escape sequence, at a time.
  unfoldable pub bytewise : ℕ → Cursor → Option (StringResult × Cursor)
  bytewise zero c = none
  bytewise (suc f) c = elim (peek c) [
    | none ↦ some (refused (error_at start c.position (codes "unterminated string")), c)
    | some b ↦ short_string_round (bytewise f) c b
  ]

abbrev pub at : Bytes → ℕ → Cursor
at s p = record { source = s; position = p }

-- How many bytes follow.
abbrev pub left : Cursor → ℕ
left c = length c.source - c.position

get_elem-lt : (s : Bytes) (i b : ℕ) → get_elem? s i ≡ some b → i < length s
get_elem-lt [] i b h = absurd (cc h)
get_elem-lt (x ∷ s) zero b h = omega arith
get_elem-lt (x ∷ s) (suc i) b h = omega (arith, get_elem-lt s i b h)

pub advance-some : (c : Cursor) (b : ℕ) → peek c ≡ some b → advance c ≡ at c.source (c.position + 1)
unfolding advance
advance-some c b e = rw (e, advance) refl

pub left-round :
    (c d : Cursor) (b f : ℕ) → peek c ≡ some b → Later (advance c) d → left c < suc f → left d < f
left-round c d b f e later h =
    let moved = advance-some c b e in
    let after : c.position + 1 ≤ d.position =
      omega (arith, later.after, ap (λ (x : Cursor). x.position) moved) in
    let size : length d.source ≡ length c.source =
      ap length (later.same ∙ ap (λ (x : Cursor). x.source) moved) in
    omega (arith, after, size, h, get_elem-lt c.source c.position b e)

EscapeResult-cases :
    (r : EscapeResult)
    → ((d : Cursor) × (r ≡ consumed d)) ⊎ ((e : SourceError) × (d : Cursor) × (r ≡ rejected e d))
EscapeResult-cases (consumed d) = inl (d, refl)
EscapeResult-cases (rejected e d) = inr (e, d, refl)

module _ (display : ℕ → Bytes) (version : LuaVersion) (start quote : ℕ) where
  pub bytewise-ordinary :
      (s : Bytes) (p b g : ℕ)
      → get_elem? s p ≡ some b
      → ends_run quote b ≡ false
      → bytewise display version start quote (suc g) (at s p)
        ≡ bytewise display version start quote g (at s (p + 1))
  unfolding bytewise
  bytewise-ordinary s p b g e h =
      let line : (b == b'\n' || b == b'\r') ≡ false = ground (arith, h) in
      let backslash : (b == b'\\') ≡ false = ground (arith, h) in
      let other : (b == quote) ≡ false = ground (arith, h) in
      rw (e, bytewise, short_string_round, line, backslash, other, advance-some (at s p) b e) refl

  -- A run of ordinary bytes takes a round for each of them.
  bytewise-run :
      (s : Bytes) (k p g : ℕ)
      → ((i : ℕ) → i < k → (b : ℕ) × (get_elem? s (p + i) ≡ some b) × (ends_run quote b ≡ false))
      → bytewise display version start quote (k + g) (at s p)
        ≡ bytewise display version start quote g (at s (p + k))
  bytewise-run s zero p g h =
      ap₂ (λ (m : ℕ) q. bytewise display version start quote m (at s q)) (omega arith) (omega arith)
  bytewise-run s (suc k) p g h =
      let (b, found, ordinary) = h 0 (omega arith) in
      let here : get_elem? s p ≡ some b =
        subst (λ (q : ℕ). get_elem? s q ≡ some b) (omega arith) found in
      ap (λ m. bytewise display version start quote m (at s p)) (omega arith)
      ∙ bytewise-ordinary s p b (k + g) here ordinary
      ∙ bytewise-run s k (p + 1) g (λ i lt.
        let (b', found', ordinary') = h (suc i) (omega (arith, lt)) in
        (b', subst (λ (q : ℕ). get_elem? s q ≡ some b') (omega arith) found', ordinary'))
      ∙ ap (λ q. bytewise display version start quote g (at s q)) (omega arith)

module _ (memchr : ℕ → Bytes → Option ℕ) (memchr3 : ℕ → ℕ → ℕ → Bytes → Option ℕ)
    (display : ℕ → Bytes) (version : LuaVersion) (start quote : ℕ)
    (finds : (n : ℕ) (s : Bytes) → memchr n s ≡ first_index_by (◌== n) s)
    (finds3 : (l m n : ℕ) (s : Bytes)
      → memchr3 l m n s ≡ first_index_by (λ b. b == l || b == m || b == n) s)
    (is_quote : (quote == b'"' || quote == b'\'') ≡ true) where
  bytewise-skip :
      (c : Cursor) (g : ℕ)
      → left c < g
      → let k = count_ordinary memchr memchr3 quote (drop c.position c.source) in
        (h : ℕ) × (left (advance_by k c) < h)
        × (bytewise display version start quote g c
            ≡ bytewise display version start quote h (advance_by k c))
  bytewise-skip c g h =
      let rest = drop c.position c.source in
      let k = count_ordinary memchr memchr3 quote rest in
      let clear = count_ordinary-Clear memchr memchr3 finds finds3 quote rest is_quote in
      let le : k ≤ left c =
        omega (arith, Clear-le _ k rest clear, length-drop c.position c.source) in
      (
        g - k,
        omega (arith, le, h),
        ap (λ n. bytewise display version start quote n c) (omega (arith, le, h))
            ∙ bytewise-run display version start quote c.source k c.position (g - k) (λ i lt.
              let (b, found, ordinary) = clear i lt in
              (b, get_elem-drop c.position i c.source ∙ found, ordinary)),
      )

  short_string_rounds-bytewise :
      (f g : ℕ) (c : Cursor)
      → left c < f
      → left c < g
      → short_string_rounds memchr memchr3 display version start quote f c
        ≡ bytewise display version start quote g c
  unfolding short_string_rounds bytewise
  short_string_rounds-bytewise zero g c h k = absurd (omega (arith, h))
  short_string_rounds-bytewise (suc f) zero c h k = absurd (omega (arith, k))
  short_string_rounds-bytewise (suc f) (suc g) c h k = elim (Option-cases (peek c)) [
    | inl e ↦ rw (e, short_string_rounds, bytewise) refl
    | inr (b, e) ↦ elim (Bool-cases (b == b'\n' || b == b'\r')) [
      | inl line ↦ rw (e, short_string_rounds, bytewise, short_string_round, line) refl
      | inr line ↦ elim (Bool-cases (b == b'\\')) [
        | inl slash ↦ elim (Option-cases (peek (advance c))) [
          | inl e' ↦ rw (e, short_string_rounds, bytewise, short_string_round, line, slash, e') refl
          | inr (x, e') ↦ elim (EscapeResult-cases (lex_escape display version x (advance c))) [
            | inl (d, r) ↦
                let ends = lex_escape-EndsLater display (advance c) version x in
                let later = rw (r) at ends in
                rw (e, short_string_rounds, bytewise, short_string_round, line, slash, e', r)
                  (short_string_rounds-bytewise f g d (left-round c d b f e later h)
                    (left-round c d b g e later k))
            | inr (error, d, r) ↦
                rw (e, short_string_rounds, bytewise, short_string_round, line, slash, e', r) refl
          ]
        ]
        | inr slash ↦ elim (Bool-cases (b == quote)) [
          | inl close ↦
              rw (e, short_string_rounds, bytewise, short_string_round, line, slash, close) refl
          | inr other ↦
              let next = advance c in
              let (g', room, same) =
                bytewise-skip next g (left-round c next b g e (Later-refl next) k) in
              let fewer = left-round c next b f e (Later-refl next) h in
              rw (e, short_string_rounds, bytewise, short_string_round, line, slash, other)
                (short_string_rounds-bytewise f g' _ (omega (arith, fewer)) room ∙ sym same)
        ]
      ]
    ]
  ]

-- The searches for the end of a run of ordinary bytes, eight bytes with a table and the rest with
-- `memchr3` and `memchr`, change nothing: behind an opening quote the result and the cursor are
-- those of a loop that goes on byte by byte and escape by escape, errors included. The parameters
-- find the first such byte.
pub lex_short_string-bytewise :
    (memchr : ℕ → Bytes → Option ℕ) (memchr3 : ℕ → ℕ → ℕ → Bytes → Option ℕ) (display : ℕ → Bytes)
    (version : LuaVersion) (quote : ℕ) (c : Cursor)
    → ((n : ℕ) (s : Bytes) → memchr n s ≡ first_index_by (◌== n) s)
    → ((l m n : ℕ) (s : Bytes)
        → memchr3 l m n s ≡ first_index_by (λ b. b == l || b == m || b == n) s)
    → (quote == b'"' || quote == b'\'') ≡ true
    → peek c ≡ some quote
    → lex_short_string memchr memchr3 display version c
      ≡ bytewise display version c.position quote (left c) (advance c)
unfolding lex_short_string
lex_short_string-bytewise memchr memchr3 display version quote c finds finds3 is_quote e =
    let lt = get_elem-lt c.source c.position quote e in
    let moved = advance-some c quote e in
    let fewer = left-round c (advance c) quote (left c) e (Later-refl (advance c)) (omega arith) in
    rw (e, lex_short_string)
      (short_string_rounds-bytewise memchr memchr3 display version c.position quote finds finds3
        is_quote (length c.source + 1) (left c) (advance c) (omega (arith, fewer)) fewer)
