-- ===== src/Lexer/ShortString/Encoded.antt =====
-- `lex_short_string` of crates/luck_lexer/src/string.rs on the literals that
-- `encode_string_literal` of crates/luck_token/src/literal.rs writes.
use luck.Lexer.ShortString.Reads.{drop-head, drop-next, Read, Read-decimal, Read-break}
use luck.Lexer.Cursor.{slice}
use luck.Lexer.LongBracket.Closer.{drop-drop}
use luck.Lexer.LongBracket.{string_literal}
use luck.Lexer.ShortString.Bytewise.{
  at, left, advance-some, bytewise, short_string_round, bytewise-ordinary,
  lex_short_string-bytewise,
}
use luck.Lexer.ShortString.Ordinary.{first_index_by}
use luck.Lexer.ShortString.{lex_short_string}
use luck.Literal.Encode.{
  starts_with_digit, push_decimal_escape, needs_escape, encode_string_literal,
}
use luck.Literal.RoundTrip.{render_head}
use luck.Literal.Pieces.{break_text, Marked, values, piece, render, encode-render}
use luck.Prelude.{
  ℕ, zero, suc, ◌+◌, ◌-◌, ◌≤◌, ◌<◌, ◌≡◌, inl, inr, refl, sym, ap, ap₂, ◌∙◌, Bool, true, false, ◌||◌,
  Option, some, List, [], ◌∷◌, ◌++◌, ◌==◌, Bool-cases, drop, length, length-append, All, IsByte,
  Bytes, arith, append_assoc, drop_prefix, take, take_prefix,
}
use mathlib.Core.Path.{subst}
use luck.Version.{LuaVersion}

piece-longer : (ok : Bool) (b : ℕ) (d : Bool) → 0 < length (piece ok b d)
unfolding piece break_text push_decimal_escape
piece-longer ok b d = ground arith

length-render : (l : List Marked) → length l ≤ length (render l)
unfolding render
length-render [] = omega arith
length-render ((ok, b) ∷ l) =
    let head = piece ok b (starts_with_digit (values l)) in
    omega (
      arith,
      length-render l,
      piece-longer ok b (starts_with_digit (values l)),
      length-append head (render l),
    )

no_digit-append :
    (x tail : Bytes) → starts_with_digit x ≡ false → starts_with_digit (x ++ b'"' ∷ tail) ≡ false
no_digit-append [] tail h = refl
no_digit-append (b ∷ x) tail h = h

module _ (display : ℕ → Bytes) (version : LuaVersion) (start : ℕ) (s : Bytes) where
  Read-piece :
      (p b : ℕ) (rest : Bytes) (ok d : Bool)
      → IsByte b
      → (d ≡ false → starts_with_digit rest ≡ false)
      → drop p s ≡ piece ok b d ++ rest
      → Read display version start b'"' s p (piece ok b d)
  unfolding piece
  Read-piece p b rest false d is_byte h =
      Read-decimal display version start b'"' s p b rest is_byte d h
  Read-piece p b rest true d is_byte h = elim (Bool-cases (needs_escape b)) [
    | inl e ↦ rw e (Read-break display version start b'"' s p b rest is_byte d h)
    | inr e ↦ rw e (λ at_p g.
        bytewise-ordinary display version start b'"' s p b g (drop-head s p b rest at_p)
          (unfold needs_escape in ground (arith, e)))
  ]

  bytewise-render :
      (l : List Marked) (p g : ℕ) (tail : Bytes)
      → All IsByte (values l)
      → length l < g
      → drop p s ≡ render l ++ b'"' ∷ tail
      → let end = p + length (render l) + 1 in
        bytewise display version start b'"' g (at s p)
        ≡ some (string_literal (slice s start end), at s end)
  unfolding render bytewise
  bytewise-render l p zero tail bytes h e = absurd (omega (arith, h))
  bytewise-render [] p (suc g) tail bytes h e =
      let here = drop-head s p _ _ e in
      rw (here, bytewise, short_string_round, advance-some (at s p) _ here)
        (ap (λ q. some (string_literal (slice s start q), at s q)) (omega arith))
  bytewise-render ((ok, b) ∷ l) p (suc g) tail bytes h e =
      let d = starts_with_digit (values l) in
      let rest = render l ++ b'"' ∷ tail in
      let text = piece ok b d in
      let split : drop p s ≡ text ++ rest = e ∙ append_assoc text (render l) (b'"' ∷ tail) in
      let behind : drop (p + length text) s ≡ rest =
        drop-drop p (length text) s ∙ ap (drop (length text)) split ∙ drop_prefix text rest in
      Read-piece p b rest ok d bytes.0 (λ f. no_digit-append (render l) tail (render_head l f))
        split g
      ∙ bytewise-render l (p + length text) g tail bytes.1 (omega (arith, h)) behind
      ∙ ap (λ q. some (string_literal (slice s start q), at s q))
          (omega (arith, length-append text (render l)))

slice-literal :
    (front text tail : Bytes) (end : ℕ)
    → end ≡ length front + length text
    → slice (front ++ (text ++ tail)) (length front) end ≡ text
slice-literal front text tail end e =
    ap₂ take {x = end - length front} {y = length text} (omega (arith, e))
      (drop_prefix front (text ++ tail))
    ∙ take_prefix text tail

module _ (memchr : ℕ → Bytes → Option ℕ) (memchr3 : ℕ → ℕ → ℕ → Bytes → Option ℕ)
    (display : ℕ → Bytes) (version : LuaVersion) (front tail : Bytes)
    (finds : (n : ℕ) (s : Bytes) → memchr n s ≡ first_index_by (◌== n) s)
    (finds3 : (l m n : ℕ) (s : Bytes)
      → memchr3 l m n s ≡ first_index_by (λ b. b == l || b == m || b == n) s) where
  lex_short_string-render :
      (l : List Marked)
      → All IsByte (values l)
      → let text = b'"' ∷ (render l ++ b'"' ∷ []) in
        let source = front ++ (text ++ tail) in
        lex_short_string memchr memchr3 display version (at source (length front))
        ≡ some (string_literal text, at source (length front + length text))
  lex_short_string-render l is_bytes =
      let text = b'"' ∷ (render l ++ b'"' ∷ []) in
      let source = front ++ (text ++ tail) in
      let p = length front in
      let here = drop_prefix front (text ++ tail) in
      let quoted = drop-head source p _ _ here in
      let body : drop (p + 1) source ≡ render l ++ b'"' ∷ tail =
        drop-next source p _ _ here ∙ append_assoc (render l) (b'"' ∷ []) tail in
      let size : length text ≡ length (render l) + 2 =
        omega (arith, length-append (render l) (b'"' ∷ [])) in
      let fits : length l < left (at source p) = omega (
        arith,
        length-render l,
        size,
        length-append front (text ++ tail),
        length-append text tail,
      ) in
      let end : p + 1 + length (render l) + 1 ≡ p + length text = omega (arith, size) in
      lex_short_string-bytewise memchr memchr3 display version b'"' (at source p) finds finds3 refl
        quoted
      ∙ ap (bytewise display version p b'"' (left (at source p)))
          (advance-some (at source p) _ quoted)
      ∙ bytewise-render display version p source l (p + 1) _ tail is_bytes fits body
      ∙ ap₂ (λ t q. some (string_literal t, at source q)) (slice-literal front text tail _ end) end

-- In every dialect the lexer takes the literal that `encode_string_literal` writes for some bytes
-- as one string token: it accepts the escapes, ends at the closing quote and not before, and hands
-- out the whole text, wherever the literal stands in the source and whatever follows it.
pub lex_short_string-encode :
    (memchr : ℕ → Bytes → Option ℕ) (memchr3 : ℕ → ℕ → ℕ → Bytes → Option ℕ) (display : ℕ → Bytes)
    (version : LuaVersion) (front bytes tail : Bytes)
    → ((n : ℕ) (s : Bytes) → memchr n s ≡ first_index_by (◌== n) s)
    → ((l m n : ℕ) (s : Bytes)
        → memchr3 l m n s ≡ first_index_by (λ b. b == l || b == m || b == n) s)
    → All IsByte bytes
    → let text = encode_string_literal bytes in
      let source = front ++ (text ++ tail) in
      lex_short_string memchr memchr3 display version (at source (length front))
      ≡ some (string_literal text, at source (length front + length text))
lex_short_string-encode memchr memchr3 display version front bytes tail finds finds3 is_bytes =
    let (l, same, text) = encode-render bytes in
    rw text (
      lex_short_string-render memchr memchr3 display version front tail finds finds3 l
        (subst (All IsByte) (sym same) is_bytes))
