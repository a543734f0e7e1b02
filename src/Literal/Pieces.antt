-- ===== src/Literal/Pieces.antt =====
-- What `encode_string_literal` writes, byte by byte: the loops over runs and chunks are put beside
-- one plain recursion.
use luck.Literal.Encode.{
  is_ascii_digit, starts_with_digit, push_decimal_escape, needs_escape, backslashed, position_from,
  position, push_break, byte_at, push_escaped_text, push_invalid, push_chunks,
  encode_string_literal,
}
use luck.Prelude.{
  ℕ, zero, suc, ◌≤◌, ◌<◌, ◌≡◌, refl, sym, ap, ◌∙◌, inl, inr, Bool, true, false, ◌||◌, none, some,
  List, [], ◌∷◌, ◌++◌, append_assoc, append-nil, arith, leb, ◌==◌, if◌then◌else◌, Bool-cases,
  Option-cases, take, drop, length, drop_prefix, Bytes,
}
use mathlib.Core.Option
use native.Mathlib.Numerals.{add-one}
use luck.Utf8.{Chunk, is_utf8, utf8_chunks}
use luck.Utf8.Laws.{joined, BreaksAll, Breaks, utf8_chunks-joined, utf8_chunks-BreaksAll}

-- The escape of a byte at which a run of text breaks.
unfoldable pub break_text : ℕ → Bool → Bytes
break_text byte next_is_digit =
    if byte == b'"'
    then backslashed b'"'
    else if byte == b'\\'
    then backslashed b'\\'
    else if byte == b'\n'
    then backslashed b'n'
    else if byte == b'\r'
    then backslashed b'r'
    else if byte == 0x07
    then backslashed b'a'
    else if byte == 0x08
    then backslashed b'b'
    else if byte == 0x0C
    then backslashed b'f'
    else if byte == b'\t'
    then backslashed b't'
    else if byte == 0x0B
    then backslashed b'v'
    else push_decimal_escape [] byte next_is_digit

-- A byte of the input, and whether it stands in a whole character.
abbrev pub Marked : Type 0
Marked = Bool × ℕ

abbrev pub values : List Marked → Bytes
values [] = []
values ((ok, b) ∷ l) = b ∷ values l

unfoldable pub piece : Bool → ℕ → Bool → Bytes
piece false b next_is_digit = push_decimal_escape [] b next_is_digit
piece true b next_is_digit = if needs_escape b then break_text b next_is_digit else b ∷ []

unfoldable pub render : List Marked → Bytes
render [] = []
render ((ok, b) ∷ l) = piece ok b (starts_with_digit (values l)) ++ render l

abbrev mark : Bool → Bytes → List Marked
mark ok [] = []
mark ok (b ∷ r) = (ok, b) ∷ mark ok r

abbrev mark_all : List Chunk → List Marked
mark_all [] = []
mark_all (c ∷ cs) = mark true c.valid ++ (mark false c.invalid ++ mark_all cs)

values-append : (l m : List Marked) → values (l ++ m) ≡ values l ++ values m
values-append [] m = refl
values-append ((ok, b) ∷ l) m = ap (◌∷◌ b) (values-append l m)

values-mark : (ok : Bool) (r : Bytes) → values (mark ok r) ≡ r
values-mark ok [] = refl
values-mark ok (b ∷ r) = ap (◌∷◌ b) (values-mark ok r)

values-mark_all : (cs : List Chunk) → values (mark_all cs) ≡ joined cs
values-mark_all [] = refl
values-mark_all (c ∷ cs) = simp (values-append, values-mark, values-mark_all cs)

push_decimal_escape_lem :
    (out : Bytes) (b : ℕ) (d : Bool)
    → push_decimal_escape out b d ≡ out ++ push_decimal_escape [] b d
unfolding push_decimal_escape
push_decimal_escape_lem out b d = elim (Bool-cases (leb 100 b || d)) [
  | inl e ↦ elim (Bool-cases (leb 10 b || d)) [
    | inl e' ↦ rw (e, e') (simp append_assoc)
    | inr e' ↦ rw (e, e') (simp append_assoc)
  ]
  | inr e ↦ elim (Bool-cases (leb 10 b || d)) [
    | inl e' ↦ rw (e, e') (simp append_assoc)
    | inr e' ↦ rw (e, e') (simp append_assoc)
  ]
]

push_break_lem :
    (out : Bytes) (b : ℕ) (rest : Bytes)
    → push_break out b rest ≡ out ++ break_text b (starts_with_digit rest)
unfolding push_break break_text
push_break_lem out b rest = ground (arith, push_decimal_escape_lem out b (starts_with_digit rest))

position_from-suc :
    (i : ℕ) (p : ℕ → Bool) (r : Bytes)
    → position_from (suc i) p r ≡ Option.map suc (position_from i p r)
unfolding position_from
position_from-suc i p [] = refl
position_from-suc i p (b ∷ r) = elim (Bool-cases (p b)) [
  | inl e ↦ rw e
  | inr e ↦ rw e (position_from-suc (suc i) p r)
]

-- What `position` finds: the text up to there is copied, and the byte there breaks the run.
record Found (text : Bytes) (i : ℕ) : Type 0 where
  rendered :
      render (mark true text)
      ≡ take i text
        ++ (break_text (byte_at text i) (starts_with_digit (drop (suc i) text))
            ++ render (mark true (drop (suc i) text)))
  shorter : length (drop (suc i) text) < length text

position-cons :
    (p : ℕ → Bool) (b : ℕ) (r : Bytes)
    → position p (b ∷ r) ≡ (if p b then some 0 else Option.map suc (position p r))
unfolding position position_from
position-cons p b r = rw (position_from-suc 0 p r)

render-plain :
    (b : ℕ) (l : List Marked) → needs_escape b ≡ false → render ((true, b) ∷ l) ≡ b ∷ render l
unfolding render piece
render-plain b l e = rw e

render-break :
    (b : ℕ) (l : List Marked)
    → needs_escape b ≡ true
    → render ((true, b) ∷ l) ≡ break_text b (starts_with_digit (values l)) ++ render l
unfolding render piece
render-break b l e = rw e

position-none : (text : Bytes) → position needs_escape text ≡ none → render (mark true text) ≡ text
unfolding render
position-none [] h = refl
position-none (b ∷ r) h = elim (Bool-cases (needs_escape b)) [
  | inl e ↦ cc (rw (position-cons needs_escape b r, e) at h)
  | inr e ↦
      let none_left : position needs_escape r ≡ none =
        ground (arith, position-cons needs_escape b r) in
      render-plain b (mark true r) e ∙ ap (◌∷◌ b) (position-none r none_left)
]

Found-cons :
    (b : ℕ) (r : Bytes) (i : ℕ) → needs_escape b ≡ false → Found r i → Found (b ∷ r) (suc i)
Found-cons b r i e found = record {
  rendered = render-plain b (mark true r) e ∙ ap (◌∷◌ b) found.rendered;
  shorter = omega (arith, found.shorter);
}

position-plain :
    (b : ℕ) (r : Bytes) (i : ℕ)
    → needs_escape b ≡ false
    → position needs_escape (b ∷ r) ≡ some i
    → (j : ℕ) × (i ≡ suc j) × (position needs_escape r ≡ some j)
position-plain b r i e h = elim (Option-cases (position needs_escape r)) [
  | inl n ↦ cc (rw (position-cons needs_escape b r, e, n) at h)
  | inr (j, found) ↦ (j, ground (arith, position-cons needs_escape b r), found)
]

position-break :
    (b : ℕ) (r : Bytes) (i : ℕ)
    → needs_escape b ≡ true
    → position needs_escape (b ∷ r) ≡ some i
    → i ≡ 0
position-break b r i e h = ground (arith, position-cons needs_escape b r)

Found-here : (b : ℕ) (r : Bytes) → needs_escape b ≡ true → Found (b ∷ r) 0
Found-here b r e = record {
  rendered = rw (render-break b (mark true r) e) (rw (values-mark true r));
  shorter = omega arith;
}

position-some : (text : Bytes) (i : ℕ) → position needs_escape text ≡ some i → Found text i
unfolding position position_from
position-some [] i h = cc
position-some (b ∷ r) i h = elim (Bool-cases (needs_escape b)) [
  | inl e ↦ rw (position-break b r i e h) (Found-here b r e)
  | inr e ↦
      let (j, i_is, found) = position-plain b r i e h in
      rw i_is (Found-cons b r j e (position-some r j found))
]

-- The runs of a text come out as its bytes do.
push_escaped_text_lem :
    (f : ℕ) (out text : Bytes)
    → length text ≤ f
    → push_escaped_text f out text ≡ out ++ render (mark true text)
unfolding push_escaped_text
push_escaped_text_lem zero out [] h = unfold render in refl
push_escaped_text_lem zero out (b ∷ r) h = absurd (omega arith)
push_escaped_text_lem (suc f) out text h = elim (Option-cases (position needs_escape text)) [
  | inl e ↦ rw (e, push_escaped_text) (rw (position-none text e))
  | inr (i, e) ↦
      let found = position-some text i e in
      let rest = drop (suc i) text in
      rw (e, push_escaped_text, add-one i)
        (push_escaped_text_lem f _ rest (omega (arith, found.shorter))
          ∙ rw (push_break_lem (out ++ take i text) (byte_at text i) rest, found.rendered)
              (simp append_assoc))
]

-- A byte that follows a mark is looked at only for a digit.
render-append :
    (l m : List Marked)
    → starts_with_digit (values m) ≡ false
    → render (l ++ m) ≡ render l ++ render m
unfolding render
render-append [] m h = refl
render-append ((ok, b) ∷ []) m h = rw (h, append_assoc) refl
render-append ((ok, b) ∷ (ok', b') ∷ l) m h =
    ap (◌++◌ (piece ok b (is_ascii_digit b'))) (render-append ((ok', b') ∷ l) m h)
    ∙ sym (append_assoc _ (render ((ok', b') ∷ l)) (render m))

push_invalid_lem :
    (inv rest out : Bytes) (tail : List Marked)
    → values tail ≡ rest
    → push_invalid out inv rest ++ render tail ≡ out ++ render (mark false inv ++ tail)
unfolding push_invalid render piece
push_invalid_lem [] rest out tail h = refl
push_invalid_lem (b ∷ bs) rest out tail h =
    push_invalid_lem bs rest (push_decimal_escape out b (starts_with_digit (bs ++ rest))) tail h
    ∙ rw (push_decimal_escape_lem out b (starts_with_digit (bs ++ rest)))
        (rw (values-append (mark false bs) tail, values-mark false bs, h) (simp append_assoc))

Breaks-starts_with_digit :
    (inv rest : Bytes) → Breaks inv rest → starts_with_digit (inv ++ rest) ≡ false
Breaks-starts_with_digit [] rest h = rw h
Breaks-starts_with_digit (b ∷ inv) rest h = ground arith

push_chunks_lem :
    (cs : List Chunk) (out : Bytes)
    → BreaksAll cs
    → push_chunks out cs (joined cs) ≡ out ++ render (mark_all cs)
unfolding push_chunks
push_chunks_lem [] out h = unfold render in sym (append-nil out)
push_chunks_lem (c ∷ cs) out h =
    let valid = c.valid in
    let inv = c.invalid in
    let rest = joined cs in
    let follows : values (mark false inv ++ mark_all cs) ≡ inv ++ rest =
      simp (values-append, values-mark, values-mark_all) in
    let no_digit : starts_with_digit (values (mark false inv ++ mark_all cs)) ≡ false =
      rw follows (Breaks-starts_with_digit inv rest h.0) in
    rw (drop_prefix valid (inv ++ rest), drop_prefix inv rest)
      (push_chunks_lem cs _ h.1
        ∙ push_invalid_lem inv rest (push_escaped_text (length valid) out valid) (mark_all cs)
            (values-mark_all cs)
        ∙ rw (push_escaped_text_lem (length valid) out valid (omega arith)) (
            rw (render-append (mark true valid) (mark false inv ++ mark_all cs) no_digit)
              (append_assoc out _ _)))

-- The literal of a text is its bytes, each in its form, between quotes.
pub encode-render :
    (bytes : Bytes)
    → (l : List Marked) × (values l ≡ bytes)
      × (encode_string_literal bytes ≡ b'"' ∷ (render l ++ b'"' ∷ []))
unfolding encode_string_literal
encode-render bytes = elim (Bool-cases (is_utf8 bytes)) [
  | inl e ↦ (
    mark true bytes,
    values-mark true bytes,
    rw e (rw (push_escaped_text_lem (length bytes) (b'"' ∷ []) bytes (omega arith))),
  )
  | inr e ↦
      let cs = utf8_chunks bytes in
      let all_bytes = utf8_chunks-joined bytes in
      (
        mark_all cs,
        values-mark_all cs ∙ all_bytes,
        rw e (
            ap (λ b. push_chunks (b'"' ∷ []) cs b ++ b'"' ∷ []) (sym all_bytes)
            ∙ rw (push_chunks_lem cs (b'"' ∷ []) (utf8_chunks-BreaksAll bytes))),
      )
]
