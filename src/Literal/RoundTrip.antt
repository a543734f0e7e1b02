-- ===== src/Literal/RoundTrip.antt =====
-- Reading back what `encode_string_literal` writes.
use luck.Literal.Decode.{
  decode_round, decode_loop, escape_arm, decimal_escape, decode_quoted, decode_string_literal,
}
use luck.Literal.Encode.{
  is_ascii_digit, starts_with_digit, push_decimal_escape, needs_escape, encode_string_literal,
}
use luck.Literal.Pieces.{break_text, Marked, values, piece, render, encode-render}
use luck.Prelude.{
  ℕ, ◌+◌, ◌/◌, ◌%◌, ◌≤◌, ◌<◌, ◌≡◌, refl, sym, ap, ◌∙◌, inl, inr, Bool, true, false, ◌||◌, some,
  List, [], ◌∷◌, ◌++◌, append_assoc, append-nil, arith, leb, ◌==◌, Bool-cases, any, All, take,
  length, length-append, take_prefix, IsByte, Bytes,
}
use luck.Version.{LuaVersion}

escape_arm-digit :
    (v : LuaVersion) (c : ℕ) (r : Bytes)
    → b'0' ≤ c
    → c ≤ b'9'
    → escape_arm v c r ≡ decimal_escape c r
unfolding escape_arm
escape_arm-digit v c r lo hi = ground arith

-- The digits that a decimal escape may read, and those it must not.
decimal-three :
    (b : ℕ) (rest : Bytes)
    → IsByte b
    → decimal_escape (b'0' + b / 100) ((b'0' + b / 10 % 10) ∷ (b'0' + b % 10) ∷ rest)
      ≡ some (b ∷ [], 2)
unfolding decimal_escape
decimal-three b rest h = ground arith

decimal-two :
    (b : ℕ) (rest : Bytes)
    → b < 100
    → starts_with_digit rest ≡ false
    → decimal_escape (b'0' + b / 10 % 10) ((b'0' + b % 10) ∷ rest) ≡ some (b ∷ [], 1)
unfolding decimal_escape
decimal-two b [] h e = ground arith
decimal-two b (c ∷ rest) h e = ground arith

decimal-one :
    (b : ℕ) (rest : Bytes)
    → b < 10
    → starts_with_digit rest ≡ false
    → decimal_escape (b'0' + b % 10) rest ≡ some (b ∷ [], 0)
unfolding decimal_escape
decimal-one b [] h e = ground arith
decimal-one b (c ∷ rest) h e = ground arith

-- One round of the loop at a backslash, when the arm takes `taken` bytes and leaves `rest`.
decode_loop-escape :
    (v : LuaVersion) (out : Bytes) (c : ℕ) (r piece : Bytes) (taken : ℕ)
    → escape_arm v c r ≡ some (piece, taken)
    → decode_loop v out 0 (b'\\' ∷ c ∷ r) ≡ decode_loop v (out ++ piece) taken r
unfolding decode_loop decode_round
decode_loop-escape v out c r piece taken h = rw (h, decode_loop)

decode_loop-plain :
    (v : LuaVersion) (out : Bytes) (b : ℕ) (r : Bytes)
    → (b == b'\\') ≡ false
    → decode_loop v out 0 (b ∷ r) ≡ decode_loop v (out ++ b ∷ []) 0 r
unfolding decode_loop decode_round
decode_loop-plain v out b r h = rw (h, decode_loop)

-- The loop reads the escape of a byte as that byte, if no digit follows a short decimal escape.
module _ (v : LuaVersion) (out : Bytes) (b : ℕ) (rest : Bytes) (is_byte : IsByte b) where
  decode_loop-decimal :
      (d : Bool)
      → (d ≡ false → starts_with_digit rest ≡ false)
      → decode_loop v out 0 (push_decimal_escape [] b d ++ rest)
        ≡ decode_loop v (out ++ b ∷ []) 0 rest
  unfolding push_decimal_escape
  decode_loop-decimal d h = elim (Bool-cases (leb 100 b || d)) [
    | inl e ↦
        let wide : (leb 10 b || d) ≡ true = ground arith in
        rw (e, wide)
          (decode_loop-escape v out (b'0' + b / 100) _ (b ∷ []) 2
              (escape_arm-digit v _ _ (omega arith) (omega arith) ∙ decimal-three b rest is_byte)
            ∙ unfold decode_loop in refl)
    | inr e ↦ elim (Bool-cases (leb 10 b || d)) [
      | inl e' ↦
          let short : starts_with_digit rest ≡ false = h (ground arith) in
          rw (e, e')
            (decode_loop-escape v out (b'0' + b / 10 % 10) _ (b ∷ []) 1 (
                escape_arm-digit v _ _ (omega arith) (omega arith)
                ∙ decimal-two b rest (ground arith) short)
              ∙ unfold decode_loop in refl)
      | inr e' ↦
          let short : starts_with_digit rest ≡ false = h (ground arith) in
          rw (e, e')
            (decode_loop-escape v out (b'0' + b % 10) _ (b ∷ []) 0 (
              escape_arm-digit v _ _ (omega arith) (omega arith)
              ∙ decimal-one b rest (ground arith) short))
    ]
  ]

  decode_loop-break :
      (d : Bool)
      → (d ≡ false → starts_with_digit rest ≡ false)
      → decode_loop v out 0 (break_text b d ++ rest) ≡ decode_loop v (out ++ b ∷ []) 0 rest
  unfolding break_text decode_loop decode_round escape_arm
  decode_loop-break d h = ground (arith, decode_loop-decimal d h)

  decode_loop-piece :
      (ok d : Bool)
      → (d ≡ false → starts_with_digit rest ≡ false)
      → decode_loop v out 0 (piece ok b d ++ rest) ≡ decode_loop v (out ++ b ∷ []) 0 rest
  unfolding piece
  decode_loop-piece false d h = decode_loop-decimal d h
  decode_loop-piece true d h = elim (Bool-cases (needs_escape b)) [
    | inl e ↦ rw e (decode_loop-break d h)
    | inr e ↦ rw e (decode_loop-plain v out b rest (unfold needs_escape in ground arith))
  ]

-- What is written for bytes that do not start with a digit does not start with one.
piece_head :
    (ok : Bool) (b : ℕ) (d : Bool) (rest : Bytes)
    → is_ascii_digit b ≡ false
    → starts_with_digit (piece ok b d ++ rest) ≡ false
unfolding piece push_decimal_escape break_text needs_escape
piece_head ok b d rest h = ground arith

pub render_head :
    (l : List Marked) → starts_with_digit (values l) ≡ false → starts_with_digit (render l) ≡ false
unfolding render
render_head [] h = refl
render_head ((ok, b) ∷ l) h = piece_head ok b (starts_with_digit (values l)) (render l) h

decode_loop-render :
    (v : LuaVersion) (l : List Marked) (out : Bytes)
    → All IsByte (values l)
    → decode_loop v out 0 (render l) ≡ some (out ++ values l)
unfolding render
decode_loop-render v [] out h = rw append-nil (unfold decode_loop in refl)
decode_loop-render v ((ok, b) ∷ l) out h =
    decode_loop-piece v out b (render l) h.0 ok (starts_with_digit (values l)) (render_head l)
    ∙ decode_loop-render v l (out ++ b ∷ []) h.1
    ∙ ap some (append_assoc out (b ∷ []) (values l))

-- Without a backslash the loop copies, as the short cut does.
decode_loop-copy :
    (v : LuaVersion) (r out : Bytes)
    → any (λ c. c == b'\\') r ≡ false
    → decode_loop v out 0 r ≡ some (out ++ r)
decode_loop-copy v [] out h = rw append-nil (unfold decode_loop in refl)
decode_loop-copy v (b ∷ r) out h =
    decode_loop-plain v out b r (ground arith)
    ∙ decode_loop-copy v r (out ++ b ∷ []) (ground arith)
    ∙ ap some (append_assoc out (b ∷ []) r)

drop_last :
    (x : ℕ) (xs : Bytes) (c : ℕ) → take (length (xs ++ c ∷ [])) (x ∷ (xs ++ c ∷ [])) ≡ x ∷ xs
drop_last x xs c =
    let e : length (xs ++ c ∷ []) ≡ length (x ∷ xs) = omega (arith, length-append xs (c ∷ [])) in
    rw e (take_prefix (x ∷ xs) (c ∷ []))

-- Whether the short cut is taken or not, a quoted literal is its loop.
decode_quoted-loop :
    (v : LuaVersion) (body : Bytes) (c : ℕ)
    → decode_quoted v (body ++ c ∷ []) ≡ decode_loop v [] 0 body
unfolding decode_quoted
decode_quoted-loop v [] c = unfold decode_loop in refl
decode_quoted-loop v (x ∷ xs) c =
    rw (drop_last x xs c) (elim (Bool-cases (any (λ c. c == b'\\') (x ∷ xs))) [
      | inl e ↦ rw e
      | inr e ↦ rw e (sym (decode_loop-copy v (x ∷ xs) [] e))
    ])

-- Every dialect reads the literal that is written for some bytes as those bytes, whatever they are:
-- well-formed UTF-8 or not, quotes, backslashes, line breaks and control bytes among them.
pub decode-encode :
    (v : LuaVersion) (bytes : Bytes)
    → All IsByte bytes
    → decode_string_literal v (encode_string_literal bytes) ≡ some bytes
unfolding decode_string_literal
decode-encode v bytes h =
    let (l, same, text) = encode-render bytes in
    rw text
      (decode_quoted-loop v (render l) b'"' ∙ decode_loop-render v l [] (rw same h) ∙ ap some same)
