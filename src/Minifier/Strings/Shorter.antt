-- ===== src/Minifier/Strings/Shorter.antt =====
-- Literals shortened by crates/luck_minifier/src/transforms/shorten_strings.rs.
use luck.Literal.Decode.{decode_string_literal}
use luck.Literal.Encode.{encode_string_literal}
use luck.Literal.RoundTrip.{decode-encode}
use luck.Minifier.Strings.{shorten_literal}
use luck.Prelude.{
  ◌≤◌, ◌≡◌, inl, inr, refl, some, Bool-cases, ltb, ltb→lt, length, All, IsByte, Bytes, arith,
  if◌then◌else◌,
}
use luck.Version.{LuaVersion}

-- The text is kept, or it is the shorter spelling of what it stands for.
shorten_literal-cases :
    (version : LuaVersion) (text bytes : Bytes)
    → decode_string_literal version text ≡ some bytes
    → shorten_literal version text ≡ (
        if ltb (length (encode_string_literal bytes)) (length text)
        then encode_string_literal bytes
        else text)
unfolding shorten_literal
shorten_literal-cases version text bytes e = rw (e, shorten_literal) refl

-- A literal that stands for some bytes stands for the same bytes when it is shortened, in every
-- dialect, and is no longer than before.
pub decode-shorten_literal :
    (version : LuaVersion) (text bytes : Bytes)
    → All IsByte bytes
    → decode_string_literal version text ≡ some bytes
    → (decode_string_literal version (shorten_literal version text) ≡ some bytes)
      × (length (shorten_literal version text) ≤ length text)
decode-shorten_literal version text bytes h e =
    elim (Bool-cases (ltb (length (encode_string_literal bytes)) (length text))) [
      | inl less ↦
          rw (shorten_literal-cases version text bytes e, less)
            (decode-encode version bytes h, omega (arith, ltb→lt _ _ less))
      | inr kept ↦ rw (shorten_literal-cases version text bytes e, kept) (e, omega arith)
    ]
