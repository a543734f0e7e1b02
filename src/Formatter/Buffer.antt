-- ===== src/Formatter/Buffer.antt =====
-- The `CodeBuffer` of crates/luck_token/src/code_buffer.rs as the printer uses it: bytes to which
-- text is appended, cut at the end. Also `str::rfind` and `[u8]::ends_with`.
use luck.Prelude.{
  ℕ, zero, suc, Bool, false, ◌&&◌, ◌||◌, Option, none, some, [], ◌∷◌, ◌++◌, ltb, ◌==◌,
  if◌then◌else◌, get_elem?, replicate, any, Bytes,
}

-- `bytes.ends_with(b"\n\n")`
unfoldable pub ends_with_blank_line : Bytes → Bool
ends_with_blank_line [] = false
ends_with_blank_line (a ∷ []) = false
ends_with_blank_line (a ∷ b ∷ []) = a == b'\n' && b == b'\n'
ends_with_blank_line (a ∷ b ∷ c ∷ r) = ends_with_blank_line (b ∷ c ∷ r)

-- `content.contains('\n')`
abbrev pub has_newline : Bytes → Bool
has_newline = any (λ b. b == b'\n')

abbrev pub rfind_from : ℕ → Option ℕ → Bytes → Option ℕ
rfind_from i found [] = found
rfind_from i found (b ∷ r) = rfind_from (suc i) (if b == b'\n' then some i else found) r

-- `content.rfind('\n')`
unfoldable pub rfind_newline : Bytes → Option ℕ
rfind_newline = rfind_from 0 none

abbrev pub is_blank : Option ℕ → Bool
is_blank none = false
is_blank (some b) = b == b' ' || b == b'\t'

-- The `while` loop of `trim_trailing_whitespace`, on `trimmed_end`.
unfoldable pub trimmed_end : Bytes → ℕ → ℕ → ℕ
trimmed_end bytes line_start zero = 0
trimmed_end bytes line_start (suc e) =
    let shorter = trimmed_end bytes line_start e in
    if ltb line_start (suc e) && is_blank (get_elem? bytes e) then shorter else suc e

-- `CodeBuffer::print_ascii_repeat`
abbrev pub print_repeat : Bytes → ℕ → ℕ → Bytes
print_repeat out byte n = out ++ replicate n byte
