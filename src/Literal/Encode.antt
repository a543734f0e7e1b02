-- ===== src/Literal/Encode.antt =====
-- `encode_string_literal` of crates/luck_token/src/literal.rs.
use luck.Prelude.{
  ℕ, zero, suc, ◌+◌, ◌/◌, ◌%◌, Bool, false, ◌||◌, Option, none, some, List, [], ◌∷◌, ◌++◌, leb,
  ◌==◌, within, if◌then◌else◌, get_elem?, take, drop, length, Bytes,
}
use luck.Utf8.{Chunk, utf8_chunks, is_utf8}

abbrev pub is_ascii_digit : ℕ → Bool
is_ascii_digit b = within b'0' b'9' b

-- `bytes.get(i).is_some_and(u8::is_ascii_digit)`, at the first byte of what is left.
abbrev pub starts_with_digit : Bytes → Bool
starts_with_digit [] = false
starts_with_digit (b ∷ _) = is_ascii_digit b

-- What `push_decimal_escape` appends.
unfoldable pub push_decimal_escape : Bytes → ℕ → Bool → Bytes
push_decimal_escape out byte next_is_digit =
    let out1 = out ++ b'\\' ∷ [] in
    let out2 = if leb 100 byte || next_is_digit then out1 ++ (b'0' + byte / 100) ∷ [] else out1 in
    let out3 =
      if leb 10 byte || next_is_digit then out2 ++ (b'0' + byte / 10 % 10) ∷ [] else out2 in
    out3 ++ (b'0' + byte % 10) ∷ []

-- The bytes at which a run of text breaks.
unfoldable pub needs_escape : ℕ → Bool
needs_escape byte = leb byte 0x1F || byte == 0x7F || byte == b'"' || byte == b'\\'

-- `Iterator::position`
unfoldable pub position_from : ℕ → (ℕ → Bool) → Bytes → Option ℕ
position_from i p [] = none
position_from i p (b ∷ r) = if p b then some i else position_from (suc i) p r

unfoldable pub position : (ℕ → Bool) → Bytes → Option ℕ
unfolding position_from
position = position_from 0

abbrev pub backslashed : ℕ → Bytes
backslashed c = b'\\' ∷ c ∷ []

-- The arms of the `match` on the byte at a break; `rest` is the text behind it.
unfoldable pub push_break : Bytes → ℕ → Bytes → Bytes
push_break out byte rest =
    if byte == b'"'
    then out ++ backslashed b'"'
    else if byte == b'\\'
    then out ++ backslashed b'\\'
    else if byte == b'\n'
    then out ++ backslashed b'n'
    else if byte == b'\r'
    then out ++ backslashed b'r'
    else if byte == 0x07
    then out ++ backslashed b'a'
    else if byte == 0x08
    then out ++ backslashed b'b'
    else if byte == 0x0C
    then out ++ backslashed b'f'
    else if byte == b'\t'
    then out ++ backslashed b't'
    else if byte == 0x0B
    then out ++ backslashed b'v'
    else push_decimal_escape out byte (starts_with_digit rest)

abbrev pub byte_at : Bytes → ℕ → ℕ
byte_at text i = elim (get_elem? text i) [ none ↦ 0 | some b ↦ b ]

-- The `while let` loop; each round takes a byte at least, so the length of the text is fuel enough.
unfoldable pub push_escaped_text : ℕ → Bytes → Bytes → Bytes
unfolding needs_escape position
push_escaped_text zero out text = out ++ text
push_escaped_text (suc f) out text = elim (position needs_escape text) [
  | none ↦ out ++ text
  | some index ↦
      let rest = drop (index + 1) text in
      push_escaped_text f (push_break (out ++ take index text) (byte_at text index) rest) rest
]

-- The loop over the bytes of a broken character; `rest` is what follows it in the input.
unfoldable pub push_invalid : Bytes → Bytes → Bytes → Bytes
push_invalid out [] rest = out
push_invalid out (b ∷ bs) rest =
    push_invalid (push_decimal_escape out b (starts_with_digit (bs ++ rest))) bs rest

-- The loop over the chunks; `bytes` is the input from the chunk on, `bytes[offset..]`.
unfoldable pub push_chunks : Bytes → List Chunk → Bytes → Bytes
push_chunks out [] bytes = out
push_chunks out (c ∷ cs) bytes =
    let out1 = push_escaped_text (length c.valid) out c.valid in
    let rest = drop (length c.invalid) (drop (length c.valid) bytes) in
    push_chunks (push_invalid out1 c.invalid rest) cs rest

unfoldable pub encode_string_literal : Bytes → Bytes
encode_string_literal bytes =
    let out = b'"' ∷ [] in
    let body =
      if is_utf8 bytes
      then push_escaped_text (length bytes) out bytes
      else push_chunks out (utf8_chunks bytes) bytes in
    body ++ b'"' ∷ []
