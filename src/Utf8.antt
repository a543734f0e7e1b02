-- ===== src/Utf8.antt =====
-- The parts of Rust's standard library on UTF-8 that the literals use: `str::from_utf8`,
-- `<[u8]>::utf8_chunks`, `char::from_u32` and `char::encode_utf8`, over bytes.
pub mod Laws
use luck.Prelude.{
  ℕ, zero, suc, ◌+◌, ◌-◌, ◌*◌, ◌/◌, ◌%◌, Bool, true, false, ◌&&◌, ◌||◌, Option, none, some, List,
  [], ◌∷◌, ◌++◌, ltb, leb, ◌==◌, within, if◌then◌else◌, get_elem?, take, drop, length, Bytes,
}

-- How a sequence at the head of the input begins: a whole character with so many bytes behind its
-- first, or so many bytes behind the first of one that breaks off.
pub data Scan : Type 0 where
  whole : ℕ → Scan
  broken : ℕ → Scan

abbrev pub is_continuation : Option ℕ → Bool
is_continuation none = false
is_continuation (some b) = within 0x80 0xBF b

abbrev pub in_range : ℕ → ℕ → Option ℕ → Bool
in_range lo hi none = false
in_range lo hi (some b) = within lo hi b

-- The second byte that a three or four byte sequence allows after `first`.
unfoldable pub second_ok : ℕ → Option ℕ → Bool
second_ok first b =
    if first == 0xE0
    then in_range 0xA0 0xBF b
    else if first == 0xED
    then in_range 0x80 0x9F b
    else if first == 0xF0
    then in_range 0x90 0xBF b
    else if first == 0xF4
    then in_range 0x80 0x8F b
    else in_range 0x80 0xBF b

unfoldable pub scan : ℕ → Bytes → Scan
unfolding second_ok
scan b r =
    if ltb b 0x80
    then whole 0
    else if within 0xC2 0xDF b
    then (if is_continuation (get_elem? r 0) then whole 1 else broken 0)
    else if within 0xE0 0xEF b
    then (if second_ok b (get_elem? r 0)
        then (if is_continuation (get_elem? r 1) then whole 2 else broken 1)
        else broken 0)
    else if within 0xF0 0xF4 b
    then (if second_ok b (get_elem? r 0)
        then (if is_continuation (get_elem? r 1)
            then (if is_continuation (get_elem? r 2) then whole 3 else broken 2)
            else broken 1)
        else broken 0)
    else broken 0

-- A chunk: a run of whole characters, and the bytes of the broken one behind it.
pub record Chunk : Type 0 where
  pub valid : Bytes
  pub invalid : Bytes

abbrev extend : Bytes → Chunk × Bytes → Chunk × Bytes
extend char (c, rest) = (record c { valid = char ++ c.valid }, rest)

-- The first chunk and the bytes behind it. The fuel bounds the number of characters.
unfoldable pub next_chunk : ℕ → Bytes → Chunk × Bytes
next_chunk zero bytes = (record { valid = []; invalid = [] }, bytes)
next_chunk (suc f) [] = (record { valid = []; invalid = [] }, [])
next_chunk (suc f) (b ∷ r) = elim (scan b r) [
  | whole n ↦ extend (b ∷ take n r) (next_chunk f (drop n r))
  | broken n ↦ (record { valid = []; invalid = b ∷ take n r }, drop n r)
]

chunks_from : ℕ → Bytes → List Chunk
chunks_from zero bytes = []
chunks_from (suc f) [] = []
chunks_from (suc f) (b ∷ r) =
    let c = next_chunk (length (b ∷ r)) (b ∷ r) in let others = chunks_from f (c.1) in c.0 ∷ others

unfoldable pub utf8_chunks : Bytes → List Chunk
unfolding chunks_from
utf8_chunks bytes = chunks_from (length bytes) bytes

-- `str::from_utf8(bytes).is_ok()`: the first chunk is the whole input.
unfoldable pub is_utf8 : Bytes → Bool
is_utf8 bytes = elim (utf8_chunks bytes) [
  | [] ↦ true
  | c ∷ _ ↦ elim c.invalid [ [] ↦ true | _ ∷ _ ↦ false ]
]

-- `char::from_u32`
unfoldable pub char_from_u32 : ℕ → Option ℕ
char_from_u32 c = if ltb c 0xD800 || within 0xE000 0x10FFFF c then some c else none

-- `char::encode_utf8`
unfoldable pub encode_utf8 : ℕ → Bytes
encode_utf8 c =
    if ltb c 0x80
    then c ∷ []
    else if ltb c 0x800
    then (0xC0 + c / 64) ∷ (0x80 + c % 64) ∷ []
    else if ltb c 0x10000
    then (0xE0 + c / 4096) ∷ (0x80 + c / 64 % 64) ∷ (0x80 + c % 64) ∷ []
    else (0xF0 + c / 262144) ∷ (0x80 + c / 4096 % 64) ∷ (0x80 + c / 64 % 64) ∷ (0x80 + c % 64) ∷ []
