-- ===== src/Lexer/Cursor.antt =====
-- crates/luck_lexer/src/cursor.rs: a position in the source bytes.
use luck.Prelude.{
  ℕ, suc, ◌+◌, ◌-◌, Bool, Option, none, some, [], ◌∷◌, if◌then◌else◌, get_elem?, take, drop, Bytes,
}

pub record Cursor : Type 0 where
  pub source : Bytes
  pub position : ℕ

abbrev pub peek : Cursor → Option ℕ
peek c = get_elem? c.source c.position

abbrev pub peek_at : Cursor → ℕ → Option ℕ
peek_at c offset = get_elem? c.source (c.position + offset)

-- `advance` stays at the end of the source.
unfoldable pub advance : Cursor → Cursor
advance c = elim (peek c) [ none ↦ c | some _ ↦ record c { position = c.position + 1 } ]

-- The bytes from the start of `r` that pass the test.
unfoldable pub count_while : (ℕ → Bool) → Bytes → ℕ
count_while p [] = 0
count_while p (b ∷ r) = if p b then suc (count_while p r) else 0

unfoldable pub eat_while : (ℕ → Bool) → Cursor → Cursor
eat_while p c = record c { position = c.position + count_while p (drop c.position c.source) }

-- `&source[start..end]`
abbrev pub slice : Bytes → ℕ → ℕ → Bytes
slice source start end = take (end - start) (drop start source)
