-- ===== src/Span.antt =====
-- crates/luck_token/src/span.rs: ranges of bytes, and the line and column of an offset.
pub mod Lines
use luck.Prelude.{ℕ, ◌+◌, ◌-◌, [], ◌∷◌, min, max, ◌==◌, if◌then◌else◌, take, length, Bytes}

pub record Span : Type 0 where
  pub start : ℕ
  pub end : ℕ

unfoldable pub merge : Span → Span → Span
merge a b = record { start = min a.start b.start; end = max a.end b.end }

-- The loop of `line_col`, from byte `idx` on: the line, and where it starts.
unfoldable pub line_from : ℕ → ℕ → ℕ → Bytes → ℕ × ℕ
line_from line line_start idx [] = (line, line_start)
line_from line line_start idx (b ∷ r) =
    line_from (if b == b'\n' then line + 1 else line) (if b == b'\n' then idx + 1 else line_start)
      (idx + 1) r

-- `line_col`, for texts below 4 GB.
unfoldable pub line_col : Bytes → ℕ → ℕ × ℕ
unfolding line_from
line_col source offset =
    let end = min offset (length source) in
    let (line, line_start) = line_from 1 0 0 (take end source) in (line, end - line_start + 1)
