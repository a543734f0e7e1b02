-- ===== src/Lexer/Search.antt =====
-- crates/luck_lexer/src/search.rs: `find_match`, in its three loops. A table is a test on bytes; an
-- offset into the bytes is kept with what stands from there on.
pub mod Batches
use luck.Prelude.{
  ℕ, zero, suc, ◌+◌, Bool, true, false, not, ◌&&◌, [], ◌∷◌, leb, if◌then◌else◌, any, take, drop,
  min, length, Bytes,
}

-- `SEARCH_BATCH_SIZE`
abbrev pub search_batch_size : ℕ
search_batch_size = 32

-- A match at an offset, or the offset at which a loop ended, with the bytes from there on.
pub data Scan : Type 0 where
  found : ℕ → Scan
  scanned : ℕ → Bytes → Scan

module _ (matches : ℕ → Bool) where
  -- The loop up to `prefix_end`.
  unfoldable pub scan_prefix : ℕ → ℕ → Bytes → Scan
  scan_prefix zero offset rest = scanned offset rest
  scan_prefix (suc n) offset [] = scanned offset []
  scan_prefix (suc n) offset (b ∷ rest) =
      let next = scan_prefix n (offset + 1) rest in if matches b then found offset else next

  -- The loop over batches; each round takes bytes, so the count of bytes is fuel enough.
  unfoldable pub skip_batches : ℕ → ℕ → Bytes → ℕ × Bytes
  skip_batches zero offset rest = (offset, rest)
  skip_batches (suc f) offset rest =
      let next = skip_batches f (offset + search_batch_size) (drop search_batch_size rest) in
      if leb search_batch_size (length rest) && not (any matches (take search_batch_size rest))
      then next
      else (offset, rest)

  -- The last loop.
  unfoldable pub scan_rest : ℕ → Bytes → ℕ
  scan_rest offset [] = offset
  scan_rest offset (b ∷ rest) =
      let next = scan_rest (offset + 1) rest in if matches b then offset else next

  unfoldable pub find_match : Bytes → ℕ
  unfolding scan_prefix skip_batches scan_rest
  find_match bytes = elim (scan_prefix (min (length bytes) 8) 0 bytes) [
    | found offset ↦ offset
    | scanned offset rest ↦
        let (end, left) = skip_batches (length rest) offset rest in scan_rest end left
  ]
