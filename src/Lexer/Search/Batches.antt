-- ===== src/Lexer/Search/Batches.antt =====
-- The batches of `find_match` in crates/luck_lexer/src/search.rs beside a scan byte by byte.
use mathlib.Core.Path.{subst}
use luck.Lexer.Cursor.{count_while}
use luck.Lexer.Search.{
  search_batch_size, Scan, found, scanned, scan_prefix, skip_batches, scan_rest, find_match,
}
use luck.Prelude.{
  ℕ, zero, suc, ◌+◌, ◌≤◌, ◌≡◌, inl, inr, refl, ap, ◌∙◌, Bool, true, false, not, ◌&&◌, [], ◌∷◌, ◌++◌,
  leb, leb→le, Bool-cases, any, take, drop, min, length, length-take, length-drop, take-append-drop,
  Bytes, arith,
}

module _ (matches : ℕ → Bool) where
  -- The count of bytes in front of the first match.
  abbrev pub first_match : Bytes → ℕ
  first_match bytes = count_while (λ b. not (matches b)) bytes

  first_match-cons :
      (b : ℕ) (r : Bytes) → matches b ≡ false → first_match (b ∷ r) ≡ suc (first_match r)
  unfolding count_while
  first_match-cons b r h = rw h refl

  first_match-here : (b : ℕ) (r : Bytes) → matches b ≡ true → first_match (b ∷ r) ≡ 0
  unfolding count_while
  first_match-here b r h = rw h refl

  scan_rest_lem :
      (offset : ℕ) (rest : Bytes) → scan_rest matches offset rest ≡ offset + first_match rest
  unfolding scan_rest
  scan_rest_lem offset [] = unfold count_while in omega arith
  scan_rest_lem offset (b ∷ r) = elim (Bool-cases (matches b)) [
    | inl h ↦ rw (h, scan_rest) (omega (arith, first_match-here b r h))
    | inr h ↦
        rw (h, scan_rest) (omega (arith, first_match-cons b r h, scan_rest_lem (offset + 1) r))
  ]

  -- A stretch without a match.
  first_match-append :
      (x y : Bytes) → any matches x ≡ false → first_match (x ++ y) ≡ length x + first_match y
  first_match-append [] y h = omega arith
  first_match-append (b ∷ x) y h = omega (
    arith,
    first_match-cons b (x ++ y) (ground (arith, h)),
    first_match-append x y (ground (arith, h)),
  )

  skip_batches_lem :
      (f offset : ℕ) (rest : Bytes)
      → (skip_batches matches f offset rest).0 + first_match (skip_batches matches f offset rest).1
        ≡ offset + first_match rest
  unfolding skip_batches
  skip_batches_lem zero offset rest = refl
  skip_batches_lem (suc f) offset rest =
      elim (Bool-cases
        (leb search_batch_size (length rest) && not (any matches (take search_batch_size rest)))) [
          | inr h ↦ rw (h, skip_batches) refl
          | inl h ↦
              let whole = take-append-drop search_batch_size rest in
              let batch =
                first_match-append (take search_batch_size rest) (drop search_batch_size rest)
                  (ground (arith, h)) in
              let size =
                length-take search_batch_size rest
                  (leb→le search_batch_size (length rest) (ground (arith, h))) in
              rw (h, skip_batches)
                (omega (
                  arith,
                  skip_batches_lem f (offset + search_batch_size) (drop search_batch_size rest),
                  batch,
                  size,
                  ap first_match whole,
                ))
        ]

  -- Whether the loop over batches may end: fewer bytes than a batch are left, or it holds a match.
  abbrev Stopped : Bytes → Type 0
  Stopped rest =
      (leb search_batch_size (length rest) && not (any matches (take search_batch_size rest)))
      ≡ false

  skip_batches-Stopped :
      (f offset : ℕ) (rest : Bytes)
      → length rest ≤ f
      → Stopped (skip_batches matches f offset rest).1
  unfolding skip_batches
  skip_batches-Stopped zero offset [] h = refl
  skip_batches-Stopped zero offset (b ∷ rest) h = absurd (omega (arith, h))
  skip_batches-Stopped (suc f) offset rest h =
      elim (Bool-cases
        (leb search_batch_size (length rest) && not (any matches (take search_batch_size rest)))) [
          | inr e ↦ rw (e, skip_batches) e
          | inl e ↦
              rw (e, skip_batches)
                (skip_batches-Stopped f (offset + search_batch_size) (drop search_batch_size rest) (
                  omega (
                    arith,
                    h,
                    length-drop search_batch_size rest,
                    leb→le search_batch_size (length rest) (ground (arith, e)),
                  )))
        ]

  -- What a loop gives, for the offset that is looked for.
  Scanned : ℕ → Scan → Type 0
  Scanned goal (found at) = at ≡ goal
  Scanned goal (scanned end rest) = end + first_match rest ≡ goal

  scan_prefix-Scanned :
      (n offset : ℕ) (bytes : Bytes)
      → Scanned (offset + first_match bytes) (scan_prefix matches n offset bytes)
  unfolding scan_prefix Scanned
  scan_prefix-Scanned zero offset bytes = refl
  scan_prefix-Scanned (suc n) offset [] = refl
  scan_prefix-Scanned (suc n) offset (b ∷ r) = elim (Bool-cases (matches b)) [
    | inl h ↦ rw (h, scan_prefix) (omega (arith, first_match-here b r h))
    | inr h ↦
        let moved : offset + 1 + first_match r ≡ offset + first_match (b ∷ r) =
          omega (arith, first_match-cons b r h) in
        rw (h, scan_prefix)
          (subst (λ goal. Scanned goal (scan_prefix matches n (offset + 1) r)) moved
            (scan_prefix-Scanned n (offset + 1) r))
  ]

  finish_scan :
      (goal : ℕ) (s : Scan)
      → Scanned goal s
      → (elim s [
        | found offset ↦ offset
        | scanned offset rest ↦
            let (end, left) = skip_batches matches (length rest) offset rest in
            scan_rest matches end left
      ])
        ≡ goal
  unfolding Scanned
  finish_scan goal (found at) h = h
  finish_scan goal (scanned end rest) h =
      let next = skip_batches matches (length rest) end rest in
      scan_rest_lem next.0 next.1 ∙ skip_batches_lem (length rest) end rest ∙ h

  -- The scan by a prefix, by batches and by single bytes finds the first match, or the end.
  pub find_match-first_match : (bytes : Bytes) → find_match matches bytes ≡ first_match bytes
  unfolding find_match
  find_match-first_match bytes =
      finish_scan (0 + first_match bytes) _ (scan_prefix-Scanned (min (length bytes) 8) 0 bytes)
      ∙ omega arith
