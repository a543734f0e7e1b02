-- ===== src/Utf8/Laws.antt =====
-- Chunks put together again are the input, and a broken character begins above ASCII.
use luck.Prelude.{
  ℕ, zero, suc, ◌≤◌, ◌<◌, ◌≡◌, refl, ap, List, [], ◌∷◌, ◌++◌, append_assoc, ◌∙◌, ◌⊎◌, inl, inr,
  arith, take, drop, length, length-drop, take-append-drop, Bytes,
}
use luck.Utf8.{Scan, whole, broken, scan, Chunk, next_chunk, chunks_from, utf8_chunks}

abbrev pub joined : List Chunk → Bytes
joined [] = []
joined (c ∷ cs) = c.valid ++ (c.invalid ++ joined cs)

-- What stands behind the whole characters of a chunk is a byte above ASCII, or the end.
abbrev pub Breaks : Bytes → Bytes → Type 0
Breaks [] rest = rest ≡ []
Breaks (b ∷ _) rest = 128 ≤ b

abbrev pub BreaksAll : List Chunk → Type 0
BreaksAll [] = Unit
BreaksAll (c ∷ cs) = Breaks c.invalid (joined cs) × BreaksAll cs

scan-broken : (b : ℕ) (r : Bytes) {n : ℕ} → scan b r ≡ broken n → 128 ≤ b
unfolding scan
scan-broken b r h = ground arith

-- The facts that one chunk carries.
record Splits (bytes : Bytes) (c : Chunk) (rest : Bytes) : Type 0 where
  whole_input : c.valid ++ (c.invalid ++ rest) ≡ bytes
  breaks : Breaks c.invalid rest

Scan-cases : (s : Scan) → ((n : ℕ) × (s ≡ whole n)) ⊎ ((n : ℕ) × (s ≡ broken n))
Scan-cases (whole n) = inl (n, refl)
Scan-cases (broken n) = inr (n, refl)

length-drop-le : (n : ℕ) (r : Bytes) → length (drop n r) ≤ length r
length-drop-le n r = omega (arith, length-drop n r)

next_chunk-Splits :
    (f : ℕ) (bytes : Bytes)
    → length bytes ≤ f
    → Splits bytes (next_chunk f bytes).0 (next_chunk f bytes).1
unfolding next_chunk
next_chunk-Splits zero [] h = record { whole_input = refl; breaks = refl }
next_chunk-Splits zero (b ∷ r) h = absurd (omega arith)
next_chunk-Splits (suc f) [] h = record { whole_input = refl; breaks = refl }
next_chunk-Splits (suc f) (b ∷ r) h = elim (Scan-cases (scan b r)) [
  | inl (n, e) ↦
      let ih = next_chunk-Splits f (drop n r) (omega (arith, length-drop-le n r)) in
      rw (e, next_chunk)
        (record {
          whole_input = ap (◌∷◌ b) (
              append_assoc (take n r) (next_chunk f (drop n r)).0.valid _
              ∙ ap (◌++◌ (take n r)) ih.whole_input
              ∙ take-append-drop n r);
          breaks = ih.breaks;
        })
  | inr (n, e) ↦
      rw (e, next_chunk)
        (record { whole_input = ap (◌∷◌ b) (take-append-drop n r); breaks = scan-broken b r e })
]

next_chunk-le : (f : ℕ) (bytes : Bytes) → length (next_chunk f bytes).1 ≤ length bytes
unfolding next_chunk
next_chunk-le zero bytes = omega arith
next_chunk-le (suc f) [] = omega arith
next_chunk-le (suc f) (b ∷ r) = elim (Scan-cases (scan b r)) [
  | inl (n, e) ↦ rw (e, next_chunk) (omega (arith, next_chunk-le f (drop n r), length-drop-le n r))
  | inr (n, e) ↦ rw (e, next_chunk) (omega (arith, length-drop-le n r))
]

-- A chunk of a non-empty input takes a byte at least.
next_chunk-lt :
    (f b : ℕ) (r : Bytes) → length (b ∷ r) ≤ f → length (next_chunk f (b ∷ r)).1 < length (b ∷ r)
unfolding next_chunk
next_chunk-lt zero b r h = absurd (omega arith)
next_chunk-lt (suc f) b r h = elim (Scan-cases (scan b r)) [
  | inl (n, e) ↦ rw (e, next_chunk) (omega (arith, next_chunk-le f (drop n r), length-drop-le n r))
  | inr (n, e) ↦ rw (e, next_chunk) (omega (arith, length-drop-le n r))
]

chunks_from-joined :
    (f : ℕ) (bytes : Bytes) → length bytes ≤ f → joined (chunks_from f bytes) ≡ bytes
unfolding chunks_from
chunks_from-joined zero [] h = refl
chunks_from-joined zero (b ∷ r) h = absurd (omega arith)
chunks_from-joined (suc f) [] h = refl
chunks_from-joined (suc f) (b ∷ r) h =
    let c = next_chunk (length (b ∷ r)) (b ∷ r) in
    let lt = next_chunk-lt (length (b ∷ r)) b r (omega arith) in
    rw (chunks_from-joined f (c.1) (omega arith))
      ((next_chunk-Splits (length (b ∷ r)) (b ∷ r) (omega arith)).whole_input)

chunks_from-BreaksAll : (f : ℕ) (bytes : Bytes) → length bytes ≤ f → BreaksAll (chunks_from f bytes)
unfolding chunks_from
chunks_from-BreaksAll zero bytes h = tt
chunks_from-BreaksAll (suc f) [] h = tt
chunks_from-BreaksAll (suc f) (b ∷ r) h =
    let c = next_chunk (length (b ∷ r)) (b ∷ r) in
    let lt = next_chunk-lt (length (b ∷ r)) b r (omega arith) in
    (
      rw (chunks_from-joined f (c.1) (omega arith))
          ((next_chunk-Splits (length (b ∷ r)) (b ∷ r) (omega arith)).breaks),
      chunks_from-BreaksAll f (c.1) (omega arith),
    )

-- The chunks lose no byte.
pub utf8_chunks-joined : (bytes : Bytes) → joined (utf8_chunks bytes) ≡ bytes
unfolding utf8_chunks
utf8_chunks-joined bytes = chunks_from-joined (length bytes) bytes (omega arith)

pub utf8_chunks-BreaksAll : (bytes : Bytes) → BreaksAll (utf8_chunks bytes)
unfolding utf8_chunks
utf8_chunks-BreaksAll bytes = chunks_from-BreaksAll (length bytes) bytes (omega arith)
