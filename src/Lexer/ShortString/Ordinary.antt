-- ===== src/Lexer/ShortString/Ordinary.antt =====
-- What the searches of `lex_short_string` (crates/luck_lexer/src/string.rs) pass over.
use luck.Lexer.Cursor.{count_while}
use luck.Lexer.LongBracket.Closer.{get_elem-drop}
use luck.Lexer.Search.Batches.{first_match, find_match-first_match}
use mathlib.Core.Path.{subst}
use luck.Lexer.ShortString.{short_string_stop, unwrap_or, count_ordinary}
use luck.Prelude.{
  ℕ, zero, suc, ◌+◌, ◌-◌, ◌≤◌, ◌<◌, ◌≡◌, inl, inr, refl, sym, ◌∙◌, Bool, true, false, ◌||◌, Option,
  none, some, [], ◌∷◌, ◌==◌, ltb, ltb→lt, if◌then◌else◌, Bool-cases, Option-cases, get_elem?, take,
  drop, min, length, length-take, Bytes, arith,
}

-- The place of the first byte that passes the test.
unfoldable pub first_index_by : (ℕ → Bool) → Bytes → Option ℕ
first_index_by p [] = none
first_index_by p (b ∷ s) =
    let later = first_index_by p s in
    if p b then some 0 else elim later [ none ↦ none | some n ↦ some (suc n) ]

-- The first so many bytes are there, and fail the test.
abbrev pub Clear : (ℕ → Bool) → ℕ → Bytes → Type 0
Clear p k s = (i : ℕ) → i < k → (b : ℕ) × (get_elem? s i ≡ some b) × (p b ≡ false)

Clear-cons :
    (p : ℕ → Bool) (k b : ℕ) (s : Bytes) → p b ≡ false → Clear p k s → Clear p (suc k) (b ∷ s)
Clear-cons p k b s e h zero lt = (b, refl, e)
Clear-cons p k b s e h (suc i) lt = h i (omega (arith, lt))

first_match-Clear : (p : ℕ → Bool) (s : Bytes) → Clear p (first_match p s) s
unfolding count_while
first_match-Clear p [] = λ i lt. absurd (omega (arith, lt))
first_match-Clear p (b ∷ s) = elim (Bool-cases (p b)) [
  | inl e ↦ rw (e, count_while) (λ i lt. absurd (omega (arith, lt)))
  | inr e ↦ rw (e, count_while) (Clear-cons p _ b s e (first_match-Clear p s))
]

first_index_by-Clear :
    (p : ℕ → Bool) (s : Bytes) → Clear p (unwrap_or (first_index_by p s) (length s)) s
unfolding first_index_by
first_index_by-Clear p [] = λ i lt. absurd (omega (arith, lt))
first_index_by-Clear p (b ∷ s) = elim (Bool-cases (p b)) [
  | inl e ↦ rw (e, first_index_by) (λ i lt. absurd (omega (arith, lt)))
  | inr e ↦ elim (Option-cases (first_index_by p s)) [
    | inl e' ↦
        rw (e, e', first_index_by) (Clear-cons p _ b s e (rw e' at (first_index_by-Clear p s)))
    | inr (n, e') ↦
        rw (e, e', first_index_by) (Clear-cons p _ b s e (rw e' at (first_index_by-Clear p s)))
  ]
]

get_elem-take :
    (n i : ℕ) (s : Bytes) (b : ℕ) → get_elem? (take n s) i ≡ some b → get_elem? s i ≡ some b
get_elem-take zero i s b h = absurd (cc h)
get_elem-take (suc n) i [] b h = h
get_elem-take (suc n) zero (x ∷ s) b h = h
get_elem-take (suc n) (suc i) (x ∷ s) b h = get_elem-take n i s b h

Clear-add :
    (p : ℕ → Bool) (m n : ℕ) (s : Bytes) → Clear p m s → Clear p n (drop m s) → Clear p (m + n) s
Clear-add p m n s h k i lt = elim (Bool-cases (ltb i m)) [
  | inl e ↦ h i (ltb→lt i m e)
  | inr e ↦
      let le : m ≤ i = ground (arith, e) in
      let (b, found, clear) = k (i - m) (omega (arith, lt, le)) in
      let here : get_elem? s (m + (i - m)) ≡ some b = get_elem-drop m (i - m) s ∙ found in
      (b, subst (λ (j : ℕ). get_elem? s j ≡ some b) (omega (arith, le)) here, clear)
]

Clear-take : (p : ℕ → Bool) (k n : ℕ) (s : Bytes) → Clear p k (take n s) → Clear p k s
Clear-take p k n s h i lt =
    let (b, found, clear) = h i lt in (b, get_elem-take n i s b found, clear)

get_elem-lt : (s : Bytes) (i b : ℕ) → get_elem? s i ≡ some b → i < length s
get_elem-lt [] i b h = absurd (cc h)
get_elem-lt (x ∷ s) zero b h = omega arith
get_elem-lt (x ∷ s) (suc i) b h = omega (arith, get_elem-lt s i b h)

pub Clear-le : (p : ℕ → Bool) (k : ℕ) (s : Bytes) → Clear p k s → k ≤ length s
Clear-le p k s h = elim (Bool-cases (ltb (length s) k)) [
  | inl e ↦
      let (b, found, clear) = h (length s) (ltb→lt _ _ e) in
      absurd (omega (arith, get_elem-lt s (length s) b found))
  | inr e ↦ ground (arith, e)
]

Clear-both :
    (p q r : ℕ → Bool) (k l : ℕ) (s : Bytes)
    → k ≤ l
    → Clear p k s
    → Clear q l s
    → ((b : ℕ) → p b ≡ false → q b ≡ false → r b ≡ false)
    → Clear r k s
Clear-both p q r k l s le h h' f i lt =
    let (b, found, clear) = h i lt in
    let (b', found', clear') = h' i (omega (arith, lt, le)) in
    let same : b' ≡ b = some_eq b' b (sym found' ∙ found) in
    (b, found, f b clear (subst (λ (x : ℕ). q x ≡ false) same clear'))
  where
    some_eq : (x y : ℕ) → some x ≡ some y → x ≡ y
    some_eq x y e = cc e

-- A byte that the loop passes over one at a time.
abbrev pub ends_run : ℕ → ℕ → Bool
ends_run quote b = b == b'\n' || b == b'\r' || b == b'\\' || b == quote

module _ (memchr : ℕ → Bytes → Option ℕ) (memchr3 : ℕ → ℕ → ℕ → Bytes → Option ℕ)
    (finds : (n : ℕ) (s : Bytes) → memchr n s ≡ first_index_by (◌== n) s)
    (finds3 : (l m n : ℕ) (s : Bytes)
      → memchr3 l m n s ≡ first_index_by (λ b. b == l || b == m || b == n) s) where
  -- Behind the prefix: up to the end of the line, and up to a carriage return in it.
  rest-Clear :
      (quote : ℕ) (s : Bytes)
      → let end = unwrap_or (memchr3 quote b'\\' b'\n' s) (length s) in
        Clear (ends_run quote) (unwrap_or (memchr b'\r' (take end s)) end) s
  rest-Clear quote s = rw (finds3 quote b'\\' b'\n' s) (
      let stop = λ (b : ℕ). b == quote || b == b'\\' || b == b'\n' in
      let end = unwrap_or (first_index_by stop s) (length s) in
      let clear = first_index_by-Clear stop s in
      let size : length (take end s) ≡ end = length-take end s (Clear-le stop end s clear) in
      let line = first_index_by-Clear (◌== b'\r') (take end s) in
      let le = Clear-le _ _ (take end s) line in
      rw (finds b'\r' (take end s)) (
        Clear-both _ stop (ends_run quote) _ end s (rw (size) at le)
          (Clear-take _ _ end s (rw (size) at line)) clear (λ b x y. ground (arith, x, y))))

  -- What is taken for a run of ordinary bytes is one.
  pub count_ordinary-Clear :
      (quote : ℕ) (s : Bytes)
      → (quote == b'"' || quote == b'\'') ≡ true
      → Clear (ends_run quote) (count_ordinary memchr memchr3 quote s) s
  unfolding count_ordinary
  count_ordinary-Clear quote s q =
      let n = min (length s) 8 in
      let front = first_match-Clear short_string_stop (take n s) in
      let run = λ (k : ℕ) (le : k ≤ first_match short_string_stop (take n s)).
        Clear-both _ _ (ends_run quote) k _ s le
          (λ i lt. Clear-take _ _ n s front i (omega (arith, lt, le))) (Clear-take _ _ n s front)
          (λ b x y. ground (arith, q, x)) in
      rw (find_match-first_match short_string_stop (take n s))
        (elim (Bool-cases (ltb (first_match short_string_stop (take n s)) n)) [
          | inl e ↦ rw (e) (run _ (omega arith))
          | inr e ↦ rw (e) (
              Clear-add (ends_run quote) n _ s (run n (ground (arith, e)))
                (rest-Clear quote (drop n s)))
        ])
