-- ===== src/Lexer/LongBracket/Closer.antt =====
-- The text that closes a long bracket of crates/luck_lexer/src/string.rs, and its first place.
use luck.Lexer.Cursor.{count_while}
use luck.Lexer.Number.{is_byte}
use luck.Prelude.{
  ℕ, zero, suc, ◌+◌, ◌<◌, ◌≡◌, inl, inr, refl, sym, ap, ◌∙◌, Bool, true, false, ◌&&◌, Option, none,
  some, [], ◌∷◌, ◌++◌, ◌==◌, if◌then◌else◌, Bool-cases, Option-cases, get_elem?, drop, length,
  replicate, Bytes, arith,
}

-- `]`, `level` times `=`, and `]`.
abbrev pub closer : ℕ → Bytes
closer level = b']' ∷ (replicate level b'=' ++ b']' ∷ [])

unfoldable pub starts_with : Bytes → Bytes → Bool
starts_with [] s = true
starts_with (a ∷ p) [] = false
starts_with (a ∷ p) (b ∷ s) = let rest = starts_with p s in a == b && rest

-- The bytes up to the end of the first closer.
unfoldable pub first_close : ℕ → Bytes → Option ℕ
first_close level [] = none
first_close level (b ∷ s) =
    let later = first_close level s in
    if starts_with (closer level) (b ∷ s)
    then some (level + 2)
    else elim later [ none ↦ none | some n ↦ some (suc n) ]

-- The place of the first such byte.
unfoldable pub first_index : ℕ → Bytes → Option ℕ
first_index needle [] = none
first_index needle (b ∷ s) =
    let later = first_index needle s in
    if b == needle then some 0 else elim later [ none ↦ none | some n ↦ some (suc n) ]

zero_add : (n : ℕ) → 0 + n ≡ n
zero_add n = omega arith

pub plus_zero : (n : ℕ) → n ≡ n + 0
plus_zero n = omega arith

pub plus_one : (n : ℕ) → n + 1 ≡ suc n
plus_one n = omega arith

suc_add : (m n : ℕ) → suc m + n ≡ suc (m + n)
suc_add m n = omega arith

drop_nil : (n : ℕ) → drop {A = ℕ} n [] ≡ []
drop_nil zero = refl
drop_nil (suc n) = refl

pub drop-drop : (m n : ℕ) (s : Bytes) → drop (m + n) s ≡ drop n (drop m s)
drop-drop zero n s = rw (zero_add n) refl
drop-drop (suc m) n [] = drop_nil (suc m + n) ∙ sym (drop_nil n)
drop-drop (suc m) n (b ∷ s) = rw (suc_add m n) (drop-drop m n s)

pub get_elem-drop : (m n : ℕ) (s : Bytes) → get_elem? s (m + n) ≡ get_elem? (drop m s) n
get_elem-drop zero n s = rw (zero_add n) refl
get_elem-drop (suc m) n [] = refl
get_elem-drop (suc m) n (b ∷ s) = rw (suc_add m n) (get_elem-drop m n s)

-- The test on the counted `=` is the test for the text of the closer.
equals_then_bracket :
    (level : ℕ) (s : Bytes)
    → starts_with (replicate level b'=' ++ b']' ∷ []) s ≡ (
        count_while (λ b. b == b'=') s == level
        && is_byte b']' (get_elem? s (count_while (λ b. b == b'=') s)))
unfolding starts_with count_while
equals_then_bracket zero [] = refl
equals_then_bracket zero (b ∷ s) = elim (Bool-cases (b == b'=')) [
  | inl h ↦ rw (h, count_while) (ground (arith, h))
  | inr h ↦ rw (h, count_while) (ground (arith, h))
]
equals_then_bracket (suc level) [] = ground arith
equals_then_bracket (suc level) (b ∷ s) = elim (Bool-cases (b == b'=')) [
  | inl h ↦ rw (h, count_while) (ground (arith, h, equals_then_bracket level s))
  | inr h ↦ rw (h, count_while) (ground (arith, h))
]

no_bracket_lem :
    (level : ℕ) (b : ℕ) (s : Bytes)
    → (b == b']') ≡ false
    → starts_with (closer level) (b ∷ s) ≡ false
unfolding starts_with
no_bracket_lem level b s h = ground (arith, h)

pub bracket_lem :
    (level : ℕ) (s : Bytes)
    → starts_with (closer level) (b']' ∷ s) ≡ (
        count_while (λ b. b == b'=') s == level
        && is_byte b']' (get_elem? s (count_while (λ b. b == b'=') s)))
unfolding starts_with
bracket_lem level s = equals_then_bracket level s

-- What is in front of the first bracket holds no closer.
abbrev pub shift : ℕ → Option ℕ → Option ℕ
shift k none = none
shift k (some n) = some (k + n)

shift_zero : (o : Option ℕ) → shift 0 o ≡ o
shift_zero none = refl
shift_zero (some n) = ap some (omega arith)

pub first_close-cons :
    (level b : ℕ) (s : Bytes)
    → starts_with (closer level) (b ∷ s) ≡ false
    → first_close level (b ∷ s) ≡ shift 1 (first_close level s)
unfolding first_close
first_close-cons level b s h = elim (Option-cases (first_close level s)) [
  | inl e ↦ rw (h, e, first_close) refl
  | inr (n, e) ↦ rw (h, e, first_close) (ap some (omega arith))
]

pub first_close-none :
    (level : ℕ) (s : Bytes) → first_index b']' s ≡ none → first_close level s ≡ none
unfolding first_index
first_close-none level [] e = unfold first_close in refl
first_close-none level (b ∷ s) e = elim (Bool-cases (b == b']')) [
  | inl h ↦ absurd (cc (rw (h, first_index) at e))
  | inr h ↦ elim (Option-cases (first_index b']' s)) [
    | inr (n, k) ↦ absurd (cc (rw (h, k, first_index) at e))
    | inl k ↦
        first_close-cons level b s (no_bracket_lem level b s h)
        ∙ ap (shift 1) (first_close-none level s k)
  ]
]

-- A text at its first bracket.
pub record AtBracket (level i : ℕ) (s : Bytes) : Type 0 where
  pub behind : Bytes
  pub here : drop i s ≡ b']' ∷ behind
  pub close : first_close level s ≡ shift i (first_close level (b']' ∷ behind))
  pub in_range : i < length s

shift-shift : (m n : ℕ) (o : Option ℕ) → shift m (shift n o) ≡ shift (m + n) o
shift-shift m n none = refl
shift-shift m n (some k) = ap some (omega arith)

pub first_close-AtBracket :
    (level : ℕ) (s : Bytes) (i : ℕ) → first_index b']' s ≡ some i → AtBracket level i s
unfolding first_index
first_close-AtBracket level [] i e = absurd (cc e)
first_close-AtBracket level (b ∷ s) i e = elim (Bool-cases (b == b']')) [
  | inl h ↦
      let first : i ≡ 0 = ground (arith, rw (h, first_index) at e) in
      let is_bracket : b ≡ b']' = ground (arith, h) in
      rw (first, is_bracket)
        (record {
          behind = s;
          here = refl;
          close = sym (shift_zero (first_close level (b']' ∷ s)));
          in_range = omega arith;
        })
  | inr h ↦ elim (Option-cases (first_index b']' s)) [
    | inl k ↦ absurd (cc (rw (h, k, first_index) at e))
    | inr (n, k) ↦
        let later : i ≡ suc n = ground (arith, rw (h, k, first_index) at e) in
        let a = first_close-AtBracket level s n k in
        rw later (record {
          behind = a.behind;
          here = a.here;
          close =
              first_close-cons level b s (no_bracket_lem level b s h)
              ∙ ap (shift 1) a.close
              ∙ shift-shift 1 n (first_close level (b']' ∷ a.behind))
              ∙ ap (λ k. shift k (first_close level (b']' ∷ a.behind))) (omega arith);
          in_range = omega (arith, a.in_range);
        })
  ]
]
