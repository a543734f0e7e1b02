-- ===== src/Span/Lines.antt =====
-- What `line_col` of crates/luck_token/src/span.rs counts.
use mathlib.Core.Path.{subst}
use luck.Span.{line_from, line_col}
use luck.Prelude.{
  ℕ, suc, ◌+◌, ◌≡◌, ◌⊎◌, inl, inr, refl, sym, ap, ap₂, ◌∙◌, [], ◌∷◌, ◌++◌, false, Bool,
  append_assoc, append-nil, ◌==◌, if◌then◌else◌, min, any, take, length, length-append, length-take,
  Bool-cases, Bytes, arith,
}

-- The line breaks of a text.
unfoldable pub count_newlines : Bytes → ℕ
count_newlines [] = 0
count_newlines (b ∷ r) = let rest = count_newlines r in if b == b'\n' then suc rest else rest

count_newlines-append :
    (x y : Bytes) → count_newlines (x ++ y) ≡ count_newlines x + count_newlines y
unfolding count_newlines
count_newlines-append [] y = omega arith
count_newlines-append (b ∷ x) y = ground (arith, count_newlines-append x y)

any-append :
    (p : ℕ → Bool) (x y : Bytes) → any p x ≡ false → any p y ≡ false → any p (x ++ y) ≡ false
any-append p [] y h k = k
any-append p (b ∷ x) y h k = ground (arith, h, any-append p x y (ground (arith, h)) k)

any_no_newline : (tail : Bytes) → any (λ b. b == b'\n') tail ≡ false → count_newlines tail ≡ 0
unfolding count_newlines
any_no_newline [] h = refl
any_no_newline (b ∷ x) h = ground (arith, h, any_no_newline x (ground (arith, h)))

-- A text as its whole lines and the part of a line behind them.
pub record Lines (text : Bytes) : Type 0 where
  pub before : Bytes
  pub rest : Bytes
  pub parts : text ≡ before ++ rest
  pub whole : (before ≡ []) ⊎ ((b : Bytes) × (before ≡ b ++ (b'\n' ∷ [])))
  pub one_line : any (λ b. b == b'\n') rest ≡ false

-- The line and its start, of the position behind a text.
abbrev pub Locates : Bytes → ℕ × ℕ → Type 0
Locates text (line, line_start) =
    (l : Lines text) × (line ≡ count_newlines text + 1) × (line_start ≡ length l.before)

Locates-snoc :
    (text : Bytes) (b line line_start : ℕ)
    → Locates text (line, line_start)
    → Locates
        (text ++ b ∷ [])
        (if b == b'\n' then line + 1 else line, if b == b'\n' then length text + 1 else line_start)
unfolding count_newlines
Locates-snoc text b line line_start (l, here, from) = elim (Bool-cases (b == b'\n')) [
  | inl e ↦
      let is_newline : b ≡ b'\n' = ground (arith, e) in
      rw e (
        record {
          before = text ++ b ∷ [];
          rest = [];
          parts = sym (append-nil (text ++ b ∷ []));
          whole = inr (text, ap (λ c. text ++ c ∷ []) is_newline);
          one_line = refl;
        },
        ground (arith, here, e, count_newlines-append text (b ∷ [])),
        omega (arith, length-append text (b ∷ [])),
      )
  | inr e ↦ rw e (
    record {
      before = l.before;
      rest = l.rest ++ b ∷ [];
      parts = ap (λ t. t ++ b ∷ []) l.parts ∙ append_assoc l.before l.rest (b ∷ []);
      whole = l.whole;
      one_line = any-append (λ c. c == b'\n') l.rest (b ∷ []) l.one_line (rw e refl);
    },
    ground (arith, here, e, count_newlines-append text (b ∷ [])),
    from,
  )
]

line_from-Locates :
    (text todo : Bytes) (idx line line_start : ℕ)
    → idx ≡ length text
    → Locates text (line, line_start)
    → Locates (text ++ todo) (line_from line line_start idx todo)
unfolding line_from
line_from-Locates text [] idx line line_start at_end h = rw (append-nil text) h
line_from-Locates text (b ∷ todo) idx line line_start at_end h =
    subst (λ t. Locates t (line_from line line_start idx (b ∷ todo)))
      (append_assoc text (b ∷ []) todo)
      (line_from-Locates (text ++ b ∷ []) todo (idx + 1) _ _
        (omega (arith, at_end, length-append text (b ∷ [])))
        (rw at_end (Locates-snoc text b line line_start h)))

-- The line is one more than the line breaks in front of the offset, which counts as the end of the
-- text if it is beyond; the column is one more than the bytes behind the last of them.
pub line_col-Lines :
    (source : Bytes) (offset : ℕ)
    → (l : Lines (take (min offset (length source)) source)) × (line_col source offset
        ≡ (count_newlines (take (min offset (length source)) source) + 1, length l.rest + 1))
unfolding line_col
line_col-Lines source offset =
    let text = take (min offset (length source)) source in
    let (l, line, from) = line_from-Locates [] text 0 1 0 refl (
      record { before = []; rest = []; parts = refl; whole = inl refl; one_line = refl },
      unfold count_newlines in refl,
      refl,
    ) in
    (
      l,
      ap₂ (λ (a b : ℕ). (a, b)) line
          (omega (
            arith,
            from,
            ap length l.parts,
            length-append l.before l.rest,
            length-take (min offset (length source)) source (omega arith),
          )),
    )
