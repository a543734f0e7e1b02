-- ===== src/Linter/Fix/Splice.antt =====
-- Which edits a pass of crates/luck_linter/src/fix.rs accepts, and the text that they make.
use luck.Linter.Fix.{TextEdit, begins_char, is_char_boundary, replace_range, apply_edits}
use luck.Prelude.{
  ℕ, zero, suc, ◌≤◌, ◌≡◌, inl, inr, refl, ap, ◌∙◌, Bool, true, ◌&&◌, List, [], ◌∷◌, ◌++◌, Option,
  some, arith, leb, leb→le, if◌then◌else◌, Bool-cases, All, take, drop, length, append_assoc,
  length-append, Bytes,
}

-- An edit that `replace_range` can make on `source`: in range, and between characters.
pub record Fits (source : Bytes) (e : TextEdit) : Type 0 where
  pub ordered : e.span.start ≤ e.span.end
  pub in_range : e.span.end ≤ length source
  pub start_boundary : is_char_boundary source e.span.start ≡ true
  pub end_boundary : is_char_boundary source e.span.end ≡ true
  pub text : begins_char e.replacement ≡ true

-- The edits that end where the last accepted one starts, or before.
unfoldable pub accepted : ℕ → List TextEdit → List TextEdit
accepted last [] = []
accepted last (e ∷ es) =
    if leb e.span.end last then e ∷ accepted e.span.start es else accepted last es

-- The text with edits made, the last one first: each keeps the source behind it.
unfoldable pub spliced : Bytes → List TextEdit → Bytes
spliced source [] = source
spliced source (e ∷ es) =
    spliced (take e.span.start source) es ++ (e.replacement ++ drop e.span.end source)

-- Facts about a prefix `p` of the text with `tail` behind it.
take-append : (n : ℕ) (p tail : Bytes) → n ≤ length p → take n (p ++ tail) ≡ take n p
take-append zero p tail h = refl
take-append (suc n) [] tail h = absurd (omega arith)
take-append (suc n) (x ∷ p) tail h = ap (◌∷◌ x) (take-append n p tail (omega arith))

drop-append : (n : ℕ) (p tail : Bytes) → n ≤ length p → drop n (p ++ tail) ≡ drop n p ++ tail
drop-append zero p tail h = refl
drop-append (suc n) [] tail h = absurd (omega arith)
drop-append (suc n) (x ∷ p) tail h = drop-append n p tail (omega arith)

begins_char-append :
    (a b : Bytes) → begins_char a ≡ true → begins_char b ≡ true → begins_char (a ++ b) ≡ true
begins_char-append [] b h k = k
begins_char-append (x ∷ a) b h k = h

begins_char-drop-take :
    (n i : ℕ) (s : Bytes) → begins_char (drop i s) ≡ true → begins_char (drop i (take n s)) ≡ true
begins_char-drop-take zero zero s h = refl
begins_char-drop-take zero (suc i) s h = refl
begins_char-drop-take (suc n) zero [] h = refl
begins_char-drop-take (suc n) zero (x ∷ s) h = h
begins_char-drop-take (suc n) (suc i) [] h = refl
begins_char-drop-take (suc n) (suc i) (x ∷ s) h = begins_char-drop-take n i s h

take-take : (m n : ℕ) (s : Bytes) → m ≤ n → take m (take n s) ≡ take m s
take-take zero n s h = refl
take-take (suc m) zero s h = absurd (omega arith)
take-take (suc m) (suc n) [] h = refl
take-take (suc m) (suc n) (x ∷ s) h = ap (◌∷◌ x) (take-take m n s (omega arith))

length-take-le : (n : ℕ) (s : Bytes) → length (take n s) ≤ n
length-take-le zero s = omega arith
length-take-le (suc n) [] = omega arith
length-take-le (suc n) (x ∷ s) = omega (arith, length-take-le n s)

le-length-take : (k n : ℕ) (s : Bytes) → k ≤ n → k ≤ length s → k ≤ length (take n s)
le-length-take zero n s h h' = omega arith
le-length-take (suc k) zero s h h' = absurd (omega arith)
le-length-take (suc k) (suc n) [] h h' = h'
le-length-take (suc k) (suc n) (x ∷ s) h h' = omega (arith, le-length-take k n s)

replace_range-some :
    (text : Bytes) (s e : ℕ) (r : Bytes)
    → leb s e ≡ true
    → leb e (length text) ≡ true
    → is_char_boundary text s ≡ true
    → is_char_boundary text e ≡ true
    → replace_range text s e r ≡ some (take s text ++ (r ++ drop e text))
unfolding replace_range
replace_range-some text s e r a b c d = if-true _ _ _ (and_four _ _ _ _ a b c d)
  where
    if-true : (t : Bool) (x y : Option Bytes) → t ≡ true → (if t then x else y) ≡ x
    if-true t x y h = rw h

    and_four :
        (k l m n : Bool) → k ≡ true → l ≡ true → m ≡ true → n ≡ true → (k && l && m && n) ≡ true
    and_four k l m n a b c d = rw (a, b, c, d)

-- The part of the source in front of the accepted edits, with what they made behind it.
module _ (source : Bytes) (source_text : begins_char source ≡ true) where
  boundary-begins :
      (n i : ℕ) → is_char_boundary source i ≡ true → begins_char (drop i (take n source)) ≡ true
  boundary-begins n zero h = begins_char-drop-take n 0 source source_text
  boundary-begins n (suc i) h = begins_char-drop-take n (suc i) source (ground arith)

  boundary-prefix :
      (n i : ℕ) (tail : Bytes)
      → i ≤ length (take n source)
      → is_char_boundary source i ≡ true
      → begins_char tail ≡ true
      → is_char_boundary (take n source ++ tail) i ≡ true
  boundary-prefix n i tail le h t =
      let p = take n source in
      let begins : begins_char (drop i (p ++ tail)) ≡ true =
        rw (drop-append i p tail le)
          (begins_char-append (drop i p) tail (boundary-begins n i h) t) in
      ground (arith, length-append p tail)

  replace_range-prefix :
      (n : ℕ) (tail : Bytes) (e : TextEdit)
      → Fits source e
      → e.span.end ≤ length (take n source)
      → begins_char tail ≡ true
      → replace_range (take n source ++ tail) e.span.start e.span.end e.replacement
        ≡ some (
            take e.span.start source
            ++ (e.replacement ++ (drop e.span.end (take n source) ++ tail)))
  unfolding replace_range
  replace_range-prefix n tail e fits le t =
      let p = take n source in
      let s = e.span.start in
      let at_start = boundary-prefix n s tail (omega (arith, fits.ordered)) fits.start_boundary t in
      let at_end = boundary-prefix n e.span.end tail le fits.end_boundary t in
      let start_le : leb s e.span.end ≡ true = ground (arith, fits.ordered) in
      let end_le : leb e.span.end (length (p ++ tail)) ≡ true =
        ground (arith, length-append p tail) in
      let front : take s (p ++ tail) ≡ take s source =
        take-append s p tail (omega (arith, fits.ordered))
        ∙ take-take s n source (omega (arith, fits.ordered, length-take-le n source)) in
      replace_range-some _ s e.span.end e.replacement start_le end_le at_start at_end
      ∙ rw (front, drop-append e.span.end p tail le)

  -- The loop on a prefix of the source that is still untouched.
  pub apply_edits-spliced :
      (es : List TextEdit) (last n : ℕ) (tail : Bytes)
      → All (Fits source) es
      → begins_char tail ≡ true
      → ((k : ℕ) → k ≤ last → k ≤ length source → k ≤ length (take n source))
      → apply_edits last (take n source ++ tail) es
        ≡ some (spliced (take n source) (accepted last es) ++ tail)
  unfolding apply_edits accepted spliced
  apply_edits-spliced [] last n tail fits t room = refl
  apply_edits-spliced (e ∷ es) last n tail fits t room = elim (Bool-cases (leb e.span.end last)) [
    | inr skip ↦ rw (skip, apply_edits) (apply_edits-spliced es last n tail fits.1 t room)
    | inl take_it ↦
        let p = take n source in
        let s = e.span.start in
        let fit = fits.0 in
        let le : e.span.end ≤ length p =
          room e.span.end (leb→le e.span.end last take_it) fit.in_range in
        let tail' = e.replacement ++ (drop e.span.end p ++ tail) in
        let t' : begins_char tail' ≡ true = begins_char-append e.replacement _ fit.text (
          begins_char-append (drop e.span.end p) tail
            (boundary-begins n e.span.end fit.end_boundary) t) in
        let front : take s p ≡ take s source =
          take-take s n source (omega (arith, fit.ordered, length-take-le n source)) in
        rw (take_it, apply_edits)
          (rw (replace_range-prefix n tail e fit le t) (
            apply_edits-spliced es s s tail' fits.1 t' (λ k h h'. le-length-take k s source h h')
            ∙ rw front (simp append_assoc)))
  ]
