-- ===== src/Lexer/Number/Moves.antt =====
-- Where the moves of the cursor of crates/luck_lexer/src/cursor.rs lead.
use luck.Lexer.Cursor.{Cursor, peek, peek_at, advance, eat_while, count_while}
use luck.Lexer.Number.{is_some_and}
use luck.Prelude.{
  ℕ, zero, suc, ◌+◌, ◌≤◌, ◌<◌, ◌≡◌, inl, inr, ap, Bool, true, false, [], ◌∷◌, get_elem?, length,
  drop, Bytes, arith, Option-cases, length-drop,
}

-- The cursor stands in `source`, behind `start`.
pub record At (source : Bytes) (start : ℕ) (c : Cursor) : Type 0 where
  pub same : c.source ≡ source
  pub after : start < c.position
  pub in_range : c.position ≤ length source

get_elem-lt :
    (s : Bytes) (i : ℕ) (p : ℕ → Bool) → is_some_and (get_elem? s i) p ≡ true → i < length s
get_elem-lt [] i p h = absurd (ground arith)
get_elem-lt (b ∷ s) zero p h = omega arith
get_elem-lt (b ∷ s) (suc i) p h = omega (arith, get_elem-lt s i p h)

count_while-le : (p : ℕ → Bool) (s : Bytes) → count_while p s ≤ length s
unfolding count_while
count_while-le p [] = omega arith
count_while-le p (b ∷ s) = ground (arith, count_while-le p s)

module _ (source : Bytes) (start : ℕ) where
  pub eat_while-At :
      (p : ℕ → Bool) (c : Cursor) → At source start c → At source start (eat_while p c)
  unfolding eat_while
  eat_while-At p c a = record {
    same = a.same;
    after = omega (arith, a.after);
    in_range = omega (
      arith,
      a.in_range,
      count_while-le p (drop c.position c.source),
      length-drop c.position c.source,
      ap length a.same,
    );
  }

  pub peek_at-lt :
      (c : Cursor) (p : ℕ → Bool) (k : ℕ)
      → c.source ≡ source
      → is_some_and (peek_at c k) p ≡ true
      → c.position + k < length source
  peek_at-lt c p k same h = omega (arith, get_elem-lt c.source (c.position + k) p h, ap length same)

  pub peek-lt :
      (c : Cursor) (p : ℕ → Bool)
      → c.source ≡ source
      → is_some_and (peek c) p ≡ true
      → c.position < length source
  peek-lt c p same h = omega (arith, get_elem-lt c.source c.position p h, ap length same)

  -- The cursor after a byte that was there.
  pub advance-At :
      (c : Cursor) (p : ℕ → Bool)
      → c.source ≡ source
      → start ≤ c.position
      → is_some_and (peek c) p ≡ true
      → At source start (advance c)
  unfolding advance
  advance-At c p same le h = elim (Option-cases (peek c)) [
    | inl e ↦ absurd (cc (rw e at h))
    | inr (b, e) ↦
        rw (e, advance)
          (record {
            same = same;
            after = omega arith;
            in_range = omega (arith, peek-lt c p same h);
          })
  ]

  count_while-some :
      (p q : ℕ → Bool) (s : Bytes) (i : ℕ)
      → ((b : ℕ) → q b ≡ true → p b ≡ true)
      → is_some_and (get_elem? s i) q ≡ true
      → 0 < count_while p (drop i s)
  unfolding count_while
  count_while-some p q [] i f h = absurd (ground arith)
  count_while-some p q (b ∷ s) zero f h = ground (arith, f b h)
  count_while-some p q (b ∷ s) (suc i) f h = count_while-some p q s i f h

  count_while-none :
      (p q : ℕ → Bool) (s : Bytes) (i : ℕ)
      → ((b : ℕ) → q b ≡ true → p b ≡ false)
      → is_some_and (get_elem? s i) q ≡ true
      → count_while p (drop i s) ≡ 0
  unfolding count_while
  count_while-none p q [] i f h = absurd (ground arith)
  count_while-none p q (b ∷ s) zero f h = ground (arith, f b h)
  count_while-none p q (b ∷ s) (suc i) f h = count_while-none p q s i f h

  -- A byte that fails the test leaves the cursor where it is.
  pub eat_while_stays :
      (p q : ℕ → Bool) (c : Cursor)
      → ((b : ℕ) → q b ≡ true → p b ≡ false)
      → is_some_and (peek c) q ≡ true
      → eat_while p c ≡ c
  unfolding eat_while
  eat_while_stays p q c f h =
      let still : c.position + count_while p (drop c.position c.source) ≡ c.position =
        omega (arith, count_while-none p q c.source c.position f h) in
      ap (λ (n : ℕ). record c { position = n }) still

  -- A byte that passes the test takes the cursor behind `start`.
  pub eat_while_moves :
      (p q : ℕ → Bool) (c : Cursor)
      → ((b : ℕ) → q b ≡ true → p b ≡ true)
      → c.source ≡ source
      → start ≤ c.position
      → is_some_and (peek c) q ≡ true
      → At source start (eat_while p c)
  unfolding eat_while
  eat_while_moves p q c f same le h = record {
    same = same;
    after = omega (arith, count_while-some p q c.source c.position f h, le);
    in_range = omega (
      arith,
      peek-lt c q same h,
      count_while-le p (drop c.position c.source),
      length-drop c.position c.source,
      ap length same,
    );
  }
