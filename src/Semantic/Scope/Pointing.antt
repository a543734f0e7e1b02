-- ===== src/Semantic/Scope/Pointing.antt =====
-- The rows of a table of crates/luck_semantic/src/scope.rs that point to an id.
use mathlib.Core.Path.{subst}
use luck.Prelude.{
  ℕ, zero, suc, ◌+◌, ◌<◌, ◌≤◌, ◌≡◌, ◌≢◌, inl, inr, refl, ap, ◌∙◌, Bool, true, false, ◌||◌, Option,
  none, some, List, [], ◌∷◌, ◌++◌, ◌==◌, any, map, get_elem?, length, update, filter_by, AllAt,
  Bool-cases, arith,
}

abbrev pub points_to : ℕ → Option ℕ → Bool
points_to i none = false
points_to i (some j) = i == j

-- An index that is smaller, or none.
abbrev pub Below : ℕ → Option ℕ → Type 0
Below i none = Unit
Below i (some parent) = parent < i

points_to-Below : (n : ℕ) (o : Option ℕ) → Below n o → points_to n o ≡ false
points_to-Below n none b = refl
points_to-Below n (some p) b = ground (arith, b)

Below-le : (i n : ℕ) (o : Option ℕ) → i ≤ n → Below i o → Below n o
Below-le i n none le b = tt
Below-le i n (some p) le b = omega (arith, le, b)

pub points_to_other : (i j : ℕ) → i ≢ j → points_to i (some j) ≡ false
points_to_other i j h = ground (arith, h)

pub points_to_self : (i : ℕ) → points_to i (some i) ≡ true
points_to_self i = ground arith

module _ {A : Type 0} where
  pub get_elem-lt : (xs : List A) (i : ℕ) (x : A) → get_elem? xs i ≡ some x → i < length xs
  get_elem-lt [] i x e = absurd (cc e)
  get_elem-lt (y ∷ xs) zero x e = omega arith
  get_elem-lt (y ∷ xs) (suc i) x e = omega (arith, get_elem-lt xs i x e)

  -- A change of one row, for a predicate that the change turns into another.
  pub AllAt-change :
      (P Q : ℕ → A → Type 0) (k i : ℕ) (f : A → A) (xs : List A)
      → ((x : A) → P (k + i) x → Q (k + i) (f x))
      → ((j : ℕ) (x : A) → j ≢ k + i → P j x → Q j x)
      → AllAt P k xs
      → AllAt Q k (update i f xs)
  AllAt-change P Q k i f [] here there h = tt
  AllAt-change P Q k zero f (x ∷ xs) here there h = (
    subst (λ n. Q n (f x)) (omega arith) (here x (subst (λ n. P n x) (omega arith) h.0)),
    above P Q k (suc k) xs (omega arith) (λ j y lt. there j y (λ e. omega (arith, e, lt))) h.1,
  )
    where
      above :
          (P Q : ℕ → A → Type 0) (k l : ℕ) (xs : List A)
          → k < l
          → ((j : ℕ) (x : A) → k < j → P j x → Q j x)
          → AllAt P l xs
          → AllAt Q l xs
      above P Q k l [] lt f h = tt
      above P Q k l (x ∷ xs) lt f h =
          (f l x lt h.0, above P Q k (suc l) xs (omega (arith, lt)) f h.1)
  AllAt-change P Q k (suc i) f (x ∷ xs) here there h =
      let e : suc k + i ≡ k + suc i = omega arith in
      (
        there k x (λ d. omega (arith, d)) h.0,
        AllAt-change P Q (suc k) i f xs
            (subst (λ n. (y : A) → P n y → Q n (f y)) (omega arith) here)
            (λ j y d. there j y (λ c. d (c ∙ omega arith))) h.1,
      )

  pub AllAt-change_first :
      (P Q : ℕ → A → Type 0) (i : ℕ) (f : A → A) (xs : List A)
      → ((x : A) → P i x → Q i (f x))
      → ((j : ℕ) (x : A) → j ≢ i → P j x → Q j x)
      → AllAt P 0 xs
      → AllAt Q 0 (update i f xs)
  AllAt-change_first P Q i f xs here there =
      AllAt-change P Q 0 i f xs (subst (λ n. (x : A) → P n x → Q n (f x)) (omega arith) here)
        (λ j x d. there j x (λ e. d (e ∙ omega arith)))

  pub AllAt-zip :
      (P Q : ℕ → A → Type 0) (k : ℕ) (xs : List A)
      → AllAt P k xs
      → AllAt Q k xs
      → AllAt (λ i x. P i x × Q i x) k xs
  AllAt-zip P Q k [] p q = tt
  AllAt-zip P Q k (x ∷ xs) p q = ((p.0, q.0), AllAt-zip P Q (suc k) xs p.1 q.1)

  found :
      (ys : List A) (k : ℕ) (xs : List A)
      → ((i : ℕ) → get_elem? ys (k + i) ≡ get_elem? xs i)
      → AllAt (λ i x. get_elem? ys i ≡ some x) k xs
  found ys k [] h = tt
  found ys k (x ∷ xs) h = (
    subst (λ n. get_elem? ys n ≡ some x) (omega arith) (h 0),
    found ys (suc k) xs
        (λ i. subst (λ n. get_elem? ys n ≡ get_elem? xs i) (omega arith) (h (suc i))),
  )

  pub AllAt-found : (xs : List A) → AllAt (λ i x. get_elem? xs i ≡ some x) 0 xs
  AllAt-found xs = found xs 0 xs (λ i. ap (get_elem? xs) (omega arith))

  any-snoc : (p : A → Bool) (xs : List A) (x : A) → any p (xs ++ x ∷ []) ≡ (any p xs || p x)
  any-snoc p [] x = elim (Bool-cases (p x)) [ inl h ↦ rw h refl | inr h ↦ rw h refl ]
  any-snoc p (y ∷ xs) x = elim (Bool-cases (p y)) [
    | inl h ↦ rw h refl
    | inr h ↦ rw h (any-snoc p xs x)
  ]

  pub map-snoc :
      {B : Type 0} (f : A → B) (xs : List A) (x : A) → map f (xs ++ x ∷ []) ≡ map f xs ++ f x ∷ []
  map-snoc f [] x = refl
  map-snoc f (y ∷ xs) x = ap (◌∷◌ (f y)) (map-snoc f xs x)

  module _ (target : A → Option ℕ) where
    unfoldable pub rows_to : ℕ → List A → List A
    rows_to i xs = filter_by (λ x. points_to i (target x)) xs

    rows_to-hit :
        (i : ℕ) (xs : List A) (x : A)
        → points_to i (target x) ≡ true
        → rows_to i (xs ++ x ∷ []) ≡ rows_to i xs ++ x ∷ []
    unfolding rows_to
    rows_to-hit i [] x h = rw (h, rows_to) refl
    rows_to-hit i (y ∷ xs) x h = elim (Bool-cases (points_to i (target y))) [
      | inl k ↦ rw (k, rows_to) (ap (◌∷◌ y) (rows_to-hit i xs x h))
      | inr k ↦ rw (k, rows_to) (rows_to-hit i xs x h)
    ]

    pub rows_to-miss :
        (i : ℕ) (xs : List A) (x : A)
        → points_to i (target x) ≡ false
        → rows_to i (xs ++ x ∷ []) ≡ rows_to i xs
    unfolding rows_to
    rows_to-miss i [] x h = rw (h, rows_to) refl
    rows_to-miss i (y ∷ xs) x h = elim (Bool-cases (points_to i (target y))) [
      | inl k ↦ rw (k, rows_to) (ap (◌∷◌ y) (rows_to-miss i xs x h))
      | inr k ↦ rw (k, rows_to) (rows_to-miss i xs x h)
    ]

    -- Nothing points to an id that is not given yet.
    pub rows_to-none :
        (n k : ℕ) (xs : List A) → AllAt (λ _ x. Below n (target x)) k xs → rows_to n xs ≡ []
    unfolding rows_to
    rows_to-none n k [] h = refl
    rows_to-none n k (x ∷ xs) h =
        rw (points_to-Below n (target x) h.0, rows_to) (rows_to-none n (suc k) xs h.1)

    pub AllAt-Below :
        (n k : ℕ) (xs : List A)
        → k + length xs ≤ n
        → AllAt (λ i x. Below i (target x)) k xs
        → AllAt (λ _ x. Below n (target x)) k xs
    AllAt-Below n k [] le h = tt
    AllAt-Below n k (x ∷ xs) le h = (
      Below-le k n (target x) (omega (arith, le)) h.0,
      AllAt-Below n (suc k) xs (omega (arith, le)) h.1,
    )

    pub any_rows-hit :
        (p : A → Bool) (i : ℕ) (xs : List A) (x : A)
        → points_to i (target x) ≡ true
        → any p (rows_to i (xs ++ x ∷ [])) ≡ (any p (rows_to i xs) || p x)
    any_rows-hit p i xs x h = ap (any p) (rows_to-hit i xs x h) ∙ any-snoc p (rows_to i xs) x

    pub any_rows-same :
        (p q : A → Bool) (i k : ℕ) (xs : List A)
        → AllAt (λ _ x. p x ≡ q x) k xs
        → any p (rows_to i xs) ≡ any q (rows_to i xs)
    unfolding rows_to
    any_rows-same p q i k [] h = refl
    any_rows-same p q i k (x ∷ xs) h = elim (Bool-cases (points_to i (target x))) [
      | inl t ↦ rw (t, rows_to) (cc (h.0, any_rows-same p q i (suc k) xs h.1))
      | inr t ↦ rw (t, rows_to) (any_rows-same p q i (suc k) xs h.1)
    ]

    module _ (id : A → ℕ) where
      -- The ids of the rows that point to an id, in the order of the table.
      abbrev pub ids_to : ℕ → List A → List ℕ
      ids_to i xs = map id (rows_to i xs)

      pub ids_to-hit :
          (i : ℕ) (xs : List A) (x : A)
          → points_to i (target x) ≡ true
          → ids_to i (xs ++ x ∷ []) ≡ ids_to i xs ++ id x ∷ []
      ids_to-hit i xs x h = ap (map id) (rows_to-hit i xs x h) ∙ map-snoc id (rows_to i xs) x

      pub ids_to-miss :
          (i : ℕ) (xs : List A) (x : A)
          → points_to i (target x) ≡ false
          → ids_to i (xs ++ x ∷ []) ≡ ids_to i xs
      ids_to-miss i xs x h = ap (map id) (rows_to-miss i xs x h)

      pub ids_to-none :
          (n : ℕ) (xs : List A) → AllAt (λ _ x. Below n (target x)) 0 xs → ids_to n xs ≡ []
      ids_to-none n xs h = ap (map id) (rows_to-none n 0 xs h)

      pub ids_to-update :
          (i j : ℕ) (f : A → A) (xs : List A)
          → ((x : A) → target (f x) ≡ target x)
          → ((x : A) → id (f x) ≡ id x)
          → ids_to i (update j f xs) ≡ ids_to i xs
      unfolding rows_to
      ids_to-update i j f [] t d = refl
      ids_to-update i zero f (x ∷ xs) t d = elim (Bool-cases (points_to i (target x))) [
        | inl h ↦ rw (t x, h, rows_to) (ap (λ n. n ∷ map id (rows_to i xs)) (d x))
        | inr h ↦ rw (t x, h, rows_to) refl
      ]
      ids_to-update i (suc j) f (x ∷ xs) t d = elim (Bool-cases (points_to i (target x))) [
        | inl h ↦ rw (h, rows_to) (ap (◌∷◌ (id x)) (ids_to-update i j f xs t d))
        | inr h ↦ rw (h, rows_to) (ids_to-update i j f xs t d)
      ]
