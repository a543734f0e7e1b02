-- ===== src/Prelude/Indexed.antt =====
-- What holds of every element of a list at its index.
use Prim.Native.Nat.{ℕ, zero, suc, ◌+◌, ◌<◌}
use mathlib.Core.List.{List, [], ◌∷◌, ◌++◌}
use mathlib.Core.Option.{some}
use mathlib.Core.Path.{◌≡◌, refl, ap, subst}
use native.Mathlib.Omega.{arith}
use luck.Prelude.Lists.{length, get_elem?}
use luck.Prelude.Texts.{update}

module _ {ℓ} {A : Type ℓ} where
  abbrev pub AllAt {κ} : (ℕ → A → Type κ) → ℕ → List A → Type κ
  AllAt P k [] = Unit
  AllAt P k (x ∷ xs) = P k x × AllAt P (suc k) xs

  pub AllAt-map {κ μ} :
      (P : ℕ → A → Type κ) (Q : ℕ → A → Type μ) (k : ℕ) (xs : List A)
      → ((i : ℕ) (x : A) → P i x → Q i x)
      → AllAt P k xs
      → AllAt Q k xs
  AllAt-map P Q k [] f h = tt
  AllAt-map P Q k (x ∷ xs) f h = (f k x h.0, AllAt-map P Q (suc k) xs f h.1)

  pub AllAt-snoc {κ} :
      (P : ℕ → A → Type κ) (k : ℕ) (xs : List A) (x : A)
      → AllAt P k xs
      → P (k + length xs) x
      → AllAt P k (xs ++ x ∷ [])
  AllAt-snoc P k [] x h p = (subst (λ n. P n x) (omega arith) p, tt)
  AllAt-snoc P k (y ∷ xs) x h p =
      (h.0, AllAt-snoc P (suc k) xs x h.1 (subst (λ n. P n x) (omega arith) p))

  pub AllAt-push {κ} :
      (P : ℕ → A → Type κ) (xs : List A) (x : A)
      → AllAt P 0 xs
      → P (length xs) x
      → AllAt P 0 (xs ++ x ∷ [])
  AllAt-push P xs x h p = AllAt-snoc P 0 xs x h (subst (λ n. P n x) (omega arith) p)

  pub AllAt-update {κ} :
      (P : ℕ → A → Type κ) (k i : ℕ) (f : A → A) (xs : List A)
      → ((j : ℕ) (x : A) → P j x → P j (f x))
      → AllAt P k xs
      → AllAt P k (update i f xs)
  AllAt-update P k i f [] g h = tt
  AllAt-update P k zero f (x ∷ xs) g h = (g k x h.0, h.1)
  AllAt-update P k (suc i) f (x ∷ xs) g h = (h.0, AllAt-update P (suc k) i f xs g h.1)

  pub AllAt-get {κ} :
      (P : ℕ → A → Type κ) (k i : ℕ) (xs : List A) (x : A)
      → AllAt P k xs
      → get_elem? xs i ≡ some x
      → P (k + i) x
  AllAt-get P k i [] x h e = absurd (cc e)
  AllAt-get P k zero (y ∷ xs) x h e = subst (λ n. P n x) (omega arith) (subst (P k) (some_eq e) h.0)
    where
      some_eq : some y ≡ some x → y ≡ x
      some_eq e = cc e
  AllAt-get P k (suc i) (y ∷ xs) x h e =
      subst (λ n. P n x) (omega arith) (AllAt-get P (suc k) i xs x h.1 e)

  pub AllAt-at {κ} :
      (P : ℕ → A → Type κ) (i : ℕ) (xs : List A) (x : A)
      → AllAt P 0 xs
      → get_elem? xs i ≡ some x
      → P i x
  AllAt-at P i xs x h e = subst (λ n. P n x) (omega arith) (AllAt-get P 0 i xs x h e)

  pub get_elem-of_lt : (xs : List A) (i : ℕ) → i < length xs → (x : A) × (get_elem? xs i ≡ some x)
  get_elem-of_lt [] i h = absurd (omega (arith, h))
  get_elem-of_lt (x ∷ xs) zero h = (x, refl)
  get_elem-of_lt (x ∷ xs) (suc i) h = get_elem-of_lt xs i (omega (arith, h))

  pub length-update : (i : ℕ) (f : A → A) (xs : List A) → length (update i f xs) ≡ length xs
  length-update i f [] = refl
  length-update zero f (x ∷ xs) = refl
  length-update (suc i) f (x ∷ xs) = ap suc (length-update i f xs)

  -- An element is found at its index when the list grows, and the new one behind the others.
  pub get_elem-append :
      (xs ys : List A) (i : ℕ) (x : A) → get_elem? xs i ≡ some x → get_elem? (xs ++ ys) i ≡ some x
  get_elem-append [] ys i x h = absurd (cc h)
  get_elem-append (y ∷ xs) ys zero x h = h
  get_elem-append (y ∷ xs) ys (suc i) x h = get_elem-append xs ys i x h

  pub get_elem-last : (xs : List A) (x : A) → get_elem? (xs ++ x ∷ []) (length xs) ≡ some x
  get_elem-last [] x = refl
  get_elem-last (y ∷ xs) x = get_elem-last xs x

  -- What a change keeps of every element, it keeps of the one at an index.
  pub get_elem-update {κ} :
      (P : A → Type κ) (f : A → A) (j : ℕ) (xs : List A) (i : ℕ)
      → ((x : A) → P x → P (f x))
      → ((x : A) × (get_elem? xs i ≡ some x) × P x)
      → ((x : A) × (get_elem? (update j f xs) i ≡ some x) × P x)
  get_elem-update P f j [] i g h = h
  get_elem-update P f zero (y ∷ xs) zero g (x, e, p) =
      (f x, ap (λ z. some (f z)) (some_eq e), g x p)
    where
      some_eq : some y ≡ some x → y ≡ x
      some_eq e = cc e
  get_elem-update P f zero (y ∷ xs) (suc i) g h = h
  get_elem-update P f (suc j) (y ∷ xs) zero g h = h
  get_elem-update P f (suc j) (y ∷ xs) (suc i) g h = get_elem-update P f j xs i g h
