-- ===== src/Minifier/Names/Ranks.antt =====
-- The names of crates/luck_minifier/src/name_gen.rs in order: a name tells its index.
use luck.Minifier.Names.{
  first_chars, rest_chars, lead_divisor, combinations, find_length, push_rest, long_name,
  name_for_index,
}
use luck.Prelude.{
  ℕ, zero, suc, ◌+◌, ◌-◌, ◌*◌, ◌/◌, ◌%◌, ◌^◌, ◌≤◌, ◌<◌, ◌≡◌, ◌≢◌, inl, inr, refl, sym, ap, ap₂, ◌∙◌,
  Bool, true, false, not, ◌&&◌, ◌||◌, some, [], ◌∷◌, ltb, leb, leb→le, ◌==◌, within, if◌then◌else◌,
  length, get_elem?, all, any, Bytes, arith, Bool-cases, lt→ltb, ltb→lt, ==_iff, get_elem-of_lt,
}
use mathlib.Core.Path.{subst}
use native.Mathlib.Nat.{
  pow-suc, pow-le-pow_right, one-le-pow, div-lt_iff_lt-mul, div-add-mod', mod-lt,
}

-- How many names have at most so many characters.
abbrev pub names_up_to : ℕ → ℕ
names_up_to zero = 0
names_up_to (suc n) = names_up_to n + 53 * 63 ^ n

-- Where a byte stands in a text.
abbrev pub place_of : ℕ → Bytes → ℕ
place_of c [] = 0
place_of c (x ∷ l) = let rest = place_of c l in if x == c then 0 else suc rest

abbrev pub value : Bytes → ℕ → ℕ
value [] n = n
value (c ∷ l) n = value l (n * 63 + place_of c rest_chars)

-- The index of a name: all shorter names come first, then those of its length, as numerals.
abbrev pub rank : Bytes → ℕ
rank [] = 0
rank (c ∷ l) = names_up_to (length l) + value l (place_of c first_chars)

abbrev pub is_name_start : ℕ → Bool
is_name_start c = within 97 122 c || within 65 90 c || c == 95

abbrev pub is_name_part : ℕ → Bool
is_name_part c = is_name_start c || within 48 57 c

-- A name as Lua spells one.
abbrev pub is_name : Bytes → Bool
is_name [] = false
is_name (c ∷ l) = is_name_start c && all is_name_part l

abbrev pub distinct : Bytes → Bool
distinct [] = true
distinct (x ∷ l) = not (any (◌== x) l) && distinct l

all-get :
    (p : ℕ → Bool) (l : Bytes) (i c : ℕ) → all p l ≡ true → get_elem? l i ≡ some c → p c ≡ true
all-get p [] i c h e = absurd (cc e)
all-get p (x ∷ l) zero c h e = grind (arith, h, e)
all-get p (x ∷ l) (suc i) c h e = all-get p l i c (ground (arith, h)) e

any-get :
    (p : ℕ → Bool) (l : Bytes) (i c : ℕ) → any p l ≡ false → get_elem? l i ≡ some c → p c ≡ false
any-get p [] i c h e = absurd (cc e)
any-get p (x ∷ l) zero c h e = grind (arith, h, e)
any-get p (x ∷ l) (suc i) c h e = any-get p l i c (ground (arith, h)) e

and_true : (a b : Bool) → a ≡ true → b ≡ true → a && b ≡ true
and_true a b h k = ground (arith, h, k)

place_of-get : (l : Bytes) (i c : ℕ) → distinct l ≡ true → get_elem? l i ≡ some c → place_of c l ≡ i
place_of-get [] i c h e = absurd (cc e)
place_of-get (x ∷ l) zero c h e = ground (arith, some_eq e)
  where
    some_eq : some x ≡ some c → x ≡ c
    some_eq e = cc e
place_of-get (x ∷ l) (suc i) c h e =
    let other : (c == x) ≡ false = any-get (◌== x) l i c (ground (arith, h)) e in
    let inner : place_of c l ≡ i = place_of-get l i c (ground (arith, h)) e in
    ground (arith, other, inner)

lead_divisor-of_le : (place : ℕ) → place ≤ 9 → lead_divisor place ≡ some (63 ^ place)
unfolding lead_divisor
lead_divisor-of_le place h =
    let le : 63 ^ place ≤ 63 ^ 9 = pow-le-pow_right (omega arith) h in
    rw (lt→ltb (63 ^ place) (2 ^ 64) (omega (arith, le))) refl

combinations-of_le : (place : ℕ) → place ≤ 9 → combinations place ≡ some (53 * 63 ^ place)
unfolding combinations
combinations-of_le place h =
    let le : 63 ^ place ≤ 63 ^ 9 = pow-le-pow_right (omega arith) h in
    rw (lead_divisor-of_le place h, lt→ltb (53 * 63 ^ place) (2 ^ 64) (omega (arith, le))) refl

place_value : (n d m r p q : ℕ) → d * p + m ≡ r → q ≡ p * 63 → (n * 63 + d) * p + m ≡ n * q + r
place_value n d m r p q e f = omega (arith, e, ap (λ (t : ℕ). n * t) f)

-- The characters behind the first write the rank in base 63.
push_rest-value :
    (place remaining : ℕ)
    → place ≤ 9
    → remaining < 63 ^ place
    → (name : Bytes) × (push_rest place remaining ≡ some name)
      × (length name ≡ place)
      × (all is_name_part name ≡ true)
      × ((n : ℕ) → value name n ≡ n * 63 ^ place + remaining)
unfolding push_rest
push_rest-value zero remaining h lt = ([], refl, refl, refl, λ n. omega (arith, lt))
push_rest-value (suc place) remaining h lt =
    let p : 63 ^ suc place ≡ 63 ^ place * 63 = pow-suc 63 place in
    let pos : 0 < 63 ^ place = one-le-pow place 63 (omega arith) in
    let digit : remaining / 63 ^ place < 63 = (div-lt_iff_lt-mul pos).1 (omega (arith, lt, p)) in
    let (b, e) = get_elem-of_lt rest_chars (remaining / 63 ^ place) digit in
    let (name, e', len, part, val) =
      push_rest-value place (remaining % 63 ^ place) (omega (arith, h)) (mod-lt remaining pos) in
    (
      b ∷ name,
      rw (lead_divisor-of_le place (omega (arith, h)), e, e') refl,
      ap suc len,
      and_true _ _ (all-get is_name_part rest_chars (remaining / 63 ^ place) b refl e) part,
      λ n.
          let v : value name (n * 63 + place_of b rest_chars)
              ≡ (n * 63 + remaining / 63 ^ place) * 63 ^ place + remaining % 63 ^ place =
            ap (λ d. value name (n * 63 + d))
              (place_of-get rest_chars (remaining / 63 ^ place) b refl e)
            ∙ val _ in
          v ∙ place_value n _ _ _ _ _ (div-add-mod' remaining (63 ^ place)) p,
    )

-- Names of a length, from the rank among them.
long_name-rank :
    (place remaining : ℕ)
    → place ≤ 9
    → remaining < 53 * 63 ^ place
    → (name : Bytes) × (long_name (place, remaining) ≡ some name)
      × (length name ≡ suc place)
      × (is_name name ≡ true)
      × (rank name ≡ names_up_to place + remaining)
unfolding long_name
long_name-rank place remaining h lt =
    let pos : 0 < 63 ^ place = one-le-pow place 63 (omega arith) in
    let digit : remaining / 63 ^ place < 53 = (div-lt_iff_lt-mul pos).1 (omega (arith, lt)) in
    let (b, e) = get_elem-of_lt first_chars (remaining / 63 ^ place) digit in
    let (name, e', len, part, val) =
      push_rest-value place (remaining % 63 ^ place) h (mod-lt remaining pos) in
    let v : value name (place_of b first_chars) ≡ remaining =
      ap (value name) (place_of-get first_chars (remaining / 63 ^ place) b refl e)
      ∙ val (remaining / 63 ^ place)
      ∙ div-add-mod' remaining (63 ^ place) in
    (
      b ∷ name,
      rw (lead_divisor-of_le place h, e, e') refl,
      ap suc len,
      and_true _ _ (all-get is_name_start first_chars (remaining / 63 ^ place) b refl e) part,
      ap₂ (λ k r. names_up_to k + r) len v,
    )

-- A rank below the limit leaves room for a longer name.
longer-fits :
    (place x : ℕ) → place ≤ 9 → names_up_to (suc place) ≤ x → x < names_up_to 10 → suc place ≤ 9
longer-fits place x le h lt = elim (Bool-cases (place == 9)) [
  | inl e ↦ absurd (full ((==_iff place 9).0 e))
  | inr e ↦ ground (arith, e, le)
]
  where
    full : place ≡ 9 → ⊥
    full e = omega (arith, subst (λ p. names_up_to (suc p) ≤ x) e h, lt)

-- The loop over the lengths ends at the length that the index belongs to.
find_length-rank :
    (fuel place remaining : ℕ)
    → remaining < fuel
    → place ≤ 9
    → names_up_to place + remaining < names_up_to 10
    → (k : ℕ) × (r : ℕ) × (find_length fuel place remaining ≡ some (k, r))
      × (k ≤ 9)
      × (r < 53 * 63 ^ k)
      × (names_up_to k + r ≡ names_up_to place + remaining)
unfolding find_length
find_length-rank zero place remaining h le lt = absurd (omega (arith, h))
find_length-rank (suc fuel) place remaining h le lt =
    rw (combinations-of_le place le) elim (Bool-cases (ltb remaining (53 * 63 ^ place))) [
      | inl e ↦ (place, remaining, rw (e) refl, le, ltb→lt _ _ e, refl)
      | inr e ↦
          let skip : 53 * 63 ^ place ≤ remaining = ground (arith, e) in
          let pos : 0 < 63 ^ place = one-le-pow place 63 (omega arith) in
          let room : suc place ≤ 9 = longer-fits place _ le (omega (arith, skip)) lt in
          let (k, r, found, small, below, sum) =
            find_length-rank fuel (suc place) (remaining - 53 * 63 ^ place)
              (omega (arith, skip, pos, h)) room (omega (arith, skip, lt)) in
          (k, r, rw (e) found, small, below, sum ∙ omega (arith, skip))
    ]

-- Every index below the number of names of at most ten characters, 53 * (63 ^ 10 - 1) / 62, has a
-- name: no product overflows and no character is out of range. It is a name as Lua spells one, and
-- its rank, which counts the shorter names and then those before it among the names of its length,
-- is the index. The index is below the number of names of at most its length.
pub name_for_index-ranks :
    (idx : ℕ)
    → idx < names_up_to 10
    → (name : Bytes) × (name_for_index idx ≡ some name)
      × (is_name name ≡ true)
      × (rank name ≡ idx)
      × (idx < names_up_to (length name))
unfolding name_for_index
name_for_index-ranks idx h = elim (Bool-cases (ltb idx 53)) [
  | inl e ↦
      let (b, found) = get_elem-of_lt first_chars idx (ltb→lt idx 53 e) in
      (
        b ∷ [],
        rw (e, found) refl,
        and_true _ _ (all-get is_name_start first_chars idx b refl found) refl,
        omega (arith, place_of-get first_chars idx b refl found),
        omega (arith, ltb→lt idx 53 e),
      )
  | inr e ↦
      let le : 53 ≤ idx = ground (arith, e) in
      let (k, r, found, small, below, sum) =
        find_length-rank (suc idx) 1 (idx - 53) (omega arith) (omega arith)
          (omega (arith, le, h)) in
      let (name, long, len, valid, ranked) = long_name-rank k r small below in
      (
        name,
        rw (e, found, long) refl,
        valid,
        ranked ∙ sum ∙ omega (arith, le),
        rw (len) (omega (arith, le, below, sum)),
      )
]

names_up_to_mono : (a b : ℕ) → a ≤ b → names_up_to a ≤ names_up_to b
names_up_to_mono zero b h = omega arith
names_up_to_mono (suc a) zero h = absurd (omega (arith, h))
names_up_to_mono (suc a) (suc b) h =
    let powers : 63 ^ a ≤ 63 ^ b = pow-le-pow_right (omega arith) (omega (arith, h)) in
    omega (arith, powers, names_up_to_mono a b (omega (arith, h)))

ranks-of :
    (idx : ℕ) (name : Bytes)
    → idx < names_up_to 10
    → name_for_index idx ≡ some name
    → (rank name ≡ idx) × (idx < names_up_to (length name))
ranks-of idx name h e =
    let (name', e', valid, ranked, below) = name_for_index-ranks idx h in
    subst (λ (n : Bytes). (rank n ≡ idx) × (idx < names_up_to (length n)))
      (some_eq name' (sym e' ∙ e)) (ranked, below)
  where
    some_eq : (name' : Bytes) → some name' ≡ some name → name' ≡ name
    some_eq name' e = cc e

names-ordered : (a b : Bytes) → rank a < names_up_to (length b) → length a ≤ length b
names-ordered [] b h = omega arith
names-ordered (c ∷ l) b h = elim (Bool-cases (leb (suc (length l)) (length b))) [
  | inl e ↦ leb→le _ _ e
  | inr e ↦
      let mono = names_up_to_mono (length b) (length l) (ground (arith, e)) in
      absurd (omega (arith, mono, h))
]

-- Of two indices below the number of names of at most ten characters the smaller one has another
-- name than the other, and no longer one.
pub name_for_index-shortlex :
    (i j : ℕ) (a b : Bytes)
    → i < j
    → j < names_up_to 10
    → name_for_index i ≡ some a
    → name_for_index j ≡ some b
    → (a ≢ b) × (length a ≤ length b)
name_for_index-shortlex i j a b lt h ea eb =
    let (rank_a, below_a) = ranks-of i a (omega (arith, lt, h)) ea in
    let (rank_b, below_b) = ranks-of j b h eb in
    (
      λ (same : a ≡ b). absurd (omega (arith, lt, ap rank same, rank_a, rank_b)),
      names-ordered a b (omega (arith, rank_a, below_b, lt)),
    )
