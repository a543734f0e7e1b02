-- ===== src/Linter/Suggest/Distance.antt =====
-- The table of crates/luck_linter/src/suggest.rs against the recursion that defines the distance.
use luck.Linter.Suggest.{cost, fill_row, next_row, rows_from, count_from, levenshtein}
use luck.Prelude.{
  ℕ, suc, ◌+◌, ◌≡◌, inl, inr, refl, sym, ap, ◌∙◌, false, some, List, [], ◌∷◌, ◌==◌, if◌then◌else◌,
  Bool-cases, min, length, get_elem?, Bytes, bytes_eq, bytes_eq_iff, arith,
}

-- The distance of two texts given from their ends: the least of removing the last byte, adding one
-- and replacing it, which is free when the two are the same.
unfoldable pub distance : Bytes → Bytes → ℕ
distance [] b = length b
distance (x ∷ a) [] = suc (length a)
distance (x ∷ a) (y ∷ b) =
    min (min (distance a (y ∷ b) + 1) (distance (x ∷ a) b + 1)) (distance a b + cost x y)

-- A row of the table: the distances to a prefix `done` and to each longer one.
abbrev row : Bytes → Bytes → Bytes → List ℕ
row a done [] = distance a done ∷ []
row a done (y ∷ b) = distance a done ∷ row a (y ∷ done) b

abbrev tail_row : Bytes → Bytes → Bytes → List ℕ
tail_row a done [] = []
tail_row a done (y ∷ b) = row a (y ∷ done) b

distance_nil : (a : Bytes) → distance a [] ≡ length a
unfolding distance
distance_nil [] = refl
distance_nil (x ∷ a) = refl

count_from-row : (done b : Bytes) → count_from (length done) b ≡ row [] done b
unfolding distance
count_from-row done [] = refl
count_from-row done (y ∷ b) = ap (◌∷◌ (length done)) (count_from-row (y ∷ done) b)

row_split : (a done b : Bytes) → row a done b ≡ distance a done ∷ tail_row a done b
row_split a done [] = refl
row_split a done (y ∷ b) = refl

fill_row-row :
    (x : ℕ) (a done b : Bytes)
    → fill_row x (distance (x ∷ a) done) (distance a done) (tail_row a done b) b
      ≡ tail_row (x ∷ a) done b
unfolding fill_row distance
fill_row-row x a done [] = refl
fill_row-row x a done (y ∷ b) =
    ap (λ above. fill_row x (distance (x ∷ a) done) (distance a done) above (y ∷ b))
      (row_split a (y ∷ done) b)
    ∙ ap (◌∷◌ (distance (x ∷ a) (y ∷ done))) (fill_row-row x a (y ∷ done) b)
    ∙ sym (row_split (x ∷ a) (y ∷ done) b)

next_row-row :
    (i x : ℕ) (a b : Bytes) → i ≡ suc (length a) → next_row i x (row a [] b) b ≡ row (x ∷ a) [] b
unfolding next_row distance
next_row-row i x a b e =
    ap (λ prev. next_row i x prev b) (row_split a [] b)
    ∙ rw (e) (ap (◌∷◌ (suc (length a))) (fill_row-row x a [] b))
    ∙ sym (row_split (x ∷ a) [] b)

abbrev pub reversed_onto : Bytes → Bytes → Bytes
reversed_onto [] done = done
reversed_onto (x ∷ a) done = reversed_onto a (x ∷ done)

rows_from-row :
    (i : ℕ) (a done b : Bytes)
    → i ≡ suc (length done)
    → rows_from i a (row done [] b) b ≡ row (reversed_onto a done) [] b
unfolding rows_from
rows_from-row i [] done b e = refl
rows_from-row i (x ∷ a) done b e =
    ap (λ prev. rows_from (i + 1) a prev b) (next_row-row i x done b e)
    ∙ rows_from-row (i + 1) a (x ∷ done) b (omega (arith, e))

get_elem-row :
    (a done b : Bytes)
    → get_elem? (row a done b) (length b) ≡ some (distance a (reversed_onto b done))
get_elem-row a done [] = refl
get_elem-row a done (y ∷ b) = get_elem-row a (y ∷ done) b

length-reversed_onto : (a done : Bytes) → length (reversed_onto a done) ≡ length a + length done
length-reversed_onto [] done = omega arith
length-reversed_onto (x ∷ a) done = omega (arith, length-reversed_onto a (x ∷ done))

distance_same : (a : Bytes) → distance a a ≡ 0
unfolding distance
distance_same [] = refl
distance_same (x ∷ a) = ground (arith, distance_same a)

not_zero : (n : ℕ) → (suc n == 0) ≡ false
not_zero n = ground arith

-- The table, when neither text is empty or it is not asked.
table-distance :
    (a b : Bytes)
    → get_elem? (rows_from 1 a (count_from 0 b) b) (length b)
      ≡ some (distance (reversed_onto a []) (reversed_onto b []))
table-distance a b =
    ap (λ prev. get_elem? (rows_from 1 a prev b) (length b)) (count_from-row [] b)
    ∙ ap (λ r. get_elem? r (length b)) (rows_from-row 1 a [] b refl)
    ∙ get_elem-row (reversed_onto a []) [] b

empty-distance : (b : Bytes) → length b ≡ distance [] (reversed_onto b [])
unfolding distance
empty-distance b = omega (arith, length-reversed_onto b [])

distance-empty : (a : Bytes) → length a ≡ distance (reversed_onto a []) []
distance-empty a = omega (arith, length-reversed_onto a [], distance_nil (reversed_onto a []))

-- For any two texts the two rows of the table and the short cuts give their edit distance, as the
-- recursion over the ends of the texts defines it, and no index is out of range.
pub levenshtein-distance :
    (a b : Bytes) → levenshtein a b ≡ some (distance (reversed_onto a []) (reversed_onto b []))
unfolding levenshtein
levenshtein-distance a b = elim (Bool-cases (bytes_eq a b)) [
  | inl same ↦
      rw (same, levenshtein)
        (ap some (
          sym (
            ap (λ t. distance (reversed_onto t []) (reversed_onto b [])) ((bytes_eq_iff a b).0 same)
            ∙ distance_same (reversed_onto b []))))
  | inr other ↦ rw (other, levenshtein) (shortened a b)
]
  where
    shortened :
        (a b : Bytes)
        → (if length a == 0
            then some (length b)
            else if length b == 0
            then some (length a)
            else get_elem? (rows_from 1 a (count_from 0 b) b) (length b))
          ≡ some (distance (reversed_onto a []) (reversed_onto b []))
    shortened [] b = ap some (empty-distance b)
    shortened (x ∷ a) [] = rw (not_zero (length a)) (ap some (distance-empty (x ∷ a)))
    shortened (x ∷ a) (y ∷ b) =
        rw (not_zero (length a), not_zero (length b)) (table-distance (x ∷ a) (y ∷ b))
