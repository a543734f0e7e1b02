-- ===== src/Linter/Suggest.antt =====
-- `levenshtein` of crates/luck_linter/src/suggest.rs. A row of the table is a list; the row that is
-- filled is written from the left, each cell before it is read. An index out of range is `none`.
pub mod Distance
use luck.Prelude.{
  ℕ, zero, suc, ◌+◌, ◌-◌, Option, none, some, List, [], ◌∷◌, ◌==◌, if◌then◌else◌, min, length,
  get_elem?, Bytes, bytes_eq,
}

abbrev pub cost : ℕ → ℕ → ℕ
cost x y = if x == y then 0 else 1

-- The inner loop from a column on: the cell to the left, the one above that, the cells above from
-- here on, and the bytes of the columns.
unfoldable pub fill_row : ℕ → ℕ → ℕ → List ℕ → Bytes → List ℕ
fill_row x left diagonal (above ∷ prev) (y ∷ b) =
    let cell = min (min (above + 1) (left + 1)) (diagonal + cost x y) in
    cell ∷ fill_row x cell above prev b
fill_row x left diagonal _ _ = []

-- One round of the outer loop: row `i`, for the byte `x`.
unfoldable pub next_row : ℕ → ℕ → List ℕ → Bytes → List ℕ
unfolding fill_row
next_row i x [] b = i ∷ []
next_row i x (diagonal ∷ prev) b = i ∷ fill_row x i diagonal prev b

-- The outer loop, from row `i` on.
unfoldable pub rows_from : ℕ → Bytes → List ℕ → Bytes → List ℕ
unfolding next_row
rows_from i [] prev b = prev
rows_from i (x ∷ a) prev b = rows_from (i + 1) a (next_row i x prev b) b

-- `(n..=n + b.len()).collect()`
abbrev pub count_from : ℕ → Bytes → List ℕ
count_from n [] = n ∷ []
count_from n (y ∷ b) = n ∷ count_from (suc n) b

unfoldable pub levenshtein : Bytes → Bytes → Option ℕ
unfolding rows_from
levenshtein a b =
    let table = get_elem? (rows_from 1 a (count_from 0 b) b) (length b) in
    if bytes_eq a b
    then some 0
    else if length a == 0
    then some (length b)
    else if length b == 0
    then some (length a)
    else table
