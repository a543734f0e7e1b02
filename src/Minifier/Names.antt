-- ===== src/Minifier/Names.antt =====
-- crates/luck_minifier/src/name_gen.rs: the names that the minifier hands out. A product or a power
-- that does not fit `usize` (64 bits), and an index out of range, is `none`: the source panics.
pub mod Ranks
use luck.Prelude.{
  ℕ, zero, suc, ◌+◌, ◌-◌, ◌*◌, ◌/◌, ◌%◌, ◌^◌, Option, none, some, [], ◌∷◌, ltb, if◌then◌else◌,
  ◌>>=◌, length, get_elem?, Bytes, codes,
}

abbrev pub first_chars : Bytes
first_chars = codes "luckLUCKabdefghijmnopqrstvwxyzABDEFGHIJMNOPQRSTVWXYZ_"

abbrev pub rest_chars : Bytes
rest_chars = codes "luckLUCKabdefghijmnopqrstvwxyz_ABDEFGHIJMNOPQRSTVWXYZ0123456789"

-- A result of the `usize` arithmetic.
abbrev pub usize : ℕ → Option ℕ
usize n = if ltb n (2 ^ 64) then some n else none

unfoldable pub lead_divisor : ℕ → Option ℕ
lead_divisor place = usize (length rest_chars ^ place)

-- How many names have `place` characters behind the first.
unfoldable pub combinations : ℕ → Option ℕ
combinations place = do p ← lead_divisor place; usize (length first_chars * p)

-- The loop over the lengths: how many characters follow the first, and the rank among such names.
-- It subtracts at each round, so that fuel for `remaining` is enough.
unfoldable pub find_length : ℕ → ℕ → ℕ → Option (ℕ × ℕ)
find_length zero place remaining = none
find_length (suc fuel) place remaining = combinations place >>= λ c.
    let rest = find_length fuel (suc place) (remaining - c) in
    if ltb remaining c then some (place, remaining) else rest

-- The loop over the places, from the highest.
unfoldable pub push_rest : ℕ → ℕ → Option Bytes
push_rest zero remaining = some []
push_rest (suc place) remaining = do
  divisor ← lead_divisor place
  b ← get_elem? rest_chars (remaining / divisor)
  name ← push_rest place (remaining % divisor)
  some (b ∷ name)

unfoldable pub long_name : ℕ × ℕ → Option Bytes
long_name (place, remaining) = do
  divisor ← lead_divisor place
  b ← get_elem? first_chars (remaining / divisor)
  name ← push_rest place (remaining % divisor)
  some (b ∷ name)

unfoldable pub name_for_index : ℕ → Option Bytes
name_for_index idx =
    let first_base = length first_chars in
    let long = find_length (suc idx) 1 (idx - first_base) >>= long_name in
    if ltb idx first_base then (do b ← get_elem? first_chars idx; some (b ∷ [])) else long
