-- ===== src/Tests/Suggestions.antt =====
-- The edit distance of small words.
use luck.Linter.Suggest.{levenshtein, rows_from, next_row, fill_row}
use luck.Linter.Suggest.Distance.{distance, reversed_onto, levenshtein-distance}
use luck.Prelude.{◌≡◌, refl, some, [], codes, bytes_eq}

kitten_to_sitting : levenshtein (codes "kitten") (codes "sitting") ≡ some 3
unfolding levenshtein rows_from next_row fill_row bytes_eq
kitten_to_sitting = refl

defined_distance : distance (codes "nettik") (codes "gnittis") ≡ 3
unfolding distance
defined_distance = refl

levenshtein-distance_example :
    levenshtein (codes "strict") (codes "nostrit")
    ≡ some (distance (reversed_onto (codes "strict") []) (reversed_onto (codes "nostrit") []))
levenshtein-distance_example = levenshtein-distance (codes "strict") (codes "nostrit")
