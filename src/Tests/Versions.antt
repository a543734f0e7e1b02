-- ===== src/Tests/Versions.antt =====
-- The feature table at two releases.
use luck.Prelude.{◌≡◌, refl, arith, All, true}
use luck.Version.Features.{additions, restrictions, additions_stay}
use luck.Version.{lua52, lua54}

additions_stay_example :
    All (λ f. f lua52 ≡ true → f lua54 ≡ true) additions
    × All (λ f. f lua54 ≡ true → f lua52 ≡ true) restrictions
additions_stay_example = additions_stay lua52 lua54 2 4 refl refl (omega arith)
