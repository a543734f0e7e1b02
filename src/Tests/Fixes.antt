-- ===== src/Tests/Fixes.antt =====
-- Fixes on a small text, with a lint run and a parser that are small functions.
use luck.Linter.Fix.Accepted.{apply_one_pass-spliced, accepted-resolves, Resolved}
use luck.Linter.Fix.Fixpoint.{Ends, fixpoint_within-Ends, apply_fixes-parses}
use luck.Linter.Fix.SortOrder.{apply_one_pass-perm}
use luck.Linter.Fix.Splice.{Fits, accepted, spliced}
use luck.Linter.Fix.{
  TextEdit, LintDiagnostic, correctness, warning, collect_edits, cmp_edits, sort_edits,
  replace_range, apply_edits, apply_one_pass, apply_fixes, ok, fixpoint_within, u32_max,
}
use luck.Prelude.{
  ℕ, ◌≡◌, ◌⊎◌, refl, List, [], ◌∷◌, none, some, arith, All, codes, Bytes, ◌==◌, if◌then◌else◌,
}
use mathlib.Core.List.{Perm}
use mathlib.Core.List.Perm

abbrev edit : ℕ → ℕ → Bytes → TextEdit
edit s e r = record { span = record { start = s; end = e }; replacement = r }

abbrev diagnostic : ℕ → ℕ → Bytes → LintDiagnostic
diagnostic s e r = record {
  rule = codes "test";
  category = correctness;
  severity = warning;
  message = codes "test";
  span = record { start = s; end = e };
  help = none;
  fix = some (record { description = codes "test fix"; edits = edit s e r ∷ [] });
}

abbrev letters : Bytes
letters = codes "abcdefghij"

abbrev overlapping : List LintDiagnostic
overlapping = diagnostic 2 6 (codes "XX") ∷ diagnostic 4 8 (codes "YY") ∷ diagnostic 0 1 [] ∷ []

overlapping_fixes : apply_one_pass letters overlapping ≡ some (codes "bcdYYij")
unfolding apply_one_pass sort_edits cmp_edits apply_edits replace_range
overlapping_fixes = refl

letters-Fits : All (Fits letters) (collect_edits overlapping)
unfolding collect_edits
letters-Fits = (
  record {
    ordered = omega arith;
    in_range = omega arith;
    start_boundary = refl;
    end_boundary = refl;
    text = refl;
  },
  (
    record {
      ordered = omega arith;
      in_range = omega arith;
      start_boundary = refl;
      end_boundary = refl;
      text = refl;
    },
    (
      record {
        ordered = omega arith;
        in_range = omega arith;
        start_boundary = refl;
        end_boundary = refl;
        text = refl;
      },
      tt,
    ),
  ),
)

apply_one_pass-spliced_example :
    apply_one_pass letters overlapping
    ≡ some (spliced letters (accepted u32_max (sort_edits (collect_edits overlapping))))
apply_one_pass-spliced_example = apply_one_pass-spliced letters overlapping refl letters-Fits

accepted-resolves_example : (made : List TextEdit) × Resolved letters overlapping made
accepted-resolves_example = accepted-resolves letters overlapping (omega arith) refl letters-Fits

abbrev reordered : List LintDiagnostic
reordered = diagnostic 4 8 (codes "YY") ∷ diagnostic 2 6 (codes "XX") ∷ diagnostic 0 1 [] ∷ []

reordered-perm : Perm (collect_edits overlapping) (collect_edits reordered)
unfolding collect_edits
reordered-perm = Perm.swap _ _ _

apply_one_pass-perm_example : apply_one_pass letters overlapping ≡ apply_one_pass letters reordered
apply_one_pass-perm_example = apply_one_pass-perm letters overlapping reordered reordered-perm

-- A rule that renames a leading `a`.
abbrev rename_a : Bytes → List LintDiagnostic
rename_a [] = []
rename_a (b ∷ r) = if b == b'a' then diagnostic 0 1 (codes "_a") ∷ [] else []

abbrev parses : Bytes → List Bytes
parses text = []

rename_converges : fixpoint_within rename_a parses (codes "ab") 10 ≡ ok (codes "_ab")
unfolding fixpoint_within apply_one_pass sort_edits cmp_edits apply_edits replace_range
rename_converges = refl

fixpoint_within-Ends_example :
    Ends rename_a parses (codes "ab") 10 (fixpoint_within rename_a parses (codes "ab") 10)
fixpoint_within-Ends_example = fixpoint_within-Ends rename_a parses (codes "ab") 10

apply_fixes-parses_example :
    (codes "bcdYYij" ≡ letters)
    ⊎ ((apply_one_pass letters overlapping ≡ some (codes "bcdYYij"))
        × (parses (codes "bcdYYij") ≡ []))
apply_fixes-parses_example =
    apply_fixes-parses parses letters overlapping (codes "bcdYYij")
      (unfold apply_fixes apply_one_pass sort_edits cmp_edits apply_edits replace_range in refl)
