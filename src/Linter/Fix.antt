-- ===== src/Linter/Fix.antt =====
-- crates/luck_linter/src/fix.rs: applying the fixes of lint diagnostics to a source text. Texts are
-- their UTF-8 bytes. A panic of `String::replace_range` is a `none`.
pub mod SortOrder
pub mod Splice
pub mod Accepted
pub mod Fixpoint
use luck.Span.{Span}
use luck.Prelude.{
  ℕ, zero, suc, ◌+◌, ◌-◌, ◌^◌, Bool, true, false, not, ◌&&◌, ◌||◌, Option, none, some, List, [],
  ◌∷◌, ◌++◌, ltb, leb, ◌==◌, within, if◌then◌else◌, ◌>>=◌, any, take, drop, length, Bytes, bytes_eq,
}

pub record TextEdit : Type 0 where
  pub span : Span
  pub replacement : Bytes

-- The field `Fix` of a diagnostic.
pub record LintFix : Type 0 where
  pub description : Bytes
  pub edits : List TextEdit

pub data Category : Type 0 where
  correctness suspicious style performance : Category

pub data Severity : Type 0 where
  error warning : Severity

pub record LintDiagnostic : Type 0 where
  pub rule : Bytes
  pub category : Category
  pub severity : Severity
  pub message : Bytes
  pub span : Span
  pub help : Option Bytes
  pub fix : Option LintFix

-- `u32::MAX`
abbrev pub u32_max : ℕ
u32_max = 4_294_967_295

-- The `filter_map` and `flat_map` over the diagnostics.
unfoldable pub collect_edits : List LintDiagnostic → List TextEdit
collect_edits [] = []
collect_edits (d ∷ ds) = elim d.fix [
  | none ↦ collect_edits ds
  | some fix ↦ fix.edits ++ collect_edits ds
]

pub data Order : Type 0 where
  less equal greater : Order

abbrev pub cmp : ℕ → ℕ → Order
cmp a b = if ltb a b then less else if a == b then equal else greater

-- `Ordering::then`
abbrev pub and_then : Order → Order → Order
and_then equal o = o
and_then less o = less
and_then greater o = greater

-- `str::cmp`
unfoldable pub cmp_bytes : Bytes → Bytes → Order
cmp_bytes [] [] = equal
cmp_bytes [] (b ∷ y) = less
cmp_bytes (a ∷ x) [] = greater
cmp_bytes (a ∷ x) (b ∷ y) = and_then (cmp a b) (cmp_bytes x y)

-- The comparator of `sort_by`: by start and by end, later first, then by replacement.
unfoldable pub cmp_edits : TextEdit → TextEdit → Order
unfolding cmp_bytes
cmp_edits a b =
    and_then (cmp b.span.start a.span.start)
      (and_then (cmp b.span.end a.span.end) (cmp_bytes a.replacement b.replacement))

-- `slice::sort_by`, which is stable: an element stays before its equals.
unfoldable pub insert_edit : TextEdit → List TextEdit → List TextEdit
insert_edit e [] = e ∷ []
insert_edit e (f ∷ fs) = elim (cmp_edits e f) [ greater ↦ f ∷ insert_edit e fs | _ ↦ e ∷ f ∷ fs ]

unfoldable pub sort_edits : List TextEdit → List TextEdit
unfolding insert_edit
sort_edits [] = []
sort_edits (e ∷ es) = insert_edit e (sort_edits es)

-- The first byte of what is left begins a character.
abbrev pub begins_char : Bytes → Bool
begins_char [] = true
begins_char (b ∷ _) = not (within 0x80 0xBF b)

-- `str::is_char_boundary`
abbrev pub is_char_boundary : Bytes → ℕ → Bool
is_char_boundary text i = i == 0 || (leb i (length text) && begins_char (drop i text))

-- `String::replace_range(start..end, replacement)`, with its panics.
unfoldable pub replace_range : Bytes → ℕ → ℕ → Bytes → Option Bytes
replace_range text start end replacement =
    if leb start end
      && leb end (length text)
      && is_char_boundary text start
      && is_char_boundary text end
    then some (take start text ++ (replacement ++ drop end text))
    else none

-- The `for` loop over the sorted edits; `last_start` is where the last accepted edit starts.
unfoldable pub apply_edits : ℕ → Bytes → List TextEdit → Option Bytes
apply_edits last_start result [] = some result
apply_edits last_start result (e ∷ es) = elim (leb e.span.end last_start) [
  | true ↦ replace_range result e.span.start e.span.end e.replacement >>= λ next.
      apply_edits e.span.start next es
  | false ↦ apply_edits last_start result es
]

unfoldable pub apply_one_pass : Bytes → List LintDiagnostic → Option Bytes
unfolding collect_edits
apply_one_pass source diagnostics = elim (collect_edits diagnostics) [
  | [] ↦ some source
  | e ∷ es ↦ apply_edits u32_max source (sort_edits (e ∷ es))
]

abbrev pub is_empty {ℓ} : {A : Type ℓ} → List A → Bool
is_empty [] = true
is_empty (_ ∷ _) = false

-- `Vec<String>::join("; ")`
unfoldable pub join_messages : List Bytes → Bytes
join_messages [] = []
join_messages (m ∷ []) = m
join_messages (m ∷ n ∷ ms) = m ++ (b';' ∷ b' ' ∷ join_messages (n ∷ ms))

pub data FixpointError : Type 0 where
  budget_exhausted : ℕ → FixpointError
  reparse_failed : ℕ → Bytes → FixpointError

-- `Result<String, FixpointError>`, and the panic that an edit out of range would be.
pub data Outcome : Type 0 where
  ok : Bytes → Outcome
  err : FixpointError → Outcome
  panic : Outcome

abbrev pub has_fix : LintDiagnostic → Bool
has_fix d = elim d.fix [ none ↦ false | some _ ↦ true ]

-- The parser, by the messages of the errors that it reports.
unfoldable pub apply_fixes : (Bytes → List Bytes) → Bytes → List LintDiagnostic → Option Bytes
unfolding bytes_eq
apply_fixes parse_errors source diagnostics = apply_one_pass source diagnostics >>= λ result. some (
    if not (bytes_eq result source) && not (is_empty (parse_errors result)) then source else result)

module _ (lint : Bytes → List LintDiagnostic) (parse_errors : Bytes → List Bytes) where
  -- The rounds of the loop from round `iteration` on; `rounds` are left of the budget.
  unfoldable pub fixpoint_from : ℕ → ℕ → ℕ → Bytes → Outcome
  unfolding bytes_eq join_messages
  fixpoint_from budget iteration zero current = err (budget_exhausted budget)
  fixpoint_from budget iteration (suc rounds) current =
      let diagnostics = lint current in
      elim (any has_fix diagnostics) [
        | false ↦ ok current
        | true ↦ elim (apply_one_pass current diagnostics) [
          | none ↦ panic
          | some next ↦ elim (bytes_eq next current) [
            | true ↦ ok current
            | false ↦ elim (parse_errors next) [
              | [] ↦ fixpoint_from budget (iteration + 1) rounds next
              | m ∷ ms ↦ err (reparse_failed iteration (join_messages (m ∷ ms)))
            ]
          ]
        ]
      ]

  unfoldable pub fixpoint_within : Bytes → ℕ → Outcome
  unfolding fixpoint_from
  fixpoint_within source budget = fixpoint_from budget 0 budget source

  -- `FIXPOINT_BUDGET` is 10.
  unfoldable pub apply_fixes_fixpoint : Bytes → Outcome
  unfolding fixpoint_within
  apply_fixes_fixpoint source = fixpoint_within source 10
