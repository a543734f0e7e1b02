-- ===== src/Linter/Fix/Fixpoint.antt =====
-- The loop of `apply_fixes_fixpoint` in crates/luck_linter/src/fix.rs, for any lint run and parser.
use luck.Linter.Fix.{
  LintDiagnostic, has_fix, join_messages, apply_one_pass, apply_fixes, budget_exhausted,
  reparse_failed, Outcome, ok, err, panic, fixpoint_from, fixpoint_within,
}
use mathlib.Core.Path.{subst}
use luck.Prelude.{
  bytes_eq, bytes_eq_iff, ℕ, zero, suc, ◌+◌, ◌<◌, ◌≡◌, ◌≢◌, ◌⊎◌, inl, inr, refl, sym, ap, ◌∙◌,
  List-cases, true, false, List, [], some, none, arith, any, Bool-cases, Option-cases, Bytes,
}

module _ (lint : Bytes → List LintDiagnostic) (parse_errors : Bytes → List Bytes) where
  -- Another round would change nothing: no fix is offered, or all of them leave the text.
  abbrev pub IsStable : Bytes → Type 0
  IsStable text = (any has_fix (lint text) ≡ false) ⊎ (apply_one_pass text (lint text) ≡ some text)

  -- A pass that offers fixes makes them, and gives another text.
  pub record Rewrites (current next : Bytes) : Type 0 where
    pub offered : any has_fix (lint current) ≡ true
    pub made : apply_one_pass current (lint current) ≡ some next
    pub differs : next ≢ current

  -- So many rounds lead from the source to a text, each to one that parses.
  pub data Rounds (source : Bytes) : ℕ → Bytes → Type 0 where
    start : Rounds source 0 source
    round :
        {n : ℕ} {current next : Bytes}
        → Rounds source n current
        → Rewrites current next
        → parse_errors next ≡ []
        → Rounds source (n + 1) next

  -- What each way for the loop to end says of the rounds before it.
  abbrev pub Ends : Bytes → ℕ → Outcome → Type 0
  Ends source budget (ok text) = (n : ℕ) × (n < budget) × Rounds source n text × IsStable text
  Ends source budget (err (budget_exhausted n)) =
      (n ≡ budget) × ((text : Bytes) × Rounds source budget text)
  Ends source budget (err (reparse_failed n message)) =
      (n < budget)
      × ((current : Bytes) × (next : Bytes) × Rounds source n current
          × Rewrites current next
          × (parse_errors next ≢ [])
          × (message ≡ join_messages (parse_errors next)))
  Ends source budget panic =
      (n : ℕ) × (text : Bytes) × (n < budget)
      × Rounds source n text
      × (any has_fix (lint text) ≡ true)
      × (apply_one_pass text (lint text) ≡ none)

  fixpoint_from-Ends :
      (budget iteration rounds : ℕ) (source current : Bytes)
      → iteration + rounds ≡ budget
      → Rounds source iteration current
      → Ends source budget (fixpoint_from lint parse_errors budget iteration rounds current)
  unfolding fixpoint_from
  fixpoint_from-Ends budget iteration zero source current e h =
      let all_done : iteration ≡ budget = omega (arith, e) in
      (refl, (current, subst (λ n. Rounds source n current) all_done h))
  fixpoint_from-Ends budget iteration (suc rounds) source current e h =
      let within : iteration < budget = omega (arith, e) in
      elim (Bool-cases (any has_fix (lint current))) [
        | inr no_fix ↦ rw (no_fix, fixpoint_from) (iteration, within, h, inl no_fix)
        | inl fixes ↦ elim (Option-cases (apply_one_pass current (lint current))) [
          | inl panics ↦
              rw (fixes, panics, fixpoint_from) (iteration, current, within, h, fixes, panics)
          | inr (next, applied) ↦ elim (Bool-cases (bytes_eq next current)) [
            | inl same ↦
                let unchanged : next ≡ current = (bytes_eq_iff next current).0 same in
                rw (fixes, applied, same, fixpoint_from)
                  (iteration, within, h, inr (applied ∙ ap some unchanged))
            | inr other ↦
                let rewrites : Rewrites current next = record {
                  offered = fixes;
                  made = applied;
                  differs = λ same. cc (other, (bytes_eq_iff next current).1 same);
                } in
                elim (List-cases (parse_errors next)) [
                  | inl parses ↦
                      rw (fixes, applied, other, parses, fixpoint_from)
                        (fixpoint_from-Ends budget (iteration + 1) rounds source next
                          (omega (arith, e)) (round h rewrites parses))
                  | inr (m, ms, fails) ↦
                      rw (fixes, applied, other, fails, fixpoint_from)
                        (
                          within,
                          (
                            current,
                            next,
                            h,
                            rewrites,
                            λ n. cc (fails, n),
                            ap join_messages (sym fails),
                          ),
                        )
                ]
          ]
        ]
      ]

  -- How the loop ends, with the rounds from the source that led there, each of which ran a
  -- pass over the fixes it was offered, changed the text and left one that parses. It hands out a text that another
  -- round would leave alone, after fewer rounds than the budget; or it gives up after exactly as
  -- many rounds as the budget; or the next round below the budget changes the text to one that does
  -- not parse, and it reports the number of rounds before and the parser's messages; or the
  -- pass of the next round below the budget panics.
  pub fixpoint_within-Ends :
      (source : Bytes) (budget : ℕ)
      → Ends source budget (fixpoint_within lint parse_errors source budget)
  unfolding fixpoint_within
  fixpoint_within-Ends source budget =
      fixpoint_from-Ends budget 0 budget source source (omega arith) start

-- `apply_fixes` hands out the source, or the text of the pass, and then that text parses.
pub apply_fixes-parses :
    (parse_errors : Bytes → List Bytes) (source : Bytes) (ds : List LintDiagnostic) (text : Bytes)
    → apply_fixes parse_errors source ds ≡ some text
    → (text ≡ source) ⊎ ((apply_one_pass source ds ≡ some text) × (parse_errors text ≡ []))
unfolding apply_fixes
apply_fixes-parses parse_errors source ds text h = elim (Option-cases (apply_one_pass source ds)) [
  | inl e ↦ cc (rw (e, apply_fixes) at h)
  | inr (result, e) ↦
      ground (arith, e, bytes_eq_iff result source, List-cases (parse_errors result))
]
