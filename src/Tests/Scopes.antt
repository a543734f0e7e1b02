-- ===== src/Tests/Scopes.antt =====
-- A few steps of the scope builder: `local x; do local x; f(x) end; x = 1`.
use luck.Semantic.Builder.Lexical.{scope_steps}
use luck.Semantic.Builder.Resolution.{Built, take_steps-lexical, take_steps-IsValid}
use luck.Semantic.Builder.{
  ScopeTreeBuilder, Step, push, pop, declare, refer, start_build, take_steps, resolve,
}
use luck.Semantic.Scope.Boundary.{Answers}
use luck.Semantic.Scope.Valid.{IsValid}
use luck.Semantic.Scope.{
  Reference, Symbol, function_scope, block_scope, local, read, write, add_symbol, add_scope,
  add_reference, crosses_function_boundary,
}
use luck.Span.{Span}
use luck.Prelude.{Bool, true, ℕ, ◌≡◌, refl, Option, none, some, List, [], ◌∷◌, codes, map, bytes_eq}

abbrev at : ℕ → ℕ → Span
at start end = record { start = start; end = end }

abbrev steps : List Step
steps =
    declare (codes "x") (at 6 7) local
    ∷ push block_scope (at 9 40)
    ∷ declare (codes "x") (at 18 19) local
    ∷ refer (codes "f") (at 21 22) read
    ∷ refer (codes "x") (at 23 24) read
    ∷ pop
    ∷ refer (codes "x") (at 42 43) write
    ∷ []

-- The targets of the references that a build records.
abbrev targets : Option ScopeTreeBuilder → List (Option ℕ)
targets none = []
targets (some b) = map (λ (r : Reference). r.resolved) b.tree.references

resolves_shadowed : targets (take_steps (start_build (at 0 50)) steps) ≡ none ∷ some 1 ∷ some 0 ∷ []
unfolding take_steps start_build add_scope add_symbol add_reference crosses_function_boundary
    resolve bytes_eq
resolves_shadowed = refl

take_steps-lexical_example : Built (at 0 50) steps (scope_steps 0 ([] ∷ []) steps)
take_steps-lexical_example = take_steps-lexical (at 0 50) steps

-- `local x; function() x = 1 end`
abbrev capturing_steps : List Step
capturing_steps =
    declare (codes "x") (at 6 7) local
    ∷ push function_scope (at 9 40)
    ∷ refer (codes "x") (at 20 21) write
    ∷ pop
    ∷ []

abbrev capturing_build : ScopeTreeBuilder
capturing_build = elim (take_steps (start_build (at 0 50)) capturing_steps) [
  | none ↦ start_build (at 0 50)
  | some b ↦ b
]

captured_x :
    map {B = Bool × Bool × List ℕ}
      (λ (y : Symbol). (y.is_upvalue, y.is_modified, y.reference_ids))
      capturing_build.tree.symbols
    ≡ (true, true, 0 ∷ []) ∷ []
unfolding take_steps start_build add_scope add_symbol add_reference crosses_function_boundary
    resolve bytes_eq
captured_x = refl

take_steps-IsValid_example : IsValid capturing_build.tree × Answers capturing_build.tree
take_steps-IsValid_example = take_steps-IsValid (at 0 50) capturing_steps capturing_build (
    unfold take_steps start_build add_scope add_symbol add_reference crosses_function_boundary
      resolve bytes_eq in
    refl)
