-- ===== src/Semantic/Scope/Agreement.antt =====
-- What the symbols and scopes of crates/luck_semantic/src/scope.rs list, beside the tables.
use luck.Semantic.Scope.Crossing.{Ordered, Embeds, captures, captures-Embeds}
use luck.Semantic.Scope.Pointing.{
  points_to, Below, points_to_self, rows_to, rows_to-miss, rows_to-none, any_rows-hit,
  any_rows-same, ids_to, ids_to-hit, ids_to-miss, ids_to-none,
}
use luck.Semantic.Scope.{
  ScopeId, SymbolId, ReferenceId, Scope, Symbol, Reference, ScopeTree, note_reference, is_write,
  crosses_function_boundary,
}
use luck.Prelude.{
  ◌≤◌, ◌<◌, ◌≡◌, refl, sym, ap, ap₂, ◌∙◌, Bool, false, ◌||◌, ◌++◌, some, List, [], ◌∷◌, any, length,
  AllAt, AllAt-map,
}

-- The uses of a symbol.
abbrev pub uses_of : SymbolId → List Reference → List Reference
uses_of = rows_to (λ (r : Reference). r.resolved)

-- A scope lists the scopes that it encloses and the symbols declared in it, in their order.
abbrev pub children_of : ScopeId → List Scope → List ScopeId
children_of = ids_to (λ (s : Scope). s.parent) (λ (s : Scope). s.id)

abbrev pub declared_in : ScopeId → List Symbol → List SymbolId
declared_in = ids_to (λ (y : Symbol). some y.scope) (λ (y : Symbol). y.id)

abbrev pub uses_ids : SymbolId → List Reference → List ReferenceId
uses_ids = ids_to (λ (r : Reference). r.resolved) (λ (r : Reference). r.id)

-- A symbol lists exactly its uses, is an upvalue exactly if one of them lies in another function
-- than its scope, and is modified exactly if one of them writes.
abbrev pub Noted : ScopeTree → SymbolId → Symbol → Type 0
Noted tree i y =
    (y.reference_ids ≡ uses_ids i tree.references)
    × (y.is_upvalue ≡ any (captures tree y.scope) (uses_of i tree.references))
    × (y.is_modified ≡ any (λ (r : Reference). is_write r.kind) (uses_of i tree.references))

-- The references of a tree stand in its scopes.
abbrev pub Placed : ScopeTree → Type 0
Placed tree = AllAt (λ _ (r : Reference). r.scope < length tree.scopes) 0 tree.references

-- More scopes, or more listed in them, and other symbols.
pub Noted-Embeds :
    (tree : ScopeTree) (xs : List Scope) (ys : List Symbol)
    → Ordered tree.scopes
    → Placed tree
    → Embeds tree.scopes xs
    → length tree.scopes ≤ length xs
    → (i : SymbolId) (y : Symbol) → Noted tree i y
    → Noted (record tree { scopes = xs; symbols = ys }) i y
Noted-Embeds tree xs ys o placed h le i y (ids, captured, modified) = (
  ids,
  captured
      ∙ any_rows-same (λ (r : Reference). r.resolved) (captures tree y.scope) _ i 0 tree.references
          (AllAt-map _ _ 0 tree.references
            (λ j r lt. sym (captures-Embeds tree _ y.scope r o h le lt)) placed),
  modified,
)

-- A symbol that nothing refers to yet.
pub Noted-new :
    (tree : ScopeTree) (i : SymbolId) (y : Symbol)
    → AllAt (λ _ (r : Reference). Below i r.resolved) 0 tree.references
    → y.reference_ids ≡ []
    → y.is_upvalue ≡ false
    → y.is_modified ≡ false
    → Noted tree i y
Noted-new tree i y h ids captured modified =
    let unused = rows_to-none (λ (r : Reference). r.resolved) i 0 tree.references h in
    (
      ids ∙ sym (ids_to-none _ _ i tree.references h),
      captured ∙ sym (ap (any (captures tree y.scope)) unused),
      modified ∙ sym (ap (any (λ (r : Reference). is_write r.kind)) unused),
    )

-- A reference behind the others, to something else, or to the symbol.
module _ (tree : ScopeTree) (ys : List Symbol) (r : Reference) where
  abbrev pub referred : ScopeTree
  referred = record tree { symbols = ys; references = tree.references ++ r ∷ [] }

  pub Noted-miss :
      (i : SymbolId) (y : Symbol)
      → points_to i r.resolved ≡ false
      → Noted tree i y
      → Noted referred i y
  unfolding crosses_function_boundary
  Noted-miss i y h (ids, captured, modified) =
      let same = rows_to-miss (λ (r : Reference). r.resolved) i tree.references r h in
      (
        ids ∙ sym (ids_to-miss _ _ i tree.references r h),
        captured ∙ sym (ap (any (captures tree y.scope)) same),
        modified ∙ sym (ap (any (λ (r : Reference). is_write r.kind)) same),
      )

  pub Noted-hit :
      (i : SymbolId) (y : Symbol) (crosses : Bool)
      → r.resolved ≡ some i
      → crosses_function_boundary tree r.scope y.scope ≡ some crosses
      → Noted tree i y
      → Noted referred i (note_reference r.id r.kind crosses y)
  unfolding crosses_function_boundary
  Noted-hit i y crosses to ends (ids, captured, modified) =
      let hit = ap (points_to i) to ∙ points_to_self i in
      let target = λ (r : Reference). r.resolved in
      (
        ap (λ l. l ++ r.id ∷ []) ids ∙ sym (ids_to-hit _ _ i tree.references r hit),
        ap₂ ◌||◌ captured (sym (captured_as ends))
            ∙ sym (any_rows-hit target (captures tree y.scope) i tree.references r hit),
        ap (λ b. b || is_write r.kind) modified
            ∙ sym
                (any_rows-hit target (λ (r : Reference). is_write r.kind) i tree.references r hit),
      )
    where
      captured_as :
          crosses_function_boundary tree r.scope y.scope ≡ some crosses
          → captures tree y.scope r ≡ crosses
      captured_as e = rw e refl
