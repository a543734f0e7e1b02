-- ===== src/Semantic/Scope/Referring.antt =====
-- Adding a reference to the scope tree of crates/luck_semantic/src/scope.rs.
use luck.Semantic.Scope.{
  ScopeId, SymbolId, ReferenceId, Scope, Symbol, ReferenceKind, Reference, ScopeTree,
  crosses_function_boundary, note_reference, add_reference,
}
use luck.Semantic.Scope.Agreement.{declared_in, Noted, Noted-miss, Noted-hit, referred}
use luck.Semantic.Scope.Crossing.{crosses_function_boundary-ends}
use luck.Semantic.Scope.Pointing.{
  points_to, points_to_other, AllAt-change_first, AllAt-zip, AllAt-found, ids_to-update,
}
use luck.Span.{Span}
use luck.Prelude.{
  sym, ap, ◌<◌, ◌≡◌, refl, ◌∙◌, Bool, Option, none, some, List, [], ◌∷◌, ◌++◌, get_elem?, length,
  update, AllAt, AllAt-map, AllAt-push, AllAt-update, length-update, get_elem-update, Bytes,
}
use luck.Semantic.Scope.Valid.{IsValid, Named, Resolves, Resolves-map, scope_of, symbol_id}

Named-note :
    (symbols : List Symbol) (at : SymbolId) (rid : ReferenceId) (kind : ReferenceKind)
    (crosses : Bool) (id : SymbolId) (name : Bytes)
    → Named symbols id name
    → Named (update at (note_reference rid kind crosses) symbols) id name
Named-note symbols at rid kind crosses id name h =
    get_elem-update (λ (y : Symbol). y.name ≡ name) (note_reference rid kind crosses) at symbols id
      (λ y e. e) h

-- What adding a reference gives.
pub record Added (tree after : ScopeTree) (r : Reference) : Type 0 where
  pub references : after.references ≡ tree.references ++ r ∷ []
  pub scopes : after.scopes ≡ tree.scopes
  pub symbol_count : length after.symbols ≡ length tree.symbols
  pub named :
      (id : SymbolId) (name : Bytes) → Named tree.symbols id name → Named after.symbols id name
  pub valid : IsValid after

-- The reference that is added.
abbrev pub new_reference :
    ScopeTree → Bytes → Span → ScopeId → ReferenceKind → Option SymbolId → Reference
new_reference tree name span scope kind resolved = record {
  id = length tree.references;
  span = span;
  name = name;
  kind = kind;
  scope = scope;
  resolved = resolved;
}

abbrev pub Target : List Symbol → Bytes → Option SymbolId → Type 0
Target symbols name none = Unit
Target symbols name (some id) = Named symbols id name

declared-note :
    (scopes : List Scope) (symbols : List Symbol) (at : SymbolId) (rid : ReferenceId)
    (kind : ReferenceKind) (crosses : Bool)
    → AllAt (λ i (s : Scope). s.symbols ≡ declared_in i symbols) 0 scopes
    → AllAt
        (λ i (s : Scope).
          s.symbols ≡ declared_in i (update at (note_reference rid kind crosses) symbols))
        0
        scopes
declared-note scopes symbols at rid kind crosses = AllAt-map _ _ 0 scopes (λ i s k.
    k
    ∙ sym (
        ids_to-update scope_of symbol_id i at (note_reference rid kind crosses) symbols (λ _. refl)
          (λ _. refl)))

-- The symbol that a reference is resolved to notes it, and no other.
Noted-note :
    (tree : ScopeTree) (r : Reference) (id : SymbolId) (y : Symbol) (crosses : Bool)
    → r.resolved ≡ some id
    → get_elem? tree.symbols id ≡ some y
    → crosses_function_boundary tree r.scope y.scope ≡ some crosses
    → AllAt (Noted tree) 0 tree.symbols
    → AllAt
        (Noted (referred tree (update id (note_reference r.id r.kind crosses) tree.symbols) r))
        0
        (update id (note_reference r.id r.kind crosses) tree.symbols)
Noted-note tree r id y crosses to here ends noted =
    let symbols = update id (note_reference r.id r.kind crosses) tree.symbols in
    AllAt-change_first (λ i x. Noted tree i x × (get_elem? tree.symbols i ≡ some x))
      (Noted (referred tree symbols r)) id (note_reference r.id r.kind crosses) tree.symbols
      (λ x (k, e).
        Noted-hit tree symbols r id x crosses to
          (ap (λ (z : Symbol). crosses_function_boundary tree r.scope z.scope) (same x e) ∙ ends) k)
      (λ j x d (k, _).
        Noted-miss tree symbols r j x (ap (points_to j) to ∙ points_to_other j id d) k)
      (AllAt-zip _ _ 0 tree.symbols noted (AllAt-found tree.symbols))
  where
    same : (x : Symbol) → get_elem? tree.symbols id ≡ some x → x ≡ y
    same x e = cc (e, here)

-- A reference to a symbol of its name, or to none, is added without a panic.
pub add_reference-Added :
    (tree : ScopeTree) (name : Bytes) (span : Span) (scope : ScopeId) (kind : ReferenceKind)
    (resolved : Option SymbolId)
    → scope < length tree.scopes
    → Target tree.symbols name resolved
    → IsValid tree
    → (after : ScopeTree) × (add_reference tree name span scope kind resolved
        ≡ some (after, length tree.references))
      × Added tree after (new_reference tree name span scope kind resolved)
unfolding add_reference
add_reference-Added tree name span scope kind none home target v =
    let r = new_reference tree name span scope kind none in
    (
      referred tree tree.symbols r,
      refl,
      record {
        references = refl;
        scopes = refl;
        symbol_count = refl;
        named = λ id n h. h;
        valid = record {
          parents = v.parents;
          homes = v.homes;
          targets =
              AllAt-push
                (λ i (r : Reference).
                  (r.id ≡ i) × (r.scope < length tree.scopes) × Resolves tree.symbols r r.resolved)
                tree.references r v.targets (refl, home, tt);
          children = v.children;
          declared = v.declared;
          noted =
              AllAt-map _ _ 0 tree.symbols (λ i y k. Noted-miss tree tree.symbols r i y refl k)
                v.noted;
        };
      },
    )
add_reference-Added tree name span scope kind (some id) home target v =
    let (y, at, same) = target in
    let (crosses, ends) = crosses_function_boundary-ends tree scope y.scope v.parents home in
    let symbols = update id (note_reference (length tree.references) kind crosses) tree.symbols in
    let named = Named-note tree.symbols id (length tree.references) kind crosses in
    let r = new_reference tree name span scope kind (some id) in
    (
      record tree { symbols = symbols; references = tree.references ++ r ∷ [] },
      rw (at, ends) refl,
      record {
        references = refl;
        scopes = refl;
        symbol_count =
            length-update id (note_reference (length tree.references) kind crosses) tree.symbols;
        named = named;
        valid = record {
          parents = v.parents;
          homes =
              AllAt-update _ 0 id (note_reference (length tree.references) kind crosses)
                tree.symbols (λ i s k. k) v.homes;
          targets =
              AllAt-push
                (λ i (r : Reference).
                  (r.id ≡ i) × (r.scope < length tree.scopes) × Resolves symbols r r.resolved)
                tree.references r
                (AllAt-map _ _ 0 tree.references
                  (λ i r h. (h.0, h.1, Resolves-map tree.symbols symbols r r.resolved named h.2))
                  v.targets)
                (refl, home, named id name target);
          children = v.children;
          declared =
              declared-note tree.scopes tree.symbols id (length tree.references) kind crosses
                v.declared;
          noted = Noted-note tree r id y crosses refl at ends v.noted;
        };
      },
    )
