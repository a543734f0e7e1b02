-- ===== src/Semantic/Scope/Valid.antt =====
-- What every operation of the scope tree in crates/luck_semantic/src/scope.rs keeps.
use luck.Semantic.Scope.{
  ScopeId, SymbolId, ScopeKind, Scope, SymbolKind, Symbol, Reference, ScopeTree, new_tree,
  add_scope, add_symbol,
}
use luck.Semantic.Scope.Agreement.{children_of, declared_in, Noted, Placed, Noted-Embeds, Noted-new}
use luck.Semantic.Scope.Enclosing.{
  length-add_child_snoc, Ordered-add_child, declared-add_child, Embeds-add_child,
  children-add_child, parent_of, id_of,
}
use luck.Semantic.Scope.Crossing.{Ordered, Embeds-refl, Embeds-update}
use luck.Semantic.Scope.Pointing.{
  Below, points_to_other, points_to_self, get_elem-lt, AllAt-change_first, ids_to-hit, ids_to-miss,
  ids_to-none, ids_to-update,
}
use luck.Span.{Span}
use luck.Prelude.{
  sym, ap, ◌+◌, ◌<◌, ◌≡◌, refl, ◌∙◌, false, Option, none, some, List, [], ◌∷◌, ◌++◌, get_elem?,
  length, AllAt, AllAt-map, AllAt-push, AllAt-update, length-update, get_elem-append, get_elem-last,
  Bytes, arith,
}

-- The symbol at an id has this name.
abbrev pub Named : List Symbol → SymbolId → Bytes → Type 0
Named symbols id name = (y : Symbol) × (get_elem? symbols id ≡ some y) × (y.name ≡ name)

abbrev pub Resolves : List Symbol → Reference → Option SymbolId → Type 0
Resolves symbols r none = Unit
Resolves symbols r (some id) = Named symbols id r.name

-- Ids are indices, a parent stands before its children, the scopes of symbols and references are
-- in the tree, a reference that is resolved is so to a symbol of its name, and what scopes and
-- symbols list agrees with the tables.
pub record IsValid (tree : ScopeTree) : Type 0 where
  pub parents : Ordered tree.scopes
  pub homes : AllAt (λ i (y : Symbol). (y.id ≡ i) × (y.scope < length tree.scopes)) 0 tree.symbols
  pub targets :
      AllAt
        (λ i (r : Reference).
          (r.id ≡ i) × (r.scope < length tree.scopes) × Resolves tree.symbols r r.resolved)
        0
        tree.references
  pub children : AllAt (λ i (s : Scope). s.children ≡ children_of i tree.scopes) 0 tree.scopes
  pub declared : AllAt (λ i (s : Scope). s.symbols ≡ declared_in i tree.symbols) 0 tree.scopes
  pub noted : AllAt (Noted tree) 0 tree.symbols

pub new_tree-IsValid : IsValid new_tree
new_tree-IsValid = record {
  parents = tt;
  homes = tt;
  targets = tt;
  children = tt;
  declared = tt;
  noted = tt;
}

IsValid-Placed : (tree : ScopeTree) → IsValid tree → Placed tree
IsValid-Placed tree v = AllAt-map _ _ 0 tree.references (λ i r h. h.1) v.targets

pub length-add_scope :
    (tree : ScopeTree) (parent : Option ScopeId) (kind : ScopeKind) (span : Span)
    → length (add_scope tree parent kind span).0.scopes ≡ length tree.scopes + 1
unfolding add_scope
length-add_scope tree parent kind span = length-add_child_snoc _ parent tree.scopes _

pub add_scope-IsValid :
    (tree : ScopeTree) (parent : Option ScopeId) (kind : ScopeKind) (span : Span)
    → Below (length tree.scopes) parent
    → IsValid tree
    → IsValid (add_scope tree parent kind span).0
unfolding add_scope
add_scope-IsValid tree parent kind span below v =
    let scope : Scope = record {
      id = length tree.scopes;
      parent = parent;
      kind = kind;
      span = span;
      symbols = [];
      children = [];
    } in
    let grown = length-add_child_snoc (length tree.scopes) parent tree.scopes scope in
    record {
      parents =
          Ordered-add_child _ parent _ (AllAt-push _ tree.scopes scope v.parents (refl, below));
      homes = AllAt-map _ _ 0 tree.symbols (λ i y h. (h.0, omega (arith, h.1, grown))) v.homes;
      targets =
          AllAt-map _ _ 0 tree.references (λ i r h. (h.0, omega (arith, h.1, grown), h.2))
            v.targets;
      children = children-add_child parent tree.scopes scope v.parents refl refl refl v.children;
      declared = declared-add_child _ parent _ tree.symbols (
          AllAt-push _ tree.scopes scope v.declared (
            sym (
              ids_to-none _ _ (length tree.scopes) tree.symbols
                (AllAt-map _ _ 0 tree.symbols (λ i y h. h.1) v.homes))));
      noted =
          AllAt-map _ _ 0 tree.symbols
            (Noted-Embeds tree _ tree.symbols v.parents (IsValid-Placed tree v)
              (Embeds-add_child (length tree.scopes) parent tree.scopes scope)
              (omega (arith, grown)))
            v.noted;
    }

pub Resolves-map :
    (x y : List Symbol) (r : Reference) (o : Option SymbolId)
    → ((id : SymbolId) (name : Bytes) → Named x id name → Named y id name)
    → Resolves x r o
    → Resolves y r o
Resolves-map x y r none f h = tt
Resolves-map x y r (some id) f h = f id r.name h

pub Named-append :
    (symbols more : List Symbol) (id : SymbolId) (name : Bytes)
    → Named symbols id name
    → Named (symbols ++ more) id name
Named-append symbols more id name (y, e, n) = (y, get_elem-append symbols more id y e, n)

-- Every reference is resolved to a symbol that the table has.
targets-Below :
    (symbols : List Symbol) (r : Reference) (o : Option SymbolId)
    → Resolves symbols r o
    → Below (length symbols) o
targets-Below symbols r none h = tt
targets-Below symbols r (some id) (y, e, n) = get_elem-lt symbols id y e

abbrev pub scope_of : Symbol → Option ScopeId
scope_of y = some y.scope

abbrev pub symbol_id : Symbol → SymbolId
symbol_id y = y.id

pub add_symbol-IsValid :
    (tree : ScopeTree) (name : Bytes) (scope : ScopeId) (kind : SymbolKind) (span : Span)
    (shadows : Option SymbolId)
    → scope < length tree.scopes
    → IsValid tree
    → IsValid (add_symbol tree name scope kind span shadows).0
unfolding add_symbol
add_symbol-IsValid tree name scope kind span shadows home v =
    let after = (add_symbol tree name scope kind span shadows).0 in
    let n = length tree.symbols in
    let list_it : Scope → Scope = λ s. record s { symbols = s.symbols ++ n ∷ [] } in
    let y : Symbol = record {
      id = n;
      name = name;
      scope = scope;
      kind = kind;
      definition_span = span;
      reference_ids = [];
      is_upvalue = false;
      is_modified = false;
      is_exported = false;
      shadows = shadows;
    } in
    let same = length-update scope list_it tree.scopes in
    record {
      parents = AllAt-update _ 0 scope _ tree.scopes (λ i s k. k) v.parents;
      homes =
          AllAt-map _ _ 0 (tree.symbols ++ y ∷ []) (λ i y h. (h.0, omega (arith, h.1, same)))
            (AllAt-push (λ i (y : Symbol). (y.id ≡ i) × (y.scope < length tree.scopes)) tree.symbols
              y v.homes (refl, home));
      targets =
          AllAt-map _ _ 0 tree.references
            (λ i r h. (
              h.0,
              omega (arith, h.1, same),
              Resolves-map tree.symbols _ r r.resolved (Named-append tree.symbols _) h.2,
            ))
            v.targets;
      children =
          AllAt-map _ _ 0 after.scopes
            (λ i s k.
              k
              ∙ sym (
                  ids_to-update parent_of id_of i scope list_it tree.scopes (λ _. refl)
                    (λ _. refl)))
            (AllAt-update (λ i (s : Scope). s.children ≡ children_of i tree.scopes) 0 scope list_it
              tree.scopes (λ i s k. k) v.children);
      declared =
          AllAt-change_first (λ i (s : Scope). s.symbols ≡ declared_in i tree.symbols) _ scope
            list_it tree.scopes
            (λ s k.
              ap (λ l. l ++ n ∷ []) k
              ∙ sym (ids_to-hit scope_of symbol_id scope tree.symbols y (points_to_self scope)))
            (λ j s d k.
              k ∙ sym (ids_to-miss scope_of symbol_id j tree.symbols y (points_to_other j scope d)))
            v.declared;
      noted =
          AllAt-push (Noted after) tree.symbols y
            (AllAt-map _ _ 0 tree.symbols
              (Noted-Embeds tree after.scopes after.symbols v.parents (IsValid-Placed tree v)
                (Embeds-update tree.scopes tree.scopes scope list_it (λ s. (refl, refl))
                  (Embeds-refl tree.scopes))
                (omega (arith, same)))
              v.noted)
            (Noted-new after n y
              (AllAt-map _ _ 0 tree.references
                (λ i r h. targets-Below tree.symbols r r.resolved h.2) v.targets)
              refl refl refl);
    }

pub length-add_symbol :
    (tree : ScopeTree) (name : Bytes) (scope : ScopeId) (kind : SymbolKind) (span : Span)
    (shadows : Option SymbolId)
    → length (add_symbol tree name scope kind span shadows).0.scopes ≡ length tree.scopes
unfolding add_symbol
length-add_symbol tree name scope kind span shadows = length-update scope _ tree.scopes

-- The symbol that was declared has its name.
pub add_symbol-Named :
    (tree : ScopeTree) (name : Bytes) (scope : ScopeId) (kind : SymbolKind) (span : Span)
    (shadows : Option SymbolId)
    → Named (add_symbol tree name scope kind span shadows).0.symbols (length tree.symbols) name
unfolding add_symbol
add_symbol-Named tree name scope kind span shadows = (_, get_elem-last tree.symbols _, refl)
