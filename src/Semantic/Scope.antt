-- ===== src/Semantic/Scope.antt =====
-- crates/luck_semantic/src/scope.rs: the scope tree. An id is its index. An index out of range is a
-- panic in the source; here it reads as the default or changes nothing.
pub mod Pointing
pub mod Crossing
pub mod Agreement
pub mod Boundary
pub mod Enclosing
pub mod Valid
pub mod Referring
use luck.Span.{Span}
use luck.Prelude.{
  ℕ, zero, suc, ◌+◌, Bool, true, false, not, ◌||◌, Option, none, some, List, [], ◌∷◌, ◌++◌, ◌==◌,
  ◌>>=◌, any, get_elem?, length, Bytes, filter_by, update,
}

abbrev pub ScopeId : Type 0
ScopeId = ℕ

abbrev pub SymbolId : Type 0
SymbolId = ℕ

abbrev pub ReferenceId : Type 0
ReferenceId = ℕ

pub data ScopeKind : Type 0 where
  module_scope function_scope block_scope loop_scope : ScopeKind

pub record Scope : Type 0 where
  pub id : ScopeId
  pub parent : Option ScopeId
  pub kind : ScopeKind
  pub span : Span
  pub symbols : List SymbolId
  pub children : List ScopeId

pub data SymbolKind : Type 0 where
  local parameter iterator_variable numeric_for_variable function_name : SymbolKind

pub record Symbol : Type 0 where
  pub id : SymbolId
  pub name : Bytes
  pub scope : ScopeId
  pub kind : SymbolKind
  pub definition_span : Span
  pub reference_ids : List ReferenceId
  pub is_upvalue : Bool
  pub is_modified : Bool
  pub is_exported : Bool
  pub shadows : Option SymbolId

pub data ReferenceKind : Type 0 where
  read write read_write : ReferenceKind

pub record Reference : Type 0 where
  pub id : ReferenceId
  pub span : Span
  pub name : Bytes
  pub kind : ReferenceKind
  pub scope : ScopeId
  pub resolved : Option SymbolId

pub record ScopeTree : Type 0 where
  pub scopes : List Scope
  pub symbols : List Symbol
  pub references : List Reference

abbrev pub new_tree : ScopeTree
new_tree = record { scopes = []; symbols = []; references = [] }

-- `self.scopes[parent_id.index()].children.push(id)`
abbrev pub add_child : ScopeId → Option ScopeId → List Scope → List Scope
add_child id none scopes = scopes
add_child id (some parent) scopes =
    update parent (λ (s : Scope). record s { children = s.children ++ id ∷ [] }) scopes

unfoldable pub add_scope : ScopeTree → Option ScopeId → ScopeKind → Span → ScopeTree × ScopeId
add_scope tree parent kind span =
    let id = length tree.scopes in
    let scope : Scope = record {
      id = id;
      parent = parent;
      kind = kind;
      span = span;
      symbols = [];
      children = [];
    } in
    (record tree { scopes = add_child id parent (tree.scopes ++ scope ∷ []) }, id)

unfoldable pub add_symbol :
    ScopeTree → Bytes → ScopeId → SymbolKind → Span → Option SymbolId → ScopeTree × SymbolId
add_symbol tree name scope kind definition_span shadows =
    let id = length tree.symbols in
    let symbol : Symbol = record {
      id = id;
      name = name;
      scope = scope;
      kind = kind;
      definition_span = definition_span;
      reference_ids = [];
      is_upvalue = false;
      is_modified = false;
      is_exported = false;
      shadows = shadows;
    } in
    (
      record tree {
        symbols = tree.symbols ++ symbol ∷ [];
        scopes =
            update scope (λ (s : Scope). record s { symbols = s.symbols ++ id ∷ [] }) tree.scopes;
      },
      id,
    )

unfoldable pub mark_exported : ScopeTree → SymbolId → ScopeTree
mark_exported tree id = record tree {
  symbols = update id (λ (s : Symbol). record s { is_exported = true }) tree.symbols;
}

abbrev pub is_function : ScopeKind → Bool
is_function function_scope = true
is_function _ = false

-- The `while let` loop of `crosses_function_boundary`; `none` is the end of the fuel, or a panic.
unfoldable pub crosses_from : ℕ → List Scope → ScopeId → Option ScopeId → Option Bool
crosses_from zero scopes to current = none
crosses_from (suc f) scopes to none = some false
crosses_from (suc f) scopes to (some scope_id) = elim (scope_id == to) [
  | true ↦ some false
  | false ↦ elim (get_elem? scopes scope_id) [
    | none ↦ none
    | some scope ↦ elim (is_function scope.kind) [
      | true ↦ some true
      | false ↦ crosses_from f scopes to scope.parent
    ]
  ]
]

-- A parent stands before its children, so that the loop takes a round for each scope at most, and
-- one at the end.
unfoldable pub crosses_function_boundary : ScopeTree → ScopeId → ScopeId → Option Bool
unfolding crosses_from
crosses_function_boundary tree from to =
    crosses_from (length tree.scopes + 1) tree.scopes to (some from)

abbrev pub is_write : ReferenceKind → Bool
is_write read = false
is_write write = true
is_write read_write = true

abbrev pub is_read : ReferenceKind → Bool
is_read read = true
is_read write = false
is_read read_write = true

-- What `add_reference` does to the symbol.
abbrev pub note_reference : ReferenceId → ReferenceKind → Bool → Symbol → Symbol
note_reference id kind crosses s = record s {
  is_upvalue = s.is_upvalue || crosses;
  reference_ids = s.reference_ids ++ id ∷ [];
  is_modified = s.is_modified || is_write kind;
}

abbrev pub link_reference :
    ScopeTree → ReferenceId → ScopeId → ReferenceKind → Option SymbolId → Option (List Symbol)
link_reference tree id scope kind none = some tree.symbols
link_reference tree id scope kind (some symbol) = get_elem? tree.symbols symbol >>= λ s.
    crosses_function_boundary tree scope s.scope >>= λ crosses.
    some (update symbol (note_reference id kind crosses) tree.symbols)

-- `none` is a panic.
unfoldable pub add_reference :
    ScopeTree
    → Bytes
    → Span
    → ScopeId
    → ReferenceKind
    → Option SymbolId
    → Option (ScopeTree × ReferenceId)
unfolding crosses_function_boundary
add_reference tree name span scope kind resolved =
    let id = length tree.references in
    link_reference tree id scope kind resolved >>= λ symbols.
    let reference : Reference = record {
      id = id;
      span = span;
      name = name;
      kind = kind;
      scope = scope;
      resolved = resolved;
    } in
    some (record tree { symbols = symbols; references = tree.references ++ reference ∷ [] }, id)

abbrev is_none {ℓ} : {A : Type ℓ} → Option A → Bool
is_none none = true
is_none (some _) = false

unfoldable pub unresolved_references : ScopeTree → List Reference
unresolved_references tree = filter_by (λ (r : Reference). is_none r.resolved) tree.references

-- A reference of the table that reads; an id out of range would be a panic.
abbrev reads_at : List Reference → ReferenceId → Bool
reads_at references id = elim (get_elem? references id) [ none ↦ false | some r ↦ is_read r.kind ]

unfoldable pub unused_symbols : ScopeTree → List Symbol
unused_symbols tree =
    filter_by (λ (s : Symbol). not (any (reads_at tree.references) s.reference_ids)) tree.symbols
