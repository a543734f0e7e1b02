-- ===== src/Semantic/Builder.antt =====
-- `ScopeTreeBuilder` of crates/luck_semantic/src/builder.rs: the scopes it opens and closes, the
-- names it declares and looks up. The walk over the syntax tree is a list of such steps. A stack has
-- its top at the head, and a name without a stack in the map has the empty one. A panic is `none`.
pub mod Lexical
pub mod Following
pub mod Resolution
use luck.Prelude.{
  ℕ, ◌-◌, Option, none, some, List, [], ◌∷◌, ◌++◌, if◌then◌else◌, ◌>>=◌, take, drop, length, Bytes,
  bytes_eq,
}
use luck.Semantic.Scope.{
  ScopeId, SymbolId, ScopeKind, module_scope, SymbolKind, ReferenceKind, ScopeTree, new_tree,
  add_scope, add_symbol, add_reference,
}
use luck.Span.{Span}

-- `FxHashMap<CompactString, Vec<SymbolId>>`
abbrev pub Bindings : Type 0
Bindings = Bytes → List SymbolId

pub record ScopeTreeBuilder : Type 0 where
  pub tree : ScopeTree
  pub current_scope : ScopeId
  pub outer_scopes : List ScopeId
  pub bindings : Bindings
  pub declared_names : List Bytes
  pub binding_marks : List ℕ

-- The map with the stack of one name changed.
abbrev pub set_stack : Bytes → List SymbolId → Bindings → Bindings
set_stack name stack bindings other = if bytes_eq name other then stack else bindings other

abbrev pub top {ℓ} : {A : Type ℓ} → List A → Option A
top [] = none
top (a ∷ _) = some a

abbrev pub tail {ℓ} : {A : Type ℓ} → List A → List A
tail [] = []
tail (_ ∷ l) = l

-- `ScopeTreeBuilder::new`, and the first line of `build`.
unfoldable pub start_build : Span → ScopeTreeBuilder
unfolding add_scope
start_build span = record {
  tree = (add_scope new_tree none module_scope span).0;
  current_scope = (add_scope new_tree none module_scope span).1;
  outer_scopes = [];
  bindings = λ _. [];
  declared_names = [];
  binding_marks = [];
}

unfoldable pub push_scope : ScopeTreeBuilder → ScopeKind → Span → ScopeTreeBuilder
unfolding add_scope
push_scope b kind span =
    let (tree, id) = add_scope b.tree (some b.current_scope) kind span in
    record b {
      tree = tree;
      outer_scopes = b.current_scope ∷ b.outer_scopes;
      current_scope = id;
      binding_marks = length b.declared_names ∷ b.binding_marks;
    }

-- The `for` loop over the drained names, the oldest first.
unfoldable pub pop_names : Bindings → List Bytes → Bindings
pop_names bindings [] = bindings
pop_names bindings (name ∷ names) = pop_names (set_stack name (tail (bindings name)) bindings) names

abbrev pub reversed {ℓ} : {A : Type ℓ} → List A → List A
reversed [] = []
reversed (a ∷ l) = reversed l ++ a ∷ []

-- `drain(mark..)` takes the names declared since the mark.
unfoldable pub pop_scope : ScopeTreeBuilder → Option ScopeTreeBuilder
unfolding pop_names
pop_scope b = top b.outer_scopes >>= λ outer. top b.binding_marks >>= λ mark.
    let count = length b.declared_names - mark in
    some (record b {
      current_scope = outer;
      outer_scopes = tail b.outer_scopes;
      binding_marks = tail b.binding_marks;
      bindings = pop_names b.bindings (reversed (take count b.declared_names));
      declared_names = drop count b.declared_names;
    })

unfoldable pub resolve : ScopeTreeBuilder → Bytes → Option SymbolId
resolve b name = top (b.bindings name)

unfoldable pub declare_local :
    ScopeTreeBuilder → Bytes → Span → SymbolKind → ScopeTreeBuilder × SymbolId
unfolding resolve add_symbol
declare_local b name span kind =
    let (tree, id) = add_symbol b.tree name b.current_scope kind span (resolve b name) in
    (
      record b {
        tree = tree;
        bindings = set_stack name (id ∷ b.bindings name) b.bindings;
        declared_names = name ∷ b.declared_names;
      },
      id,
    )

unfoldable pub reference_name :
    ScopeTreeBuilder → Bytes → Span → ReferenceKind → Option ScopeTreeBuilder
unfolding resolve add_reference
reference_name b name span kind =
    add_reference b.tree name span b.current_scope kind (resolve b name) >>= λ added.
    some (record b { tree = added.0 })

-- What the walk over the syntax tree does to the builder.
pub data Step : Type 0 where
  push : ScopeKind → Span → Step
  pop : Step
  declare : Bytes → Span → SymbolKind → Step
  refer : Bytes → Span → ReferenceKind → Step

unfoldable pub take_step : ScopeTreeBuilder → Step → Option ScopeTreeBuilder
unfolding push_scope pop_scope declare_local reference_name
take_step b (push kind span) = some (push_scope b kind span)
take_step b pop = pop_scope b
take_step b (declare name span kind) = some (declare_local b name span kind).0
take_step b (refer name span kind) = reference_name b name span kind

unfoldable pub take_steps : ScopeTreeBuilder → List Step → Option ScopeTreeBuilder
unfolding take_step
take_steps b [] = some b
take_steps b (s ∷ steps) = take_step b s >>= λ next. take_steps next steps
