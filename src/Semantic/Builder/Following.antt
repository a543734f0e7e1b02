-- ===== src/Semantic/Builder/Following.antt =====
-- How one step of the builder of crates/luck_semantic/src/builder.rs follows the scopes of lexical
-- scoping.
use luck.Semantic.Builder.Lexical.{
  Declared, Environment, Use, uses_in, used, find, lookup, lookup-flat, flat, names, stack_of,
  top-stack_of, take-names, drop-names, pop_names-scope, stack_of-set,
}
use luck.Semantic.Builder.{
  ScopeTreeBuilder, set_stack, top, reversed, pop_names, push_scope, pop_scope, resolve,
  declare_local, reference_name, Step, push, pop, declare, refer, take_step,
}
use luck.Semantic.Scope.{
  ScopeKind, SymbolKind, ReferenceKind, Symbol, SymbolId, add_symbol, add_scope,
}
use mathlib.Core.Path.{subst}
use luck.Semantic.Scope.Valid.{
  length-add_symbol, IsValid, Named, length-add_scope, add_scope-IsValid, add_symbol-IsValid,
  add_symbol-Named, Named-append,
}
use luck.Semantic.Scope.Referring.{Target, new_reference, add_reference-Added}
use luck.Semantic.Scope.Pointing.{map-snoc}
use luck.Span.{Span}
use luck.Prelude.{
  map, append-nil, ℕ, suc, ◌-◌, ◌≤◌, ◌<◌, ◌≡◌, inl, inr, refl, sym, ap, ap₂, ◌∙◌, some, List, [],
  ◌∷◌, ◌++◌, take, drop, length, length-append, Bytes, bytes_eq, bytes_eq_iff, List-cases, All,
  Bool-cases, arith,
}

-- Where each scope but the outermost begins in the names declared.
abbrev pub marks_behind : Environment → List ℕ
marks_behind [] = []
marks_behind (d ∷ env) = length (names (flat (d ∷ env))) ∷ marks_behind env

abbrev pub marks : Environment → List ℕ
marks [] = []
marks (d ∷ env) = marks_behind env

-- The map, the log and the marks stand for the open scopes.
pub record Models (b : ScopeTreeBuilder) (n : ℕ) (env : Environment) : Type 0 where
  pub bindings : (name : Bytes) → b.bindings name ≡ stack_of name (flat env)
  pub declared : b.declared_names ≡ names (flat env)
  pub marked : b.binding_marks ≡ marks env
  pub nested : length b.outer_scopes ≡ length (marks env)
  pub counted : length b.tree.symbols ≡ n

pub Models-resolve :
    (b : ScopeTreeBuilder) (n : ℕ) (env : Environment)
    → Models b n env
    → (name : Bytes) → resolve b name ≡ lookup name env
unfolding resolve
Models-resolve b n env m name =
    ap top (m.bindings name) ∙ top-stack_of name (flat env) ∙ sym (lookup-flat name env)

Models-push :
    (b : ScopeTreeBuilder) (n : ℕ) (d : Declared) (env : Environment) (kind : ScopeKind)
    (span : Span)
    → Models b n (d ∷ env)
    → Models (push_scope b kind span) n ([] ∷ d ∷ env)
unfolding push_scope
Models-push b n d env kind span m = record {
  bindings = m.bindings;
  declared = m.declared;
  marked = ap₂ ◌∷◌ (ap length m.declared) m.marked;
  nested = ap suc m.nested;
  counted = m.counted;
}

Models-declare :
    (b : ScopeTreeBuilder) (n : ℕ) (d : Declared) (env : Environment) (name : Bytes) (span : Span)
    (kind : SymbolKind)
    → Models b n (d ∷ env)
    → Models (declare_local b name span kind).0 (suc n) (((name, n) ∷ d) ∷ env)
unfolding declare_local add_symbol
Models-declare b n d env name span kind m = record {
  bindings = λ other.
      ap (λ k. set_stack name (k ∷ b.bindings name) b.bindings other) m.counted
      ∙ stack_of-set name other n b.bindings (d ++ flat env) m.bindings;
  declared = ap (◌∷◌ name) m.declared;
  marked = m.marked;
  nested = m.nested;
  counted = length-append b.tree.symbols _ ∙ omega (arith, m.counted);
}

-- The ids that the environment and the stack of scopes hold are in the tree.
pub record IsRooted (b : ScopeTreeBuilder) (env : Environment) : Type 0 where
  pub tree : IsValid b.tree
  pub current : b.current_scope < length b.tree.scopes
  pub outer : All (λ s. s < length b.tree.scopes) b.outer_scopes
  pub named : All (λ (e : Bytes × SymbolId). Named b.tree.symbols e.1 e.0) (flat env)

-- What a step of the builder does when lexical scoping goes on.
abbrev pub Follows : ScopeTreeBuilder → Step → List Use → ℕ → Environment → Type 0
Follows b step uses n env =
    (after : ScopeTreeBuilder) × (take_step b step ≡ some after)
    × (map used after.tree.references ≡ map used b.tree.references ++ uses)
    × Models after n env
    × IsRooted after env

All-weaken : (m n : ℕ) (l : List ℕ) → m ≤ n → All (λ s. s < m) l → All (λ s. s < n) l
All-weaken m n [] le h = tt
All-weaken m n (s ∷ l) le h = (omega (arith, le, h.0), All-weaken m n l le h.1)

All-Named :
    (x y : List Symbol) (d : Declared)
    → ((id : SymbolId) (name : Bytes) → Named x id name → Named y id name)
    → All (λ (e : Bytes × SymbolId). Named x e.1 e.0) d
    → All (λ (e : Bytes × SymbolId). Named y e.1 e.0) d
All-Named x y [] f h = tt
All-Named x y ((n, id) ∷ d) f h = (f id n h.0, All-Named x y d f h.1)

pub push-Follows :
    (b : ScopeTreeBuilder) (n : ℕ) (d : Declared) (env : Environment) (kind : ScopeKind)
    (span : Span)
    → Models b n (d ∷ env)
    → IsRooted b (d ∷ env)
    → Follows b (push kind span) [] n ([] ∷ d ∷ env)
unfolding take_step push_scope
push-Follows b n d env kind span m r =
    let grown = length-add_scope b.tree (some b.current_scope) kind span in
    (
      push_scope b kind span,
      refl,
      unfold add_scope in sym (append-nil (map used b.tree.references)),
      Models-push b n d env kind span m,
      record {
        tree = add_scope-IsValid b.tree (some b.current_scope) kind span r.current r.tree;
        current = omega (arith, grown);
        outer = (
          omega (arith, grown, r.current),
          All-weaken _ _ b.outer_scopes (omega (arith, grown)) r.outer,
        );
        named = r.named;
      },
    )

pub declare-Follows :
    (b : ScopeTreeBuilder) (n : ℕ) (d : Declared) (env : Environment) (name : Bytes) (span : Span)
    (kind : SymbolKind)
    → Models b n (d ∷ env)
    → IsRooted b (d ∷ env)
    → Follows b (declare name span kind) [] (suc n) (((name, n) ∷ d) ∷ env)
unfolding take_step declare_local
declare-Follows b n d env name span kind m r =
    let same = length-add_symbol b.tree name b.current_scope kind span (resolve b name) in
    (
      (declare_local b name span kind).0,
      refl,
      unfold add_symbol in sym (append-nil (map used b.tree.references)),
      Models-declare b n d env name span kind m,
      record {
        tree =
            add_symbol-IsValid b.tree name b.current_scope kind span (resolve b name) r.current
              r.tree;
        current = omega (arith, r.current, same);
        outer = All-weaken _ _ b.outer_scopes (omega (arith, same)) r.outer;
        named = (
          subst (λ i. Named (declare_local b name span kind).0.tree.symbols i name) m.counted
              (add_symbol-Named b.tree name b.current_scope kind span (resolve b name)),
          All-Named b.tree.symbols _ (d ++ flat env) (Named-append b.tree.symbols _) r.named,
        );
      },
    )

find-Target :
    (symbols : List Symbol) (name : Bytes) (d : Declared)
    → All (λ (e : Bytes × SymbolId). Named symbols e.1 e.0) d
    → Target symbols name (find name d)
unfolding find
find-Target symbols name [] h = tt
find-Target symbols name ((n, id) ∷ d) h = elim (Bool-cases (bytes_eq n name)) [
  | inl e ↦ rw (e, find) (subst (Named symbols id) ((bytes_eq_iff n name).0 e) h.0)
  | inr e ↦ rw (e, find) (find-Target symbols name d h.1)
]

resolve-Target :
    (b : ScopeTreeBuilder) (n : ℕ) (env : Environment) (name : Bytes)
    → Models b n env
    → All (λ (e : Bytes × SymbolId). Named b.tree.symbols e.1 e.0) (flat env)
    → Target b.tree.symbols name (resolve b name)
resolve-Target b n env name m h =
    subst (Target b.tree.symbols name) (sym (Models-resolve b n env m name ∙ lookup-flat name env))
      (find-Target b.tree.symbols name (flat env) h)

pub refer-Follows :
    (b : ScopeTreeBuilder) (n : ℕ) (d : Declared) (env : Environment) (name : Bytes) (span : Span)
    (kind : ReferenceKind)
    → Models b n (d ∷ env)
    → IsRooted b (d ∷ env)
    → Follows b (refer name span kind) (uses_in (d ∷ env) (refer name span kind)) n (d ∷ env)
unfolding take_step reference_name
refer-Follows b n d env name span kind m r =
    let (after, added, a) =
      add_reference-Added b.tree name span b.current_scope kind (resolve b name) r.current
        (resolve-Target b n (d ∷ env) name m r.named) r.tree in
    (
      record b { tree = after },
      rw added refl,
      ap (map used) a.references
          ∙ map-snoc used b.tree.references
              (new_reference b.tree name span b.current_scope kind (resolve b name))
          ∙ ap (λ o. map used b.tree.references ++ (name, span, kind, o) ∷ [])
              (Models-resolve b n (d ∷ env) m name),
      record {
        bindings = m.bindings;
        declared = m.declared;
        marked = m.marked;
        nested = m.nested;
        counted = a.symbol_count ∙ m.counted;
      },
      record {
        tree = a.valid;
        current = omega (arith, r.current, ap length a.scopes);
        outer = All-weaken _ _ b.outer_scopes (omega (arith, ap length a.scopes)) r.outer;
        named = All-Named b.tree.symbols after.symbols (flat (d ∷ env)) a.named r.named;
      },
    )

All-append_right : (P : Bytes × SymbolId → Type 0) (d e : Declared) → All P (d ++ e) → All P e
All-append_right P [] e h = h
All-append_right P (x ∷ d) e h = All-append_right P d e h.1

pub pop-Follows :
    (b : ScopeTreeBuilder) (n : ℕ) (d e : Declared) (env : Environment)
    → Models b n (d ∷ e ∷ env)
    → IsRooted b (d ∷ e ∷ env)
    → Follows b pop [] n (e ∷ env)
unfolding take_step pop_scope
pop-Follows b n d e env m r = elim (List-cases b.outer_scopes) [
  | inl none_open ↦ absurd (omega (arith, ap length none_open, m.nested))
  | inr (o, os, open_scopes) ↦
      let k = length (names (flat (e ∷ env))) in
      let count = length b.declared_names - k in
      let drained : take count b.declared_names ≡ names d =
        ap (λ l. take (length l - k) l) m.declared ∙ take-names d (flat (e ∷ env)) in
      let outer : All (λ s. s < length b.tree.scopes) (o ∷ os) =
        subst (All (λ s. s < length b.tree.scopes)) open_scopes r.outer in
      (
        record b {
          current_scope = o;
          outer_scopes = os;
          binding_marks = marks_behind env;
          bindings = pop_names b.bindings (reversed (take count b.declared_names));
          declared_names = drop count b.declared_names;
        },
        rw (open_scopes, m.marked) refl,
        sym (append-nil (map used b.tree.references)),
        record {
          bindings = λ name.
              ap (λ l. pop_names b.bindings (reversed l) name) drained
              ∙ pop_names-scope b.bindings d (flat (e ∷ env)) m.bindings name;
          declared = ap (λ l. drop (length l - k) l) m.declared ∙ drop-names d (flat (e ∷ env));
          marked = refl;
          nested = omega (arith, ap length open_scopes, m.nested);
          counted = m.counted;
        },
        record {
          tree = r.tree;
          current = outer.0;
          outer = outer.1;
          named = All-append_right _ d (flat (e ∷ env)) r.named;
        },
      )
]
