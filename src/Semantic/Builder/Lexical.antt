-- ===== src/Semantic/Builder/Lexical.antt =====
-- Lexical scoping, with an environment for each open scope, beside the one map with its undo log in
-- crates/luck_semantic/src/builder.rs.
use luck.Semantic.Builder.{
  Bindings, set_stack, top, tail, reversed, pop_names, Step, push, pop, declare, refer,
}
use luck.Semantic.Scope.{SymbolId, Reference, ReferenceKind}
use luck.Span.{Span}
use luck.Prelude.{
  ℕ, zero, suc, ◌+◌, ◌-◌, ◌≡◌, inl, inr, refl, sym, ap, ◌∙◌, Option, none, some, List, [], ◌∷◌,
  ◌++◌, if◌then◌else◌, ◌>>=◌, take, drop, length, length-append, take_prefix, drop_prefix, Bytes,
  bytes_eq, bytes_eq_iff, Bool-cases, Option-cases, arith,
}

-- The names that a scope has declared so far, the newest first, with their symbols.
abbrev pub Declared : Type 0
Declared = List (Bytes × SymbolId)

-- The open scopes, the innermost first.
abbrev pub Environment : Type 0
Environment = List Declared

-- The newest declaration of a name in the innermost scope that has one.
unfoldable pub find : Bytes → Declared → Option SymbolId
find name [] = none
find name ((n, id) ∷ d) = let rest = find name d in if bytes_eq n name then some id else rest

unfoldable pub lookup : Bytes → Environment → Option SymbolId
unfolding find
lookup name [] = none
lookup name (d ∷ env) = elim (find name d) [ none ↦ lookup name env | some id ↦ some id ]

-- A step on the open scopes; `n` symbols were declared before. The outermost scope stays open.
unfoldable pub scope_step : ℕ → Environment → Step → Option (ℕ × Environment)
scope_step n env (push kind span) = some (n, [] ∷ env)
scope_step n (d ∷ e ∷ env) pop = some (n, e ∷ env)
scope_step n _ pop = none
scope_step n (d ∷ env) (declare name span kind) = some (suc n, ((name, n) ∷ d) ∷ env)
scope_step n [] (declare name span kind) = none
scope_step n env (refer name span kind) = some (n, env)

unfoldable pub scope_steps : ℕ → Environment → List Step → Option (ℕ × Environment)
unfolding scope_step
scope_steps n env [] = some (n, env)
scope_steps n env (s ∷ steps) = scope_step n env s >>= λ next. scope_steps next.0 next.1 steps

-- A use of a name, with the symbol that the name has there.
abbrev pub Use : Type 0
Use = Bytes × Span × ReferenceKind × Option SymbolId

abbrev pub uses_in : Environment → Step → List Use
uses_in env (refer name span kind) = (name, span, kind, lookup name env) ∷ []
uses_in env _ = []

-- The uses among the steps, up to a step that the scopes do not take.
unfoldable pub uses_from : ℕ → Environment → List Step → List Use
unfolding scope_step lookup
uses_from n env [] = []
uses_from n env (s ∷ steps) = elim (scope_step n env s) [
  | none ↦ []
  | some next ↦ uses_in env s ++ uses_from next.0 next.1 steps
]

abbrev pub used : Reference → Use
used r = (r.name, r.span, r.kind, r.resolved)

abbrev pub flat : Environment → Declared
flat [] = []
flat (d ∷ env) = d ++ flat env

abbrev pub names : Declared → List Bytes
names [] = []
names ((n, id) ∷ d) = n ∷ names d

-- The symbols of a name, the newest first.
unfoldable pub stack_of : Bytes → Declared → List SymbolId
stack_of name [] = []
stack_of name ((n, id) ∷ d) =
    let rest = stack_of name d in if bytes_eq n name then id ∷ rest else rest

unfoldable pub count : Bytes → List Bytes → ℕ
count name [] = 0
count name (n ∷ ns) = let rest = count name ns in if bytes_eq n name then suc rest else rest

stack_of-append :
    (name : Bytes) (d e : Declared) → stack_of name (d ++ e) ≡ stack_of name d ++ stack_of name e
unfolding stack_of
stack_of-append name [] e = refl
stack_of-append name ((n, id) ∷ d) e = elim (Bool-cases (bytes_eq n name)) [
  | inl h ↦ rw (h, stack_of) (ap (◌∷◌ id) (stack_of-append name d e))
  | inr h ↦ rw (h, stack_of) (stack_of-append name d e)
]

length-stack_of : (name : Bytes) (d : Declared) → length (stack_of name d) ≡ count name (names d)
unfolding stack_of count
length-stack_of name [] = refl
length-stack_of name ((n, id) ∷ d) = elim (Bool-cases (bytes_eq n name)) [
  | inl h ↦ rw (h, stack_of, count) (ap suc (length-stack_of name d))
  | inr h ↦ rw (h, stack_of, count) (length-stack_of name d)
]

pub top-stack_of : (name : Bytes) (d : Declared) → top (stack_of name d) ≡ find name d
unfolding stack_of find
top-stack_of name [] = refl
top-stack_of name ((n, id) ∷ d) = elim (Bool-cases (bytes_eq n name)) [
  | inl h ↦ rw (h, stack_of, find) refl
  | inr h ↦ rw (h, stack_of, find) (top-stack_of name d)
]

find-append :
    (name : Bytes) (d e : Declared)
    → find name (d ++ e) ≡ elim (find name d) [ none ↦ find name e | some id ↦ some id ]
unfolding find
find-append name [] e = refl
find-append name ((n, id) ∷ d) e = elim (Bool-cases (bytes_eq n name)) [
  | inl h ↦ rw (h, find) refl
  | inr h ↦ rw (h, find) (find-append name d e)
]

pub lookup-flat : (name : Bytes) (env : Environment) → lookup name env ≡ find name (flat env)
unfolding lookup
lookup-flat name [] = unfold find in refl
lookup-flat name (d ∷ env) = elim (Option-cases (find name d)) [
  | inl h ↦ rw (h, lookup) (lookup-flat name env ∙ sym (find-append name d (flat env) ∙ rw h refl))
  | inr (id, h) ↦ rw (h, lookup) (sym (find-append name d (flat env) ∙ rw h refl))
]

count-append : (name : Bytes) (x y : List Bytes) → count name (x ++ y) ≡ count name x + count name y
unfolding count
count-append name [] y = omega arith
count-append name (n ∷ x) y = elim (Bool-cases (bytes_eq n name)) [
  | inl h ↦ rw (h, count) (omega (arith, count-append name x y))
  | inr h ↦ rw (h, count) (count-append name x y)
]

count-reversed : (name : Bytes) (x : List Bytes) → count name (reversed x) ≡ count name x
unfolding count
count-reversed name [] = refl
count-reversed name (n ∷ x) =
    count-append name (reversed x) (n ∷ []) ∙ elim (Bool-cases (bytes_eq n name)) [
      | inl h ↦ rw (h, count) (omega (arith, count-reversed name x))
      | inr h ↦ rw (h, count) (omega (arith, count-reversed name x))
    ]

drop-tail : (k : ℕ) (l : List SymbolId) → drop k (tail l) ≡ drop (suc k) l
drop-tail zero [] = refl
drop-tail (suc k) [] = refl
drop-tail k (a ∷ l) = refl

-- A round of `pop_names` for each time that the name was drained.
pub pop_names_lem :
    (bindings : Bindings) (drained : List Bytes) (name : Bytes)
    → pop_names bindings drained name ≡ drop (count name drained) (bindings name)
unfolding pop_names count
pop_names_lem bindings [] name = refl
pop_names_lem bindings (n ∷ drained) name =
    pop_names_lem (set_stack n (tail (bindings n)) bindings) drained name
    ∙ elim (Bool-cases (bytes_eq n name)) [
      | inl h ↦
          rw (h, count)
            (ap (λ m. drop (count name drained) (tail (bindings m))) ((bytes_eq_iff n name).0 h)
              ∙ drop-tail (count name drained) (bindings name))
      | inr h ↦ rw (h, count) refl
    ]

names-append : (d e : Declared) → names (d ++ e) ≡ names d ++ names e
names-append [] e = refl
names-append ((n, id) ∷ d) e = ap (◌∷◌ n) (names-append d e)

-- What stands before a mark, and what was declared since.
drained-length : (x y : List Bytes) → length (x ++ y) - length y ≡ length x
drained-length x y = omega (arith, length-append x y)

pub take-names :
    (d e : Declared) → take (length (names (d ++ e)) - length (names e)) (names (d ++ e)) ≡ names d
take-names d e =
    rw (names-append d e)
      (rw (drained-length (names d) (names e)) (take_prefix (names d) (names e)))

pub drop-names :
    (d e : Declared) → drop (length (names (d ++ e)) - length (names e)) (names (d ++ e)) ≡ names e
drop-names d e =
    rw (names-append d e)
      (rw (drained-length (names d) (names e)) (drop_prefix (names d) (names e)))

-- Draining the names of the innermost scope takes its symbols from the stacks.
pub pop_names-scope :
    (bindings : Bindings) (d e : Declared)
    → ((name : Bytes) → bindings name ≡ stack_of name (d ++ e))
    → (name : Bytes) → pop_names bindings (reversed (names d)) name ≡ stack_of name e
pop_names-scope bindings d e h name =
    pop_names_lem bindings (reversed (names d)) name
    ∙ ap (drop (count name (reversed (names d)))) (h name ∙ stack_of-append name d e)
    ∙ ap (λ k. drop k (stack_of name d ++ stack_of name e))
        (count-reversed name (names d) ∙ sym (length-stack_of name d))
    ∙ drop_prefix (stack_of name d) (stack_of name e)

pub stack_of-set :
    (name other : Bytes) (id : SymbolId) (bindings : Bindings) (d : Declared)
    → ((n : Bytes) → bindings n ≡ stack_of n d)
    → set_stack name (id ∷ bindings name) bindings other ≡ stack_of other ((name, id) ∷ d)
unfolding stack_of
stack_of-set name other id bindings d h = elim (Bool-cases (bytes_eq name other)) [
  | inl e ↦
      rw (e, stack_of)
        (ap (λ n. id ∷ bindings n) ((bytes_eq_iff name other).0 e) ∙ ap (◌∷◌ id) (h other))
  | inr e ↦ rw (e, stack_of) (h other)
]
