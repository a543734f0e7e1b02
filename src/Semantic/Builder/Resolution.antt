-- ===== src/Semantic/Builder/Resolution.antt =====
-- The builder of crates/luck_semantic/src/builder.rs looks names up as lexical scoping does.
use luck.Semantic.Builder.Following.{
  Models, IsRooted, Models-resolve, push-Follows, declare-Follows, refer-Follows, pop-Follows,
}
use luck.Semantic.Builder.Lexical.{
  Declared, Environment, Use, uses_in, uses_from, used, lookup, scope_step, scope_steps, stack_of,
}
use luck.Semantic.Builder.{
  ScopeTreeBuilder, pop_scope, resolve, Step, push, pop, declare, refer, take_step, take_steps,
  start_build,
}
use luck.Semantic.Scope.{module_scope, new_tree, add_scope}
use mathlib.Core.Path.{subst}
use luck.Semantic.Scope.Boundary.{Answers, Ordered-Answers}
use luck.Semantic.Scope.Valid.{IsValid, new_tree-IsValid, add_scope-IsValid}
use luck.Span.{Span}
use luck.Prelude.{
  map, append-nil, append_assoc, ◌++◌, ℕ, suc, ◌≡◌, inl, inr, refl, sym, ap, ◌∙◌, Option, none,
  some, List, [], ◌∷◌, length, Bytes, List-cases, arith,
}

-- The outermost scope cannot be closed.
pop_outermost :
    (b : ScopeTreeBuilder) (n : ℕ) (d : Declared) → Models b n (d ∷ []) → take_step b pop ≡ none
unfolding take_step pop_scope
pop_outermost b n d m = elim (List-cases b.outer_scopes) [
  | inl none_open ↦ rw none_open refl
  | inr (o, os, open_scopes) ↦ absurd (omega (arith, ap length open_scopes, m.nested))
]

-- What the builder does with the steps, for what lexical scoping does with them.
abbrev FollowsAll : ScopeTreeBuilder → List Step → List Use → Option (ℕ × Environment) → Type 0
FollowsAll b steps uses none = take_steps b steps ≡ none
FollowsAll b steps uses (some (n, env)) =
    (after : ScopeTreeBuilder) × (take_steps b steps ≡ some after)
    × (map used after.tree.references ≡ map used b.tree.references ++ uses)
    × Models after n env
    × IsRooted after env

FollowsAll-cons :
    (b after : ScopeTreeBuilder) (step : Step) (steps : List Step) (here uses : List Use)
    (o : Option (ℕ × Environment))
    → take_step b step ≡ some after
    → map used after.tree.references ≡ map used b.tree.references ++ here
    → FollowsAll after steps uses o
    → FollowsAll b (step ∷ steps) (here ++ uses) o
unfolding take_steps
FollowsAll-cons b after step steps here uses none e u h = rw (e, take_steps) h
FollowsAll-cons b after step steps here uses (some (n, env)) e u (last, k, w, m, r) = (
  last,
  rw (e, take_steps) k,
  w ∙ ap (λ l. l ++ uses) u ∙ append_assoc (map used b.tree.references) here uses,
  m,
  r,
)

steps-FollowsAll :
    (b : ScopeTreeBuilder) (n : ℕ) (d : Declared) (env : Environment) (steps : List Step)
    → Models b n (d ∷ env)
    → IsRooted b (d ∷ env)
    → FollowsAll b steps (uses_from n (d ∷ env) steps) (scope_steps n (d ∷ env) steps)
unfolding scope_steps scope_step uses_from
steps-FollowsAll b n d env [] m r =
    (b, unfold take_steps in refl, sym (append-nil (map used b.tree.references)), m, r)
steps-FollowsAll b n d env (push kind span ∷ steps) m r =
    let (after, e, u, m', r') = push-Follows b n d env kind span m r in
    FollowsAll-cons b after _ steps [] _ _ e u (steps-FollowsAll after n [] (d ∷ env) steps m' r')
steps-FollowsAll b n d [] (pop ∷ steps) m r = unfold take_steps in rw (pop_outermost b n d m) refl
steps-FollowsAll b n d (d' ∷ env) (pop ∷ steps) m r =
    let (after, e, u, m', r') = pop-Follows b n d d' env m r in
    FollowsAll-cons b after _ steps [] _ _ e u (steps-FollowsAll after n d' env steps m' r')
steps-FollowsAll b n d env (declare name span kind ∷ steps) m r =
    let (after, e, u, m', r') = declare-Follows b n d env name span kind m r in
    FollowsAll-cons b after _ steps [] _ _ e u
      (steps-FollowsAll after (suc n) ((name, n) ∷ d) env steps m' r')
steps-FollowsAll b n d env (refer name span kind ∷ steps) m r =
    let (after, e, u, m', r') = refer-Follows b n d env name span kind m r in
    FollowsAll-cons b after _ steps (uses_in (d ∷ env) (refer name span kind)) _ _ e u
      (steps-FollowsAll after n d env steps m' r')

start_build-Models : (span : Span) → Models (start_build span) 0 ([] ∷ [])
unfolding start_build
start_build-Models span = record {
  bindings = λ name. unfold stack_of in refl;
  declared = refl;
  marked = refl;
  nested = refl;
  counted = unfold add_scope in refl;
}

start_build-IsRooted : (span : Span) → IsRooted (start_build span) ([] ∷ [])
unfolding start_build
start_build-IsRooted span = record {
  tree = add_scope-IsValid new_tree none module_scope span tt new_tree-IsValid;
  current = unfold add_scope in omega arith;
  outer = tt;
  named = tt;
}

abbrev pub Built : Span → List Step → Option (ℕ × Environment) → Type 0
Built span steps none = take_steps (start_build span) steps ≡ none
Built span steps (some (n, env)) =
    (after : ScopeTreeBuilder) × (take_steps (start_build span) steps ≡ some after)
    × (map used after.tree.references ≡ uses_from 0 ([] ∷ []) steps)
    × ((name : Bytes) → resolve after name ≡ lookup name env)

FollowsAll-Built :
    (span : Span) (steps : List Step) (o : Option (ℕ × Environment))
    → FollowsAll (start_build span) steps (uses_from 0 ([] ∷ []) steps) o
    → Built span steps o
unfolding start_build add_scope
FollowsAll-Built span steps none h = h
FollowsAll-Built span steps (some (n, env)) (after, e, u, m, r) =
    (after, e, u, Models-resolve after n env m)

-- The builder takes the steps that lexical scoping takes, and no others: it panics exactly where a
-- scope is closed that was not opened. Its references are then the uses among the steps, in their
-- order and with their name, span and kind, each resolved as lexical scoping does where it stands:
-- to the newest declaration in the innermost open scope that has one, or to none. Names that are
-- looked up next are resolved in the same way.
pub take_steps-lexical :
    (span : Span) (steps : List Step) → Built span steps (scope_steps 0 ([] ∷ []) steps)
take_steps-lexical span steps = FollowsAll-Built span steps (scope_steps 0 ([] ∷ []) steps) (
    steps-FollowsAll (start_build span) 0 [] [] steps (start_build-Models span)
      (start_build-IsRooted span))

FollowsAll-IsValid :
    (b after : ScopeTreeBuilder) (steps : List Step) (uses : List Use)
    (o : Option (ℕ × Environment))
    → FollowsAll b steps uses o
    → take_steps b steps ≡ some after
    → IsValid after.tree
FollowsAll-IsValid b after steps uses none h e = absurd (cc (h, e))
FollowsAll-IsValid b after steps uses (some (n, env)) (last, k, u, m, r) e =
    subst (λ (x : ScopeTreeBuilder). IsValid x.tree) (same (sym k ∙ e)) r.tree
  where
    same : some last ≡ some after → last ≡ after
    same e = cc e

-- The tree that the builder ends with is valid, and tells where functions stand in between. Ids are
-- indices, a parent stands before its children, the scopes of symbols and references are in the
-- tree, and a resolved reference is to a symbol of its name. A scope lists exactly the scopes whose
-- parent it is and the symbols declared in it. A symbol lists exactly the references resolved to it,
-- all in order, is an upvalue exactly if `crosses_function_boundary` holds for one of them, and is
-- modified exactly if one of them writes. From every scope of the tree that test answers, and yes
-- exactly if a function scope stands on the way up to the other scope.
pub take_steps-IsValid :
    (span : Span) (steps : List Step) (b : ScopeTreeBuilder)
    → take_steps (start_build span) steps ≡ some b
    → IsValid b.tree × Answers b.tree
take_steps-IsValid span steps b e =
    let valid =
      FollowsAll-IsValid (start_build span) b steps (uses_from 0 ([] ∷ []) steps)
        (scope_steps 0 ([] ∷ []) steps)
        (steps-FollowsAll (start_build span) 0 [] [] steps (start_build-Models span)
          (start_build-IsRooted span))
        e in
    (valid, Ordered-Answers b.tree valid.parents)
