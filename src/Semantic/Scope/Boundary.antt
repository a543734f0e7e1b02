-- ===== src/Semantic/Scope/Boundary.antt =====
-- What `crosses_function_boundary` in crates/luck_semantic/src/scope.rs looks for.
use luck.Semantic.Scope.Crossing.{Ordered, crosses_function_boundary-ends}
use luck.Semantic.Scope.{
  Scope, ScopeId, ScopeTree, is_function, crosses_from, crosses_function_boundary,
}
use mathlib.Core.Path.{subst}
use luck.Prelude.{
  ℕ, zero, suc, ◌+◌, ◌<◌, ◌≡◌, inl, inr, sym, ap, ◌∙◌, Bool, true, false, none, some, List, ◌==◌,
  get_elem?, length, Bool-cases, Option-cases,
}

-- A scope is that of an id, or stands around it, on the way up to a scope where the way ends.
pub data OnTheWay (scopes : List Scope) (to : ScopeId) : ScopeId → Scope → Type 0 where
  itself :
      {id : ScopeId} {s : Scope}
      → (id == to) ≡ false
      → get_elem? scopes id ≡ some s
      → OnTheWay scopes to id s
  around :
      {id p : ScopeId} {s t : Scope}
      → (id == to) ≡ false
      → get_elem? scopes id ≡ some s
      → s.parent ≡ some p
      → OnTheWay scopes to p t
      → OnTheWay scopes to id t

-- There is a function on the way up, or none of the scopes there is one.
abbrev pub Boundary : List Scope → ScopeId → ScopeId → Bool → Type 0
Boundary scopes to from true = (s : Scope) × OnTheWay scopes to from s × (is_function s.kind ≡ true)
Boundary scopes to from false = (s : Scope) → OnTheWay scopes to from s → is_function s.kind ≡ false

Boundary-arrived :
    (scopes : List Scope) (to from : ScopeId) → (from == to) ≡ true → Boundary scopes to from false
Boundary-arrived scopes to from h s (itself d e) = absurd (cc (h, d))
Boundary-arrived scopes to from h s (around d e p w) = absurd (cc (h, d))

Boundary-top :
    (scopes : List Scope) (to from : ScopeId) (t : Scope)
    → get_elem? scopes from ≡ some t
    → is_function t.kind ≡ false
    → t.parent ≡ none
    → Boundary scopes to from false
Boundary-top scopes to from t here k top s (itself d e) =
    ap (λ (x : Scope). is_function x.kind) (same e) ∙ k
  where
    same : get_elem? scopes from ≡ some s → s ≡ t
    same e = cc (e, here)
Boundary-top scopes to from t here k top s (around {s = u} d e p w) =
    absurd (cc (ap (λ (x : Scope). x.parent) (same e), p, top))
  where
    same : get_elem? scopes from ≡ some u → u ≡ t
    same e = cc (e, here)

Boundary-clear :
    (scopes : List Scope) (to from parent : ScopeId) (t : Scope)
    → get_elem? scopes from ≡ some t
    → is_function t.kind ≡ false
    → t.parent ≡ some parent
    → Boundary scopes to parent false
    → Boundary scopes to from false
Boundary-clear scopes to from parent t here k up h s (itself c e) =
    ap (λ (x : Scope). is_function x.kind) (same e) ∙ k
  where
    same : get_elem? scopes from ≡ some s → s ≡ t
    same e = cc (e, here)
Boundary-clear scopes to from parent t here k up h s (around {p = q} {s = u} c e p w) =
    h s (subst (λ i. OnTheWay scopes to i s) (parents (same e)) w)
  where
    same : get_elem? scopes from ≡ some u → u ≡ t
    same e = cc (e, here)

    parents : u ≡ t → q ≡ parent
    parents e = cc (ap (λ (x : Scope). x.parent) e, p, up)

Boundary-up :
    (scopes : List Scope) (to from parent : ScopeId) (t : Scope) (b : Bool)
    → (from == to) ≡ false
    → get_elem? scopes from ≡ some t
    → is_function t.kind ≡ false
    → t.parent ≡ some parent
    → Boundary scopes to parent b
    → Boundary scopes to from b
Boundary-up scopes to from parent t true d here k up (s, w, f) = (s, around d here up w, f)
Boundary-up scopes to from parent t false d here k up h =
    Boundary-clear scopes to from parent t here k up h

crosses_from-root :
    (f : ℕ) (scopes : List Scope) (to : ScopeId) (b : Bool)
    → crosses_from f scopes to none ≡ some b
    → b ≡ false
unfolding crosses_from
crosses_from-root zero scopes to b e = absurd (cc e)
crosses_from-root (suc f) scopes to b e = cc e

crosses_from-Boundary :
    (scopes : List Scope) (f : ℕ) (to from : ScopeId) (b : Bool)
    → crosses_from f scopes to (some from) ≡ some b
    → Boundary scopes to from b
unfolding crosses_from
crosses_from-Boundary scopes zero to from b e = absurd (cc e)
crosses_from-Boundary scopes (suc f) to from b e = elim (Bool-cases (from == to)) [
  | inl t ↦
      subst (Boundary scopes to from) (answer false (rw (t, crosses_from) at e))
        (Boundary-arrived scopes to from t)
  | inr t ↦ elim (Option-cases (get_elem? scopes from)) [
    | inl m ↦ absurd (cc (rw (t, m, crosses_from) at e))
    | inr (s, m) ↦ elim (Bool-cases (is_function s.kind)) [
      | inl c ↦
          subst (Boundary scopes to from) (answer true (rw (t, m, c, crosses_from) at e))
            (s, itself t m, c)
      | inr c ↦
          let rest : crosses_from f scopes to s.parent ≡ some b = rw (t, m, c, crosses_from) at e in
          elim (Option-cases s.parent) [
            | inl top ↦
                subst (Boundary scopes to from)
                  (sym (crosses_from-root f scopes to b (rw top at rest)))
                  (Boundary-top scopes to from s m c top)
            | inr (p, up) ↦
                Boundary-up scopes to from p s b t m c up
                  (crosses_from-Boundary scopes f to p b (rw up at rest))
          ]
    ]
  ]
]
  where
    answer : (a : Bool) → some a ≡ some b → a ≡ b
    answer a e = cc e

-- On a tree whose parents stand first, the code's test answers for every scope of the tree whether
-- a function stands on the way up to another scope.
abbrev pub Answers : ScopeTree → Type 0
Answers tree =
    (from to : ScopeId)
    → from < length tree.scopes
    → (b : Bool) × (crosses_function_boundary tree from to ≡ some b)
      × Boundary tree.scopes to from b

pub Ordered-Answers : (tree : ScopeTree) → Ordered tree.scopes → Answers tree
unfolding crosses_function_boundary
Ordered-Answers tree o from to h =
    let (b, e) = crosses_function_boundary-ends tree from to o h in
    (b, e, crosses_from-Boundary tree.scopes (length tree.scopes + 1) to from b e)
