-- ===== src/Semantic/Scope/Crossing.antt =====
-- The walk of `crosses_function_boundary` in crates/luck_semantic/src/scope.rs.
use luck.Semantic.Scope.{
  Scope, ScopeId, ScopeTree, Reference, is_function, crosses_from, crosses_function_boundary,
}
use luck.Semantic.Scope.Pointing.{Below}
use luck.Prelude.{
  ℕ, zero, suc, ◌+◌, ◌≤◌, ◌<◌, ◌≡◌, inl, inr, refl, ◌∙◌, Bool, true, false, Option, none, some,
  List, ◌==◌, get_elem?, length, AllAt, AllAt-at, get_elem-of_lt, Bool-cases, Option-cases, ap,
  get_elem-append, get_elem-update, update, ◌++◌, arith,
}

-- Ids are indices, and a parent stands before its children.
abbrev pub Ordered : List Scope → Type 0
Ordered scopes = AllAt (λ i (s : Scope). (s.id ≡ i) × Below i s.parent) 0 scopes

-- The walk to the root meets no more scopes than there are.
crosses_from-ends :
    (scopes : List Scope)
    → Ordered scopes
    → (f : ℕ) (to : ScopeId) (current : Option ScopeId) (bound : ℕ) → Below bound current
    → bound ≤ length scopes
    → bound < f
    → (b : Bool) × (crosses_from f scopes to current ≡ some b)
unfolding crosses_from
crosses_from-ends scopes h zero to current bound below le lt = absurd (omega (arith, lt))
crosses_from-ends scopes h (suc f) to none bound below le lt = (false, refl)
crosses_from-ends scopes h (suc f) to (some id) bound below le lt = elim (Bool-cases (id == to)) [
  | inl e ↦ (false, rw (e, crosses_from) refl)
  | inr e ↦
      let (s, at) = get_elem-of_lt scopes id (omega (arith, below, le)) in
      elim (Bool-cases (is_function s.kind)) [
        | inl k ↦ (true, rw (e, at, k, crosses_from) refl)
        | inr k ↦
            let (b, ends) =
              crosses_from-ends scopes h f to s.parent id (AllAt-at _ id scopes s h at).1
                (omega (arith, below, le)) (omega (arith, below, lt)) in
            (b, rw (e, at, k, crosses_from) ends)
      ]
]

-- The walk from a scope of the tree ends with an answer.
pub crosses_function_boundary-ends :
    (tree : ScopeTree) (from to : ScopeId)
    → Ordered tree.scopes
    → from < length tree.scopes
    → (b : Bool) × (crosses_function_boundary tree from to ≡ some b)
unfolding crosses_function_boundary
crosses_function_boundary-ends tree from to v h =
    crosses_from-ends tree.scopes v (length tree.scopes + 1) to (some from) (length tree.scopes) h
      (omega arith) (omega arith)

-- The scopes of one table are in another, with the same parents and kinds.
abbrev pub Embeds : List Scope → List Scope → Type 0
Embeds xs ys =
    (i : ℕ) (s : Scope)
    → get_elem? xs i ≡ some s
    → (t : Scope) × (get_elem? ys i ≡ some t) × ((t.kind ≡ s.kind) × (t.parent ≡ s.parent))

crosses_from-Embeds :
    (xs ys : List Scope) (f g : ℕ) (to : ScopeId) (current : Option ScopeId) (b : Bool)
    → Embeds xs ys
    → f ≤ g
    → crosses_from f xs to current ≡ some b
    → crosses_from g ys to current ≡ some b
unfolding crosses_from
crosses_from-Embeds xs ys zero g to current b h le e = absurd (cc e)
crosses_from-Embeds xs ys (suc f) zero to current b h le e = absurd (omega (arith, le))
crosses_from-Embeds xs ys (suc f) (suc g) to none b h le e = e
crosses_from-Embeds xs ys (suc f) (suc g) to (some id) b h le e = elim (Bool-cases (id == to)) [
  | inl t ↦ rw (t, crosses_from) (rw (t, crosses_from) at e)
  | inr t ↦ elim (Option-cases (get_elem? xs id)) [
    | inl m ↦ absurd (cc (rw (t, m, crosses_from) at e))
    | inr (s, m) ↦
        let (s', m', (k, p)) = h id s m in
        elim (Bool-cases (is_function s.kind)) [
          | inl c ↦
              rw (t, m', crosses_from) (rw (ap is_function k ∙ c) (rw (t, m, c, crosses_from) at e))
          | inr c ↦
              rw (t, m', crosses_from)
                (rw (ap is_function k ∙ c, p)
                  (crosses_from-Embeds xs ys f g to s.parent b h (omega (arith, le))
                    (rw (t, m, c, crosses_from) at e)))
        ]
  ]
]

-- Whether a use stands in another function than the scope of its symbol.
abbrev is_true : Option Bool → Bool
is_true none = false
is_true (some b) = b

abbrev pub captures : ScopeTree → ScopeId → Reference → Bool
captures tree home r = is_true (crosses_function_boundary tree r.scope home)

pub captures-Embeds :
    (before after : ScopeTree) (home : ScopeId) (r : Reference)
    → Ordered before.scopes
    → Embeds before.scopes after.scopes
    → length before.scopes ≤ length after.scopes
    → r.scope < length before.scopes
    → captures after home r ≡ captures before home r
unfolding crosses_function_boundary
captures-Embeds before after home r o h le lt =
    let xs = before.scopes in
    let (b, e) = crosses_function_boundary-ends before r.scope home o lt in
    let e' : crosses_function_boundary after r.scope home ≡ some b =
      crosses_from-Embeds xs after.scopes (length xs + 1) (length after.scopes + 1) home
        (some r.scope) b h (omega (arith, le)) e in
    cc (ap is_true e, ap is_true e')

pub Embeds-append : (xs ys : List Scope) → Embeds xs (xs ++ ys)
Embeds-append xs ys i s e = (s, get_elem-append xs ys i s e, (refl, refl))

pub Embeds-update :
    (xs ys : List Scope) (j : ScopeId) (f : Scope → Scope)
    → ((s : Scope) → ((f s).kind ≡ s.kind) × ((f s).parent ≡ s.parent))
    → Embeds xs ys
    → Embeds xs (update j f ys)
Embeds-update xs ys j f keeps h i s e =
    get_elem-update (λ (t : Scope). (t.kind ≡ s.kind) × (t.parent ≡ s.parent)) f j ys i
      (λ t p. ((keeps t).0 ∙ p.0, (keeps t).1 ∙ p.1)) (h i s e)

pub Embeds-refl : (xs : List Scope) → Embeds xs xs
Embeds-refl xs i s e = (s, e, (refl, refl))
