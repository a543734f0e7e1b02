-- ===== src/Semantic/Scope/Enclosing.antt =====
-- A scope behind the others of crates/luck_semantic/src/scope.rs, listed by its parent.
use luck.Semantic.Scope.{ScopeId, Scope, Symbol, add_child}
use luck.Semantic.Scope.Agreement.{children_of, declared_in}
use luck.Semantic.Scope.Crossing.{Ordered, Embeds, Embeds-append, Embeds-update}
use luck.Semantic.Scope.Pointing.{
  points_to, points_to_other, points_to_self, AllAt-change_first, AllAt-Below, ids_to-hit,
  ids_to-miss, ids_to-none, ids_to-update,
}
use luck.Prelude.{
  sym, ap, ◌+◌, ◌≡◌, refl, ◌∙◌, Option, none, some, List, [], ◌∷◌, ◌++◌, length, length-append,
  AllAt, AllAt-map, AllAt-push, AllAt-update, length-update, arith,
}

length-add_child :
    (id : ScopeId) (parent : Option ScopeId) (scopes : List Scope)
    → length (add_child id parent scopes) ≡ length scopes
length-add_child id none scopes = refl
length-add_child id (some p) scopes = length-update p _ scopes

pub length-add_child_snoc :
    (id : ScopeId) (parent : Option ScopeId) (scopes : List Scope) (scope : Scope)
    → length (add_child id parent (scopes ++ scope ∷ [])) ≡ length scopes + 1
length-add_child_snoc id parent scopes scope =
    length-add_child id parent _ ∙ length-append scopes (scope ∷ [])

pub Ordered-add_child :
    (id : ScopeId) (parent : Option ScopeId) (scopes : List Scope)
    → Ordered scopes
    → Ordered (add_child id parent scopes)
Ordered-add_child id none scopes h = h
Ordered-add_child id (some p) scopes h = AllAt-update _ 0 p _ scopes (λ i s k. k) h

pub declared-add_child :
    (id : ScopeId) (parent : Option ScopeId) (scopes : List Scope) (symbols : List Symbol)
    → AllAt (λ i (s : Scope). s.symbols ≡ declared_in i symbols) 0 scopes
    → AllAt (λ i (s : Scope). s.symbols ≡ declared_in i symbols) 0 (add_child id parent scopes)
declared-add_child id none scopes symbols h = h
declared-add_child id (some p) scopes symbols h = AllAt-update _ 0 p _ scopes (λ i s k. k) h

pub Embeds-add_child :
    (id : ScopeId) (parent : Option ScopeId) (scopes : List Scope) (scope : Scope)
    → Embeds scopes (add_child id parent (scopes ++ scope ∷ []))
Embeds-add_child id none scopes scope = Embeds-append scopes (scope ∷ [])
Embeds-add_child id (some p) scopes scope =
    Embeds-update scopes _ p _ (λ s. (refl, refl)) (Embeds-append scopes (scope ∷ []))

abbrev pub parent_of : Scope → Option ScopeId
parent_of s = s.parent

abbrev pub id_of : Scope → ScopeId
id_of s = s.id

-- The new scope is the last of its parent's, and has none itself.
pub children-add_child :
    (parent : Option ScopeId) (scopes : List Scope) (scope : Scope)
    → Ordered scopes
    → scope.parent ≡ parent
    → scope.id ≡ length scopes
    → scope.children ≡ []
    → AllAt (λ i (s : Scope). s.children ≡ children_of i scopes) 0 scopes
    → AllAt
        (λ i (s : Scope).
          s.children ≡ children_of i (add_child (length scopes) parent (scopes ++ scope ∷ [])))
        0
        (add_child (length scopes) parent (scopes ++ scope ∷ []))
children-add_child parent scopes scope o to is_next empty h = by_parent parent to
  where
    n : ScopeId
    n = length scopes

    all : List Scope
    all = scopes ++ scope ∷ []

    before : AllAt (λ i (s : Scope). s.children ≡ children_of i scopes) 0 all
    before = AllAt-push _ scopes scope h (
        empty
        ∙ sym (
            ids_to-none parent_of id_of (length scopes) scopes (
              AllAt-Below parent_of (length scopes) 0 scopes (omega arith)
                (AllAt-map _ _ 0 scopes (λ i s k. k.1) o))))

    by_parent :
        (p : Option ScopeId)
        → scope.parent ≡ p
        → AllAt
            (λ i (s : Scope). s.children ≡ children_of i (add_child n p all))
            0
            (add_child n p all)
    by_parent none e =
        AllAt-map _ _ 0 all
          (λ i s k. k ∙ sym (ids_to-miss parent_of id_of i scopes scope (ap (points_to i) e)))
          before
    by_parent (some p) e =
        AllAt-change_first (λ i (s : Scope). s.children ≡ children_of i scopes) _ p _ all
          (λ s k.
            ap (λ l. l ++ n ∷ []) k
            ∙ sym (
                ids_to-update parent_of id_of p p _ all (λ _. refl) (λ _. refl)
                ∙ ids_to-hit parent_of id_of p scopes scope (ap (points_to p) e ∙ points_to_self p)
                ∙ ap (λ m. children_of p scopes ++ m ∷ []) is_next))
          (λ j s d k.
            k
            ∙ sym (
                ids_to-update parent_of id_of j p _ all (λ _. refl) (λ _. refl)
                ∙ ids_to-miss parent_of id_of j scopes scope
                    (ap (points_to j) e ∙ points_to_other j p d)))
          before
