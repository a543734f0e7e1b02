-- ===== src/Bundler/Graph/Valid.antt =====
-- The tables of `GraphBuilder` in crates/luck_bundler/src/graph.rs agree with each other.
use luck.Bundler.Graph.{
  Diagnostic, ModuleId, RequireInfo, Dependency, Resolution, resolved, unresolved, Host, ModuleInfo,
  GraphBuilder, get, enqueue, max_module_count, push_error, add_resolution, resolve_requires,
  add_module,
}
use luck.Prelude.{
  ℕ, ◌≤◌, ◌<◌, ◌≡◌, ◌⊎◌, inl, inr, refl, sym, ap, ◌∙◌, false, none, some, List, [], ◌∷◌, ◌++◌,
  append_assoc, append-nil, Bool-cases, Option-cases, length, length-append, get_elem?,
  get_elem-append, get_elem-last, All, AllAt, AllAt-map, AllAt-push, Bytes, bytes_eq, bytes_eq_iff,
  arith,
}
use mathlib.Core.Path.{subst}
use luck.Span.{Span}

abbrev pub Queued : Bytes → List Bytes → Type 0
Queued path [] = ⊥
Queued path (p ∷ queue) = (p ≡ path) ⊎ Queued path queue

-- A path that has an id or stands in the queue.
abbrev pub Pending : List (Bytes × ModuleId) → List Bytes → Bytes → Type 0
Pending ids queue path = ((id : ModuleId) × (get path ids ≡ some id)) ⊎ Queued path queue

pub Queued-append : (path : Bytes) (q more : List Bytes) → Queued path q → Queued path (q ++ more)
Queued-append path [] more h = elim h [ ]
Queued-append path (p ∷ q) more (inl e) = inl e
Queued-append path (p ∷ q) more (inr h) = inr (Queued-append path q more h)

Queued-last : (path : Bytes) (q : List Bytes) → Queued path (q ++ path ∷ [])
Queued-last path [] = inl refl
Queued-last path (p ∷ q) = inr (Queued-last path q)

pub append_nil : (x y : List Diagnostic) → x ++ y ≡ [] → x ≡ []
append_nil [] y e = refl
append_nil (d ∷ x) y e = absurd (cc e)

pub get-here :
    (path : Bytes) (id : ModuleId) (ids : List (Bytes × ModuleId))
    → get path ((path, id) ∷ ids) ≡ some id
unfolding get
get-here path id ids = rw ((bytes_eq_iff path path).1 refl) refl

get-other :
    (path p : Bytes) (id : ModuleId) (ids : List (Bytes × ModuleId))
    → bytes_eq path p ≡ false
    → get p ((path, id) ∷ ids) ≡ get p ids
unfolding get
get-other path p id ids e = rw e refl

enqueue-Pending :
    (path : Bytes) (ids : List (Bytes × ModuleId)) (queue : List Bytes)
    → (more : List Bytes) × (enqueue path ids queue ≡ queue ++ more)
      × Pending ids (enqueue path ids queue) path
unfolding enqueue
enqueue-Pending path ids queue = elim (Option-cases (get path ids)) [
  | inl e ↦ rw (e, enqueue) (path ∷ [], refl, inr (Queued-last path queue))
  | inr (id, e) ↦ rw (e, enqueue) ([], sym (append-nil queue), inl (id, refl))
]

-- A new entry takes no id away.
pub get-insert :
    (path p : Bytes) (new id : ModuleId) (ids : List (Bytes × ModuleId))
    → get p ids ≡ some id
    → (id' : ModuleId) × (get p ((path, new) ∷ ids) ≡ some id')
get-insert path p new id ids h = elim (Bool-cases (bytes_eq path p)) [
  | inl e ↦ (new, rw ((bytes_eq_iff path p).0 e) (get-here p new ids))
  | inr e ↦ (id, get-other path p new ids e ∙ h)
]

module _ (host : Host) where
  -- Each module has its index as the id of its path, and each id is that of a module of the path;
  -- there is a node for each module, and no more modules than the limit.
  pub record Tables (modules : List (ModuleInfo host)) (ids : List (Bytes × ModuleId))
      (nodes : List host.NodeIndex) : Type 0 where
    pub indexed : AllAt (λ i (m : ModuleInfo host). get m.path ids ≡ some i) 0 modules
    pub named :
        (path : Bytes) (id : ModuleId)
        → get path ids ≡ some id
        → (m : ModuleInfo host) × (get_elem? modules id ≡ some m) × (m.path ≡ path)
    pub numbered : length nodes ≡ length modules
    pub bounded : length modules ≤ max_module_count

  abbrev pub IsValid : GraphBuilder host → Type 0
  IsValid b = Tables b.modules b.path_to_id b.node_indices

  -- What the tables of modules are told from.
  pub record Same (b b' : GraphBuilder host) : Type 0 where
    pub modules : b'.modules ≡ b.modules
    pub path_to_id : b'.path_to_id ≡ b.path_to_id
    pub node_indices : b'.node_indices ≡ b.node_indices
    pub queue : (more : List Bytes) × (b'.queue ≡ b.queue ++ more)
    pub errors : b'.errors ≡ [] → b.errors ≡ []

  get_elem-new :
      (modules : List (ModuleInfo host)) (x : ModuleInfo host) (p : Bytes) (id : ℕ)
      → x.path ≡ p
      → length modules ≡ id
      → (m : ModuleInfo host) × (get_elem? (modules ++ x ∷ []) id ≡ some m) × (m.path ≡ p)
  get_elem-new modules x p id same e =
      (x, subst (λ k. get_elem? (modules ++ x ∷ []) k ≡ some x) e (get_elem-last modules x), same)

  pub add_module-IsValid :
      (path source : Bytes) (block : host.Block) (callees : List Span) (deps : List Dependency)
      (b : GraphBuilder host)
      → IsValid b
      → get path b.path_to_id ≡ none
      → length b.modules < max_module_count
      → IsValid (add_module host path source block callees deps b)
  unfolding add_module
  add_module-IsValid path source block callees deps b v new lt = record {
    indexed =
        AllAt-push _ b.modules _
          (AllAt-map _ _ 0 b.modules
            (λ i m e. get-other path m.path _ b.path_to_id (differs m i e) ∙ e) v.indexed)
          (get-here path (length b.modules) b.path_to_id);
    named = λ p id e. elim (Bool-cases (bytes_eq path p)) [
      | inl same ↦
          let here : path ≡ p = (bytes_eq_iff path p).0 same in
          let first : some (length b.modules) ≡ some id =
            sym (get-here path (length b.modules) b.path_to_id)
            ∙ subst (λ q. get q ((path, length b.modules) ∷ b.path_to_id) ≡ some id) (sym here) e in
          get_elem-new b.modules _ p id here (some_eq first)
      | inr other ↦
          let (m, found, named) = v.named p id (sym (get-other path p _ b.path_to_id other) ∙ e) in
          (m, get_elem-append b.modules _ id m found, named)
    ];
    numbered = omega (arith, length-append b.node_indices _, length-append b.modules _, v.numbered);
    bounded = omega (arith, lt, length-append b.modules _);
  }
    where
      some_eq : {x y : ℕ} → some x ≡ some y → x ≡ y
      some_eq e = cc e

      differs :
          (m : ModuleInfo host) (i : ℕ)
          → get m.path b.path_to_id ≡ some i
          → bytes_eq path m.path ≡ false
      differs m i e = elim (Bool-cases (bytes_eq path m.path)) [
        | inl same ↦
            let taken : none ≡ some i =
              sym new ∙ ap (λ q. get q b.path_to_id) ((bytes_eq_iff path m.path).0 same) ∙ e in
            absurd (cc taken)
        | inr other ↦ other
      ]

  pub Same-IsValid : (b b' : GraphBuilder host) → Same b b' → IsValid b → IsValid b'
  Same-IsValid b b' s v = rw (s.modules, s.path_to_id, s.node_indices) v

  Same-refl : (b : GraphBuilder host) → Same b b
  Same-refl b = record {
    modules = refl;
    path_to_id = refl;
    node_indices = refl;
    queue = ([], sym (append-nil b.queue));
    errors = λ e. e;
  }

  Same-trans : (a b c : GraphBuilder host) → Same a b → Same b c → Same a c
  Same-trans a b c s t = record {
    modules = t.modules ∙ s.modules;
    path_to_id = t.path_to_id ∙ s.path_to_id;
    node_indices = t.node_indices ∙ s.node_indices;
    queue = (
      s.queue.0 ++ t.queue.0,
      t.queue.1 ∙ ap (◌++ t.queue.0) s.queue.1 ∙ append_assoc a.queue s.queue.0 t.queue.0,
    );
    errors = λ e. s.errors (t.errors e);
  }

  pub push_error-Same : (d : Diagnostic) (b : GraphBuilder host) → Same b (push_error host d b)
  push_error-Same d b = record {
    modules = refl;
    path_to_id = refl;
    node_indices = refl;
    queue = ([], sym (append-nil b.queue));
    errors = append_nil b.errors (d ∷ []);
  }

  -- The requires of a module are added to its dependencies; what they resolve to is pending.
  abbrev pub AllPending : GraphBuilder host → List Dependency → Type 0
  AllPending b deps = All (λ (d : Dependency). Pending b.path_to_id b.queue d.resolved_path) deps

  Pending-Same :
      (b b' : GraphBuilder host) (path : Bytes)
      → Same b b'
      → Pending b.path_to_id b.queue path
      → Pending b'.path_to_id b'.queue path
  Pending-Same b b' path s (inl known) = inl (rw (s.path_to_id) known)
  Pending-Same b b' path s (inr queued) =
      inr (rw (s.queue.1) (Queued-append path b.queue s.queue.0 queued))

  AllPending-Same :
      (b b' : GraphBuilder host) (deps : List Dependency)
      → Same b b'
      → AllPending b deps
      → AllPending b' deps
  AllPending-Same b b' [] s h = tt
  AllPending-Same b b' (d ∷ deps) s h =
      (Pending-Same b b' d.resolved_path s h.0, AllPending-Same b b' deps s h.1)

  AllPending-snoc :
      (b : GraphBuilder host) (deps : List Dependency) (d : Dependency)
      → AllPending b deps
      → Pending b.path_to_id b.queue d.resolved_path
      → AllPending b (deps ++ d ∷ [])
  AllPending-snoc b [] d h p = (p, tt)
  AllPending-snoc b (e ∷ deps) d h p = (h.0, AllPending-snoc b deps d h.1 p)

  -- What the loop over the requires does to the builder, with the dependencies that it gives.
  abbrev pub Resolves : GraphBuilder host → GraphBuilder host × List Dependency → Type 0
  Resolves b r = Same b r.0 × AllPending r.0 r.1

  add_resolution-Resolves :
      (req : RequireInfo) (answer : Resolution) (b : GraphBuilder host) (deps : List Dependency)
      → AllPending b deps
      → Resolves b (add_resolution host req answer b deps)
  unfolding add_resolution
  add_resolution-Resolves req (unresolved diag) b deps h =
      let same = push_error-Same diag b in (same, AllPending-Same b _ deps same h)
  add_resolution-Resolves req (resolved path warnings) b deps h =
      let (more, grown, pending) = enqueue-Pending path b.path_to_id b.queue in
      let after : GraphBuilder host = record b {
        queue = enqueue path b.path_to_id b.queue;
        warnings = b.warnings ++ warnings;
      } in
      let same : Same b after = record {
        modules = refl;
        path_to_id = refl;
        node_indices = refl;
        queue = (more, grown);
        errors = λ e. e;
      } in
      (same, AllPending-snoc after deps _ (AllPending-Same b after deps same h) pending)

  pub resolve_requires-Resolves :
      (path : Bytes) (requires : List RequireInfo) (b : GraphBuilder host) (deps : List Dependency)
      → AllPending b deps
      → Resolves b (resolve_requires host path requires b deps)
  unfolding resolve_requires
  resolve_requires-Resolves path [] b deps h = (Same-refl b, h)
  resolve_requires-Resolves path (req ∷ requires) b deps h =
      let answer = host.resolve b.resolver path req in
      let first = add_resolution-Resolves req answer.0 (record b { resolver = answer.1 }) deps h in
      let r = add_resolution host req answer.0 (record b { resolver = answer.1 }) deps in
      let (same, pending) = resolve_requires-Resolves path requires r.0 r.1 first.1 in
      let start : Same b r.0 = record {
        modules = first.0.modules;
        path_to_id = first.0.path_to_id;
        node_indices = first.0.node_indices;
        queue = first.0.queue;
        errors = first.0.errors;
      } in
      (Same-trans b r.0 _ start same, pending)
