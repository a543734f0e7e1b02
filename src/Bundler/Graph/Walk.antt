-- ===== src/Bundler/Graph/Walk.antt =====
-- What processing a path does in the walk of crates/luck_bundler/src/graph.rs.
use luck.Bundler.Graph.{
  Diagnostic, ModuleId, Dependency, Host, ModuleInfo, GraphBuilder, get, max_module_count,
  max_file_size, os_path, push_error, report, resolve_requires, add_module, process_source,
  process_module,
}
use luck.Bundler.Graph.Valid.{
  Pending, Queued-append, append_nil, get-here, get-insert, IsValid, Same, add_module-IsValid,
  Same-IsValid, resolve_requires-Resolves,
}
use luck.Prelude.{
  suc, ◌<◌, ◌≡◌, ◌⊎◌, inl, inr, refl, sym, ap, ◌∙◌, none, some, List, [], ◌∷◌, ◌++◌, Bool-cases,
  ltb, length, length-append, All, Bytes, arith,
}
use mathlib.Core.Path.{subst}

pub snoc_nil : (x : List Diagnostic) (d : Diagnostic) → x ++ d ∷ [] ≡ [] → ⊥
snoc_nil [] d e = cc e
snoc_nil (a ∷ x) d e = cc e

Result-cases : (r : Bytes ⊎ Bytes) → ((e : Bytes) × (r ≡ inl e)) ⊎ ((text : Bytes) × (r ≡ inr text))
Result-cases (inl e) = inl (e, refl)
Result-cases (inr text) = inr (text, refl)

module _ (host : Host) where
  -- The dependencies of all modules have ids or stand in the queue.
  abbrev pub AllDue : List (ModuleInfo host) → List (Bytes × ModuleId) → List Bytes → Type 0
  AllDue modules ids queue =
      All
        (λ (m : ModuleInfo host).
          All (λ (d : Dependency). Pending ids queue d.resolved_path) m.dependencies)
        modules

  -- As long as there is no error, that is so, and for the entry too.
  abbrev pub Due : Bytes → GraphBuilder host → Type 0
  Due entry b =
      b.errors ≡ [] → Pending b.path_to_id b.queue entry × AllDue b.modules b.path_to_id b.queue

  module _ (ids ids' : List (Bytes × ModuleId)) (queue queue' : List Bytes)
      (f : (p : Bytes) → Pending ids queue p → Pending ids' queue' p) where
    dependencies-Pending :
        (deps : List Dependency)
        → All (λ (d : Dependency). Pending ids queue d.resolved_path) deps
        → All (λ (d : Dependency). Pending ids' queue' d.resolved_path) deps
    dependencies-Pending [] h = tt
    dependencies-Pending (d ∷ deps) h = (f d.resolved_path h.0, dependencies-Pending deps h.1)

    modules-AllDue :
        (modules : List (ModuleInfo host)) → AllDue modules ids queue → AllDue modules ids' queue'
    modules-AllDue [] h = tt
    modules-AllDue (m ∷ modules) h =
        (dependencies-Pending m.dependencies h.0, modules-AllDue modules h.1)

  AllDue-snoc :
      (modules : List (ModuleInfo host)) (m : ModuleInfo host) (ids : List (Bytes × ModuleId))
      (queue : List Bytes)
      → AllDue modules ids queue
      → All (λ (d : Dependency). Pending ids queue d.resolved_path) m.dependencies
      → AllDue (modules ++ m ∷ []) ids queue
  AllDue-snoc [] m ids queue h k = (k, tt)
  AllDue-snoc (x ∷ modules) m ids queue h k = (h.0, AllDue-snoc modules m ids queue h.1 k)

-- A path that leaves the queue has got an id.
Pending-processed :
    (path : Bytes) (new : ModuleId) (ids : List (Bytes × ModuleId)) (queue more : List Bytes)
    (p : Bytes)
    → Pending ids (path ∷ queue) p
    → Pending ((path, new) ∷ ids) (queue ++ more) p
Pending-processed path new ids queue more p (inl (id, e)) = inl (get-insert path p new id ids e)
Pending-processed path new ids queue more p (inr (inl same)) =
    inl (new, subst (λ q. get q ((path, new) ∷ ids) ≡ some new) same (get-here path new ids))
Pending-processed path new ids queue more p (inr (inr h)) = inr (Queued-append p queue more h)

Pending-insert :
    (path : Bytes) (new : ModuleId) (ids : List (Bytes × ModuleId)) (queue : List Bytes) (p : Bytes)
    → Pending ids queue p
    → Pending ((path, new) ∷ ids) queue p
Pending-insert path new ids queue p (inl (id, e)) = inl (get-insert path p new id ids e)
Pending-insert path new ids queue p (inr h) = inr h

Pending-known :
    (path : Bytes) (id : ModuleId) (ids : List (Bytes × ModuleId)) (queue : List Bytes) (p : Bytes)
    → get path ids ≡ some id
    → Pending ids (path ∷ queue) p
    → Pending ids queue p
Pending-known path id ids queue p e (inl known) = inl known
Pending-known path id ids queue p e (inr (inl same)) = inl (id, ap (λ q. get q ids) (sym same) ∙ e)
Pending-known path id ids queue p e (inr (inr h)) = inr h

module _ (host : Host) (entry path : Bytes) where
  -- The same, while the path is processed.
  abbrev pub DueWith : GraphBuilder host → Type 0
  DueWith b =
      b.errors ≡ []
      → Pending b.path_to_id (path ∷ b.queue) entry
        × AllDue host b.modules b.path_to_id (path ∷ b.queue)

  -- What processing a path does: a module more, or an error.
  pub record Processed (b b' : GraphBuilder host) : Type 0 where
    pub valid : IsValid host b'
    pub due : Due host entry b'
    pub progress :
        (length b'.modules ≡ suc (length b.modules))
        ⊎ ((length b'.modules ≡ length b.modules) × (b'.queue ≡ b.queue))

  failed-Processed :
      (d : Diagnostic) (b : GraphBuilder host) → IsValid host b → Processed b (push_error host d b)
  failed-Processed d b v = record {
    valid = v;
    due = λ e. absurd (snoc_nil b.errors d e);
    progress = inr (refl, refl);
  }

  added-Due :
      (b c : GraphBuilder host) (n : ModuleId) (m : ModuleInfo host)
      → Same host b c
      → All (λ (d : Dependency). Pending c.path_to_id c.queue d.resolved_path) m.dependencies
      → Pending b.path_to_id (path ∷ b.queue) entry
        × AllDue host b.modules b.path_to_id (path ∷ b.queue)
      → Pending ((path, n) ∷ c.path_to_id) c.queue entry
        × AllDue host (c.modules ++ m ∷ []) ((path, n) ∷ c.path_to_id) c.queue
  added-Due b c n m same pending (first, all) =
      let ids = b.path_to_id in
      let queue = b.queue ++ same.queue.0 in
      let move = Pending-processed path n ids b.queue same.queue.0 in
      let own : All (λ (d : Dependency). Pending ids queue d.resolved_path) m.dependencies =
        rw (sym same.path_to_id, sym same.queue.1) pending in
      rw (same.modules, same.path_to_id, same.queue.1)
        (
          move entry first,
          AllDue-snoc host b.modules m ((path, n) ∷ ids) queue
              (modules-AllDue host ids ((path, n) ∷ ids) (path ∷ b.queue) queue move b.modules all)
              (dependencies-Pending host ids ((path, n) ∷ ids) queue queue
                (Pending-insert path n ids queue) m.dependencies own),
        )

  process_source-Processed :
      (text : Bytes) (b : GraphBuilder host)
      → IsValid host b
      → DueWith b
      → get path b.path_to_id ≡ none
      → length b.modules < max_module_count
      → Processed b (process_source host path text b)
  unfolding process_source add_module
  process_source-Processed text b v due new lt =
      let parsed = host.parse text in
      let extracted = host.extract_requires parsed.2 path in
      let b1 = report host path parsed.1 extracted.diagnostics b in
      let r = resolve_requires host path extracted.requires b1 [] in
      let (same, pending) = resolve_requires-Resolves host path extracted.requires b1 [] tt in
      let v2 : IsValid host r.0 = Same-IsValid host b1 r.0 same v in
      record {
        valid =
            add_module-IsValid host path parsed.0 parsed.2 extracted.dynamic_callees r.1 r.0 v2
              (ap (get path) same.path_to_id ∙ new) (omega (arith, ap length same.modules, lt));
        due = λ e.
            added-Due b1 r.0 (length r.0.modules) _ same pending
              (due (append_nil b.errors _ (append_nil _ _ (same.errors e))));
        progress = inl (length-append r.0.modules _ ∙ omega (arith, ap length same.modules));
      }

  pub process_module-Processed :
      (b : GraphBuilder host)
      → IsValid host b
      → DueWith b
      → get path b.path_to_id ≡ none
      → length b.modules < max_module_count
      → Processed b (process_module host path b)
  unfolding process_module
  process_module-Processed b v due new lt =
      elim (Result-cases (host.read_source_file (os_path host.main_separator path))) [
        | inl (message, e) ↦ rw (e, process_module) (failed-Processed _ b v)
        | inr (text, e) ↦ elim (Bool-cases (ltb max_file_size (length text))) [
          | inl large ↦ rw (e, process_module, large) (failed-Processed _ b v)
          | inr small ↦ rw (e, process_module, small) (process_source-Processed text b v due new lt)
        ]
      ]

  -- The builder with the path taken off the queue.
  abbrev pub taken : GraphBuilder host → List Bytes → GraphBuilder host
  taken b queue = record b { queue = queue }

  pub taken-DueWith :
      (b : GraphBuilder host) (queue : List Bytes)
      → b.queue ≡ path ∷ queue
      → Due host entry b
      → DueWith (taken b queue)
  taken-DueWith b queue e due none_yet =
      subst (λ q. Pending b.path_to_id q entry × AllDue host b.modules b.path_to_id q) e
        (due none_yet)

  pub taken-Due :
      (b : GraphBuilder host) (queue : List Bytes) (id : ModuleId)
      → b.queue ≡ path ∷ queue
      → get path b.path_to_id ≡ some id
      → Due host entry b
      → Due host entry (taken b queue)
  taken-Due b queue id e known due none_yet =
      let (first, all) = taken-DueWith b queue e due none_yet in
      let ids = b.path_to_id in
      let move = λ (p : Bytes). Pending-known path id ids queue p known in
      (move entry first, modules-AllDue host ids ids (path ∷ queue) queue move b.modules all)
