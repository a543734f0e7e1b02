-- ===== src/Bundler/Graph/Closed.antt =====
-- The walk of crates/luck_bundler/src/graph.rs comes to an end, and what it has then found.
use luck.Bundler.Graph.Walk.{
  Due, AllDue, Processed, process_module-Processed, taken, taken-DueWith, taken-Due, snoc_nil,
}
use luck.Bundler.Graph.{
  too_many_modules, ModuleId, Dependency, Host, ModuleInfo, GraphBuilder, get, max_module_count,
  new_builder, push_error, visit, process_module, discover_from, discover,
}
use luck.Bundler.Graph.Valid.{Pending, IsValid}
use luck.Prelude.{
  ℕ, zero, suc, ◌+◌, ◌≤◌, ◌≡◌, ◌≢◌, ◌⊎◌, inl, inr, refl, sym, ap, ◌∙◌, true, false, none, some,
  List, [], ◌∷◌, Bool-cases, Option-cases, leb, length, get_elem?, All, Bytes, arith,
}
use mathlib.Core.Path.{subst}

module _ (host : Host) (entry : Bytes) where
  -- A round, when the queue is known.
  discover_from-visit :
      (f : ℕ) (b : GraphBuilder host) (queue : List Bytes)
      → b.queue ≡ queue
      → discover_from host (suc f) b ≡ visit host (discover_from host f) b queue
  unfolding discover_from
  discover_from-visit f b queue e = ap (visit host (discover_from host f) b) e

  -- The cases of a round.
  module _ (f : ℕ) (b : GraphBuilder host) (path : Bytes) (queue : List Bytes)
      (e : b.queue ≡ path ∷ queue) where
    visit-known :
        (id : ModuleId)
        → get path b.path_to_id ≡ some id
        → discover_from host (suc f) b ≡ discover_from host f (taken host entry path b queue)
    visit-known id known = discover_from-visit f b (path ∷ queue) e ∙ rw (known, visit) refl

    visit-full :
        get path b.path_to_id ≡ none
        → leb max_module_count (length b.modules) ≡ true
        → discover_from host (suc f) b
          ≡ some (
              push_error host
                (too_many_modules path max_module_count)
                (taken host entry path b queue))
    visit-full new full = discover_from-visit f b (path ∷ queue) e ∙ rw (new, visit, full) refl

    visit-new :
        get path b.path_to_id ≡ none
        → leb max_module_count (length b.modules) ≡ false
        → discover_from host (suc f) b
          ≡ discover_from host f (process_module host path (taken host entry path b queue))
    visit-new new room = discover_from-visit f b (path ∷ queue) e ∙ rw (new, visit, room) refl

  processed :
      (b : GraphBuilder host) (path : Bytes) (queue : List Bytes)
      → b.queue ≡ path ∷ queue
      → IsValid host b
      → Due host entry b
      → get path b.path_to_id ≡ none
      → leb max_module_count (length b.modules) ≡ false
      → let b1 = taken host entry path b queue in
        Processed host entry path b1 (process_module host path b1)
  processed b path queue e v due new room =
      process_module-Processed host entry path (taken host entry path b queue) v
        (taken-DueWith host entry path b queue e due) new (ground (arith, room))

  walk-ends :
      (n : ℕ) (queue : List Bytes) (b : GraphBuilder host)
      → b.queue ≡ queue
      → IsValid host b
      → Due host entry b
      → max_module_count ≤ n + length b.modules
      → (fuel : ℕ) × (found : GraphBuilder host) × (discover_from host fuel b ≡ some found)
  walk-ends n [] b e v due h = (1, b, discover_from-visit 0 b [] e)
  walk-ends zero (path ∷ queue) b e v due h = elim (Option-cases (get path b.path_to_id)) [
    | inr (id, known) ↦
        let b1 = taken host entry path b queue in
        let (fuel, found, ends) =
          walk-ends zero queue b1 refl v (taken-Due host entry path b queue id e known due) h in
        (suc fuel, found, visit-known fuel b path queue e id known ∙ ends)
    | inl new ↦ (1, _, visit-full 0 b path queue e new (ground (arith, h)))
  ]
  walk-ends (suc n) (path ∷ queue) b e v due h =
      let b1 = taken host entry path b queue in
      elim (Option-cases (get path b.path_to_id)) [
        | inr (id, known) ↦
            let (fuel, found, ends) =
              walk-ends (suc n) queue b1 refl v (taken-Due host entry path b queue id e known due)
                h in
            (suc fuel, found, visit-known fuel b path queue e id known ∙ ends)
        | inl new ↦ elim (Bool-cases (leb max_module_count (length b.modules))) [
          | inl full ↦ (1, _, visit-full 0 b path queue e new full)
          | inr room ↦
              let b2 = process_module host path b1 in
              let done = processed b path queue e v due new room in
              elim done.progress [
                | inl more ↦
                    let (fuel, found, ends) =
                      walk-ends n b2.queue b2 refl done.valid done.due (omega (arith, more, h)) in
                    (suc fuel, found, visit-new fuel b path queue e new room ∙ ends)
                | inr (same, left) ↦
                    let (fuel, found, ends) =
                      walk-ends (suc n) queue b2 left done.valid done.due
                        (omega (arith, same, h)) in
                    (suc fuel, found, visit-new fuel b path queue e new room ∙ ends)
              ]
        ]
      ]

  -- No path is pending any more, or there is an error.
  abbrev Finished : GraphBuilder host → Type 0
  Finished b = (b.queue ≡ []) ⊎ (b.errors ≢ [])

  walk-Due :
      (fuel : ℕ) (queue : List Bytes) (b found : GraphBuilder host)
      → b.queue ≡ queue
      → IsValid host b
      → Due host entry b
      → discover_from host fuel b ≡ some found
      → IsValid host found × Due host entry found × Finished found
  walk-Due zero queue b found e v due h = unfold discover_from in absurd (cc h)
  walk-Due (suc f) [] b found e v due h =
      let same : b ≡ found = some_eq (sym (discover_from-visit f b [] e) ∙ h) in
      subst (λ x. IsValid host x × Due host entry x × Finished x) same (v, due, inl e)
    where
      some_eq : {x y : GraphBuilder host} → some x ≡ some y → x ≡ y
      some_eq e = cc e
  walk-Due (suc f) (path ∷ queue) b found e v due h =
      let b1 = taken host entry path b queue in
      elim (Option-cases (get path b.path_to_id)) [
        | inr (id, known) ↦
            walk-Due f queue b1 found refl v (taken-Due host entry path b queue id e known due)
              (sym (visit-known f b path queue e id known) ∙ h)
        | inl new ↦ elim (Bool-cases (leb max_module_count (length b.modules))) [
          | inl full ↦
              let same = some_eq (sym (visit-full f b path queue e new full) ∙ h) in
              let failed = snoc_nil b.errors (too_many_modules path max_module_count) in
              subst (λ x. IsValid host x × Due host entry x × Finished x) same
                (v, λ none_left. absurd (failed none_left), inr failed)
          | inr room ↦
              let done = processed b path queue e v due new room in
              walk-Due f _ (process_module host path b1) found refl done.valid done.due
                (sym (visit-new f b path queue e new room) ∙ h)
        ]
      ]
    where
      some_eq : {x y : GraphBuilder host} → some x ≡ some y → x ≡ y
      some_eq e = cc e

module _ (host : Host) (b : GraphBuilder host) where
  -- A path names a module: its id is the index of a module of the path.
  abbrev pub IsModule : Bytes → Type 0
  IsModule path =
      (id : ModuleId) × (get path b.path_to_id ≡ some id)
      × (m : ModuleInfo host) × (get_elem? b.modules id ≡ some m)
      × (m.path ≡ path)

  Pending-IsModule : (path : Bytes) → IsValid host b → Pending b.path_to_id [] path → IsModule path
  Pending-IsModule path v (inl (id, known)) =
      let (m, at_id, same) = v.named path id known in (id, known, m, at_id, same)
  Pending-IsModule path v (inr none_left) = elim none_left [ ]

  -- Every dependency of the modules names a module.
  abbrev pub AllFound : List (ModuleInfo host) → Type 0
  AllFound modules =
      All
        (λ (m : ModuleInfo host). All (λ (d : Dependency). IsModule d.resolved_path) m.dependencies)
        modules

  dependencies-IsModule :
      (deps : List Dependency)
      → IsValid host b
      → All (λ (d : Dependency). Pending b.path_to_id [] d.resolved_path) deps
      → All (λ (d : Dependency). IsModule d.resolved_path) deps
  dependencies-IsModule [] v h = tt
  dependencies-IsModule (d ∷ deps) v h =
      (Pending-IsModule d.resolved_path v h.0, dependencies-IsModule deps v h.1)

  AllDue-AllFound :
      (modules : List (ModuleInfo host))
      → IsValid host b
      → AllDue host modules b.path_to_id []
      → AllFound modules
  AllDue-AllFound [] v h = tt
  AllDue-AllFound (m ∷ modules) v h =
      (dependencies-IsModule m.dependencies v h.0, AllDue-AllFound modules v h.1)

module _ (host : Host) (entry : Bytes) (resolver : host.Resolver) (graph : host.Graph) where
  start-IsValid : IsValid host (new_builder host resolver graph)
  start-IsValid = record {
    indexed = tt;
    named = λ path id e. unfold get in absurd (cc e);
    numbered = refl;
    bounded = omega arith;
  }

  -- Whatever the files hold and however requires resolve, cycles included, the walk from an entry
  -- comes to an end.
  pub discover-ends :
      (fuel : ℕ) × (found : GraphBuilder host) × (discover host fuel entry
          (new_builder host resolver graph)
        ≡ some found)
  unfolding discover
  discover-ends =
      walk-ends host entry max_module_count (entry ∷ []) _ refl start-IsValid
        (λ none_yet. (inr (inl refl), tt)) (omega arith)

  -- Where the walk from an entry ends, the paths are those of the modules, each with its index,
  -- with a node for each module and at most 10,000 modules. If no error was met, the entry is a
  -- module and so is what each dependency of each module resolved to.
  pub discover-IsValid :
      (fuel : ℕ) (found : GraphBuilder host)
      → discover host fuel entry (new_builder host resolver graph) ≡ some found
      → IsValid host found
        × (found.errors ≡ [] → IsModule host found entry × AllFound host found found.modules)
  unfolding discover
  discover-IsValid fuel found e =
      let (valid, due, finished) =
        walk-Due host entry fuel (entry ∷ []) _ found refl start-IsValid
          (λ none_yet. (inr (inl refl), tt)) e in
      (
        valid,
        λ no_errors. elim finished [
          | inr failed ↦ absurd (failed no_errors)
          | inl empty ↦
              let (first, all) =
                subst
                  (λ q.
                    Pending found.path_to_id q entry × AllDue host found.modules found.path_to_id q)
                  empty (due no_errors) in
              (
                Pending-IsModule host found entry valid first,
                AllDue-AllFound host found found.modules valid all,
              )
        ],
      )
