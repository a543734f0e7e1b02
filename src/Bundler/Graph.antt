-- ===== src/Bundler/Graph.antt =====
-- `GraphBuilder` of crates/luck_bundler/src/graph.rs, as far as it discovers the modules. What it
-- calls outside is a `Host`: files, the parser, the extraction of requires, the resolver, and the
-- graph of petgraph. The version, the search paths and the other settings do not change in a run
-- and are the host's. The map of paths to ids is a list of its entries. The loop runs on fuel.
pub mod Valid
pub mod Walk
pub mod Closed
use luck.Prelude.{
  ℕ, zero, suc, ◌*◌, ◌⊎◌, inl, inr, Bool, true, false, not, Option, none, some, List, [], ◌∷◌, ◌++◌,
  map, ltb, leb, ◌==◌, if◌then◌else◌, length, Bytes, bytes_eq, filter_by,
}
use luck.Span.{Span}

-- The diagnostics of crates/luck_core/src/diagnostics.rs that the walk makes itself (e008, e009,
-- e010 and e012), with the file and what the message shows, and those that are handed to it, each
-- with `is_error`.
pub data Diagnostic : Type 0 where
  parse_failed : Bytes → Span → Bytes → Diagnostic
  too_many_modules : Bytes → ℕ → Diagnostic
  unreadable : Bytes → Bytes → Diagnostic
  too_large : Bytes → ℕ → ℕ → Diagnostic
  reported : Bool → Bytes → Diagnostic

abbrev pub is_error : Diagnostic → Bool
is_error (reported e _) = e
is_error _ = true

abbrev pub ModuleId : Type 0
ModuleId = ℕ

pub record RequireInfo : Type 0 where
  pub require_string : Bytes
  pub span : Span
  pub call_span : Span

pub record Dependency : Type 0 where
  pub require_string : Bytes
  pub resolved_path : Bytes
  pub call_span : Span

pub record ExtractResult : Type 0 where
  pub requires : List RequireInfo
  pub dynamic_callees : List Span
  pub diagnostics : List Diagnostic

-- What the resolver answers.
pub data Resolution : Type 0 where
  resolved : Bytes → List Diagnostic → Resolution
  unresolved : Diagnostic → Resolution

pub record Host : Type 1 where
  pub Block : Type 0
  pub Resolver : Type 0
  pub Graph : Type 0
  pub NodeIndex : Type 0
  -- The text of a file, or the message of the error.
  pub read_source_file : Bytes → Bytes ⊎ Bytes
  -- The source, the errors as spans with messages, and the block.
  pub parse : Bytes → Bytes × List (Span × Bytes) × Block
  pub extract_requires : Block → Bytes → ExtractResult
  pub resolve : Resolver → Bytes → RequireInfo → Resolution × Resolver
  pub add_node : Graph → ModuleId → NodeIndex × Graph
  -- `make_relative` to the root of the project.
  pub make_relative : Bytes → Bytes
  -- `std::path::MAIN_SEPARATOR`
  pub main_separator : ℕ

module _ (host : Host) where
  pub record ModuleInfo : Type 0 where
    pub path : Bytes
    pub source : Bytes
    pub dependencies : List Dependency
    pub relative_path : Bytes
    pub dynamic_callees : List Span
    pub parsed_block : Option host.Block

  pub record GraphBuilder : Type 0 where
    pub resolver : host.Resolver
    pub modules : List ModuleInfo
    pub path_to_id : List (Bytes × ModuleId)
    pub graph : host.Graph
    pub node_indices : List host.NodeIndex
    pub queue : List Bytes
    pub errors : List Diagnostic
    pub warnings : List Diagnostic

-- `path_to_id.get(path)`; an entry that was inserted later hides an earlier one.
unfoldable pub get : Bytes → List (Bytes × ModuleId) → Option ModuleId
get path [] = none
get path ((key, id) ∷ l) = let rest = get path l in if bytes_eq key path then some id else rest

abbrev pub contains_key : Bytes → List (Bytes × ModuleId) → Bool
contains_key path l = elim (get path l) [ none ↦ false | some _ ↦ true ]

-- A path that has no id joins the queue.
unfoldable pub enqueue : Bytes → List (Bytes × ModuleId) → List Bytes → List Bytes
enqueue path ids queue = elim (contains_key path ids) [ true ↦ queue | false ↦ queue ++ path ∷ [] ]

abbrev pub max_module_count : ℕ
max_module_count = 10000

abbrev pub max_file_size : ℕ
max_file_size = 10 * 1024 * 1024

-- `file_path.replace('/', MAIN_SEPARATOR_STR)`
abbrev pub os_path : ℕ → Bytes → Bytes
os_path separator path = map (λ b. if b == b'/' then separator else b) path

module _ (host : Host) where
  abbrev pub new_builder : host.Resolver → host.Graph → GraphBuilder host
  new_builder resolver graph = record {
    resolver = resolver;
    modules = [];
    path_to_id = [];
    graph = graph;
    node_indices = [];
    queue = [];
    errors = [];
    warnings = [];
  }

  abbrev pub push_error : Diagnostic → GraphBuilder host → GraphBuilder host
  push_error d b = record b { errors = b.errors ++ d ∷ [] }

  -- `parse_result.errors`, and what the extraction reports.
  abbrev pub report :
      Bytes → List (Span × Bytes) → List Diagnostic → GraphBuilder host → GraphBuilder host
  report path parse_errors diagnostics b = record b {
    errors =
        b.errors
        ++ map (λ (e : Span × Bytes). parse_failed path e.0 e.1) parse_errors
        ++ filter_by is_error diagnostics;
    warnings = b.warnings ++ filter_by (λ d. not (is_error d)) diagnostics;
  }

  -- The arms for what the resolver answers, with its new state.
  unfoldable pub add_resolution :
      RequireInfo
      → Resolution
      → GraphBuilder host
      → List Dependency
      → GraphBuilder host × List Dependency
  add_resolution req (resolved path warnings) b dependencies = (
    record b { queue = enqueue path b.path_to_id b.queue; warnings = b.warnings ++ warnings },
    dependencies
        ++ record {
          require_string = req.require_string;
          resolved_path = path;
          call_span = req.call_span;
        }
          ∷ [],
  )
  add_resolution req (unresolved diag) b dependencies = (push_error diag b, dependencies)

  -- The loop over the requires of a file.
  unfoldable pub resolve_requires :
      Bytes
      → List RequireInfo
      → GraphBuilder host
      → List Dependency
      → GraphBuilder host × List Dependency
  resolve_requires path [] b dependencies = (b, dependencies)
  resolve_requires path (req ∷ requires) b dependencies =
      let (answer, resolver) = host.resolve b.resolver path req in
      let (b1, dependencies1) =
        add_resolution req answer (record b { resolver = resolver }) dependencies in
      resolve_requires path requires b1 dependencies1

  -- The end of `process_module`.
  unfoldable pub add_module :
      Bytes
      → Bytes
      → host.Block
      → List Span
      → List Dependency
      → GraphBuilder host
      → GraphBuilder host
  add_module path source block dynamic_callees dependencies b =
      let module_id = length b.modules in
      let (node, graph) = host.add_node b.graph module_id in
      record b {
        graph = graph;
        path_to_id = (path, module_id) ∷ b.path_to_id;
        node_indices = b.node_indices ++ node ∷ [];
        modules =
            b.modules
            ++ record {
              path = path;
              source = source;
              dependencies = dependencies;
              relative_path = host.make_relative path;
              dynamic_callees = dynamic_callees;
              parsed_block = some block;
            }
              ∷ [];
      }

  unfoldable pub process_source : Bytes → Bytes → GraphBuilder host → GraphBuilder host
  unfolding resolve_requires add_module
  process_source path text b =
      let (source, parse_errors, block) = host.parse text in
      let extracted = host.extract_requires block path in
      let (b1, dependencies) =
        resolve_requires path extracted.requires (report path parse_errors extracted.diagnostics b)
          [] in
      add_module path source block extracted.dynamic_callees dependencies b1

  unfoldable pub process_module : Bytes → GraphBuilder host → GraphBuilder host
  unfolding process_source
  process_module path b = elim (host.read_source_file (os_path host.main_separator path)) [
    | inl io_error ↦ push_error (unreadable path io_error) b
    | inr source ↦ elim (ltb max_file_size (length source)) [
      | true ↦ push_error (too_large path (length source) max_file_size) b
      | false ↦ process_source path source b
    ]
  ]

  -- A round of the loop over the queue; `next` goes on with the builder.
  abbrev pub visit :
      (GraphBuilder host → Option (GraphBuilder host))
      → GraphBuilder host
      → List Bytes
      → Option (GraphBuilder host)
  visit next b [] = some b
  visit next b (path ∷ queue) =
      let b1 = record b { queue = queue } in
      elim (contains_key path b.path_to_id) [
        | true ↦ next b1
        | false ↦ elim (leb max_module_count (length b.modules)) [
          | true ↦ some (push_error (too_many_modules path max_module_count) b1)
          | false ↦ next (process_module path b1)
        ]
      ]

  unfoldable pub discover_from : ℕ → GraphBuilder host → Option (GraphBuilder host)
  discover_from zero b = none
  discover_from (suc f) b = visit (discover_from f) b b.queue

  unfoldable pub discover : ℕ → Bytes → GraphBuilder host → Option (GraphBuilder host)
  unfolding discover_from
  discover fuel entry b = discover_from fuel (record b { queue = b.queue ++ entry ∷ [] })
