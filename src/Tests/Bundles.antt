-- ===== src/Tests/Bundles.antt =====
-- The walk over two modules that require each other.
use luck.Bundler.Graph.{
  Host, GraphBuilder, RequireInfo, Dependency, ModuleInfo, resolved, discover, discover_from,
  new_builder, process_module, process_source, resolve_requires, add_resolution, add_module,
  enqueue, get,
}
use luck.Bundler.Graph.Valid.{IsValid}
use luck.Bundler.Graph.Closed.{IsModule, AllFound, discover-ends, discover-IsValid}
use luck.Prelude.{
  ℕ, suc, ◌⊎◌, ◌≡◌, refl, inl, inr, some, [], ◌∷◌, map, Bytes, bytes_eq, codes, if◌then◌else◌,
}

-- A file is a list of the names, of one byte each, that it requires.
abbrev read : Bytes → Bytes ⊎ Bytes
read path =
    if bytes_eq path (codes "a")
    then inr (codes "ba")
    else if bytes_eq path (codes "b")
    then inr (codes "a")
    else inl (codes "not found")

abbrev require : ℕ → RequireInfo
require b = record {
  require_string = b ∷ [];
  span = record { start = 0; end = 1 };
  call_span = record { start = 0; end = 1 };
}

abbrev host : Host
host = record {
  Block = Bytes;
  Resolver = ℕ;
  Graph = ℕ;
  NodeIndex = ℕ;
  read_source_file = read;
  parse = λ text. (text, [], text);
  extract_requires =
      λ block path. record { requires = map require block; dynamic_callees = []; diagnostics = [] };
  resolve = λ state path req. (resolved req.require_string [], suc state);
  add_node = λ graph id. (graph, suc graph);
  make_relative = λ path. path;
  main_separator = b'/';
}

abbrev dependency : ℕ → Dependency
dependency b = record {
  require_string = b ∷ [];
  resolved_path = b ∷ [];
  call_span = record { start = 0; end = 1 };
}

abbrev module_of : Bytes → Bytes → ModuleInfo host
module_of path text = record {
  path = path;
  source = text;
  dependencies = map dependency text;
  relative_path = path;
  dynamic_callees = [];
  parsed_block = some text;
}

-- The file `a` requires `b` and itself, and `b` requires `a`.
abbrev both : GraphBuilder host
both = record {
  resolver = 3;
  modules = module_of (codes "a") (codes "ba") ∷ module_of (codes "b") (codes "a") ∷ [];
  path_to_id = (codes "b", 1) ∷ (codes "a", 0) ∷ [];
  graph = 2;
  node_indices = 0 ∷ 1 ∷ [];
  queue = [];
  errors = [];
  warnings = [];
}

finds_both : discover host 5 (codes "a") (new_builder host 0 0) ≡ some both
unfolding discover discover_from process_module process_source resolve_requires add_resolution
    add_module enqueue get bytes_eq
finds_both = refl

discover-ends_example :
    (fuel : ℕ) × (found : GraphBuilder host) × (discover host fuel
        (codes "a")
        (new_builder host 0 0)
      ≡ some found)
discover-ends_example = discover-ends host (codes "a") 0 0

discover-IsValid_example :
    IsValid host both
    × (both.errors ≡ [] → IsModule host both (codes "a") × AllFound host both both.modules)
discover-IsValid_example = discover-IsValid host (codes "a") 0 0 5 both finds_both
