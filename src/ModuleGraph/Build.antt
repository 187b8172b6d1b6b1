-- ===== src/ModuleGraph/Build.antt =====
-- lanorme/module_graph.py: the name table and the import edges of a tree.
pub mod NameNodes
pub mod Resolved
pub mod Converse
pub mod Endpoints
use lanorme.Prelude.{
  ℕ, zero, suc, ◌+◌, ◌-◌, ◌*◌, ◌≤◌, ◌<◌, min, String, ◌≡◌, refl, sym, ap, ap₂, ◌∙◌, subst, fun_ext,
  ◌≢◌, ◌↔◌, ◌⊎◌, inl, inr, Bool, true, false, not, ◌&&◌, ◌||◌, false≢true, Option, none, some, List,
  [], ◌∷◌, ◌++◌, map, append-nil, append_assoc, arith, ltb, leb, if◌then◌else◌, tests, Bool-cases,
  Option-cases, Eq, ◌==◌, eq_iff, eq_refl, nat_eq, list_eq, pair_eq, triple_eq, length, keep, any,
  all, count_if, contains, flat_map, length-append, keep-append, keep-keep, count_if-append,
  length-keep-le, length-keep_add, any-append, any-map, length-map, take, drop, get_elem?, Among,
  first, later, any_of_Among, Among-of_any, all_of_Among, contains_of_Among, Among-of_contains,
  Among-append_left, Among-cons, Among-of_keep, Among-of_sort, Among-keep, Among-append_right,
  Among-map, Among-flat_map, Among-of_map, Among-of_append, Among-of_flat_map, reverse,
  Among-reverse, Among-of_reverse, length-reverse, sort, Among-sort, count_if-sort, any-sort,
  sum_by, sum_by-sort, text_leb,
}
use lanorme.Text.{
  Text, codes, is_space, is_upper, is_digit, is_alnum, upper_char, upper, lstrip, rstrip, strip,
  before, after, words, split, join, starts_with, ends_with, forward_slashes, decimal, base_name,
  dir_name,
}
use lanorme.Prelude.Partial.{gather}
use lanorme.Prelude.Dict.{Dict, lookup, insert}
use lanorme.ModuleGraph.{ModuleNode, ModuleGraph, package_file, items_at}
use lanorme.ModuleGraph.Names.{
  ImportStatement, ImportedModule, NameTable, list_imported_modules, split_import_name, add, union,
  names_in, resolve_import, list_executed_ancestors,
}

-- What the graph reads of a parsed file: its path and its import statements.
pub record Module : Type 0 where
  pub relative : Text
  pub statements : List ImportStatement

-- `Module.imports`
unfoldable pub imports_of : Module → List ImportedModule
unfolding list_imported_modules
imports_of m = flat_map list_imported_modules m.statements

-- `table[key].append(item)` and `table[key].add(item)`, of a defaultdict.
unfoldable pub append_at {ℓ} :
    {K : Type ℓ} ⦃e : Eq K⦄ → K → Text → Dict K (List Text) → Dict K (List Text)
append_at key item table = elim (lookup key table) [
  | none ↦ insert key (item ∷ []) table
  | some items ↦ insert key (items ++ item ∷ []) table
]

unfoldable pub add_at : Text → Text → Dict Text (List Text) → Dict Text (List Text)
add_at key item table = elim (lookup key table) [
  | none ↦ insert key (item ∷ []) table
  | some items ↦ insert key (add item items) table
]

-- `relative.rsplit("/", 1)`: what stands before the last slash and behind it.
behind_slash : Text → Text → Text
behind_slash seen [] = seen
behind_slash seen (c ∷ s) = if c == b'/' then behind_slash [] s else behind_slash (seen ++ c ∷ []) s

unfoldable pub file_name : Text → Text
unfolding behind_slash
file_name relative = behind_slash [] relative

unfoldable pub directory_name : Text → Text
directory_name relative = take (length relative - suc (length (file_name relative))) relative

-- The directories that hold a package file.
unfoldable pub list_packages : List Module → List Text
unfolding file_name directory_name
list_packages modules =
    map (λ m. directory_name m.relative)
      (keep (λ m. ends_with m.relative (codes "/" ++ package_file)) modules)

-- Who claims each name, in the order of the files.
unfoldable pub claims :
    List Text → List Module → Dict (Text × Text) (List Text) → Dict (Text × Text) (List Text)
unfolding split_import_name append_at
claims packages [] claimed = claimed
claims packages (m ∷ modules) claimed = elim (split_import_name m.relative packages) [
  | none ↦ claims packages modules claimed
  | some name ↦ claims packages modules (append_at name m.relative claimed)
]

pub record Named : Type 0 where
  pub nodes : Dict Text ModuleNode
  pub names : NameTable

unfoldable pub make_node : Text → Text → Text → ModuleNode
unfolding file_name
make_node relative root dotted = record {
  relative = relative;
  root = root;
  dotted = dotted;
  is_package = file_name relative == package_file;
}

-- One name that a single file claims.
unfoldable pub name_module : Text → Text → Text → Named → Named
unfolding make_node add_at names_in
name_module root dotted relative named = record {
  nodes = insert relative (make_node relative root dotted) named.nodes;
  names = record {
    by_root = insert root (insert dotted relative (names_in named.names root)) named.names.by_root;
    roots_of = add_at dotted root named.names.roots_of;
  };
}

unfoldable pub name_modules : Dict (Text × Text) (List Text) → Named → Named
unfolding name_module
name_modules [] named = named
name_modules (((root, dotted), relative ∷ []) ∷ claimed) named =
    name_modules claimed (name_module root dotted relative named)
name_modules ((_, []) ∷ claimed) named = name_modules claimed named
name_modules ((_, _ ∷ _ ∷ _) ∷ claimed) named = name_modules claimed named

no_names : Named
no_names = record { nodes = []; names = record { by_root = []; roots_of = [] } }

unfoldable pub build_name_table : List Module → List Text → Named
unfolding claims name_modules no_names
build_name_table modules packages = name_modules (claims packages modules []) no_names

-- A target with the packages that run before it. `nodes[target]` raises where the target is no node:
-- `none`, as in what follows.
unfoldable pub executed_for :
    Dict Text ModuleNode → ModuleNode → NameTable → Text → Option (List Text)
unfolding list_executed_ancestors
executed_for nodes node names target = elim (lookup target nodes) [
  | none ↦ none
  | some t ↦ some (target ∷ list_executed_ancestors t node names)
]

-- The targets of one import, each with its packages.
unfoldable pub executed_by :
    Dict Text ModuleNode → ModuleNode → NameTable → List Text → Option (List Text)
unfolding executed_for
executed_by nodes node names targets = gather (executed_for nodes node names) targets

unfoldable pub collect_targets :
    Module → ModuleNode → Dict Text ModuleNode → NameTable → Option (List Text)
unfolding executed_by imports_of resolve_import
collect_targets m node nodes names =
    elim (gather (λ imp. executed_by nodes node names (resolve_import node imp names))
      (imports_of m)) [
        | none ↦ none
        | some found ↦ some (keep (λ t. not (t == node.relative)) (union [] found))
      ]

pub record Edges : Type 0 where
  pub importers : Dict Text (List Text)
  pub imports : Dict Text (List Text)

-- The inner loop over the targets of one module.
unfoldable pub add_edges : Text → List Text → Edges → Edges
unfolding add_at
add_edges source [] edges = edges
add_edges source (target ∷ targets) edges = add_edges source targets (record {
  importers = add_at target source edges.importers;
  imports = add_at source target edges.imports;
})

-- The loop over the modules; one that has no node adds nothing.
unfoldable pub connect : Named → List Module → Edges → Option Edges
unfolding collect_targets add_edges
connect named [] edges = some edges
connect named (m ∷ modules) edges = elim (lookup m.relative named.nodes) [
  | none ↦ connect named modules edges
  | some node ↦ elim (collect_targets m node named.nodes named.names) [
    | none ↦ none
    | some targets ↦ connect named modules (add_edges node.relative targets edges)
  ]
]

unfoldable pub no_edges : Edges
no_edges = record { importers = []; imports = [] }

unfoldable pub graph_of : Named → List Text → Edges → ModuleGraph
graph_of named packages edges = record {
  nodes = named.nodes;
  packages = packages;
  importers = edges.importers;
  imports = edges.imports;
}

unfoldable pub build_module_graph : List Module → Option ModuleGraph
unfolding list_packages build_name_table connect no_edges graph_of
build_module_graph modules =
    let packages = list_packages modules in
    let named = build_name_table modules packages in
    elim (connect named modules no_edges) [
      | none ↦ none
      | some edges ↦ some (graph_of named packages edges)
    ]
