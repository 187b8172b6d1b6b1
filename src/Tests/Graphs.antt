-- ===== src/Tests/Graphs.antt =====
-- The module graph.
use lanorme.Prelude.{
  ℕ, zero, suc, ◌+◌, ◌-◌, ◌*◌, ◌≤◌, ◌<◌, min, String, ◌≡◌, refl, sym, ap, ap₂, ◌∙◌, subst, fun_ext,
  ◌≢◌, ◌↔◌, ◌⊎◌, inl, inr, Bool, true, false, not, ◌&&◌, ◌||◌, false≢true, Option, none, some, List,
  [], ◌∷◌, ◌++◌, map, append-nil, append_assoc, arith, ltb, leb, if◌then◌else◌, tests, Bool-cases,
  Option-cases, Eq, ◌==◌, eq_iff, eq_refl, nat_eq, list_eq, pair_eq, triple_eq, length, keep, any,
  all, count_if, contains, flat_map, length-append, keep-append, keep-keep, count_if-append,
  length-keep-le, length-keep_add, any-append, any-map, length-map, take, drop, get_elem?, Among,
  first, later, any_of_Among, Among-of_any, all_of_Among, contains_of_Among, Among-of_contains,
  Among-append_left, Among-cons, Among-of_keep, Among-of_sort, Among-keep, Among-append_right,
  Among-map, Among-flat_map, Among-of_map, Among-of_append, Among-of_flat_map, reverse,
  Among-reverse, Among-of_reverse, length-reverse, sort, Among-sort, count_if-sort, any-sort,
  sum_by, sum_by-sort, text_leb,
}
use lanorme.Text.{Text, codes, split, join, ends_with}
use lanorme.Prelude.Dict.{lookup, insert}
use lanorme.ModuleGraph.{ModuleGraph, can_reach, find_cycle_through, items_at}
use lanorme.ModuleGraph.Search.{explore}
use lanorme.ModuleGraph.Reach.{Chain, can_reach_iff}
use lanorme.ModuleGraph.Cycles.{ComesBack, find_cycle_through_correct}
use lanorme.ModuleGraph.Names.{import_names, from_names}
use lanorme.ModuleGraph.Build.{Module, build_module_graph}
use lanorme.ModuleGraph.Build.Converse.{importers-converse}
use lanorme.ModuleGraph.Build.NameNodes.{IsNode}
use lanorme.ModuleGraph.Build.Endpoints.{imports-IsNode}

-- a imports b, b imports c.
abbrev line_graph : ModuleGraph
line_graph = record {
  nodes = [];
  packages = [];
  importers = (codes "b.py", codes "a.py" ∷ []) ∷ ((codes "c.py", codes "b.py" ∷ []) ∷ []);
  imports = (codes "a.py", codes "b.py" ∷ []) ∷ ((codes "b.py", codes "c.py" ∷ []) ∷ []);
}

can_reach_iff_example :
    (can_reach line_graph (codes "a.py") (codes "c.py") ≡ true)
    ↔ Chain line_graph (codes "a.py") (codes "c.py")
can_reach_iff_example = can_reach_iff line_graph (codes "a.py") (codes "c.py")

reaches :
    (can_reach line_graph (codes "a.py") (codes "c.py") ≡ true)
    × (can_reach line_graph (codes "c.py") (codes "a.py") ≡ false)
unfolding can_reach items_at explore lookup lanorme.ModuleGraph.goal_verdict
    lanorme.ModuleGraph.all_items
reaches = (refl, refl)

abbrev ends : List Text
ends = codes "a.py" ∷ (codes "c.py" ∷ [])

-- Merging a and c would put b on a cycle.
cycle_found : find_cycle_through line_graph ends ≡ some (codes "b.py")
unfolding find_cycle_through can_reach items_at sort text_leb lanorme.ModuleGraph.find_outside_path
    explore lanorme.ModuleGraph.all_items lanorme.ModuleGraph.first_outside lookup
    lanorme.ModuleGraph.outside_verdict lanorme.ModuleGraph.is_harmless_to_reach ends_with
cycle_found = refl

find_cycle_through_correct_example :
    ((x : Text)
      → find_cycle_through line_graph ends ≡ some x
      → (member : Text) × Among member ends × ComesBack line_graph ends member x)
    × (find_cycle_through line_graph ends ≡ none
        → (member : Text) → Among member ends
        → (x : Text) → ¬ ComesBack line_graph ends member x)
find_cycle_through_correct_example = find_cycle_through_correct line_graph ends

-- A package whose module `b` takes `c` from it, and a script that imports `b`.
abbrev script_and_package : List Module
script_and_package =
    record { relative = codes "a.py"; statements = import_names (codes "pkg.b" ∷ []) ∷ [] }
    ∷ (record { relative = codes "pkg/__init__.py"; statements = [] }
        ∷ (record {
          relative = codes "pkg/b.py";
          statements = from_names none 1 (codes "c" ∷ []) ∷ [];
        }
            ∷ (record { relative = codes "pkg/c.py"; statements = [] } ∷ [])))

importers-converse_example :
    (graph : ModuleGraph) × (build_module_graph script_and_package ≡ some graph)
    × ((source target : Text)
        → contains (items_at graph.importers target) source
          ≡ contains (items_at graph.imports source) target)
importers-converse_example = importers-converse script_and_package

-- The module `b` imports `c`, and the script runs the package file on the way to `b`.
abbrev has_edges : Option ModuleGraph → Bool
has_edges none = false
has_edges (some graph) =
    contains (items_at graph.imports (codes "pkg/b.py")) (codes "pkg/c.py")
    && contains (items_at graph.imports (codes "a.py")) (codes "pkg/__init__.py")

edges_found : has_edges (build_module_graph script_and_package) ≡ true
unfolding build_module_graph items_at lookup split insert join ends_with
    lanorme.ModuleGraph.package_file lanorme.Prelude.Partial.gather
edges_found = refl

imports-IsNode_example :
    (graph : ModuleGraph) × (build_module_graph script_and_package ≡ some graph)
    × ((source target : Text)
        → contains (items_at graph.imports source) target ≡ true
        → IsNode graph.nodes target × (target ≢ source))
imports-IsNode_example = imports-IsNode script_and_package
