-- ===== src/ModuleGraph/Build/Resolved.antt =====
-- What an import resolves to is a node, so that the lookups of nodes never fail.
use lanorme.Prelude.{
  ◌≡◌, refl, ◌⊎◌, inl, inr, not, Option, none, some, List, [], ◌∷◌, ◌++◌, Bool-cases, Option-cases,
  ◌==◌, nat_eq, list_eq, pair_eq, triple_eq, keep, Among, Among-cons,
}
use lanorme.Text.{Text}
use lanorme.Prelude.Partial.{gather-total}
use lanorme.Prelude.Dict.{Dict, lookup}
use lanorme.ModuleGraph.{ModuleNode}
use lanorme.ModuleGraph.Names.{
  union, named, first_named, look_up_in_root, NameTable, names_in, ImportedModule,
  candidate_submodules, candidate_prefixes, other_roots, in_only_root, or_elsewhere,
  resolve_relative, resolve_relative_target, resolve_absolute, resolve_import,
  list_executed_ancestors,
}
use lanorme.ModuleGraph.Build.{
  Module, imports_of, Named, claims, list_packages, no_names, build_name_table, executed_for,
  executed_by, collect_targets, Edges, add_edges, connect, no_edges, build_module_graph, graph_of,
}
use lanorme.ModuleGraph.Build.NameNodes.{
  name_modules-HoldsNodes, HoldsNodes, named-Among, Among-of_union,
}

first_named-Among :
    (names : Dict Text Text) (wanted : List Text) (file : Text)
    → Among file (first_named names wanted)
    → (n : Text) × (lookup n names ≡ some file)
unfolding first_named
first_named-Among names [] file m = elim m [ ]
first_named-Among names (n ∷ wanted) file m = elim (Option-cases (lookup n names)) [
  | inl e ↦ first_named-Among names wanted file (rw (first_named, e) at m)
  | inr (f, e) ↦
      Among-cons (λ g. (n : Text) × (lookup n names ≡ some g)) (n, e) (λ k. elim k [ ])
        (rw (first_named, e) at m)
]

-- The file has a name in the table.
abbrev IsNamed : NameTable → Text → Type 0
IsNamed names file = (root : Text) × (n : Text) × (lookup n (names_in names root) ≡ some file)

look_up_in_root-IsNamed :
    (names : NameTable) (root : Text) (submodules name_prefixes : List Text) (file : Text)
    → Among file (look_up_in_root (names_in names root) submodules name_prefixes)
    → IsNamed names file
unfolding look_up_in_root
look_up_in_root-IsNamed names root submodules name_prefixes file m =
    let own = names_in names root in
    elim (Among-of_union (union [] (named own submodules)) (first_named own name_prefixes) file m) [
      | inr k ↦ let (n, e) = first_named-Among own name_prefixes file k in (root, n, e)
      | inl k ↦ elim (Among-of_union [] (named own submodules) file k) [
        | inl none_yet ↦ elim none_yet [ ]
        | inr q ↦ let (n, e) = named-Among own submodules file q in (root, n, e)
      ]
    ]

in_only_root-IsNamed :
    (names : NameTable) (submodules name_prefixes roots : List Text) (file : Text)
    → Among file (in_only_root names submodules name_prefixes roots)
    → IsNamed names file
unfolding in_only_root
in_only_root-IsNamed names submodules name_prefixes [] file m = elim m [ ]
in_only_root-IsNamed names submodules name_prefixes (root ∷ []) file m =
    look_up_in_root-IsNamed names root submodules name_prefixes file m
in_only_root-IsNamed names submodules name_prefixes (root ∷ _ ∷ _) file m = elim m [ ]

Among-of_or_elsewhere :
    (found elsewhere : List Text) (file : Text)
    → Among file (or_elsewhere found elsewhere)
    → Among file found ⊎ Among file elsewhere
unfolding or_elsewhere
Among-of_or_elsewhere [] elsewhere file m = inr m
Among-of_or_elsewhere (f ∷ found) elsewhere file m = inl m

resolve_relative-IsNamed :
    (names : NameTable) (node : ModuleNode) (imp : ImportedModule) (target : Option Text)
    (file : Text)
    → Among file (resolve_relative names node imp target)
    → IsNamed names file
unfolding resolve_relative
resolve_relative-IsNamed names node imp none file m = elim m [ ]
resolve_relative-IsNamed names node imp (some target) file m =
    look_up_in_root-IsNamed names node.root (candidate_submodules target imp)
      (candidate_prefixes target) file m

resolve_import-IsNamed :
    (node : ModuleNode) (imp : ImportedModule) (names : NameTable) (file : Text)
    → Among file (resolve_import node imp names)
    → IsNamed names file
unfolding resolve_import resolve_absolute
resolve_import-IsNamed node imp names file m = elim (Bool-cases (imp.level == 0)) [
  | inr level ↦
      resolve_relative-IsNamed names node imp (resolve_relative_target node imp) file
        (rw (resolve_import, level) at m)
  | inl level ↦
      let submodules = candidate_submodules imp.imported imp in
      let name_prefixes = candidate_prefixes imp.imported in
      let roots = other_roots names node.root (submodules ++ name_prefixes) [] in
      elim (Among-of_or_elsewhere
        (look_up_in_root (names_in names node.root) submodules name_prefixes)
        (in_only_root names submodules name_prefixes roots) file
        (rw (resolve_import, level) at m)) [
          | inl k ↦ look_up_in_root-IsNamed names node.root submodules name_prefixes file k
          | inr k ↦ in_only_root-IsNamed names submodules name_prefixes roots file k
        ]
]

module _ (table : Named) (holds : HoldsNodes table) where
  executed_by-total :
      (node : ModuleNode) (imp : ImportedModule)
      → (found : List Text) × (executed_by table.nodes node table.names
            (resolve_import node imp table.names)
          ≡ some found)
  unfolding executed_by executed_for
  executed_by-total node imp =
      gather-total (executed_for table.nodes node table.names) (resolve_import node imp table.names)
        (λ target m.
          let (root, n, e) = resolve_import-IsNamed node imp table.names target m in
          let (t, at) = holds root n target e in
          (target ∷ list_executed_ancestors t node table.names, rw (executed_for, at) refl))

  collect_targets-total :
      (m : Module) (node : ModuleNode)
      → (targets : List Text) × (collect_targets m node table.nodes table.names ≡ some targets)
  unfolding collect_targets
  collect_targets-total m node =
      let (found, e) =
        gather-total
          (λ imp. executed_by table.nodes node table.names (resolve_import node imp table.names))
          (imports_of m) (λ imp _. executed_by-total node imp) in
      (keep (λ t. not (t == node.relative)) (union [] found), rw (collect_targets, e) refl)

  connect-total :
      (modules : List Module) (edges : Edges)
      → (connected : Edges) × (connect table modules edges ≡ some connected)
  unfolding connect
  connect-total [] edges = (edges, refl)
  connect-total (m ∷ modules) edges = elim (Option-cases (lookup m.relative table.nodes)) [
    | inl e ↦ let (connected, h) = connect-total modules edges in (connected, rw (connect, e) h)
    | inr (node, e) ↦
        let (targets, e') = collect_targets-total m node in
        let (connected, h) = connect-total modules (add_edges node.relative targets edges) in
        (connected, rw (connect, e, e') h)
  ]

pub build_name_table-HoldsNodes :
    (modules : List Module) → HoldsNodes (build_name_table modules (list_packages modules))
unfolding build_name_table no_names lookup names_in
build_name_table-HoldsNodes modules =
    name_modules-HoldsNodes (claims (list_packages modules) modules []) no_names (λ r d f h. cc)

-- The graph of the edges that are connected is built.
pub build_module_graph-total :
    (modules : List Module)
    → (edges : Edges) × (connect (build_name_table modules (list_packages modules)) modules no_edges
        ≡ some edges)
      × (build_module_graph modules
          ≡ some (
              graph_of
                (build_name_table modules (list_packages modules))
                (list_packages modules)
                edges))
unfolding build_module_graph
build_module_graph-total modules =
    let table = build_name_table modules (list_packages modules) in
    let (edges, e) = connect-total table (build_name_table-HoldsNodes modules) modules no_edges in
    (edges, e, rw (build_module_graph, e) refl)
