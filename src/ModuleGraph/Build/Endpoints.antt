-- ===== src/ModuleGraph/Build/Endpoints.antt =====
-- Every edge of the graph joins two different modules of the tree.
use lanorme.Prelude.{
  ◌≡◌, sym, ◌∙◌, subst, ◌≢◌, inl, inr, true, not, ◌&&◌, false≢true, Option, some, List, [], ◌∷◌,
  arith, Bool-cases, Option-cases, ◌==◌, eq_iff, nat_eq, list_eq, pair_eq, triple_eq, keep,
  contains, Among, first, later, Among-cons, Among-of_keep,
}
use lanorme.Text.{Text}
use lanorme.Prelude.Partial.{gather, Among-of_gather}
use lanorme.Prelude.Dict.{Dict, lookup}
use lanorme.ModuleGraph.{ModuleNode, ModuleGraph, items_at}
use lanorme.ModuleGraph.Names.{union, ImportedModule, resolve_import, list_executed_ancestors}
use lanorme.ModuleGraph.Build.{
  Module, imports_of, Named, list_packages, add_at, no_edges, build_name_table, executed_for,
  executed_by, collect_targets, Edges, add_edges, connect, build_module_graph, graph_of,
}
use lanorme.ModuleGraph.Build.NameNodes.{IsNode, HoldsNodes, named-Among, Among-of_union}
use lanorme.ModuleGraph.Build.Resolved.{build_name_table-HoldsNodes, build_module_graph-total}
use lanorme.ModuleGraph.Build.Converse.{contains-add_at}

executed_for-IsNode :
    (table : Named) (node : ModuleNode) (target : Text) (found : List Text) (file : Text)
    → HoldsNodes table
    → executed_for table.nodes node table.names target ≡ some found
    → Among file found
    → IsNode table.nodes file
unfolding executed_for list_executed_ancestors
executed_for-IsNode table node target found file holds h m =
    elim (Option-cases (lookup target table.nodes)) [
      | inl e ↦ let h' = rw (executed_for, e) at h in cc
      | inr (t, e) ↦
          let h' = rw (executed_for, e) at h in
          let same : target ∷ list_executed_ancestors t node table.names ≡ found = cc in
          Among-cons (IsNode table.nodes) (t, e)
            (λ k. let (p, q) = named-Among _ _ file k in holds t.root p file q)
            (subst (λ fs. Among file fs) (sym same) m)
    ]

-- A target that one module can get: a node, and not the module itself.
abbrev IsTarget : Dict Text ModuleNode → Text → Text → Type 0
IsTarget nodes source target = IsNode nodes target × (target ≢ source)

collect_targets-IsTarget :
    (table : Named) (m : Module) (node : ModuleNode) (target : Text)
    → HoldsNodes table
    → (targets : List Text) → collect_targets m node table.nodes table.names ≡ some targets
    → Among target targets
    → IsTarget table.nodes node.relative target
unfolding collect_targets executed_by
collect_targets-IsTarget table m node target holds targets h n =
    let resolved : ImportedModule → Option (List Text) =
      λ imp. executed_by table.nodes node table.names (resolve_import node imp table.names) in
    elim (Option-cases (gather resolved (imports_of m))) [
      | inl e ↦ let h' = rw (collect_targets, e) at h in cc
      | inr (found, e) ↦
          let h' = rw (collect_targets, e) at h in
          let same : keep (λ t. not (t == node.relative)) (union [] found) ≡ targets = cc in
          let (k, other) =
            Among-of_keep (λ t. not (t == node.relative)) (union [] found)
              (subst (λ ts. Among target ts) (sym same) n) in
          (
            elim (Among-of_union [] found target k) [
              | inl q ↦ elim q [ ]
              | inr q ↦
                  let (imp, in_one, _, e', at) =
                    Among-of_gather resolved (imports_of m) found target e q in
                  let (t, own, _, e'', here) =
                    Among-of_gather (executed_for table.nodes node table.names)
                      (resolve_import node imp table.names) in_one target e' at in
                  executed_for-IsNode table node t own target holds e'' here
            ],
            λ e. false≢true (rw ((eq_iff target node.relative).1 e) at other),
          )
    ]

-- The edges that are added hold nothing but those targets.
AreTargets : Dict Text ModuleNode → Edges → Type 0
AreTargets nodes edges =
    (s t : Text) → contains (items_at edges.imports s) t ≡ true → IsTarget nodes s t

add_edges-AreTargets :
    (nodes : Dict Text ModuleNode) (source : Text) (targets : List Text) (edges : Edges)
    → ((t : Text) → Among t targets → IsTarget nodes source t)
    → AreTargets nodes edges
    → AreTargets nodes (add_edges source targets edges)
unfolding add_edges AreTargets
add_edges-AreTargets nodes source [] edges h old = old
add_edges-AreTargets nodes source (target ∷ targets) edges h old =
    add_edges-AreTargets nodes source targets
      (record {
        importers = add_at target source edges.importers;
        imports = add_at source target edges.imports;
      })
      (λ t m. h t (later m))
      (λ s t m.
        let either = sym (contains-add_at source target edges.imports s t) ∙ m in
        elim (Bool-cases (source == s && target == t)) [
          | inr others ↦ old s t (ground (arith, either, others))
          | inl this_one ↦
              let from : source ≡ s = ground (arith, eq_iff source s, this_one) in
              let to : target ≡ t = ground (arith, eq_iff target t, this_one) in
              subst (λ a. IsTarget nodes a t) from
                (subst (IsTarget nodes source) to (h target first))
        ])

connect-AreTargets :
    (table : Named) (modules : List Module) (edges connected : Edges)
    → HoldsNodes table
    → AreTargets table.nodes edges
    → connect table modules edges ≡ some connected
    → AreTargets table.nodes connected
unfolding connect
connect-AreTargets table [] edges connected holds h c =
    let same : edges ≡ connected = cc in subst (AreTargets table.nodes) same h
connect-AreTargets table (m ∷ modules) edges connected holds h c =
    elim (Option-cases (lookup m.relative table.nodes)) [
      | inl e ↦ connect-AreTargets table modules edges connected holds h (rw (connect, e) at c)
      | inr (node, e) ↦ elim (Option-cases (collect_targets m node table.nodes table.names)) [
        | inl e' ↦ let c' = rw (connect, e, e') at c in cc
        | inr (targets, e') ↦
            connect-AreTargets table modules (add_edges node.relative targets edges) connected holds
              (add_edges-AreTargets table.nodes node.relative targets edges
                (λ t k. collect_targets-IsTarget table m node t holds targets e' k) h)
              (rw (connect, e, e') at c)
      ]
    ]

-- The graph is built, so that no lookup of a node fails. In it every module that another imports is
-- a module of the tree, and no module imports itself: the graph invents no edge.
pub imports-IsNode :
    (modules : List Module)
    → (graph : ModuleGraph) × (build_module_graph modules ≡ some graph)
      × ((source target : Text)
          → contains (items_at graph.imports source) target ≡ true
          → IsNode graph.nodes target × (target ≢ source))
unfolding graph_of no_edges AreTargets lookup items_at
imports-IsNode modules =
    let table = build_name_table modules (list_packages modules) in
    let (edges, e, built) = build_module_graph-total modules in
    (
      graph_of table (list_packages modules) edges,
      built,
      connect-AreTargets table modules no_edges edges (build_name_table-HoldsNodes modules)
          (λ s t h. absurd (false≢true h)) e,
    )
