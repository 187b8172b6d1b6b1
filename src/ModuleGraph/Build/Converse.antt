-- ===== src/ModuleGraph/Build/Converse.antt =====
-- The two directions of the edges agree, and every edge joins two modules of the tree.
use lanorme.ModuleGraph.Build.{list_packages}
use lanorme.ModuleGraph.Build.{build_name_table}
use lanorme.Prelude.{
  ◌≡◌, refl, sym, ap, ap₂, ◌∙◌, subst, inl, inr, Bool, ◌&&◌, ◌||◌, none, some, List, [], ◌∷◌, ◌++◌,
  arith, if◌then◌else◌, Bool-cases, Option-cases, ◌==◌, eq_iff, nat_eq, list_eq, pair_eq, triple_eq,
  contains, any-append,
}
use lanorme.Text.{Text}
use lanorme.Prelude.Dict.{Dict, lookup, insert, lookup-insert}
use lanorme.ModuleGraph.{ModuleGraph, items_at}
use lanorme.ModuleGraph.Build.Resolved.{build_module_graph-total}
use lanorme.ModuleGraph.Build.{graph_of}
use lanorme.ModuleGraph.Names.{add}
use lanorme.ModuleGraph.Build.{
  Module, Named, Edges, add_at, add_edges, connect, collect_targets, build_module_graph, no_edges,
}

contains-append :
    (xs ys : List Text) (x : Text) → contains (xs ++ ys) x ≡ (contains xs x || contains ys x)
contains-append xs ys x = any-append (λ y. y == x) xs ys

pub contains-add :
    (item : Text) (found : List Text) (x : Text)
    → contains (add item found) x ≡ (contains found x || item == x)
contains-add item found x = elim (Bool-cases (contains found item)) [
  | inl old ↦ rw old ground (arith, eq_iff item x, old)
  | inr new ↦ rw new (contains-append found (item ∷ []) x ∙ ground arith)
]

pub items_at-insert :
    (key k : Text) (items : List Text) (table : Dict Text (List Text))
    → items_at (insert key items table) k ≡ (if key == k then items else items_at table k)
unfolding items_at
items_at-insert key k items table = elim (Bool-cases (key == k)) [
  | inl same ↦ rw (items_at, lookup-insert key k items table, same) refl
  | inr other ↦ rw (items_at, lookup-insert key k items table, other) refl
]

items_at-none :
    (key : Text) (table : Dict Text (List Text)) → lookup key table ≡ none → items_at table key ≡ []
unfolding items_at
items_at-none key table e = rw (items_at, e) refl

items_at-some :
    (key : Text) (items : List Text) (table : Dict Text (List Text))
    → lookup key table ≡ some items
    → items_at table key ≡ items
unfolding items_at
items_at-some key items table e = rw (items_at, e) refl

and_comm : (a b : Bool) → (a && b) ≡ (b && a)
and_comm a b = ground arith

items_at-add_at :
    (key item : Text) (table : Dict Text (List Text)) (k : Text)
    → items_at (add_at key item table) k
      ≡ (if key == k then add item (items_at table key) else items_at table k)
unfolding items_at add_at
items_at-add_at key item table k = elim (Option-cases (lookup key table)) [
  | inl e ↦
      rw (add_at, e)
        (items_at-insert key k (item ∷ []) table
          ∙ ap (λ own. if key == k then add item own else items_at table k)
              (sym (items_at-none key table e)))
  | inr (items, e) ↦
      rw (add_at, e)
        (items_at-insert key k (add item items) table
          ∙ ap (λ own. if key == k then add item own else items_at table k)
              (sym (items_at-some key items table e)))
]

-- Adding one item changes one set, and there only that item.
pub contains-add_at :
    (key item : Text) (table : Dict Text (List Text)) (k x : Text)
    → contains (items_at (add_at key item table) k) x
      ≡ (contains (items_at table k) x || (key == k && item == x))
unfolding items_at add_at
contains-add_at key item table k x =
    ap (λ items. contains items x) (items_at-add_at key item table k)
    ∙ elim (Bool-cases (key == k)) [
      | inl same ↦ rw same (
          contains-add item (items_at table key) x
          ∙ ap (λ j. contains (items_at table j) x || item == x) ((eq_iff key k).0 same))
      | inr other ↦ rw other (ground arith)
    ]

-- One is among the importers of the other exactly if the other is among its imports.
AreConverse : Edges → Type 0
AreConverse edges =
    (s t : Text) → contains (items_at edges.importers t) s ≡ contains (items_at edges.imports s) t

add_edges-AreConverse :
    (source : Text) (targets : List Text) (edges : Edges)
    → AreConverse edges
    → AreConverse (add_edges source targets edges)
unfolding add_edges AreConverse
add_edges-AreConverse source [] edges h = h
add_edges-AreConverse source (target ∷ targets) edges h =
    add_edges-AreConverse source targets
      (record {
        importers = add_at target source edges.importers;
        imports = add_at source target edges.imports;
      })
      (λ s t.
        contains-add_at target source edges.importers t s
        ∙ (ap₂ ◌||◌ (h s t) (and_comm (target == t) (source == s))
            ∙ sym (contains-add_at source target edges.imports s t)))

connect-AreConverse :
    (table : Named) (modules : List Module) (edges connected : Edges)
    → AreConverse edges
    → connect table modules edges ≡ some connected
    → AreConverse connected
unfolding connect
connect-AreConverse table [] edges connected h c =
    let same : edges ≡ connected = cc in subst AreConverse same h
connect-AreConverse table (m ∷ modules) edges connected h c =
    elim (Option-cases (lookup m.relative table.nodes)) [
      | inl e ↦ connect-AreConverse table modules edges connected h (rw (connect, e) at c)
      | inr (node, e) ↦ elim (Option-cases (collect_targets m node table.nodes table.names)) [
        | inl e' ↦ let c' = rw (connect, e, e') at c in cc
        | inr (targets, e') ↦
            connect-AreConverse table modules (add_edges node.relative targets edges) connected
              (add_edges-AreConverse node.relative targets edges h) (rw (connect, e, e') at c)
      ]
    ]

-- The graph is built, and in it one module is among the importers of another exactly if that one is
-- among its imports.
pub importers-converse :
    (modules : List Module)
    → (graph : ModuleGraph) × (build_module_graph modules ≡ some graph)
      × ((source target : Text)
          → contains (items_at graph.importers target) source
            ≡ contains (items_at graph.imports source) target)
unfolding graph_of no_edges AreConverse lookup items_at
importers-converse modules =
    let table = build_name_table modules (list_packages modules) in
    let (edges, e, built) = build_module_graph-total modules in
    (
      graph_of table (list_packages modules) edges,
      built,
      connect-AreConverse table modules no_edges edges (λ s t. refl) e,
    )
