-- ===== src/ModuleGraph/Build/NameNodes.antt =====
-- Every file that the name table holds is a node.
use lanorme.Prelude.{
  ◌≡◌, refl, sym, ap, ◌∙◌, ◌⊎◌, inl, inr, false≢true, some, List, [], ◌∷◌, if◌then◌else◌,
  Bool-cases, Option-cases, ◌==◌, eq_iff, nat_eq, list_eq, pair_eq, triple_eq, contains, Among,
  first, later, Among-cons, Among-of_append,
}
use lanorme.Text.{Text}
use lanorme.Prelude.Dict.{Dict, lookup, insert, lookup-insert}
use lanorme.ModuleGraph.{ModuleNode}
use lanorme.ModuleGraph.Names.{add, union, named, NameTable, names_in}
use lanorme.ModuleGraph.Build.{Named, name_module, name_modules, make_node, add_at}

abbrev pub IsNode : Dict Text ModuleNode → Text → Type 0
IsNode nodes file = (node : ModuleNode) × (lookup file nodes ≡ some node)

-- Every file that the name table holds is a node.
abbrev pub HoldsNodes : Named → Type 0
HoldsNodes table =
    (root dotted file : Text)
    → lookup dotted (names_in table.names root) ≡ some file
    → IsNode table.nodes file

IsNode-insert :
    (nodes : Dict Text ModuleNode) (relative file : Text) (node : ModuleNode)
    → (relative ≡ file) ⊎ IsNode nodes file
    → IsNode (insert relative node nodes) file
IsNode-insert nodes relative file node known = elim (Bool-cases (relative == file)) [
  | inl same ↦ (node, lookup-insert relative file node nodes ∙ rw same refl)
  | inr other ↦ elim known [
    | inl e ↦ absurd (false≢true (sym other ∙ (eq_iff relative file).1 e))
    | inr (old, h) ↦ (old, lookup-insert relative file node nodes ∙ rw other h)
  ]
]

names_in-insert :
    (names : NameTable) (root r : Text) (own : Dict Text Text) (others : Dict Text (List Text))
    → names_in (record { by_root = insert root own names.by_root; roots_of = others }) r
      ≡ (if root == r then own else names_in names r)
unfolding names_in
names_in-insert names root r own others = elim (Bool-cases (root == r)) [
  | inl same ↦ rw (names_in, lookup-insert root r own names.by_root, same) refl
  | inr other ↦ rw (names_in, lookup-insert root r own names.by_root, other) refl
]

file_same : {a b : Text} → some a ≡ some b → a ≡ b
file_same h = cc

name_module-HoldsNodes :
    (root dotted relative : Text) (table : Named)
    → HoldsNodes table
    → HoldsNodes (name_module root dotted relative table)
unfolding name_module
name_module-HoldsNodes root dotted relative table holds r d file h =
    let node = make_node relative root dotted in
    let own = insert dotted relative (names_in table.names root) in
    let e =
      sym (
        ap (lookup d)
          (names_in-insert table.names root r own (add_at dotted root table.names.roots_of)))
      ∙ h in
    IsNode-insert table.nodes relative file node (elim (Bool-cases (root == r)) [
      | inr other ↦ inr (holds r d file (rw other at e))
      | inl same ↦ elim (Bool-cases (dotted == d)) [
        | inl named_so ↦ inl (
            file_same (
              rw named_so at (
                sym (lookup-insert dotted d relative (names_in table.names root))
                ∙ (rw same at e))))
        | inr not_named ↦ inr (
            holds root d file (
              rw not_named at (
                sym (lookup-insert dotted d relative (names_in table.names root))
                ∙ (rw same at e))))
      ]
    ])

pub name_modules-HoldsNodes :
    (claimed : Dict (Text × Text) (List Text)) (table : Named)
    → HoldsNodes table
    → HoldsNodes (name_modules claimed table)
unfolding name_modules
name_modules-HoldsNodes [] table holds = holds
name_modules-HoldsNodes (((root, dotted), relative ∷ []) ∷ claimed) table holds =
    name_modules-HoldsNodes claimed (name_module root dotted relative table)
      (name_module-HoldsNodes root dotted relative table holds)
name_modules-HoldsNodes ((n, []) ∷ claimed) table holds =
    name_modules-HoldsNodes claimed table holds
name_modules-HoldsNodes ((n, _ ∷ _ ∷ _) ∷ claimed) table holds =
    name_modules-HoldsNodes claimed table holds

pub named-Among :
    (names : Dict Text Text) (wanted : List Text) (file : Text)
    → Among file (named names wanted)
    → (n : Text) × (lookup n names ≡ some file)
unfolding named
named-Among names [] file m = elim m [ ]
named-Among names (n ∷ wanted) file m = elim (Option-cases (lookup n names)) [
  | inl e ↦ named-Among names wanted file (rw (named, e) at m)
  | inr (f, e) ↦
      Among-cons (λ g. (n : Text) × (lookup n names ≡ some g)) (n, e)
        (named-Among names wanted file) (rw (named, e) at m)
]

pub Among-of_union :
    (found items : List Text) (x : Text)
    → Among x (union found items)
    → Among x found ⊎ Among x items
Among-of_union found [] x m = inl m
Among-of_union found (i ∷ items) x m = elim (Among-of_union (add i found) items x m) [
  | inr k ↦ inr (later k)
  | inl k ↦ elim (Bool-cases (contains found i)) [
    | inl old ↦ inl (rw old at k)
    | inr new ↦ elim (Among-of_append x found (i ∷ []) (rw new at k)) [
      | inl n ↦ inl n
      | inr n ↦ inr (Among-cons (λ y. Among y (i ∷ items)) first (λ q. elim q [ ]) n)
    ]
  ]
]
