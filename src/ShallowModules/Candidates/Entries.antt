-- ===== src/ShallowModules/Candidates/Entries.antt =====
-- Every module that is read has its entry in the table of re-exports.
use lanorme.Prelude.{
  ◌≡◌, refl, sym, ◌∙◌, subst, ◌⊎◌, inl, inr, Bool, true, false, not, false≢true, Option, none, some,
  List, [], ◌∷◌, ◌++◌, map, if◌then◌else◌, Bool-cases, ◌==◌, eq_iff, nat_eq, list_eq, pair_eq,
  triple_eq, any, contains, Among, first, later, Among-cons, Among-of_sort, Among-of_append, sort,
  text_leb,
}
use lanorme.Text.{Text, codes, ends_with, base_name}
use lanorme.Prelude.Dict.{Dict, lookup, insert, lookup-insert}
use lanorme.Prelude.Partial.{keep_when-total}
use lanorme.ModuleGraph.Reexport.{is_reexport_block}
use lanorme.ModuleGraph.{ModuleGraph}
use lanorme.ModuleGraph.Build.Endpoints.{imports-IsNode}
use lanorme.ShallowModules.Members.{
  scanned_tree, SourceModule, ScannedFile, ScannedTree, relative, find_directory, modules_at,
  group_modules, reexport_table, parsed_modules, only_reexports, is_left_out, is_exempting_file,
  is_member, collect_package_members, read_scanned_tree,
}
use lanorme.ShallowModules.Structure.{PackageCandidate, is_staying, list_staying_files}
use lanorme.ShallowModules.Candidates.{place_package}
use lanorme.ShallowModules.Settings.{ShallowSettings}
use lanorme.MergeTargets.{PackagePlacement}

-- The table has an entry for the module.
abbrev HasEntry : Dict Text Bool → SourceModule → Type 0
HasEntry table m = (b : Bool) × (lookup (relative m) table ≡ some b)

HasEntry-insert :
    (n m : SourceModule) (b : Bool) (table : Dict Text Bool)
    → (relative n ≡ relative m) ⊎ HasEntry table m
    → HasEntry (insert (relative n) b table) m
HasEntry-insert n m b table known = elim (Bool-cases (relative n == relative m)) [
  | inl same ↦ (b, lookup-insert (relative n) (relative m) b table ∙ rw same refl)
  | inr other ↦ elim known [
    | inl e ↦ absurd (false≢true (sym other ∙ (eq_iff (relative n) (relative m)).1 e))
    | inr (old, h) ↦ (old, lookup-insert (relative n) (relative m) b table ∙ rw other h)
  ]
]

HasEntry-reexport_table :
    (modules : List SourceModule) (table : Dict Text Bool) (m : SourceModule)
    → Among m modules ⊎ HasEntry table m
    → HasEntry (reexport_table modules table) m
unfolding reexport_table
HasEntry-reexport_table [] table m (inl at) = elim at [ ]
HasEntry-reexport_table [] table m (inr old) = old
HasEntry-reexport_table (n ∷ modules) table m (inr old) =
    HasEntry-reexport_table modules (insert (relative n) (is_reexport_block n.body) table) m
      (inr (HasEntry-insert n m (is_reexport_block n.body) table (inr old)))
HasEntry-reexport_table (n ∷ modules) table m (inl at) =
    let table' = insert (relative n) (is_reexport_block n.body) table in
    HasEntry-reexport_table modules table' m (
      Among-cons (λ k. Among k modules ⊎ HasEntry table' k)
        (inr (HasEntry-insert n n (is_reexport_block n.body) table (inl refl))) (λ k. inl k) at)

modules_at-insert :
    (directory place : Text) (ms : List SourceModule) (table : Dict Text (List SourceModule))
    → modules_at place (insert directory ms table)
      ≡ (if directory == place then ms else modules_at place table)
unfolding modules_at
modules_at-insert directory place ms table = elim (Bool-cases (directory == place)) [
  | inl same ↦ rw (modules_at, lookup-insert directory place ms table, same) refl
  | inr other ↦ rw (modules_at, lookup-insert directory place ms table, other) refl
]

Among-of_group_modules :
    (modules : List SourceModule) (table : Dict Text (List SourceModule)) (place : Text)
    (m : SourceModule)
    → Among m (modules_at place (group_modules modules table))
    → Among m modules ⊎ Among m (modules_at place table)
unfolding group_modules
Among-of_group_modules [] table place m at = inr at
Among-of_group_modules (n ∷ modules) table place m at =
    let directory = find_directory (relative n) in
    let grown = modules_at directory table ++ n ∷ [] in
    elim (Among-of_group_modules modules (insert directory grown table) place m at) [
      | inl k ↦ inl (later k)
      | inr k ↦
          let k' = subst (λ ms. Among m ms) (modules_at-insert directory place grown table) k in
          elim (Bool-cases (directory == place)) [
            | inr other ↦ inr (rw other at k')
            | inl same ↦
                elim (Among-of_append m (modules_at directory table) (n ∷ []) (rw same at k')) [
                  | inl old ↦ inr (
                      subst (λ d. Among m (modules_at d table)) ((eq_iff directory place).0 same)
                        old)
                  | inr new ↦
                      inl (Among-cons (λ k. Among k (n ∷ modules)) first (λ q. elim q [ ]) new)
                ]
          ]
    ]

-- Every module of every directory has its entry.
abbrev pub HasEntries : ScannedTree → Type 0
HasEntries tree =
    (place : Text) (m : SourceModule)
    → Among m (modules_at place tree.by_directory)
    → HasEntry tree.reexport_only m

scanned_tree-HasEntries :
    (files : List ScannedFile) (graph : ModuleGraph) → HasEntries (scanned_tree files graph)
unfolding scanned_tree modules_at lookup
scanned_tree-HasEntries files graph place m at =
    let modules = parsed_modules files in
    elim (Among-of_group_modules modules [] place m at) [
      | inl k ↦ HasEntry-reexport_table modules [] m (inl k)
      | inr k ↦ elim k [ ]
    ]

pub read_scanned_tree-total :
    (files : List ScannedFile)
    → (tree : ScannedTree) × (read_scanned_tree files ≡ some tree)
      × HasEntries tree
      × (tree.by_directory ≡ group_modules (parsed_modules files) [])
unfolding read_scanned_tree scanned_tree
read_scanned_tree-total files =
    let (graph, built, _) = imports-IsNode (map (λ m. m.imported) (parsed_modules files)) in
    (
      scanned_tree files graph,
      rw (read_scanned_tree, built) refl,
      scanned_tree-HasEntries files graph,
      refl,
    )

module _ (tree : ScannedTree) (known : HasEntries tree) where
  is_member-total :
      (is_identifier : Text → Bool) (globs : List Text) (place : Text) (m : SourceModule)
      → Among m (modules_at place tree.by_directory)
      → (b : Bool) × (is_member is_identifier globs tree m ≡ some b)
  unfolding is_member only_reexports
  is_member-total is_identifier globs place m at =
      elim (Bool-cases (is_left_out is_identifier globs m)) [
        | inl out ↦ (false, rw (is_member, out) refl)
        | inr within ↦
            let (reexports, e) = known place m at in
            (not reexports, rw (is_member, within, only_reexports, e) refl)
      ]

  pub collect_package_members-total :
      (is_identifier : Text → Bool) (globs : List Text) (place : Text)
      → (collected : Option (List SourceModule)) × (collect_package_members is_identifier
            (modules_at place tree.by_directory)
            globs
            tree
          ≡ some collected)
  unfolding collect_package_members
  collect_package_members-total is_identifier globs place =
      let modules = modules_at place tree.by_directory in
      elim (Bool-cases (any is_exempting_file modules)) [
        | inl exempt ↦ (none, rw (collect_package_members, exempt) refl)
        | inr free ↦
            let (found, e) =
              keep_when-total (is_member is_identifier globs tree) modules
                (is_member-total is_identifier globs place) in
            (some found, rw (collect_package_members, free, e) refl)
      ]

  is_staying-total :
      (members : List Text) (place : Text) (m : SourceModule)
      → Among m (modules_at place tree.by_directory)
      → (b : Bool) × (is_staying members tree m ≡ some b)
  unfolding is_staying only_reexports
  is_staying-total members place m at = elim (Bool-cases (contains members (relative m))) [
    | inl own ↦ (false, rw (is_staying, own) refl)
    | inr other ↦ elim (Bool-cases (not (ends_with (relative m) (codes "/__init__.py")))) [
      | inl plain ↦ (true, rw (is_staying, other, plain) refl)
      | inr init ↦
          let (reexports, e) = known place m at in
          (not reexports, rw (is_staying, other, init, only_reexports, e) refl)
    ]
  ]

  pub place_package-total :
      (is_identifier : Text → Bool) (settings : ShallowSettings) (candidate : PackageCandidate)
      (place : Text)
      → modules_at place tree.by_directory ≡ candidate.modules
      → (placement : PackagePlacement) × (place_package is_identifier settings tree candidate
          ≡ some placement)
  unfolding place_package list_staying_files
  place_package-total is_identifier settings candidate place same =
      let members = map (λ member. member.relative) candidate.members in
      let in_order = sort (λ m n. text_leb (relative m) (relative n)) candidate.modules in
      let (staying, e) = keep_when-total (is_staying members tree) in_order (λ m at.
        is_staying-total members place m (
          subst (λ ms. Among m ms) (sym same)
            (Among-of_sort (λ m n. text_leb (relative m) (relative n)) candidate.modules at))) in
      let placed : PackagePlacement = record {
        package_path = candidate.package_path;
        is_top_level = not (contains tree.graph.packages (find_directory candidate.package_path));
        has_sibling_module = contains tree.relatives (candidate.package_path ++ codes ".py");
        staying_files = map (λ m. base_name (relative m)) staying;
      } in
      (placed, rw (place_package, list_staying_files, e) refl)
