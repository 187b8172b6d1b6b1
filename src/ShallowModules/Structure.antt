-- ===== src/ShallowModules/Structure.antt =====
-- lanorme/checks/package_members.py: the conditions on a package that is small and mostly tiny.
use lanorme.Prelude.{
  ℕ, ◌+◌, Bool, true, false, not, ◌&&◌, ◌||◌, Option, none, some, List, [], ◌∷◌, ◌++◌, map, ltb,
  leb, if◌then◌else◌, ◌==◌, nat_eq, list_eq, pair_eq, triple_eq, length, keep, any, all, count_if,
  contains, sort, text_leb,
}
use lanorme.Text.{Text, codes, starts_with, ends_with, base_name}
use lanorme.Prelude.Partial.{keep_when}
use lanorme.Prelude.Dict.{Dict, lookup, insert}
use Prim.Native.Nat.{◌/◌}
use lanorme.Paths.{is_test_file}
use lanorme.ModuleGraph.{find_importers, find_cycle_through}
use lanorme.MergeTargets.{PackageMember, is_package_file}
use lanorme.ShallowModules.Members.{
  SourceModule, ScannedTree, relative, find_stem, modules_at, count_code, only_reexports,
}

pub record PackageCandidate : Type 0 where
  pub package_path : Text
  pub modules : List SourceModule
  pub members : List PackageMember
  pub tiny_count : ℕ

unfoldable pub is_imported : ScannedTree → PackageMember → Bool
is_imported tree member =
    is_package_file member
    || any (λ importer. not (is_test_file importer)) (find_importers tree.graph member.relative)

unfoldable pub is_reachable : PackageCandidate → ScannedTree → Bool
unfolding is_imported
is_reachable candidate tree = all (is_imported tree) candidate.members

unfoldable pub is_leaf : PackageCandidate → ScannedTree → Bool
is_leaf candidate tree =
    let below : Text → Bool =
      λ directory. starts_with directory (candidate.package_path ++ codes "/") in
    not (any below tree.broken_directories)
    && not (
        any (λ (directory, modules). below directory && any (λ m. ltb 0 (count_code m)) modules)
          tree.by_directory)

-- A set of stems, without repetition.
unfoldable pub distinct_stems : List Text → List Text
distinct_stems [] = []
distinct_stems (stem ∷ stems) =
    let rest = distinct_stems stems in if contains stems stem then rest else stem ∷ rest

-- The stems that one package's modules go by.
unfoldable pub stems_in : Text → ScannedTree → List Text
unfolding distinct_stems relative find_stem modules_at
stems_in place tree = distinct_stems (
    map (λ m. find_stem (relative m))
      (keep
        (λ m. not (is_test_file (relative m)) && not (find_stem (relative m) == codes "__init__"))
        (modules_at place tree.by_directory)))

stems_from : List Text → ScannedTree → Dict Text (List Text) → Dict Text (List Text)
unfolding stems_in
stems_from [] tree stems = stems
stems_from (place ∷ places) tree stems =
    stems_from places tree
      (if stems_in place tree == [] then stems else insert place (stems_in place tree) stems)

-- `_build_sibling_stems`; the table that the tree remembers is left out.
unfoldable pub build_sibling_stems : ScannedTree → Dict Text (List Text)
unfolding stems_from
build_sibling_stems tree = stems_from tree.graph.packages tree []

-- `max(2, math.ceil(n / 2))`
unfoldable pub needed_repeats : ℕ → ℕ
needed_repeats n = if leb n 4 then 2 else (n + 1) / 2

stems_at : Text → Dict Text (List Text) → List Text
stems_at place table = elim (lookup place table) [ none ↦ [] | some stems ↦ stems ]

unfoldable pub shares_layout : Text → List Text → Text × List Text → Bool
unfolding needed_repeats
shares_layout place own (other, stems) =
    not (other == place) && leb (needed_repeats (length own)) (length (keep (contains stems) own))

unfoldable pub is_repeated_sibling_layout : PackageCandidate → ScannedTree → Bool
unfolding build_sibling_stems stems_at shares_layout
is_repeated_sibling_layout candidate tree =
    let table = build_sibling_stems tree in
    let own = stems_at candidate.package_path table in
    not (ltb (length own) 2) && leb 2 (count_if (shares_layout candidate.package_path own) table)

unfoldable pub is_structurally_shallow : PackageCandidate → ScannedTree → Bool
unfolding is_reachable is_leaf is_repeated_sibling_layout relative
is_structurally_shallow candidate tree =
    if not (is_reachable candidate tree) || not (is_leaf candidate tree)
    then false
    else if is_repeated_sibling_layout candidate tree
    then false
    else elim (find_cycle_through tree.graph (map relative candidate.modules)) [
      | none ↦ true
      | some _ ↦ false
    ]

-- A module that is no member and stays; `none` where the lookup of its re-exports raises.
unfoldable pub is_staying : List Text → ScannedTree → SourceModule → Option Bool
unfolding relative only_reexports
is_staying members tree m =
    if contains members (relative m)
    then some false
    else if not (ends_with (relative m) (codes "/__init__.py"))
    then some true
    else elim (only_reexports tree m) [ none ↦ none | some reexports ↦ some (not reexports) ]

unfoldable pub list_staying_files : PackageCandidate → ScannedTree → Option (List Text)
unfolding relative is_staying
list_staying_files candidate tree =
    let members = map (λ member. member.relative) candidate.members in
    elim (keep_when (is_staying members tree)
      (sort (λ m n. text_leb (relative m) (relative n)) candidate.modules)) [
        | none ↦ none
        | some staying ↦ some (map (λ m. base_name (relative m)) staying)
      ]
