-- ===== src/ShallowModules/Candidates/Total.antt =====
-- The check ends in a result: the choice of a member to fold into never fails.
use lanorme.ShallowModules.Candidates.{judge_members}
use lanorme.Prelude.{
  ◌≤◌, ◌<◌, ◌≡◌, refl, ap, ◌∙◌, subst, inl, inr, Bool, true, false, not, Option, none, some, List,
  [], ◌∷◌, ◌++◌, map, arith, leb, if◌then◌else◌, Bool-cases, Option-cases, ◌==◌, nat_eq, list_eq,
  pair_eq, triple_eq, length, any, all, count_if, sort, text_leb,
}
use lanorme.Text.{Text, codes, base_name}
use lanorme.Prelude.Dict.{Dict, lookup}
use lanorme.Finding.{Violation, CheckResult}
use lanorme.MergeTargets.{is_package_file, file_name}
use lanorme.MergeTargets.Directories.{list_directories_read_by_path}
use lanorme.MergeTargets.Targets.{choose_merge_target-total}
use lanorme.ShallowModules.Members.{
  ScannedFile, group_modules, parsed_modules, SourceModule, ScannedFile, ScannedTree, relative,
  modules_at, is_skipped_package, is_member, collect_package_members, is_exempting_file,
  read_scanned_tree,
}
use lanorme.ShallowModules.Structure.{PackageCandidate, is_structurally_shallow}
use lanorme.ShallowModules.Candidates.{
  size_member, find_candidate, finding_for, build_finding, report_package, report_packages,
  check_shallow, with_warnings,
}
use lanorme.ShallowModules.Settings.{ShallowSettings}
use lanorme.ShallowModules.Candidates.Sound.{find_candidate-IsCandidate}
use lanorme.ShallowModules.Candidates.Entries.{
  HasEntries, read_scanned_tree-total, collect_package_members-total, place_package-total,
}
use lanorme.Prelude.Partial.{keep_when, count_if-keep_when}

-- The module is a package's own file.
abbrev pub is_init : SourceModule → Bool
is_init m = base_name (relative m) == codes "__init__.py"

-- The modules of one directory hold at most one such file.
abbrev pub has_one_init : Text × List SourceModule → Bool
has_one_init (_, ms) = leb (count_if is_init ms) 1

-- No directory of the tree holds two such files.
abbrev InitsOnce : ScannedTree → Type 0
InitsOnce tree = all has_one_init tree.by_directory ≡ true

inits_at :
    (place : Text) (table : Dict Text (List SourceModule))
    → all has_one_init table ≡ true
    → count_if is_init (modules_at place table) ≤ 1
unfolding modules_at lookup
inits_at place [] h = omega arith
inits_at place ((directory, ms) ∷ table) h = elim (Bool-cases (directory == place)) [
  | inl same ↦ rw (modules_at, lookup, count_if, same) (ground (arith, h))
  | inr other ↦ rw (modules_at, lookup, count_if, other) (inits_at place table (ground (arith, h)))
]

-- More members than package files: some member is none.
any_other :
    (ms : List SourceModule)
    → count_if is_init ms < length (map size_member ms)
    → any (λ member. not (is_package_file member)) (map size_member ms) ≡ true
unfolding size_member is_package_file file_name
any_other [] h = absurd (omega (arith, h))
any_other (m ∷ ms) h = elim (Bool-cases (is_init m)) [
  | inl init ↦ rw init (any_other ms (let h' = rw init at h in omega (arith, h')))
  | inr other ↦ rw other refl
]

module _ (is_identifier : Text → Bool) (settings : ShallowSettings) (tree : ScannedTree)
    (enough : 2 ≤ settings.min_modules) (once : InitsOnce tree) (known : HasEntries tree) where
  collect-inits :
      (place : Text) (globs : List Text) (found : List SourceModule)
      → collect_package_members is_identifier (modules_at place tree.by_directory) globs tree
        ≡ some (some found)
      → count_if is_init found ≤ 1
  unfolding collect_package_members
  collect-inits place globs found h =
      let modules = modules_at place tree.by_directory in
      elim (Bool-cases (any is_exempting_file modules)) [
        | inl exempt ↦ let h' = rw (collect_package_members, exempt) at h in cc
        | inr free ↦ elim (Option-cases (keep_when (is_member is_identifier globs tree) modules)) [
          | inl e ↦ let h' = rw (collect_package_members, free, e) at h in cc
          | inr (kept, e) ↦
              let h' = rw (collect_package_members, free, e) at h in
              let same : kept ≡ found = cc in
              let fewer =
                count_if-keep_when (is_member is_identifier globs tree) is_init modules kept e in
              subst (λ ms. count_if is_init ms ≤ 1) same
                (omega (arith, fewer, inits_at place tree.by_directory once))
        ]
      ]

  candidate-other :
      (place : Text) (candidate : PackageCandidate)
      → find_candidate is_identifier settings tree place ≡ some (some candidate)
      → any (λ member. not (is_package_file member)) candidate.members ≡ true
  candidate-other place candidate h =
      let globs = settings.layer_composition_root ++ settings.port_composition_root in
      let (found, e, made, fits) =
        find_candidate-IsCandidate is_identifier settings tree place candidate h in
      let many : 2 ≤ length (map size_member found) = omega (arith, enough, fits.0) in
      subst (λ c. any (λ member. not (is_package_file member)) c.members ≡ true) made
        (any_other found (omega (arith, many, collect-inits place globs found e)))

  find_candidate-total :
      (place : Text)
      → (candidate : Option PackageCandidate) × (find_candidate is_identifier settings tree place
          ≡ some candidate)
  unfolding find_candidate
  find_candidate-total place =
      let globs = settings.layer_composition_root ++ settings.port_composition_root in
      let modules = modules_at place tree.by_directory in
      elim (Option-cases (collect_package_members is_identifier modules globs tree)) [
        | inl e ↦
            let (_, e') = collect_package_members-total tree known is_identifier globs place in cc
        | inr (none, e) ↦ (none, rw (find_candidate, e) refl)
        | inr (some found, e) ↦ (
          judge_members settings place (modules_at place tree.by_directory) (map size_member found),
          rw (find_candidate, e) refl,
        )
      ]

  build_finding-total :
      (place : Text) (candidate : PackageCandidate)
      → find_candidate is_identifier settings tree place ≡ some (some candidate)
      → (v : Violation) × (build_finding is_identifier settings tree candidate ≡ some v)
  unfolding build_finding
  build_finding-total place candidate h =
      let (_, _, made, _) =
        find_candidate-IsCandidate is_identifier settings tree place candidate h in
      let (placement, placed) =
        place_package-total tree known is_identifier settings candidate place
          (ap (λ c. c.modules) made) in
      let (target, e, _, _) =
        choose_merge_target-total placement candidate.members
          (list_directories_read_by_path settings.layers settings.ports_dir settings.adapter_roots)
          (candidate-other place candidate h) in
      (finding_for is_identifier settings tree candidate target, rw (build_finding, placed, e) refl)

  report_package-total :
      (place : Text)
      → (found : List Violation) × (report_package is_identifier settings tree place ≡ some found)
  unfolding report_package
  report_package-total place = elim (Bool-cases (is_skipped_package place tree)) [
    | inl skipped ↦ ([], rw (report_package, skipped) refl)
    | inr kept ↦ elim (Option-cases (find_candidate is_identifier settings tree place)) [
      | inl e ↦ let (_, e') = find_candidate-total place in cc
      | inr (none, e) ↦ ([], rw (report_package, kept, e) refl)
      | inr (some candidate, e) ↦ elim (Bool-cases (is_structurally_shallow candidate tree)) [
        | inr deep ↦ ([], rw (report_package, kept, e, deep) refl)
        | inl shallow ↦
            let (v, built) = build_finding-total place candidate e in
            (v ∷ [], rw (report_package, kept, e, shallow, built) refl)
      ]
    ]
  ]

  report_packages-total :
      (places : List Text)
      → (found : List Violation) × (report_packages is_identifier settings tree places ≡ some found)
  unfolding report_packages
  report_packages-total [] = ([], refl)
  report_packages-total (place ∷ places) =
      let (here, e) = report_package-total place in
      let (more, e') = report_packages-total places in
      (here ++ more, rw (report_packages, e, e') refl)

-- No directory of the files that parse holds two package files.
abbrev pub FilesInitOnce : List ScannedFile → Type 0
FilesInitOnce files = all has_one_init (group_modules (parsed_modules files) []) ≡ true

check_of-total :
    (is_identifier : Text → Bool) (settings : ShallowSettings) (tree : ScannedTree)
    → 2 ≤ settings.min_modules
    → InitsOnce tree
    → HasEntries tree
    → (enabled : Bool) (read : Option ScannedTree) → read ≡ some tree
    → (result : CheckResult) × ((if not enabled then some (with_warnings []) else elim read [
      | none ↦ none
      | some tree ↦
          elim (report_packages is_identifier settings tree (sort text_leb tree.graph.packages)) [
            | none ↦ none
            | some warnings ↦ some (with_warnings warnings)
          ]
    ])
        ≡ some result)
check_of-total is_identifier settings tree enough once known false read at =
    (with_warnings [], refl)
check_of-total is_identifier settings tree enough once known true read at =
    let (found, e) =
      report_packages-total is_identifier settings tree enough once known
        (sort text_leb tree.graph.packages) in
    (with_warnings found, rw (at, e) refl)

-- Where at least two modules are asked for, as `configure` demands, and no directory holds two
-- package files, the check ends in a result for every tree: no lookup of a node or of a module's
-- re-exports fails and every reported package has a member to merge into.
pub check_shallow-total :
    (is_identifier : Text → Bool) (settings : ShallowSettings) (files : List ScannedFile)
    → 2 ≤ settings.min_modules
    → FilesInitOnce files
    → (result : CheckResult) × (check_shallow is_identifier settings files ≡ some result)
unfolding check_shallow
check_shallow-total is_identifier settings files enough once =
    let (tree, read, known, grouped) = read_scanned_tree-total files in
    check_of-total is_identifier settings tree enough (ap (all has_one_init) grouped ∙ once) known
      settings.enabled (read_scanned_tree files) read
