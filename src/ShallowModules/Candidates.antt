-- ===== src/ShallowModules/Candidates.antt =====
-- lanorme/checks/shallow_modules.py: the check, over the files of a tree.
pub mod Judged
pub mod Sound
pub mod Entries
pub mod Total
use lanorme.Prelude.{
  ℕ, zero, suc, ◌+◌, ◌-◌, ◌*◌, ◌≤◌, ◌<◌, min, String, ◌≡◌, refl, sym, ap, ap₂, ◌∙◌, subst, fun_ext,
  ◌≢◌, ◌↔◌, ◌⊎◌, inl, inr, Bool, true, false, not, ◌&&◌, ◌||◌, false≢true, Option, none, some, List,
  [], ◌∷◌, ◌++◌, map, append-nil, append_assoc, arith, ltb, leb, if◌then◌else◌, tests, Bool-cases,
  Option-cases, Eq, ◌==◌, eq_iff, eq_refl, nat_eq, list_eq, pair_eq, triple_eq, length, keep, any,
  all, count_if, contains, flat_map, length-append, keep-append, keep-keep, count_if-append,
  length-keep-le, length-keep_add, any-append, any-map, length-map, take, drop, get_elem?, Among,
  first, later, any_of_Among, Among-of_any, all_of_Among, contains_of_Among, Among-of_contains,
  Among-append_left, Among-cons, Among-of_keep, Among-of_sort, Among-keep, Among-append_right,
  Among-map, Among-flat_map, Among-of_map, Among-of_append, Among-of_flat_map, reverse,
  Among-reverse, Among-of_reverse, length-reverse, sort, Among-sort, count_if-sort, any-sort,
  sum_by, sum_by-sort, text_leb,
}
use lanorme.Text.{
  Text, codes, is_space, is_upper, is_digit, is_alnum, upper_char, upper, lstrip, rstrip, strip,
  before, after, words, split, join, starts_with, ends_with, forward_slashes, decimal, base_name,
  dir_name,
}
use Prim.Native.Nat.{◌/◌}
use lanorme.Prelude.Dict.{Dict, lookup}
use lanorme.Finding.{Violation, CheckResult}
use lanorme.Config.{Table}
use lanorme.Checkconfig.{
  Setting, value, mistyped, is_flag_set, read_int, read_str, read_str_list, Configured, applied,
  rejected,
}
use lanorme.LineCounts.{count_effective_lines}
use lanorme.MergeTargets.{
  PackageMember, PackagePlacement, MergeTarget, tiny_code_lines, choose_merge_target,
}
use lanorme.MergeTargets.Directories.{list_directories_read_by_path}
use lanorme.MergeTargets.Fixes.{FixContext, build_message, build_fix}
use lanorme.ShallowModules.Members.{
  SourceModule, ScannedFile, ScannedTree, relative, find_directory, modules_at, count_code,
  is_skipped_package, collect_package_members, read_scanned_tree,
}
use lanorme.ShallowModules.Structure.{PackageCandidate, is_structurally_shallow, list_staying_files}
use lanorme.ShallowModules.Settings.{ShallowSettings, merge_budget}

unfoldable pub size_member : SourceModule → PackageMember
unfolding relative count_code
size_member m = record {
  relative = relative m;
  lines = count_effective_lines m.lines;
  code_lines = count_code m;
}

unfoldable pub lines_of : List PackageMember → ℕ
lines_of members = sum_by (λ member. member.lines) members

unfoldable pub count_tiny : List PackageMember → ℕ
unfolding tiny_code_lines
count_tiny members = count_if (λ member. ltb member.code_lines tiny_code_lines) members

-- The package, where its members are enough, small enough and mostly tiny.
unfoldable pub judge_members :
    ShallowSettings → Text → List SourceModule → List PackageMember → Option PackageCandidate
unfolding merge_budget lines_of count_tiny
judge_members settings place modules members =
    if ltb (length members) settings.min_modules
    then none
    else if ltb (merge_budget settings) (lines_of members)
    then none
    else if ltb (2 * count_tiny members) (length members)
    then none
    else some (record {
      package_path = place;
      modules = modules;
      members = members;
      tiny_count = count_tiny members;
    })

rule_text : Text
rule_text = codes "SHALLOW-001"

module _ (is_identifier : Text → Bool) (settings : ShallowSettings) (tree : ScannedTree) where
  -- `_find_candidate`; `none` where it raises, `some none` where the package is no candidate.
  unfoldable pub find_candidate : Text → Option (Option PackageCandidate)
  unfolding collect_package_members judge_members size_member
  find_candidate place =
      let modules = modules_at place tree.by_directory in
      elim (collect_package_members is_identifier modules
        (settings.layer_composition_root ++ settings.port_composition_root) tree) [
          | none ↦ none
          | some none ↦ some none
          | some (some found) ↦ some (judge_members settings place modules (map size_member found))
        ]

  -- `_place_package`; `none` where it raises.
  unfoldable pub place_package : PackageCandidate → Option PackagePlacement
  unfolding list_staying_files find_directory
  place_package candidate = elim (list_staying_files candidate tree) [
    | none ↦ none
    | some staying ↦ some (record {
      package_path = candidate.package_path;
      is_top_level = not (contains tree.graph.packages (find_directory candidate.package_path));
      has_sibling_module = contains tree.relatives (candidate.package_path ++ codes ".py");
      staying_files = staying;
    })
  ]

  unfoldable pub dotted_name : Text → Text
  dotted_name place = elim (lookup (place ++ codes "/__init__.py") tree.graph.nodes) [
    | none ↦ map (λ c. if c == b'/' then b'.' else c) place
    | some node ↦ node.dotted
  ]

  unfoldable pub finding_for : PackageCandidate → MergeTarget → Violation
  unfolding dotted_name rule_text
  finding_for candidate target =
      let place = candidate.package_path in
      let context : FixContext = record {
        package_path = place;
        dotted = dotted_name place;
        members = candidate.members;
        warning_lines = min settings.file_warn_lines settings.file_error_lines;
      } in
      record {
        file = place ++ codes "/__init__.py";
        line = 1;
        rule = rule_text;
        message = build_message place candidate.members candidate.tiny_count;
        fix = build_fix context target;
        column = none;
        end_line = none;
        end_column = none;
        promoted = false;
      }

  -- `_build_finding`; `none` where it raises.
  unfoldable pub build_finding : PackageCandidate → Option Violation
  unfolding place_package finding_for
  build_finding candidate = elim (place_package candidate) [
    | none ↦ none
    | some placement ↦
        elim (choose_merge_target placement candidate.members (
          list_directories_read_by_path settings.layers settings.ports_dir
            settings.adapter_roots)) [
              | none ↦ none
              | some target ↦ some (finding_for candidate target)
            ]
  ]

  -- The body of the loop of `check`.
  unfoldable pub report_package : Text → Option (List Violation)
  unfolding find_candidate build_finding
  report_package place =
      if is_skipped_package place tree then some [] else elim (find_candidate place) [
        | none ↦ none
        | some none ↦ some []
        | some (some candidate) ↦
            if is_structurally_shallow candidate tree
            then elim (build_finding candidate) [ none ↦ none | some v ↦ some (v ∷ []) ]
            else some []
      ]

  unfoldable pub report_packages : List Text → Option (List Violation)
  unfolding report_package
  report_packages [] = some []
  report_packages (place ∷ places) = elim (report_package place) [
    | none ↦ none
    | some found ↦ elim (report_packages places) [ none ↦ none | some more ↦ some (found ++ more) ]
  ]

-- `CheckResult.from_findings(check=self.name, warnings=warnings)`
unfoldable pub with_warnings : List Violation → CheckResult
with_warnings warnings = record {
  check = codes "shallow_modules";
  violations = [];
  warnings = warnings;
}

-- `ShallowModulesCheck.check`, of the files that a scan yields; `none` where it raises.
unfoldable pub check_shallow :
    (Text → Bool) → ShallowSettings → List ScannedFile → Option CheckResult
unfolding read_scanned_tree report_packages with_warnings
check_shallow is_identifier settings files =
    if not settings.enabled then some (with_warnings []) else elim (read_scanned_tree files) [
      | none ↦ none
      | some tree ↦
          elim (report_packages is_identifier settings tree (sort text_leb tree.graph.packages)) [
            | none ↦ none
            | some warnings ↦ some (with_warnings warnings)
          ]
    ]
