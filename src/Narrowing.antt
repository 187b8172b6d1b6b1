-- ===== src/Narrowing.antt =====
-- lanorme/filters.py: the stages that narrow a run's results, in their fixed order, with
-- `reanchor_results` of regions.py, which the first stage ends with. `read` gives under a path with
-- forward slashes the lines that the run's line cache holds for it.
pub mod Accounting
pub mod Survival
use lanorme.Prelude.{
  ℕ, zero, suc, ◌+◌, ◌-◌, ◌*◌, ◌≤◌, ◌<◌, min, String, ◌≡◌, refl, sym, ap, ap₂, ◌∙◌, subst, fun_ext,
  ◌≢◌, ◌↔◌, ◌⊎◌, inl, inr, Bool, true, false, not, ◌&&◌, ◌||◌, false≢true, Option, none, some, List,
  [], ◌∷◌, ◌++◌, map, append-nil, append_assoc, arith, ltb, leb, if◌then◌else◌, tests, Bool-cases,
  Option-cases, Eq, ◌==◌, eq_iff, eq_refl, nat_eq, list_eq, pair_eq, triple_eq, length, keep, any,
  all, count_if, contains, flat_map, length-append, keep-append, keep-keep, count_if-append,
  length-keep-le, length-keep_add, any-append, any-map, length-map, take, drop, get_elem?, Among,
  first, later, any_of_Among, Among-of_any, all_of_Among, contains_of_Among, Among-of_contains,
  Among-append_left, Among-cons, Among-of_keep, Among-of_sort, Among-keep, Among-append_right,
  Among-map, Among-flat_map, Among-of_map, Among-of_append, Among-of_flat_map, reverse,
  Among-reverse, Among-of_reverse, length-reverse, sort, Among-sort, count_if-sort, any-sort,
  sum_by, sum_by-sort, text_leb,
}
use lanorme.Prelude.Dict.{Dict}
use lanorme.Text.{
  Text, codes, is_space, is_upper, is_digit, is_alnum, upper_char, upper, lstrip, rstrip, strip,
  before, after, words, split, join, starts_with, ends_with, forward_slashes, decimal, base_name,
  dir_name,
}
use lanorme.FilePath.{FilePath, FileSystem, join_path, relative_to, as_posix, is_parent}
use lanorme.Glob.{fnmatch}
use lanorme.Finding.{Violation, CheckResult, filter_findings, count_findings, extract_code}
use lanorme.Selectors.{is_code_matched}
use lanorme.Directives.{is_silenced_inline}
use lanorme.SourceLines.{source_line}

unfoldable pub is_path_excluded : Text → List Text → Bool
is_path_excluded path patterns = any (λ pattern. fnmatch (forward_slashes path) pattern) patterns

unfoldable pub is_silenced_per_file : Text → Text → Dict Text (List Text) → Bool
is_silenced_per_file file rule table =
    any
      (λ (pattern, listed).
        fnmatch (forward_slashes file) pattern && is_code_matched (extract_code rule) listed)
      table

pub record Narrowing : Type 0 where
  pub select : List Text
  pub ignore : List Text
  pub exclude : List Text
  pub per_file_ignores : Dict Text (List Text)
  pub project_root : FilePath
  pub targets : Option (List FilePath)
  pub run_root : Option FilePath

-- `self.run_root or self.project_root`
unfoldable pub effective_root : Narrowing → FilePath
effective_root n = elim n.run_root [ none ↦ n.project_root | some root ↦ root ]

-- The body of `relocate`.
moved_file : FilePath → FilePath → Text → Text
moved_file from to file = elim (relative_to (join_path from file) to) [
  | none ↦ file
  | some parts ↦ as_posix parts
]

unfoldable pub relocate : FilePath → FilePath → Violation → Violation
unfolding moved_file
relocate from to finding =
    if finding.file == []
    then finding
    else record finding { file = moved_file from to finding.file }

unfoldable pub relocate_result : FilePath → FilePath → CheckResult → CheckResult
unfolding relocate
relocate_result from to result = record {
  check = result.check;
  violations = map (relocate from to) result.violations;
  warnings = map (relocate from to) result.warnings;
}

unfoldable pub reanchor_results : FilePath → FilePath → List CheckResult → List CheckResult
unfolding relocate_result
reanchor_results from to results =
    if from == to then results else map (relocate_result from to) results

pub record Narrowed : Type 0 where
  pub results : List CheckResult
  pub dropped : Dict Text ℕ

-- One turn of the loop in `apply`: the filter, and the findings that it drops.
unfoldable pub run_stage : Text → Option (Violation → Bool) → Narrowed → Narrowed
run_stage stage none n = record { results = n.results; dropped = n.dropped ++ (stage, 0) ∷ [] }
run_stage stage (some p) n =
    let results = map (filter_findings p) n.results in
    record {
      results = results;
      dropped = n.dropped ++ (stage, count_findings n.results - count_findings results) ∷ [];
    }

module _ (fs : FileSystem) (read : Text → Option (List Text)) (n : Narrowing) where
  open n use {select, ignore, exclude, per_file_ignores, project_root, targets, run_root}

  unfoldable pub is_targeted : List FilePath → Violation → Bool
  is_targeted named finding =
      let absolute = fs.resolve (join_path (effective_root n) finding.file) in
      let files = map fs.resolve (keep fs.is_file named) in
      let dirs = map fs.resolve (keep fs.is_dir named) in
      if finding.file == []
      then true
      else contains files absolute || any (λ d. absolute == d || is_parent d absolute) dirs

  unfoldable pub target_filter : Option (List FilePath) → Option (Violation → Bool)
  target_filter none = none
  target_filter (some []) = none
  target_filter (some (t ∷ named)) = some (is_targeted (t ∷ named))

  unfoldable pub keep_selected : Violation → Bool
  keep_selected finding =
      let code = extract_code finding.rule in
      (select == [] || is_code_matched code select) && not (is_code_matched code ignore)

  unfoldable pub keep_unexcluded : Violation → Bool
  keep_unexcluded finding = not (is_path_excluded finding.file exclude)

  unfoldable pub keep_unsilenced_per_file : Violation → Bool
  keep_unsilenced_per_file finding =
      not (is_silenced_per_file finding.file finding.rule per_file_ignores)

  unfoldable pub is_unsilenced : Violation → Bool
  is_unsilenced finding = not (
      is_silenced_inline (source_line read (forward_slashes finding.file) finding.line)
        finding.rule)

  selection_filter : Option (Violation → Bool)
  selection_filter = if select == [] && ignore == [] then none else some keep_selected

  exclude_filter : Option (Violation → Bool)
  exclude_filter = if exclude == [] then none else some keep_unexcluded

  per_file_filter : Dict Text (List Text) → Option (Violation → Bool)
  per_file_filter [] = none
  per_file_filter (_ ∷ _) = some keep_unsilenced_per_file

  reanchor : Narrowed → Narrowed
  reanchor m = record m {
    results = reanchor_results (fs.resolve (effective_root n)) (fs.resolve project_root) m.results;
  }

  -- `Narrowing.apply` over `_build_stages`.
  unfoldable pub apply : List CheckResult → Narrowed
  unfolding selection_filter exclude_filter per_file_filter reanchor
  apply results =
      let start : Narrowed = record { results = results; dropped = [] } in
      let targeted = reanchor (run_stage (codes "targets") (target_filter targets) start) in
      let selected = run_stage (codes "selection") selection_filter targeted in
      let unexcluded = run_stage (codes "exclude") exclude_filter selected in
      let unsilenced = run_stage (codes "per_file") (per_file_filter per_file_ignores) unexcluded in
      run_stage (codes "inline") (some is_unsilenced) unsilenced
