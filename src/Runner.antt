-- ===== src/Runner.antt =====
-- lanorme/runner.py: one run over the regions of a tree, from the checks to the narrowed results.
pub mod Collect
pub mod Folding
pub mod Scopes
use lanorme.Prelude.{
  ℕ, zero, suc, ◌+◌, ◌-◌, ◌*◌, ◌≤◌, ◌<◌, min, String, ◌≡◌, refl, sym, ap, ap₂, ◌∙◌, subst, fun_ext,
  ◌≢◌, ◌↔◌, ◌⊎◌, inl, inr, Bool, true, false, not, ◌&&◌, ◌||◌, false≢true, Option, none, some, List,
  [], ◌∷◌, ◌++◌, map, append-nil, append_assoc, arith, ltb, leb, if◌then◌else◌, tests, Bool-cases,
  Option-cases, Eq, ◌==◌, eq_iff, eq_refl, nat_eq, list_eq, pair_eq, triple_eq, length, keep, any,
  all, count_if, contains, flat_map, length-append, keep-append, keep-keep, count_if-append,
  length-keep-le, length-keep_add, any-append, any-map, length-map, take, drop, get_elem?, Among,
  first, later, any_of_Among, Among-of_any, all_of_Among, contains_of_Among, Among-of_contains,
  Among-append_left, Among-cons, Among-of_keep, Among-of_sort, Among-keep, Among-append_right,
  Among-map, Among-flat_map, Among-of_map, Among-of_append, Among-of_flat_map, reverse,
  Among-reverse, Among-of_reverse, length-reverse, sort, Among-sort, count_if-sort, any-sort,
  sum_by, sum_by-sort, text_leb,
}
use lanorme.Text.{
  Text, codes, is_space, is_upper, is_digit, is_alnum, upper_char, upper, lstrip, rstrip, strip,
  before, after, words, split, join, starts_with, ends_with, forward_slashes, decimal, base_name,
  dir_name,
}
use lanorme.Prelude.Dict.{Dict, lookup, insert}
use lanorme.FilePath.{FilePath, FileSystem, relative_to, as_posix}
use lanorme.Finding.{CheckResult}
use lanorme.Scan.{Scan, restrict, make_scan}
use lanorme.Check.{Result, ok, err, ◌>>=◌, CheckApi, run_check, crashed}
use lanorme.Config.{Value, Values, Table, text, list, table, nil, cons, end, entry, get, is_truthy}
use lanorme.Config.Files.{ConfigFiles}
use lanorme.Checkconfig.{ConfigureApi, configure_checks}
use lanorme.Discovery.{find_narrower_scope}
use lanorme.Selectors.{reject_unknown_selectors}
use lanorme.Regions.{
  Region, discover_regions, compute_region_prefix, build_child_exclude_globs, combine_results,
}
use lanorme.Registry.{is_auditor, run_audit, reported}
use lanorme.Narrowing.{Narrowing, Narrowed, apply}

-- The strings of a list, other items dropped.
only_strings : Values → List Text
only_strings nil = []
only_strings (cons (text s) vs) = s ∷ only_strings vs
only_strings (cons _ vs) = only_strings vs

-- One entry of the table, where its list keeps a string.
ignore_entry : Text → Value → Dict Text (List Text)
unfolding only_strings
ignore_entry pattern (list vs) = elim (only_strings vs) [
  | [] ↦ []
  | s ∷ listed ↦ (pattern, s ∷ listed) ∷ []
]
ignore_entry pattern _ = []

ignore_entries : Table → Dict Text (List Text)
unfolding ignore_entry
ignore_entries end = []
ignore_entries (entry pattern v t) = ignore_entry pattern v ++ ignore_entries t

unfoldable pub parse_per_file_ignores : Value → Dict Text (List Text)
unfolding ignore_entries
parse_per_file_ignores (table t) = ignore_entries t
parse_per_file_ignores _ = []

pub record RunBounds : Type 0 where
  pub scan : Scan
  pub scope : Text

pub record Filters : Type 0 where
  pub single : Option Text
  pub select : List Text
  pub ignore : List Text
  pub exclude : List Text

pub record RunConfigs : Type 0 where
  pub project : Table
  pub scan_config : Table

pub record RunOutcome : Type 0 where
  pub results : List CheckResult
  pub project_root : FilePath
  pub selected : List Text
  pub dropped : Dict Text ℕ
  pub opt_in_disabled : ℕ
  pub baseline_configured : Bool

unfoldable pub resolve_run_root : FileSystem → FilePath → FilePath → FilePath × Text
resolve_run_root fs scan_root project_root =
    elim (relative_to (fs.resolve scan_root) (fs.resolve project_root)) [
      | none ↦ (scan_root, [])
      | some [] ↦ (scan_root, [])
      | some (p ∷ parts) ↦ (project_root, as_posix (p ∷ parts))
    ]

-- `checks[name]`, a `KeyError` where there is none.
at_name : {A : Type 0} → Text → Dict Text A → Result A
at_name n checks = elim (lookup n checks) [
  | none ↦ err (crashed (codes "KeyError"))
  | some check ↦ ok check
]

module _ (api : CheckApi) (conf : ConfigureApi api) (files : ConfigFiles) where
  open api use {Check, identity, is_tree_scoped, enabled}
  open files use {fs}

  is_opted_out : Option Check → Bool
  is_opted_out none = false
  is_opted_out (some check) = elim (enabled check) [ none ↦ false | some on ↦ not on ]

  unfoldable pub count_opt_in_disabled : Dict Text Check → List Text → ℕ
  unfolding is_opted_out
  count_opt_in_disabled checks selected = count_if (λ n. is_opted_out (lookup n checks)) selected

  names_of : Dict Text Check → List Text
  names_of checks = map (λ (n, _). n) checks

  -- The names to run and the names to report.
  unfoldable pub select_checks : Dict Text Check → Option (List Check) → List Text × List Text
  unfolding names_of
  select_checks checks none = (names_of checks, names_of checks)
  select_checks checks (some only) =
      let chosen =
        names_of (keep (λ (_, check). contains (map identity only) (identity check)) checks) in
      if any (is_auditor api) only then (names_of checks, chosen) else (chosen, chosen)

  -- The checks of a pass that are run with one scan; `wanted` picks them.
  unfoldable pub run_each :
      (Check → Bool) → List Text → Dict Text Check → Scan → Result (Dict Text CheckResult)
  unfolding at_name
  run_each wanted [] checks scan = ok []
  run_each wanted (n ∷ names) checks scan =
      let rest = run_each wanted names checks scan in
      at_name n checks >>= (λ check.
        if wanted check
        then run_check api check scan >>= (λ result. rest >>= (λ more. ok ((n, result) ∷ more)))
        else rest)

  unfoldable pub run_tree_pass :
      List Text → Dict Text Check → RunBounds → Result (Dict Text CheckResult)
  unfolding run_each
  run_tree_pass names root_checks bounds =
      run_each (λ check. is_tree_scoped check && not (is_auditor api check)) names root_checks
        bounds.scan

  -- `none` is a region outside the scanned subtree.
  region_pass_in :
      Dict Text Check
      → List Text
      → Region
      → List Region
      → RunBounds
      → Option Text
      → Result (Dict Text CheckResult)
  unfolding run_each
  region_pass_in templates names region regions bounds none = ok []
  region_pass_in templates names region regions bounds (some scope) =
      build_child_exclude_globs files region regions bounds.scan.root >>= (λ nested.
        configure_checks api conf templates region.merged >>= (λ checks.
          run_each (λ check. not (is_tree_scoped check)) names checks
            (restrict bounds.scan (some scope) nested)))

  unfoldable pub run_region_pass :
      Dict Text Check
      → List Text
      → Region
      → List Region
      → RunBounds
      → Result (Dict Text CheckResult)
  unfolding region_pass_in
  run_region_pass templates names region regions bounds =
      compute_region_prefix files region bounds.scan.root >>= (λ prefix.
        region_pass_in templates names region regions bounds
          (find_narrower_scope bounds.scope prefix))

  -- The results of one pass folded into the running totals.
  unfoldable pub fold_pass : Dict Text CheckResult → Dict Text CheckResult → Dict Text CheckResult
  fold_pass [] by_name = by_name
  fold_pass ((n, result) ∷ passed) by_name =
      fold_pass passed (insert n (combine_results (lookup n by_name) result) by_name)

  unfoldable pub run_passes :
      Dict Text Check
      → List Text
      → List Region
      → List Region
      → RunBounds
      → Dict Text CheckResult
      → Result (Dict Text CheckResult)
  unfolding run_region_pass fold_pass
  run_passes templates names [] regions bounds by_name = ok by_name
  run_passes templates names (region ∷ rest) regions bounds by_name =
      run_region_pass templates names region regions bounds
      >>= (λ passed. run_passes templates names rest regions bounds (fold_pass passed by_name))

  unfoldable pub audit_pass :
      List Text → Dict Text Check → Dict Text CheckResult → Result (Dict Text CheckResult)
  unfolding at_name
  audit_pass [] root_checks by_name = ok by_name
  audit_pass (n ∷ names) root_checks by_name = at_name n root_checks >>= (λ check.
      if is_auditor api check
      then run_audit api check by_name
        >>= (λ result. audit_pass names root_checks (insert n result by_name))
      else audit_pass names root_checks by_name)

  unfoldable pub run_regions :
      Dict Text Check
      → List Region
      → Dict Text Check
      → RunBounds
      → Option (List Check)
      → Result (List CheckResult)
  unfolding run_tree_pass run_passes audit_pass select_checks
  run_regions templates regions root_checks bounds only =
      let (names, shown) = select_checks templates only in
      run_tree_pass names root_checks bounds >>= (λ tree.
        run_passes templates names regions regions bounds tree >>= (λ by_name.
          audit_pass names root_checks by_name
          >>= (λ all_results. ok (reported api shown all_results))))
