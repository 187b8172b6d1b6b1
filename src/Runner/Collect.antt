-- ===== src/Runner/Collect.antt =====
-- lanorme/runner.py: the whole of a run, `collect_results`.
use lanorme.Prelude.{
  Option, none, some, List, [], ◌∷◌, ◌++◌, map, if◌then◌else◌, ◌==◌, nat_eq, list_eq, pair_eq,
  triple_eq,
}
use lanorme.Text.{Text, codes}
use lanorme.Prelude.Dict.{Dict}
use lanorme.FilePath.{FilePath}
use lanorme.Finding.{CheckResult}
use lanorme.Scan.{restrict, make_scan}
use lanorme.Check.{Result, ok, ◌>>=◌, CheckApi}
use lanorme.Config.{Value, Table, text, get, is_truthy}
use lanorme.Config.Files.{ConfigFiles}
use lanorme.Checkconfig.{ConfigureApi}
use lanorme.Discovery.{Tree, iter_dirs, default_prune_dirs}
use lanorme.Selectors.{reject_unknown_selectors}
use lanorme.Regions.{discover_regions}
use lanorme.Narrowing.{Narrowing, apply}
use lanorme.Runner.{
  RunBounds, Filters, RunConfigs, RunOutcome, parse_per_file_ignores, resolve_run_root,
  count_opt_in_disabled, select_checks, run_regions,
}

-- `config.get("source_root")` where it is a string.
string_or_empty : Option Value → Text
string_or_empty (some (text s)) = s
string_or_empty _ = []

ignores_of : Option Value → Dict Text (List Text)
ignores_of none = []
ignores_of (some v) = parse_per_file_ignores v

module _ (api : CheckApi) (conf : ConfigureApi api) (files : ConfigFiles)
    (read : Text → Option (List Text)) (extend : Table → FilePath → Result Table)
    (templates : Dict Text api.Check) where
  open api use {Check}
  open files use {fs}

  -- The selectors of each entry of the table name a rule.
  reject_listed : Dict Text (List Text) → Result (Unit {0})
  reject_listed [] = ok tt
  reject_listed ((pattern, listed) ∷ entries) =
      reject_unknown_selectors api templates
        (codes "per-file-ignores entry '" ++ (pattern ++ codes "'")) listed
      >>= (λ _. reject_listed entries)

  unfoldable pub read_per_file_ignores : Table → Filters → Result (Dict Text (List Text))
  unfolding reject_listed ignores_of
  read_per_file_ignores config filters =
      let entries = ignores_of (get (codes "per-file-ignores") config) in
      reject_unknown_selectors api templates (codes "'select'") filters.select >>= (λ _.
        reject_unknown_selectors api templates (codes "'ignore'") filters.ignore
        >>= (λ _. reject_listed entries >>= (λ _. ok entries)))

  unfoldable pub run_checks :
      Table → Dict Text Check → Tree → RunBounds → Option (List Check) → Result (List CheckResult)
  run_checks config configured tree bounds only =
      let scan = restrict bounds.scan (some bounds.scope) [] in
      discover_regions files (map (λ (n, _). n) templates) extend bounds.scan.root
        (iter_dirs scan tree default_prune_dirs) config
      >>= (λ regions. run_regions api conf files templates regions configured bounds only)

  -- What a `--check` selector names, and the select it implies; a blank one is none.
  single_checks :
      (Text → Result (List Check × List Text))
      → Option Text
      → Result (Option (List Check) × List Text)
  single_checks resolve_single none = ok (none, [])
  single_checks resolve_single (some []) = ok (none, [])
  single_checks resolve_single (some (c ∷ s)) =
      resolve_single (c ∷ s) >>= (λ (only, implied). ok (some only, implied))

  -- `targets if targets is not None or not scope else [scan_root]`
  effective_targets : Option (List FilePath) → Text → FilePath → Option (List FilePath)
  effective_targets (some targets) scope scan_root = some targets
  effective_targets none [] scan_root = none
  effective_targets none (_ ∷ _) scan_root = some (scan_root ∷ [])

  narrowing_of :
      Filters
      → List Text
      → Dict Text (List Text)
      → FilePath
      → Option (List FilePath)
      → FilePath
      → Narrowing
  narrowing_of filters implied ignores project_root targets run_root = record {
    select = if implied == [] then filters.select else implied;
    ignore = filters.ignore;
    exclude = filters.exclude;
    per_file_ignores = ignores;
    project_root = project_root;
    targets = targets;
    run_root = some run_root;
  }

  outcome_of :
      RunConfigs
      → Dict Text Check
      → Narrowing
      → Option (List Check)
      → List CheckResult
      → Option RunOutcome
  unfolding narrowing_of
  outcome_of configs configured narrowing only [] = none
  outcome_of configs configured narrowing only (r ∷ results) =
      let narrowed = apply fs read narrowing (r ∷ results) in
      let (_, selected) = select_checks api conf files templates only in
      some (record {
        results = narrowed.results;
        project_root = narrowing.project_root;
        selected = selected;
        dropped = narrowed.dropped;
        opt_in_disabled = count_opt_in_disabled api conf files configured selected;
        baseline_configured = is_truthy (get (codes "baseline") configs.project);
      })

  -- `tree_at` is what the file system holds below a directory.
  unfoldable pub collect_results :
      (FilePath → Tree)
      → RunConfigs
      → Dict Text Check
      → FilePath
      → FilePath
      → Option (List FilePath)
      → Filters
      → (Text → Result (List Check × List Text))
      → Result (Option RunOutcome)
  unfolding read_per_file_ignores single_checks run_checks outcome_of effective_targets narrowing_of
      string_or_empty
  collect_results tree_at configs configured scan_root project_root targets filters resolve_single =
      read_per_file_ignores configs.project filters >>= (λ ignores.
        single_checks resolve_single filters.single >>= (λ (only, implied).
          let (run_root, scope) = resolve_run_root fs scan_root project_root in
          let source_root = string_or_empty (get (codes "source_root") configs.project) in
          let bounds : RunBounds = record {
            scan = make_scan run_root [] filters.exclude source_root;
            scope = scope;
          } in
          run_checks configs.scan_config configured (tree_at run_root) bounds only >>= (λ results.
            ok (
              outcome_of configs configured
                (narrowing_of filters implied ignores project_root
                  (effective_targets targets scope scan_root) run_root)
                only results))))
