-- ===== src/Narrowing/Survival.antt =====
-- Which findings survive the narrowing: the stages after the targets are one filter, whatever
-- stage is skipped.
use lanorme.Prelude.{
  ◌≡◌, refl, sym, ap, ◌∙◌, Bool, true, false, ◌&&◌, Option, none, some, List, [], ◌∷◌, map, arith,
  if◌then◌else◌, ◌==◌, eq_iff, nat_eq, list_eq, pair_eq, triple_eq, keep, keep-keep,
}
use lanorme.Prelude.Dict.{Dict}
use lanorme.Text.{Text, codes}
use lanorme.FilePath.{FilePath, FileSystem}
use lanorme.Finding.{Violation, CheckResult, filter_findings, extract_code}
use lanorme.Selectors.{is_code_matched}
use lanorme.Narrowing.{
  Narrowing, Narrowed, run_stage, reanchor, reanchor_results, apply, effective_root, is_targeted,
  keep_selected, keep_unexcluded, keep_unsilenced_per_file, is_unsilenced, selection_filter,
  exclude_filter, per_file_filter, target_filter, is_silenced_per_file, is_path_excluded,
}

filter_findings-filter_findings :
    (p q : Violation → Bool) (results : List CheckResult)
    → map (filter_findings q) (map (filter_findings p) results)
      ≡ map (filter_findings (λ v. p v && q v)) results
unfolding filter_findings
filter_findings-filter_findings p q [] = refl
filter_findings-filter_findings p q (r ∷ results) =
    rw
      (
        keep-keep p q r.violations,
        keep-keep p q r.warnings,
        filter_findings-filter_findings p q results,
      )
      refl

keep-all :
    (p : Violation → Bool) (xs : List Violation) → ((v : Violation) → p v ≡ true) → keep p xs ≡ xs
keep-all p [] h = refl
keep-all p (v ∷ xs) h = rw (h v, keep-all p xs h) refl

filter_findings-all :
    (p : Violation → Bool) (results : List CheckResult)
    → ((v : Violation) → p v ≡ true)
    → map (filter_findings p) results ≡ results
unfolding filter_findings
filter_findings-all p [] h = refl
filter_findings-all p (r ∷ results) h =
    rw (keep-all p r.violations h, keep-all p r.warnings h, filter_findings-all p results h) refl

-- A stage that is skipped where its test would pass every finding is that test.
results-run_stage :
    (stage : Text) (p : Violation → Bool) (skipped : Bool) (m : Narrowed)
    → (skipped ≡ true → (v : Violation) → p v ≡ true)
    → (run_stage stage (if skipped then none else some p) m).results
      ≡ map (filter_findings p) m.results
unfolding run_stage
results-run_stage stage p true m h = sym (filter_findings-all p m.results (h refl))
results-run_stage stage p false m h = refl

is_code_matched-nil : (code : Text) → is_code_matched code [] ≡ false
unfolding is_code_matched
is_code_matched-nil code = refl

module _ (fs : FileSystem) (read : Text → Option (List Text)) (n : Narrowing) where
  -- The finding is selected, in no excluded file, and silenced neither by the table nor inline.
  pub survives : Violation → Bool
  survives v =
      ((keep_selected fs read n v && keep_unexcluded fs read n v)
        && keep_unsilenced_per_file fs read n v)
      && is_unsilenced fs read n v

  selected_of_empty :
      (n.select == [] && n.ignore == []) ≡ true → (v : Violation) → keep_selected fs read n v ≡ true
  unfolding keep_selected
  selected_of_empty h v =
      ground (arith, eq_iff n.ignore [], is_code_matched-nil (extract_code v.rule))

  unexcluded_of_empty :
      (n.exclude == []) ≡ true → (v : Violation) → keep_unexcluded fs read n v ≡ true
  unfolding keep_unexcluded is_path_excluded
  unexcluded_of_empty h v = rw ((eq_iff n.exclude []).0 h) refl

  unsilenced_of_empty :
      n.per_file_ignores ≡ [] → (v : Violation) → keep_unsilenced_per_file fs read n v ≡ true
  unfolding keep_unsilenced_per_file is_silenced_per_file
  unsilenced_of_empty h v = rw h refl

  results-per_file :
      (table : Dict Text (List Text)) (m : Narrowed)
      → n.per_file_ignores ≡ table
      → (run_stage (codes "per_file") (per_file_filter fs read n table) m).results
        ≡ map (filter_findings (keep_unsilenced_per_file fs read n)) m.results
  unfolding run_stage per_file_filter
  results-per_file [] m e = sym (filter_findings-all _ m.results (unsilenced_of_empty e))
  results-per_file (_ ∷ _) m e = refl

  -- What the target stage leaves: everything where no target was named.
  pub targeted_results : Option (List FilePath) → List CheckResult → List CheckResult
  targeted_results none results = results
  targeted_results (some []) results = results
  targeted_results (some (t ∷ named)) results =
      map (filter_findings (is_targeted fs read n (t ∷ named))) results

  results-targets :
      (targets : Option (List FilePath)) (m : Narrowed)
      → (run_stage (codes "targets") (target_filter fs read n targets) m).results
        ≡ targeted_results targets m.results
  unfolding run_stage target_filter targeted_results
  results-targets none m = refl
  results-targets (some []) m = refl
  results-targets (some (t ∷ named)) m = refl

  abbrev pub anchored : List CheckResult → List CheckResult
  anchored = reanchor_results (fs.resolve (effective_root n)) (fs.resolve n.project_root)

  results-selection :
      (m : Narrowed)
      → (run_stage (codes "selection") (selection_filter fs read n) m).results
        ≡ map (filter_findings (keep_selected fs read n)) m.results
  unfolding selection_filter
  results-selection m = results-run_stage _ (keep_selected fs read n) _ m selected_of_empty

  results-exclude :
      (m : Narrowed)
      → (run_stage (codes "exclude") (exclude_filter fs read n) m).results
        ≡ map (filter_findings (keep_unexcluded fs read n)) m.results
  unfolding exclude_filter
  results-exclude m = results-run_stage _ (keep_unexcluded fs read n) _ m unexcluded_of_empty

  results-reanchor : (m : Narrowed) → (reanchor fs read n m).results ≡ anchored m.results
  unfolding reanchor
  results-reanchor m = refl

  fuse :
      (results : List CheckResult)
      → map (filter_findings (is_unsilenced fs read n)) (
          map (filter_findings (keep_unsilenced_per_file fs read n)) (
            map
              (filter_findings (keep_unexcluded fs read n))
              (map (filter_findings (keep_selected fs read n)) results)))
        ≡ map (filter_findings survives) results
  unfolding survives
  fuse results =
      rw
        (
          filter_findings-filter_findings (keep_selected fs read n) (keep_unexcluded fs read n)
              results,
          filter_findings-filter_findings _ (keep_unsilenced_per_file fs read n) results,
        )
        (filter_findings-filter_findings _ (is_unsilenced fs read n) results)

  -- The narrowing keeps exactly the findings that lie in a target and, with the path they have
  -- relative to the project, are selected, in no excluded file and silenced nowhere. Skipping a
  -- stage that has nothing to apply changes nothing.
  pub apply-survives :
      (results : List CheckResult)
      → (apply fs read n results).results
        ≡ map (filter_findings survives) (anchored (targeted_results n.targets results))
  unfolding apply run_stage
  apply-survives results =
      let start : Narrowed = record { results = results; dropped = [] } in
      let targeted : Narrowed =
        run_stage (codes "targets") (target_filter fs read n n.targets) start in
      let moved : Narrowed = reanchor fs read n targeted in
      let selected : Narrowed = run_stage (codes "selection") (selection_filter fs read n) moved in
      let unexcluded : Narrowed = run_stage (codes "exclude") (exclude_filter fs read n) selected in
      ap (map (filter_findings (is_unsilenced fs read n))) (
        results-per_file n.per_file_ignores unexcluded refl
        ∙ ap (map (filter_findings (keep_unsilenced_per_file fs read n))) (
            results-exclude selected
            ∙ ap (map (filter_findings (keep_unexcluded fs read n))) (
                results-selection moved
                ∙ ap (map (filter_findings (keep_selected fs read n)))
                    (results-reanchor targeted ∙ ap anchored (results-targets n.targets start)))))
      ∙ fuse (anchored (targeted_results n.targets results))
