-- ===== src/Reports/Human.antt =====
-- lanorme/reports.py: the report for a reader, its notes, and which format a run prints.
use lanorme.Prelude.{
  ℕ, Bool, true, false, not, ◌&&◌, ◌||◌, Option, none, some, List, [], ◌∷◌, ◌++◌, map, leb,
  if◌then◌else◌, ◌==◌, nat_eq, list_eq, pair_eq, triple_eq, length, keep, any, contains, flat_map,
}
use lanorme.Prelude.Dict.{lookup}
use lanorme.Text.{Text, codes, decimal}
use lanorme.Finding.{pass, CheckResult, status}
use lanorme.Runner.{RunOutcome}
use lanorme.Reports.{is_status, count_errors, totals_lines, format_result}

-- `_BASELINE_TIP_THRESHOLD`
unfoldable pub baseline_tip_threshold : ℕ
baseline_tip_threshold = 25

-- `outcome.dropped.get(stage, 0)`
dropped_at : Text → RunOutcome → ℕ
dropped_at stage outcome = elim (lookup stage outcome.dropped) [ none ↦ 0 | some n ↦ n ]

unfoldable pub notes_lines : RunOutcome → List Text
unfolding dropped_at count_errors baseline_tip_threshold
notes_lines outcome =
    let inline = dropped_at (codes "inline") outcome in
    let per_file = dropped_at (codes "per_file") outcome in
    let recorded = dropped_at (codes "baseline") outcome in
    let suppressed : List Text =
      (codes "Suppressed: "
        ++ (decimal inline
            ++ (codes " by inline ignores, "
                ++ (decimal per_file
                    ++ (codes " by per-file-ignores, "
                        ++ (decimal recorded ++ codes " by the baseline."))))))
      ∷ [] in
    let opt_in : List Text =
      (codes "Opt-in checks not enabled: "
        ++ (decimal outcome.opt_in_disabled
            ++ codes " ('lanorme check --show-config' lists them)."))
      ∷ [] in
    let tip : List Text =
      codes
        "Tip: 'lanorme baseline write' records today's findings as debt so that only new ones report (see the adoption tutorial)."
      ∷ [] in
    (if any (λ n. not (n == 0)) (inline ∷ per_file ∷ recorded ∷ []) then suppressed else [])
    ++ ((if outcome.opt_in_disabled == 0 then [] else opt_in)
        ++ (if leb baseline_tip_threshold (count_errors outcome.results)
              && not outcome.baseline_configured
            then tip
            else []))

-- The results that the human report prints.
unfoldable pub shown_results : Bool → List CheckResult → List CheckResult
shown_results show_passed results =
    keep (λ r. show_passed || not (is_status pass (status r))) results

unfoldable pub human_lines : RunOutcome → Bool → List Text
unfolding shown_results format_result totals_lines notes_lines
human_lines outcome show_passed =
    let shown = shown_results show_passed outcome.results in
    flat_map (λ r. format_result r ∷ [] ∷ []) shown
    ++ (if show_passed
        then []
        else (if length shown == 0
            then (codes "All " ++ (decimal (length outcome.results) ++ codes " checks passed."))
              ∷ []
            else totals_lines outcome.results)
          ++ notes_lines outcome)

-- `resolve_output_format`; `ci` is the value of GITHUB_ACTIONS, where it is set.
unfoldable pub resolve_output_format : Option Text → Option Text → Bool → Text
resolve_output_format ci explicit true = codes "json"
resolve_output_format ci (some format) false = format
resolve_output_format none none false = codes "concise"
resolve_output_format (some value) none false =
    if value == codes "true" then codes "github" else codes "concise"

-- `print_baseline_drift`
unfoldable pub drift_lines : List (Text × Text) → Text → List Text
drift_lines drifted output_format =
    let machine =
      contains (codes "json" ∷ codes "ndjson" ∷ codes "github" ∷ codes "summary" ∷ [])
        output_format in
    let one = length drifted == 1 in
    if length drifted == 0 || machine
    then []
    else (codes "\nNote: "
        ++ (decimal (length drifted)
            ++ (codes " finding"
                ++ ((if one then [] else codes "s")
                    ++ (codes " above "
                        ++ ((if one then codes "has" else codes "have")
                            ++ codes " a baseline entry that no longer matches:"))))))
      ∷ (map (λ (file, code). codes "  " ++ (file ++ (codes "  " ++ code))) drifted
          ++ codes
              "  The baseline records these already, so this is existing debt rather than new.\n  Run 'lanorme baseline status' to confirm, then 'lanorme baseline write' to re-anchor."
            ∷ [])
