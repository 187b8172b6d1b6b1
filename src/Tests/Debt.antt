-- ===== src/Tests/Debt.antt =====
-- The baseline.
use lanorme.Finding.{count_findings}
use lanorme.Prelude.{
  ◌+◌, ◌-◌, min, ◌≡◌, refl, ◌↔◌, true, some, List, [], ◌∷◌, if◌then◌else◌, nat_eq, list_eq, pair_eq,
  triple_eq, any, Among,
}
use lanorme.Check.{ok}
use lanorme.Runner.{RunOutcome}
use lanorme.CommandLine.{apply_baseline, conclude_run, exit_code, split_csv}
use lanorme.CommandLine.Exit.{fails_after, conclude_run-exit}
use lanorme.Text.{Text, codes, strip, before, words, split, starts_with, forward_slashes}
use lanorme.Prelude.Dict.{lookup, insert}
use lanorme.Finding.{CheckResult, extract_code}
use lanorme.SourceLines.{source_line, pick_line, lines_or_empty}
use lanorme.Baseline.{
  normalise_path, error, Key, Entry, build_key, suppress, load, written, iter_findings, find_stale,
  find_drift, anchor, file_anchor,
}
use lanorme.Baseline.Budget.{matching_all, limit, eligible, suppress-count}
use lanorme.Baseline.RoundTrip.{suppress-written}
use lanorme.Baseline.Staleness.{
  find_stale_iff, find_drift_iff, recorded_keys, HasKey, IsGone, IsUnrecorded,
}
use lanorme.Tests.Fixtures.{finding, dry_result, reading, digest}

abbrev run : List CheckResult
run = dry_result ∷ dry_result ∷ []

abbrev dry_key : Key
dry_key = build_key reading digest (finding "a.py" 2 "DRY-001")

suppress-count_example :
    matching_all reading digest dry_key
        (suppress reading digest (load (written reading digest (dry_result ∷ []))) run)
      + min
          (limit (load (written reading digest (dry_result ∷ []))) dry_key)
          (eligible reading digest dry_key (load (written reading digest (dry_result ∷ []))) run)
    ≡ matching_all reading digest dry_key run
suppress-count_example =
    suppress-count reading digest dry_key (load (written reading digest (dry_result ∷ []))) run

suppress-written_example :
    iter_findings (suppress reading digest (load (written reading digest run)) run) ≡ []
suppress-written_example = suppress-written reading digest run

-- One of two recorded findings is gone from the run, so its key is stale.
abbrev old_debt : List (Key × Entry)
old_debt =
    ((codes "gone.py", codes "DRY-001", file_anchor), record { severity = error; count = 1 })
    ∷ (dry_key, record { severity = error; count = 2 })
    ∷ []

find_stale_iff_example :
    Among (codes "gone.py", codes "DRY-001", file_anchor) (find_stale reading digest old_debt run)
    ↔ (Among (codes "gone.py", codes "DRY-001", file_anchor) (recorded_keys reading digest old_debt)
        × ¬ HasKey reading digest run (codes "gone.py", codes "DRY-001", file_anchor))
find_stale_iff_example =
    find_stale_iff reading digest old_debt run (codes "gone.py", codes "DRY-001", file_anchor)

find_drift_iff_example :
    Among (codes "gone.py", codes "DRY-001") (find_drift reading digest old_debt run) ↔ (
      IsGone reading digest old_debt run (codes "gone.py", codes "DRY-001")
      × IsUnrecorded reading digest old_debt run (codes "gone.py", codes "DRY-001"))
find_drift_iff_example =
    find_drift_iff reading digest old_debt run (codes "gone.py", codes "DRY-001")

-- Two occurrences are recorded: of three, one is reported.
third_is_reported :
    suppress reading digest ((dry_key, record { severity = error; count = 2 }) ∷ []) (
      record {
        check = codes "d";
        violations = finding "a.py" 2 "DRY-001" ∷ finding "a.py" 2 "DRY-001" ∷ [];
        warnings = finding "./a.py" 2 "DRY-001" ∷ [];
      }
      ∷ [])
    ≡ record { check = codes "d"; violations = []; warnings = finding "./a.py" 2 "DRY-001" ∷ [] }
      ∷ []
unfolding suppress lookup insert build_key normalise_path starts_with forward_slashes extract_code
    words before anchor strip source_line pick_line lines_or_empty
third_is_reported = refl

-- The run whose debt is partly recorded, and what the baseline leaves of it.
abbrev ended : RunOutcome
ended = record {
  results = run;
  project_root = codes "p" ∷ [];
  selected = [];
  dropped = [];
  opt_in_disabled = 0;
  baseline_configured = true;
}

abbrev recorded_debt : List (Key × Entry)
recorded_debt = written reading digest (dry_result ∷ [])

abbrev left_over : RunOutcome
left_over = record ended {
  results = suppress reading digest (load recorded_debt) run;
  dropped =
      insert (codes "baseline")
        (count_findings run - count_findings (suppress reading digest (load recorded_debt) run)) [];
}

abbrev moved : List (Text × Text)
moved = find_drift reading digest (load recorded_debt) run

baseline_applied :
    apply_baseline reading digest (some (some recorded_debt)) ended ≡ ok (left_over, moved)
unfolding apply_baseline
baseline_applied = refl

conclude_run-exit_example :
    (final : RunOutcome) × (conclude_run reading digest
        (some (some recorded_debt))
        (codes "DRY" ∷ [])
        []
        ended
      ≡ ok (final, moved))
    × (exit_code final.results
        ≡ (if any (fails_after (codes "DRY" ∷ []) []) left_over.results then 1 else 0))
conclude_run-exit_example =
    conclude_run-exit reading digest (some (some recorded_debt)) (codes "DRY" ∷ []) [] ended
      left_over moved baseline_applied

selectors_read : split_csv (some (codes "DRY-001, ,SIZE")) ≡ codes "DRY-001" ∷ codes "SIZE" ∷ []
unfolding split_csv split strip
selectors_read = refl
