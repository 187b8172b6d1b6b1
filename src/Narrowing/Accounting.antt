-- ===== src/Narrowing/Accounting.antt =====
-- Where every finding of a run goes: reported, or counted against the stage that dropped it.
use native.Mathlib.Nat.{add-zero}
use lanorme.Narrowing.{relocate}
use lanorme.Narrowing.{target_filter}
use lanorme.Prelude.{
  ℕ, ◌+◌, ◌-◌, ◌≤◌, ◌≡◌, refl, ◌∙◌, Bool, Option, none, some, List, [], ◌∷◌, ◌++◌, map, arith,
  nat_eq, list_eq, pair_eq, triple_eq, length-keep-le, length-map,
}
use lanorme.Prelude.Dict.{Dict}
use lanorme.Text.{Text, codes}
use lanorme.FilePath.{FilePath, FileSystem}
use lanorme.Finding.{Violation, CheckResult, filter_findings, count_findings}
use lanorme.Narrowing.{
  Narrowing, Narrowed, run_stage, reanchor, reanchor_results, relocate_result, apply,
}

count_findings-filter_le :
    (p : Violation → Bool) (results : List CheckResult)
    → count_findings (map (filter_findings p) results) ≤ count_findings results
unfolding count_findings filter_findings
count_findings-filter_le p [] = omega arith
count_findings-filter_le p (r ∷ results) = omega (
  arith,
  length-keep-le p r.violations,
  length-keep-le p r.warnings,
  count_findings-filter_le p results,
)

count_findings-relocate :
    (from to : FilePath) (results : List CheckResult)
    → count_findings (map (relocate_result from to) results) ≡ count_findings results
unfolding count_findings relocate_result
count_findings-relocate from to [] = refl
count_findings-relocate from to (r ∷ results) = omega (
  arith,
  length-map r.violations (relocate from to),
  length-map r.warnings (relocate from to),
  count_findings-relocate from to results,
)

count_findings-reanchor :
    (from to : FilePath) (results : List CheckResult)
    → count_findings (reanchor_results from to results) ≡ count_findings results
unfolding reanchor_results
count_findings-reanchor from to results = ground (arith, count_findings-relocate from to results)

-- The findings that some stage dropped.
pub total_dropped : Dict Text ℕ → ℕ
total_dropped [] = 0
total_dropped ((_, n) ∷ dropped) = n + total_dropped dropped

total_dropped-snoc :
    (dropped : Dict Text ℕ) (stage : Text) (k : ℕ)
    → total_dropped (dropped ++ (stage, k) ∷ []) ≡ total_dropped dropped + k
unfolding total_dropped
total_dropped-snoc [] stage k = omega arith
total_dropped-snoc ((_, j) ∷ dropped) stage k = omega (arith, total_dropped-snoc dropped stage k)

-- Reported and dropped findings together.
abbrev accounted : Narrowed → ℕ
accounted m = count_findings m.results + total_dropped m.dropped

run_stage-accounted :
    (stage : Text) (p : Option (Violation → Bool)) (m : Narrowed)
    → accounted (run_stage stage p m) ≡ accounted m
unfolding run_stage
run_stage-accounted stage none m = omega (arith, total_dropped-snoc m.dropped stage 0)
run_stage-accounted stage (some p) m =
    let k : ℕ = count_findings m.results - count_findings (map (filter_findings p) m.results) in
    omega (arith, total_dropped-snoc m.dropped stage k, count_findings-filter_le p m.results)

module _ (fs : FileSystem) (read : Text → Option (List Text)) (n : Narrowing) where
  reanchor-accounted : (m : Narrowed) → accounted (reanchor fs read n m) ≡ accounted m
  unfolding reanchor
  reanchor-accounted m = omega (arith, count_findings-reanchor _ _ m.results)

  -- Every finding that the checks produced is either reported or counted as dropped by exactly one
  -- stage: the two add up to what came in.
  pub apply-count :
      (results : List CheckResult)
      → count_findings (apply fs read n results).results
          + total_dropped (apply fs read n results).dropped
        ≡ count_findings results
  unfolding apply total_dropped
  apply-count results =
      run_stage-accounted _ _ _
      ∙ (run_stage-accounted _ _ _
          ∙ (run_stage-accounted _ _ _
              ∙ (run_stage-accounted _ _ _
                  ∙ (reanchor-accounted _
                      ∙ (run_stage-accounted (codes "targets") (target_filter fs read n n.targets)
                            (record { results = results; dropped = [] })
                          ∙ add-zero (count_findings results))))))
