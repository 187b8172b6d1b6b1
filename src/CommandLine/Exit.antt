-- ===== src/CommandLine/Exit.antt =====
-- When a run ends with exit code 1.
use lanorme.Prelude.{
  ◌≡◌, refl, ap, ap₂, ◌∙◌, inl, inr, Bool, false, not, ◌||◌, Option, List, [], ◌∷◌, ◌++◌, map,
  arith, if◌then◌else◌, Bool-cases, nat_eq, list_eq, pair_eq, triple_eq, keep, any,
}
use lanorme.Text.{Text}
use lanorme.Finding.{fail, Violation, CheckResult, status, judge}
use lanorme.Check.{ok}
use lanorme.Promotion.{apply_promotions, promote_result, escalates, is_promoted, mark_promoted}
use lanorme.Selectors.{is_code_matched, wanted_selectors}
use lanorme.Baseline.{Key, Entry}
use lanorme.Runner.{RunOutcome}
use lanorme.Reports.{is_status}
use lanorme.CommandLine.{apply_baseline, conclude_run, exit_code}

-- The result fails, or a warning of it is escalated.
abbrev pub fails_after : List Text → List Text → CheckResult → Bool
fails_after promote advisory r =
    is_status fail (status r) || any (escalates promote advisory) r.warnings

escalates-nil : (advisory : List Text) (w : Violation) → escalates [] advisory w ≡ false
unfolding escalates is_promoted is_code_matched wanted_selectors
escalates-nil advisory w = ground arith

no_violations : (ws : List Violation) → is_status fail (judge [] ws) ≡ false
unfolding judge
no_violations [] = refl
no_violations (w ∷ ws) = refl

judge-moved :
    (p : Violation → Bool) (f : Violation → Violation) (vs ws rest : List Violation)
    → is_status fail (judge (vs ++ map f (keep p ws)) rest)
      ≡ (is_status fail (judge vs ws) || any p ws)
unfolding judge
judge-moved p f (v ∷ vs) ws rest = refl
judge-moved p f [] [] [] = refl
judge-moved p f [] [] (x ∷ rest) = refl
judge-moved p f [] (w ∷ ws) rest = elim (Bool-cases (p w)) [
  | inl taken ↦ rw taken refl
  | inr left ↦ rw left (judge-moved p f [] ws rest ∙ ap (λ b. b || any p ws) (no_violations ws))
]

any-promoted :
    (promote advisory : List Text) (results : List CheckResult)
    → any (λ r. is_status fail (status r)) (map (promote_result promote advisory) results)
      ≡ any (fails_after promote advisory) results
unfolding promote_result status
any-promoted promote advisory [] = refl
any-promoted promote advisory (r ∷ results) =
    ap₂ ◌||◌
      (judge-moved (escalates promote advisory) mark_promoted r.violations r.warnings
        (keep (λ w. not (escalates promote advisory w)) r.warnings))
      (any-promoted promote advisory results)

any_none : (advisory : List Text) (ws : List Violation) → any (escalates [] advisory) ws ≡ false
any_none advisory [] = refl
any_none advisory (w ∷ ws) = rw (escalates-nil advisory w) (any_none advisory ws)

any-unpromoted :
    (advisory : List Text) (results : List CheckResult)
    → any (λ r. is_status fail (status r)) results ≡ any (fails_after [] advisory) results
any-unpromoted advisory [] = refl
any-unpromoted advisory (r ∷ results) =
    ap₂ ◌||◌ (ground (arith, any_none advisory r.warnings)) (any-unpromoted advisory results)

any-applied :
    (promote advisory : List Text) (results : List CheckResult)
    → any (λ r. is_status fail (status r)) (apply_promotions results promote advisory)
      ≡ any (fails_after promote advisory) results
unfolding apply_promotions
any-applied [] advisory results = any-unpromoted advisory results
any-applied (p ∷ promote) advisory results = any-promoted (p ∷ promote) advisory results

-- Where the baseline applies, the run goes on to a last outcome, and its exit code is 1 exactly if
-- some result that the baseline left fails, or a warning that it left is escalated.
pub conclude_run-exit :
    (read : Text → Option (List Text)) (sha : Text → Text)
    (recorded : Option (Option (List (Key × Entry)))) (promote advisory : List Text)
    (outcome narrowed : RunOutcome) (drift : List (Text × Text))
    → apply_baseline read sha recorded outcome ≡ ok (narrowed, drift)
    → (final : RunOutcome) × (conclude_run read sha recorded promote advisory outcome
        ≡ ok (final, drift))
      × (exit_code final.results
          ≡ (if any (fails_after promote advisory) narrowed.results then 1 else 0))
unfolding conclude_run exit_code
conclude_run-exit read sha recorded promote advisory outcome narrowed drift h = (
  record narrowed { results = apply_promotions narrowed.results promote advisory },
  rw (conclude_run, h) refl,
  ap (λ b. if b then 1 else 0) (any-applied promote advisory narrowed.results),
)
