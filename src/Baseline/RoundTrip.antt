-- ===== src/Baseline/RoundTrip.antt =====
-- Writing a baseline and running again: every recorded finding is hidden.
use lanorme.Prelude.{
  ◌+◌, ◌≡◌, refl, ◌∙◌, Bool, true, false, ◌&&◌, ◌||◌, Option, List, [], ◌∷◌, ◌++◌, arith, ◌==◌,
  eq_iff, nat_eq, list_eq, pair_eq, triple_eq, any, count_if, count_if-append, any-append,
}
use lanorme.Prelude.Dict.{Dict, lookup}
use lanorme.Text.{Text}
use lanorme.Finding.{Violation, CheckResult}
use lanorme.Baseline.{
  Tier, error, warning, Key, Entry, is_error, build_key, covers, load, tally_finding, tally_onto,
  build_entries, written, suppress, iter_findings, with_tier, has_file,
}
use lanorme.Baseline.Budget.{
  limit, covered, has_key, matching, matching_all, eligible, suppress-count,
}
use lanorme.Baseline.Ledger.{
  total, has_error, listed, count_at, error_at, present_at, total-record_one, has_error-record_one,
  listed-record_one, count_at-load, error_at-load, present_at-load, total-sort, has_error-sort,
  listed-sort,
}

module _ (read : Text → Option (List Text)) (sha : Text → Text) (key : Key) where
  here : Violation × Tier → Bool
  here (v, _) = build_key read sha v == key

  error_here : Violation × Tier → Bool
  unfolding here
  error_here (v, tier) = build_key read sha v == key && is_error tier

  total-tally :
      (d : Dict Key Entry) (fs : List (Violation × Tier))
      → total key (tally_onto read sha d fs) ≡ total key d + count_if here fs
  unfolding tally_onto tally_finding here
  total-tally d [] = omega arith
  total-tally d ((v, tier) ∷ fs) = ground (
    arith,
    total-tally (tally_finding read sha d (v, tier)) fs,
    total-record_one key d (build_key read sha v) (record { severity = tier; count = 1 }),
  )

  has_error-tally :
      (d : Dict Key Entry) (fs : List (Violation × Tier))
      → has_error key (tally_onto read sha d fs) ≡ (has_error key d || any error_here fs)
  unfolding tally_onto tally_finding error_here
  has_error-tally d [] = ground arith
  has_error-tally d ((v, tier) ∷ fs) = ground (
    arith,
    has_error-tally (tally_finding read sha d (v, tier)) fs,
    has_error-record_one key d (build_key read sha v) (record { severity = tier; count = 1 }),
  )

  listed-tally :
      (d : Dict Key Entry) (fs : List (Violation × Tier))
      → listed key (tally_onto read sha d fs) ≡ (listed key d || any here fs)
  unfolding tally_onto tally_finding here
  listed-tally d [] = ground arith
  listed-tally d ((v, tier) ∷ fs) = ground (
    arith,
    listed-tally (tally_finding read sha d (v, tier)) fs,
    listed-record_one key d (build_key read sha v) (record { severity = tier; count = 1 }),
  )

  count_if-with_tier :
      (tier : Tier) (vs : List Violation)
      → count_if here (with_tier tier vs) ≡ matching read sha key vs
  unfolding with_tier has_file here matching has_key
  count_if-with_tier tier [] = refl
  count_if-with_tier tier (v ∷ vs) = ground (arith, count_if-with_tier tier vs)

  matching_of_none :
      (tier : Tier) (vs : List Violation)
      → any here (with_tier tier vs) ≡ false
      → matching read sha key vs ≡ 0
  unfolding with_tier has_file here matching has_key
  matching_of_none tier [] h = refl
  matching_of_none tier (v ∷ vs) h = ground (arith, matching_of_none tier vs)

  matching_of_no_error :
      (vs : List Violation)
      → any error_here (with_tier error vs) ≡ false
      → matching read sha key vs ≡ 0
  unfolding with_tier has_file error_here matching has_key is_error
  matching_of_no_error [] h = refl
  matching_of_no_error (v ∷ vs) h = ground (arith, matching_of_no_error vs)

  count_if-iter_findings :
      (results : List CheckResult)
      → count_if here (iter_findings results) ≡ matching_all read sha key results
  unfolding iter_findings matching_all
  count_if-iter_findings [] = refl
  count_if-iter_findings (r ∷ results) =
      rw
        (
          count_if-append here (with_tier error r.violations),
          count_if-append here (with_tier warning r.warnings),
          count_if-with_tier error r.violations,
          count_if-with_tier warning r.warnings,
          count_if-iter_findings results,
        )
        (omega arith)

  eligible_of_recorded :
      (entries : Dict Key Entry) (results : List CheckResult)
      → (any error_here (iter_findings results) ≡ true → covered entries key error ≡ true)
      → (any here (iter_findings results) ≡ true → covered entries key warning ≡ true)
      → eligible read sha key entries results ≡ matching_all read sha key results
  unfolding iter_findings eligible matching_all
  eligible_of_recorded entries [] f g = refl
  eligible_of_recorded entries (r ∷ results) f g = ground (
    arith,
    any-append error_here (with_tier error r.violations)
        (with_tier warning r.warnings ++ iter_findings results),
    any-append error_here (with_tier warning r.warnings) (iter_findings results),
    any-append here (with_tier error r.violations)
        (with_tier warning r.warnings ++ iter_findings results),
    any-append here (with_tier warning r.warnings) (iter_findings results),
    matching_of_no_error r.violations,
    matching_of_none warning r.warnings,
    eligible_of_recorded entries results,
  )

  limit-count_at : (d : Dict Key Entry) → limit d key ≡ count_at key (lookup key d)
  unfolding limit count_at
  limit-count_at d = ground arith

  covered-error_at : (d : Dict Key Entry) → covered d key error ≡ error_at key (lookup key d)
  unfolding covered covers error_at is_error
  covered-error_at d = ground arith

  covered-present_at : (d : Dict Key Entry) → covered d key warning ≡ present_at key (lookup key d)
  unfolding covered covers present_at is_error
  covered-present_at d = ground arith

  recorded : List CheckResult → Dict Key Entry
  recorded results = load (written read sha results)

  limit-recorded :
      (results : List CheckResult)
      → limit (recorded results) key ≡ matching_all read sha key results
  unfolding recorded load written build_entries total count_at lookup
  limit-recorded results =
      let sorted : total key (written read sha results)
          ≡ total key (build_entries read sha results) =
        total-sort key _ (build_entries read sha results) in
      omega (
        arith,
        limit-count_at (recorded results),
        count_at-load key [] (written read sha results),
        sorted,
        total-tally [] (iter_findings results),
        count_if-iter_findings results,
      )

  covered-recorded_error :
      (results : List CheckResult)
      → covered (recorded results) key error ≡ any error_here (iter_findings results)
  unfolding recorded load written build_entries has_error error_at lookup
  covered-recorded_error results =
      covered-error_at _
      ∙ (error_at-load key [] (written read sha results)
          ∙ (has_error-sort key _ (build_entries read sha results)
              ∙ has_error-tally [] (iter_findings results)))

  covered-recorded_warning :
      (results : List CheckResult)
      → covered (recorded results) key warning ≡ any here (iter_findings results)
  unfolding recorded load written build_entries listed present_at lookup
  covered-recorded_warning results =
      covered-present_at _
      ∙ (present_at-load key [] (written read sha results)
          ∙ (listed-sort key _ (build_entries read sha results)
              ∙ listed-tally [] (iter_findings results)))

  matching-recorded :
      (results : List CheckResult)
      → matching_all read sha key (suppress read sha (recorded results) results) ≡ 0
  matching-recorded results =
      let all_eligible : eligible read sha key (recorded results) results
          ≡ matching_all read sha key results =
        eligible_of_recorded (recorded results) results (λ h. covered-recorded_error results ∙ h)
          (λ h. covered-recorded_warning results ∙ h) in
      omega (
        arith,
        suppress-count read sha key (recorded results) results,
        limit-recorded results,
        all_eligible,
      )

-- No finding with a file is left where no key has a match.
module _ (read : Text → Option (List Text)) (sha : Text → Text) where
  with_tier-eq-nil :
      (tier : Tier) (vs : List Violation)
      → ((key : Key) → matching read sha key vs ≡ 0)
      → with_tier tier vs ≡ []
  unfolding with_tier has_file matching has_key
  with_tier-eq-nil tier [] h = refl
  with_tier-eq-nil tier (v ∷ vs) h =
      let rest : with_tier tier vs ≡ [] = with_tier-eq-nil tier vs (λ key. ground (arith, h key)) in
      ground (
        arith,
        rest,
        h (build_key read sha v),
        eq_iff (build_key read sha v) (build_key read sha v),
      )

  iter_findings-eq-nil :
      (results : List CheckResult)
      → ((key : Key) → matching_all read sha key results ≡ 0)
      → iter_findings results ≡ []
  unfolding iter_findings matching_all
  iter_findings-eq-nil [] h = refl
  iter_findings-eq-nil (r ∷ results) h =
      rw
        (
          with_tier-eq-nil error r.violations (λ key. omega (arith, h key)),
          with_tier-eq-nil warning r.warnings (λ key. omega (arith, h key)),
        )
        (iter_findings-eq-nil results (λ key. omega (arith, h key)))

  -- A baseline that a run writes hides every finding of that run that has a file, of both tiers:
  -- after `write` the same run reports none. (A crash notice has no file and is never hidden.)
  pub suppress-written :
      (results : List CheckResult)
      → iter_findings (suppress read sha (load (written read sha results)) results) ≡ []
  unfolding recorded
  suppress-written results = iter_findings-eq-nil _ (λ key. matching-recorded read sha key results)
