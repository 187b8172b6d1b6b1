-- ===== src/Reports.antt =====
-- lanorme/reports.py: what a run prints, as the list of the printed lines.
pub mod Counts
pub mod Github
pub mod Human
use lanorme.Finding.{judge}
use lanorme.Prelude.{
  ℕ, zero, suc, ◌+◌, ◌-◌, ◌*◌, ◌≤◌, ◌<◌, min, String, ◌≡◌, refl, sym, ap, ap₂, ◌∙◌, subst, fun_ext,
  ◌≢◌, ◌↔◌, ◌⊎◌, inl, inr, Bool, true, false, not, ◌&&◌, ◌||◌, false≢true, Option, none, some, List,
  [], ◌∷◌, ◌++◌, map, append-nil, append_assoc, arith, ltb, leb, if◌then◌else◌, tests, Bool-cases,
  Option-cases, Eq, ◌==◌, eq_iff, eq_refl, nat_eq, list_eq, pair_eq, triple_eq, length, keep, any,
  all, count_if, contains, flat_map, length-append, keep-append, keep-keep, count_if-append,
  length-keep-le, length-keep_add, any-append, any-map, length-map, take, drop, get_elem?, Among,
  first, later, any_of_Among, Among-of_any, all_of_Among, contains_of_Among, Among-of_contains,
  Among-append_left, Among-cons, Among-of_keep, Among-of_sort, Among-keep, Among-append_right,
  Among-map, Among-flat_map, Among-of_map, Among-of_append, Among-of_flat_map, reverse,
  Among-reverse, Among-of_reverse, length-reverse, sort, Among-sort, count_if-sort, any-sort,
  sum_by, sum_by-sort, text_leb,
}
use lanorme.Prelude.Dict.{Dict, lookup}
use lanorme.Text.{
  Text, codes, is_space, is_upper, is_digit, is_alnum, upper_char, upper, lstrip, rstrip, strip,
  before, after, words, split, join, starts_with, ends_with, forward_slashes, decimal, base_name,
  dir_name,
}
use lanorme.Finding.{Status, pass, warn, fail, Violation, CheckResult, status, extract_code}
use lanorme.Runner.{RunOutcome}

-- `Status.value`
unfoldable pub status_value : Status → Text
status_value pass = codes "PASS"
status_value warn = codes "WARN"
status_value fail = codes "FAIL"

unfoldable pub format_violation : Text → Violation → Text
format_violation label v =
    codes "  "
    ++ (label
        ++ (codes ": "
            ++ (v.file
                ++ (codes ":"
                    ++ (decimal v.line
                        ++ (codes " — "
                            ++ (v.message
                                ++ (codes "\n    Rule: "
                                    ++ (v.rule ++ (codes "\n    Fix: " ++ v.fix))))))))))

unfoldable pub format_result : CheckResult → Text
unfolding status_value format_violation
format_result result = join (codes "\n") (
    (codes "[" ++ (status_value (status result) ++ (codes "] " ++ result.check)))
    ∷ (map (format_violation (codes "VIOLATION")) result.violations
        ++ (map (format_violation (codes "WARNING")) result.warnings
            ++ (codes "--- "
                ++ (result.check
                    ++ (codes ": "
                        ++ (decimal (length result.violations)
                            ++ (codes " violations, "
                                ++ (decimal (length result.warnings) ++ codes " warnings ---"))))))
              ∷ [])))

-- One record of the JSON formats; `**finding.to_dict()` is kept as the finding.
pub record FindingRecord : Type 0 where
  pub check : Text
  pub severity : Text
  pub finding : Violation
  pub fingerprint : Text

unfoldable pub build_finding_records : (Violation → Text) → CheckResult → List FindingRecord
build_finding_records fingerprint result =
    map
      (λ v. record {
        check = result.check;
        severity = codes "error";
        finding = v;
        fingerprint = fingerprint v;
      })
      result.violations
    ++ map
        (λ v. record {
          check = result.check;
          severity = codes "warning";
          finding = v;
          fingerprint = fingerprint v;
        })
        result.warnings

-- One object of `_emit_json`.
pub record ResultRecord : Type 0 where
  pub check : Text
  pub status : Text
  pub violations : List FindingRecord
  pub warnings : List FindingRecord

unfoldable pub json_payload : (Violation → Text) → List CheckResult → List ResultRecord
unfolding build_finding_records status_value
json_payload fingerprint [] = []
json_payload fingerprint (result ∷ results) =
    let records = build_finding_records fingerprint result in
    record {
      check = result.check;
      status = status_value (status result);
      violations = keep (λ r. r.severity == codes "error") records;
      warnings = keep (λ r. r.severity == codes "warning") records;
    }
    ∷ json_payload fingerprint results

unfoldable pub pluralise : ℕ → Text → Text
pluralise count noun = if count == 1 then noun else noun ++ codes "s"

-- `r.status == Status.PASS`, of any two statuses
abbrev pub is_status : Status → Status → Bool
is_status pass pass = true
is_status warn warn = true
is_status fail fail = true
is_status _ _ = false

unfoldable pub count_status : Status → List CheckResult → ℕ
count_status wanted results = count_if (λ r. is_status wanted (status r)) results

unfoldable pub count_errors : List CheckResult → ℕ
count_errors results = sum_by (λ r. length r.violations) results

unfoldable pub count_advisories : List CheckResult → ℕ
count_advisories results = sum_by (λ r. length r.warnings) results

unfoldable pub totals_lines : List CheckResult → List Text
unfolding count_status count_errors count_advisories pluralise
totals_lines results =
    (codes "Summary: "
      ++ (decimal (length results)
          ++ (codes " checks — "
              ++ (decimal (count_status pass results)
                  ++ (codes " passed, "
                      ++ (decimal (count_status warn results)
                          ++ (codes " warned, "
                              ++ (decimal (count_status fail results) ++ codes " failed."))))))))
    ∷ (codes "Findings: "
        ++ (decimal (count_errors results)
            ++ (codes " "
                ++ (pluralise (count_errors results) (codes "error")
                    ++ (codes " to fix, "
                        ++ (decimal (count_advisories results)
                            ++ (codes " advisory "
                                ++ (pluralise (count_advisories results) (codes "warning")
                                    ++ codes "."))))))))
    ∷ []
