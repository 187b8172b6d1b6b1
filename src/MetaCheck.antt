-- ===== src/MetaCheck.antt =====
-- lanorme/checks/meta.py: the audit of the other checks and of what they returned.
pub mod Clean
use lanorme.Prelude.{
  ℕ, zero, suc, ◌+◌, ◌-◌, ◌*◌, ◌≤◌, ◌<◌, min, String, ◌≡◌, refl, sym, ap, ap₂, ◌∙◌, subst, fun_ext,
  ◌≢◌, ◌↔◌, ◌⊎◌, inl, inr, Bool, true, false, not, ◌&&◌, ◌||◌, false≢true, Option, none, some, List,
  [], ◌∷◌, ◌++◌, map, append-nil, append_assoc, arith, ltb, leb, if◌then◌else◌, tests, Bool-cases,
  Option-cases, Eq, ◌==◌, eq_iff, eq_refl, nat_eq, list_eq, pair_eq, triple_eq, length, keep, any,
  all, count_if, contains, flat_map, length-append, keep-append, keep-keep, count_if-append,
  length-keep-le, length-keep_add, any-append, any-map, length-map, take, drop, get_elem?, Among,
  first, later, any_of_Among, Among-of_any, all_of_Among, contains_of_Among, Among-of_contains,
  Among-append_left, Among-cons, Among-of_keep, Among-of_sort, Among-keep, Among-append_right,
  Among-map, Among-flat_map, Among-of_map, Among-of_append, Among-of_flat_map, reverse,
  Among-reverse, Among-of_reverse, length-reverse, sort, Among-sort, count_if-sort, any-sort,
  sum_by, sum_by-sort, text_leb,
}
use lanorme.Text.{
  Text, codes, is_space, is_upper, is_digit, is_alnum, upper_char, upper, lstrip, rstrip, strip,
  before, after, words, split, join, starts_with, ends_with, forward_slashes, decimal, base_name,
  dir_name,
}
use lanorme.Prelude.Dict.{Dict, lookup}
use lanorme.Finding.{Violation, CheckResult}
use lanorme.Scan.{Scan}
use lanorme.Check.{CheckApi, Result, ok, err, ◌>>=◌, run_check}

-- `not value or not value.strip()`
unfoldable pub is_blank : Text → Bool
is_blank value = strip value == []

-- A finding of the audit: no line, no span.
unfoldable pub audit_finding : Text → Text → Text → Text → Violation
audit_finding file rule message fix = record {
  file = file;
  line = 0;
  rule = rule;
  message = message;
  fix = fix;
  column = none;
  end_line = none;
  end_column = none;
  promoted = false;
}

quoted : Text → Text
quoted name = codes "Check '" ++ (name ++ codes "'")

file_of : Text → Text
file_of name = codes "checks/ (" ++ (name ++ codes ")")

unfoldable pub validate_name : Text → List Violation
unfolding is_blank audit_finding
validate_name name =
    if is_blank name
    then audit_finding (codes "checks/") (codes "META-001: Check must have a non-empty name")
        (codes "Registered check has an empty or missing name")
        (codes "Set a non-empty `name` attribute on the check class")
      ∷ []
    else []

unfoldable pub validate_description : Text → Text → List Violation
unfolding is_blank audit_finding quoted file_of
validate_description name description =
    if is_blank description
    then audit_finding (file_of name) (codes "META-002: Check must have a non-empty description")
        (quoted name ++ codes " has an empty or missing description")
        (codes "Set a non-empty `description` attribute on the check class")
      ∷ []
    else []

unfoldable pub validate_rules : Text → List Text → List Violation
unfolding audit_finding quoted file_of
validate_rules name (_ ∷ _) = []
validate_rules name [] =
    audit_finding (file_of name) (codes "META-003: Check must have a non-empty rules list")
      (quoted name ++ codes " has an empty rules list")
      (codes "Add at least one rule string to the `rules` list")
    ∷ []

unfoldable pub validate_result_check_name : Text → CheckResult → List Violation
unfolding audit_finding quoted file_of
validate_result_check_name name result =
    if result.check == name
    then []
    else audit_finding (file_of name)
        (codes "META-004: CheckResult.check must match the check's name")
        (quoted name
          ++ (codes " returned a CheckResult with check='"
              ++ (result.check ++ (codes "' (expected '" ++ (name ++ codes "')")))))
        (codes "Return CheckResult(check=self.name, ...) from the check() method")
      ∷ []

-- One required field of a finding, by its name and its value.
unfoldable pub validate_field : Text → Text → Text → Text → List Violation
unfolding is_blank audit_finding quoted file_of
validate_field name source field_name value =
    if is_blank value
    then audit_finding (file_of name)
        (codes "META-005: Violations must have non-empty file, rule, message, and fix")
        (quoted name
          ++ (codes " produced a "
              ++ (source ++ (codes " with empty '" ++ (field_name ++ codes "' field")))))
        (codes "Ensure all Violation instances have a non-empty `" ++ (field_name ++ codes "`"))
      ∷ []
    else []

unfoldable pub validate_violation_fields : Text → Text → Violation → List Violation
unfolding validate_field
validate_violation_fields name source finding =
    validate_field name source (codes "file") finding.file
    ++ (validate_field name source (codes "rule") finding.rule
        ++ (validate_field name source (codes "message") finding.message
            ++ validate_field name source (codes "fix") finding.fix))

unfoldable pub collect_result_violations : Text → CheckResult → List Violation
unfolding validate_result_check_name validate_violation_fields
collect_result_violations name result =
    validate_result_check_name name result
    ++ (flat_map (validate_violation_fields name (codes "violation")) result.violations
        ++ flat_map (validate_violation_fields name (codes "warning")) result.warnings)

-- The name of the meta check.
unfoldable pub meta_name : Text
meta_name = codes "meta"

module _ (api : CheckApi) where
  open api use {Check, name, description, rules}

  unfoldable pub collect_static_violations : Check → List Violation
  unfolding validate_name validate_description validate_rules
  collect_static_violations check =
      validate_name (name check)
      ++ (validate_description (name check) (description check)
          ++ validate_rules (name check) (rules check))

  unfoldable pub audit_result : Check → Option CheckResult → List Violation
  unfolding collect_result_violations
  audit_result check none = []
  audit_result check (some result) = collect_result_violations (name check) result

  -- What the audit says of one registered check.
  unfoldable pub audit_one : Dict Text CheckResult → Text × Check → List Violation
  unfolding collect_static_violations audit_result
  audit_one results (n, check) =
      if n == meta_name
      then []
      else collect_static_violations check ++ audit_result check (lookup n results)

  -- `MetaCheck.audit`
  unfoldable pub audit_checks : Dict Text Check → Dict Text CheckResult → CheckResult
  unfolding audit_one
  audit_checks checks results = record {
    check = meta_name;
    violations = flat_map (audit_one results) (sort (λ (n, _) (m, _). text_leb n m) checks);
    warnings = [];
  }

  -- The results that a standalone run makes first.
  unfoldable pub other_results : Dict Text Check → Scan → Result (Dict Text CheckResult)
  other_results [] scan = ok []
  other_results ((n, check) ∷ checks) scan =
      let rest = other_results checks scan in
      if n == meta_name
      then rest
      else run_check api check scan >>= (λ result. rest >>= (λ more. ok ((n, result) ∷ more)))

  -- `MetaCheck.check`
  unfoldable pub meta_check : Dict Text Check → Scan → Result CheckResult
  unfolding other_results audit_checks
  meta_check checks scan =
      other_results checks scan >>= (λ results. ok (audit_checks checks results))
