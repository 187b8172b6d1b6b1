-- ===== src/MetaCheck/Clean.antt =====
-- When the audit finds nothing.
use lanorme.Prelude.{
  ◌≡◌, refl, sym, ap, ap₂, ◌∙◌, inl, inr, Bool, true, false, not, ◌&&◌, ◌||◌, Option, none, some,
  List, [], ◌∷◌, ◌++◌, arith, Bool-cases, ◌==◌, nat_eq, list_eq, pair_eq, triple_eq, any, all,
  flat_map, sort, any-sort, text_leb,
}
use lanorme.Text.{Text, codes}
use lanorme.Prelude.Dict.{Dict, lookup}
use lanorme.Finding.{Violation, CheckResult}
use lanorme.Check.{CheckApi}
use lanorme.MetaCheck.{
  is_blank, validate_name, validate_description, validate_rules, validate_result_check_name,
  validate_field, validate_violation_fields, collect_result_violations, collect_static_violations,
  audit_result, audit_one, audit_checks, meta_name,
}

-- No required field is blank.
abbrev pub is_complete : Violation → Bool
is_complete v =
    not (is_blank v.file)
    && (not (is_blank v.rule) && (not (is_blank v.message) && not (is_blank v.fix)))

-- The result carries the check's name and its findings are complete.
abbrev pub is_clean_result : Text → CheckResult → Bool
is_clean_result name result =
    result.check == name && (all is_complete result.violations && all is_complete result.warnings)

abbrev pub is_nil : {A : Type 0} → List A → Bool
is_nil [] = true
is_nil (_ ∷ _) = false

is_nil-append : {A : Type 0} (xs ys : List A) → is_nil (xs ++ ys) ≡ (is_nil xs && is_nil ys)
is_nil-append [] ys = refl
is_nil-append (x ∷ xs) ys = refl

is_nil-flat_map :
    {A B : Type 0} (f : A → List B) (p : A → Bool) (xs : List A)
    → ((x : A) → is_nil (f x) ≡ p x)
    → is_nil (flat_map f xs) ≡ all p xs
is_nil-flat_map f p [] h = refl
is_nil-flat_map f p (x ∷ xs) h =
    is_nil-append (f x) (flat_map f xs) ∙ ap₂ ◌&&◌ (h x) (is_nil-flat_map f p xs h)

is_nil-validate_field :
    (name source field_name value : Text)
    → is_nil (validate_field name source field_name value) ≡ not (is_blank value)
unfolding validate_field
is_nil-validate_field name source field_name value = elim (Bool-cases (is_blank value)) [
  | inl blank ↦ rw (validate_field, blank) refl
  | inr filled ↦ rw (validate_field, filled) refl
]

is_nil-validate_violation_fields :
    (name source : Text) (v : Violation)
    → is_nil (validate_violation_fields name source v) ≡ is_complete v
unfolding validate_violation_fields
is_nil-validate_violation_fields name source v =
    let one : Text → Text → List Violation = λ n value. validate_field name source n value in
    let file = one (codes "file") v.file in
    let rule = one (codes "rule") v.rule in
    let message = one (codes "message") v.message in
    let fix = one (codes "fix") v.fix in
    is_nil-append file (rule ++ (message ++ fix))
    ∙ ap₂ ◌&&◌ (is_nil-validate_field name source (codes "file") v.file) (
        is_nil-append rule (message ++ fix)
        ∙ ap₂ ◌&&◌ (is_nil-validate_field name source (codes "rule") v.rule) (
            is_nil-append message fix
            ∙ ap₂ ◌&&◌ (is_nil-validate_field name source (codes "message") v.message)
                (is_nil-validate_field name source (codes "fix") v.fix)))

is_nil-validate_result_check_name :
    (name : Text) (result : CheckResult)
    → is_nil (validate_result_check_name name result) ≡ (result.check == name)
unfolding validate_result_check_name
is_nil-validate_result_check_name name result = elim (Bool-cases (result.check == name)) [
  | inl same ↦ rw (validate_result_check_name, same) refl
  | inr other ↦ rw (validate_result_check_name, other) refl
]

is_nil-collect_result_violations :
    (name : Text) (result : CheckResult)
    → is_nil (collect_result_violations name result) ≡ is_clean_result name result
unfolding collect_result_violations
is_nil-collect_result_violations name result =
    let errors = flat_map (validate_violation_fields name (codes "violation")) result.violations in
    let advisories = flat_map (validate_violation_fields name (codes "warning")) result.warnings in
    is_nil-append (validate_result_check_name name result) (errors ++ advisories)
    ∙ ap₂ ◌&&◌ (is_nil-validate_result_check_name name result) (
        is_nil-append errors advisories
        ∙ ap₂ ◌&&◌
            (is_nil-flat_map (validate_violation_fields name (codes "violation")) is_complete
              result.violations (is_nil-validate_violation_fields name (codes "violation")))
            (is_nil-flat_map (validate_violation_fields name (codes "warning")) is_complete
              result.warnings (is_nil-validate_violation_fields name (codes "warning"))))

is_nil-validate_name : (name : Text) → is_nil (validate_name name) ≡ not (is_blank name)
unfolding validate_name
is_nil-validate_name name = elim (Bool-cases (is_blank name)) [
  | inl blank ↦ rw (validate_name, blank) refl
  | inr filled ↦ rw (validate_name, filled) refl
]

is_nil-validate_description :
    (name description : Text)
    → is_nil (validate_description name description) ≡ not (is_blank description)
unfolding validate_description
is_nil-validate_description name description = elim (Bool-cases (is_blank description)) [
  | inl blank ↦ rw (validate_description, blank) refl
  | inr filled ↦ rw (validate_description, filled) refl
]

is_nil-validate_rules :
    (name : Text) (rules : List Text) → is_nil (validate_rules name rules) ≡ not (rules == [])
unfolding validate_rules
is_nil-validate_rules name [] = refl
is_nil-validate_rules name (r ∷ rules) = refl

module _ {A : Type 0} where
  all_as_any : (p : A → Bool) (xs : List A) → all p xs ≡ not (any (λ x. not (p x)) xs)
  all_as_any p [] = refl
  all_as_any p (x ∷ xs) = ground (arith, all_as_any p xs)

  all-sort : (le : A → A → Bool) (p : A → Bool) (xs : List A) → all p (sort le xs) ≡ all p xs
  all-sort le p xs =
      all_as_any p (sort le xs) ∙ (ap not (any-sort le (λ x. not (p x)) xs) ∙ sym (all_as_any p xs))

module _ (api : CheckApi) where
  open api use {Check, name, description, rules}

  abbrev pub is_declared : Check → Bool
  is_declared check =
      not (is_blank (name check)) && (not (is_blank (description check)) && not (rules check == []))

  abbrev pub is_clean_if_any : Check → Option CheckResult → Bool
  is_clean_if_any check none = true
  is_clean_if_any check (some result) = is_clean_result (name check) result

  -- What the audit asks of a registered check and of its result, if it has one.
  abbrev pub is_clean_check : Dict Text CheckResult → Text × Check → Bool
  is_clean_check results (n, check) =
      n == meta_name || (is_declared check && is_clean_if_any check (lookup n results))

  is_nil-collect_static_violations :
      (check : Check) → is_nil (collect_static_violations api check) ≡ is_declared check
  unfolding collect_static_violations
  is_nil-collect_static_violations check =
      is_nil-append (validate_name (name check)) (
        validate_description (name check) (description check)
        ++ validate_rules (name check) (rules check))
      ∙ ap₂ ◌&&◌ (is_nil-validate_name (name check)) (
          is_nil-append (validate_description (name check) (description check))
            (validate_rules (name check) (rules check))
          ∙ ap₂ ◌&&◌ (is_nil-validate_description (name check) (description check))
              (is_nil-validate_rules (name check) (rules check)))

  is_nil-audit_result :
      (check : Check) (o : Option CheckResult)
      → is_nil (audit_result api check o) ≡ is_clean_if_any check o
  unfolding audit_result
  is_nil-audit_result check none = refl
  is_nil-audit_result check (some result) = is_nil-collect_result_violations (name check) result

  is_nil-audit_one :
      (results : Dict Text CheckResult) (entry : Text × Check)
      → is_nil (audit_one api results entry) ≡ is_clean_check results entry
  unfolding audit_one
  is_nil-audit_one results (n, check) = elim (Bool-cases (n == meta_name)) [
    | inl self ↦ rw (audit_one, self) refl
    | inr other ↦
        rw (audit_one, other)
          (is_nil-append (collect_static_violations api check)
              (audit_result api check (lookup n results))
            ∙ ap₂ ◌&&◌ (is_nil-collect_static_violations check)
                (is_nil-audit_result check (lookup n results)))
  ]

  -- The audit has nothing to report exactly if every other registered check has a name and a
  -- description that are not blank and some rule, and its result, where there is one, carries its
  -- name and findings whose file, rule, message and fix are not blank.
  pub audit_checks-clean :
      (checks : Dict Text Check) (results : Dict Text CheckResult)
      → is_nil (audit_checks api checks results).violations ≡ all (is_clean_check results) checks
  unfolding audit_checks
  audit_checks-clean checks results =
      is_nil-flat_map (audit_one api results) (is_clean_check results)
        (sort (λ (n, _) (m, _). text_leb n m) checks) (is_nil-audit_one results)
      ∙ all-sort (λ (n, _) (m, _). text_leb n m) (is_clean_check results) checks
