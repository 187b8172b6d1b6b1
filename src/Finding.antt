-- ===== src/Finding.antt =====
-- lanorme/__init__.py: findings, the result of one check, and the rule codes in them.
pub mod Codes
use lanorme.Prelude.{
  ℕ, zero, suc, ◌+◌, ◌-◌, ◌*◌, ◌≤◌, ◌<◌, min, String, ◌≡◌, refl, sym, ap, ap₂, ◌∙◌, subst, fun_ext,
  ◌≢◌, ◌↔◌, ◌⊎◌, inl, inr, Bool, true, false, not, ◌&&◌, ◌||◌, false≢true, Option, none, some, List,
  [], ◌∷◌, ◌++◌, map, append-nil, append_assoc, arith, ltb, leb, if◌then◌else◌, tests, Bool-cases,
  Option-cases, Eq, ◌==◌, eq_iff, eq_refl, nat_eq, list_eq, pair_eq, triple_eq, length, keep, any,
  all, count_if, contains, flat_map, length-append, keep-append, keep-keep, count_if-append,
  length-keep-le, length-keep_add, any-append, any-map, length-map, take, drop, get_elem?, Among,
  first, later, any_of_Among, Among-of_any, all_of_Among, contains_of_Among, Among-of_contains,
  Among-append_left, Among-cons, Among-of_keep, Among-of_sort, Among-keep, Among-append_right,
  Among-map, Among-flat_map, Among-of_map, Among-of_append, Among-of_flat_map, reverse,
  Among-reverse, Among-of_reverse, length-reverse, sort, Among-sort, count_if-sort, any-sort,
  sum_by, sum_by-sort, text_leb,
}
use lanorme.Prelude.Dict.{Dict, lookup, insert}
use lanorme.Text.{
  Text, codes, is_space, is_upper, is_digit, is_alnum, upper_char, upper, lstrip, rstrip, strip,
  before, after, words, split, join, starts_with, ends_with, forward_slashes, decimal, base_name,
  dir_name,
}
use lanorme.Text.Laws.{head_or_empty}

pub data Status : Type 0 where
  pass warn fail : Status

pub record Violation : Type 0 where
  pub file : Text
  pub line : ℕ
  pub rule : Text
  pub message : Text
  pub fix : Text
  pub column : Option ℕ
  pub end_line : Option ℕ
  pub end_column : Option ℕ
  pub promoted : Bool

pub data Extent : Type 0 where
  span whole_file single_line : Extent

is_none : Option ℕ → Bool
is_none none = true
is_none (some _) = false

-- `Violation.scope`
unfoldable pub scope : Violation → Extent
unfolding is_none
scope v =
    if not (is_none v.end_line)
    then span
    else if leb v.line 1 && is_none v.column
    then whole_file
    else single_line

-- The head of a rule string; `head[0] if head else ""`.
unfoldable pub extract_code : Text → Text
extract_code rule = head_or_empty (words (before b':' rule))

pub record CheckResult : Type 0 where
  pub check : Text
  pub violations : List Violation
  pub warnings : List Violation

unfoldable pub judge : List Violation → List Violation → Status
judge (_ ∷ _) _ = fail
judge [] (_ ∷ _) = warn
judge [] [] = pass

-- `CheckResult.status`, derived from the findings and never stored.
unfoldable pub status : CheckResult → Status
unfolding judge
status result = judge result.violations result.warnings

unfoldable pub filter_findings : (Violation → Bool) → CheckResult → CheckResult
filter_findings p result = record {
  check = result.check;
  violations = keep p result.violations;
  warnings = keep p result.warnings;
}

-- The dict of `expand_rules`: code to declared rule string, for rules that carry a description.
unfoldable pub declared_rules : List Text → Dict Text Text → Dict Text Text
declared_rules [] declared = declared
declared_rules (rule ∷ rules) declared =
    declared_rules rules
      (if contains rule b':' then insert (extract_code rule) rule declared else declared)

unfoldable pub expand : Dict Text Text → Violation → Violation
expand declared finding =
    if contains finding.rule b':' then finding else elim (lookup finding.rule declared) [
      | none ↦ finding
      | some rule ↦ record finding { rule = rule }
    ]

-- `expand_rules`; its `check` argument is used for the rules that it declares.
unfoldable pub expand_rules : List Text → CheckResult → CheckResult
unfolding expand declared_rules
expand_rules rules result =
    let declared = declared_rules rules [] in
    record {
      check = result.check;
      violations = map (expand declared) result.violations;
      warnings = map (expand declared) result.warnings;
    }

-- `filters.count_findings`
unfoldable pub count_findings : List CheckResult → ℕ
count_findings [] = 0
count_findings (result ∷ results) =
    (length result.violations + length result.warnings) + count_findings results
