-- ===== src/Reports/Counts.antt =====
-- lanorme/reports.py: the summary of a run, with the findings counted by code and by directory.
use lanorme.Prelude.Dict.{lookup-insert}
pub mod Totals
use lanorme.Prelude.{
  ℕ, zero, suc, ◌+◌, ◌-◌, ◌*◌, ◌≤◌, ◌<◌, min, String, ◌≡◌, refl, sym, ap, ap₂, ◌∙◌, subst, fun_ext,
  ◌≢◌, ◌↔◌, ◌⊎◌, inl, inr, Bool, true, false, not, ◌&&◌, ◌||◌, false≢true, Option, none, some, List,
  [], ◌∷◌, ◌++◌, map, append-nil, append_assoc, arith, ltb, leb, if◌then◌else◌, tests, Bool-cases,
  Option-cases, Eq, ◌==◌, eq_iff, eq_refl, nat_eq, list_eq, pair_eq, triple_eq, length, keep, any,
  all, count_if, contains, flat_map, length-append, keep-append, keep-keep, count_if-append,
  length-keep-le, length-keep_add, any-append, any-map, length-map, take, drop, get_elem?, Among,
  first, later, any_of_Among, Among-of_any, all_of_Among, contains_of_Among, Among-of_contains,
  Among-append_left, Among-cons, Among-of_keep, Among-of_sort, Among-keep, Among-append_right,
  Among-map, Among-flat_map, Among-of_map, Among-of_append, Among-of_flat_map, reverse,
  Among-reverse, Among-of_reverse, length-reverse, sort, Among-sort, count_if-sort, any-sort,
  sum_by, sum_by-sort, text_leb,
}
use lanorme.Prelude.Dict.{Dict, lookup, insert, has_key}
use lanorme.Text.{
  Text, codes, is_space, is_upper, is_digit, is_alnum, upper_char, upper, lstrip, rstrip, strip,
  before, after, words, split, join, starts_with, ends_with, forward_slashes, decimal, base_name,
  dir_name,
}
use lanorme.Finding.{Status, pass, warn, fail, Violation, CheckResult, status, extract_code, judge}
use lanorme.Reports.{
  status_value, is_status, count_status, count_errors, count_advisories, totals_lines,
}

-- `counts.get(key, 0)`
unfoldable pub count_at {ℓ} : {K : Type ℓ} → ⦃e : Eq K⦄ → K → Dict K ℕ → ℕ
count_at key counts = elim (lookup key counts) [ none ↦ 0 | some n ↦ n ]

-- `counts[key] = counts.get(key, 0) + 1`
unfoldable pub count_one {ℓ} : {K : Type ℓ} → ⦃e : Eq K⦄ → K → Dict K ℕ → Dict K ℕ
unfolding count_at
count_one key counts = insert key (count_at key counts + 1) counts

unfoldable pub count_keys {ℓ} : {K : Type ℓ} → ⦃e : Eq K⦄ → List K → Dict K ℕ → Dict K ℕ
unfolding count_one
count_keys [] counts = counts
count_keys (key ∷ keys) counts = count_keys keys (count_one key counts)

-- `finding.file.split("/", 1)[0] if "/" in finding.file else "."`
unfoldable pub top_directory : Violation → Text
top_directory finding = if contains finding.file b'/' then before b'/' finding.file else codes "."

unfoldable pub tagged : CheckResult → List (Violation × Text)
tagged r = map (λ v. (v, codes "error")) r.violations ++ map (λ v. (v, codes "warning")) r.warnings

-- The findings that the summary counts, in order, each with its severity.
unfoldable pub counted : List CheckResult → List (Violation × Text)
unfolding tagged
counted results = flat_map tagged results

-- Under what the summary counts a finding by its code.
abbrev pub code_key : Violation × Text → Text × Text
code_key (v, severity) = (extract_code v.rule, severity)

abbrev pub directory_key : Violation × Text → Text
directory_key (v, _) = top_directory v

unfoldable pub count_by_code : List CheckResult → Dict (Text × Text) ℕ
unfolding counted count_keys
count_by_code results = count_keys (map code_key (counted results)) []

unfoldable pub count_by_directory : List CheckResult → Dict Text ℕ
unfolding counted count_keys top_directory
count_by_directory results = count_keys (map directory_key (counted results)) []

-- `f"{text:<{width}}"`
pad_right : ℕ → Text → Text
pad_right zero s = s
pad_right (suc width) [] = b' ' ∷ pad_right width []
pad_right (suc width) (c ∷ s) = c ∷ pad_right width s

-- The higher count first, then the smaller key.
code_leb : (Text × Text) × ℕ → (Text × Text) × ℕ → Bool
code_leb ((code_, severity), n) ((code', severity'), m) =
    if n == m
    then (if code_ == code' then text_leb severity severity' else text_leb code_ code')
    else ltb m n

directory_leb : Text × ℕ → Text × ℕ → Bool
directory_leb (directory, n) (directory', m) =
    if n == m then text_leb directory directory' else ltb m n

code_line : (Text × Text) × ℕ → Text
unfolding pad_right
code_line ((code_, severity), n) =
    codes "  "
    ++ (pad_right 16 code_ ++ (codes " " ++ (pad_right 8 severity ++ (codes " " ++ decimal n))))

directory_line : Text × ℕ → Text
unfolding pad_right
directory_line (directory, n) =
    codes "  " ++ (pad_right 24 (directory ++ codes "/") ++ (codes " " ++ decimal n))

-- `_emit_summary`
unfoldable pub summary_lines : List CheckResult → List Text
unfolding count_by_code count_by_directory code_leb directory_leb code_line directory_line
summary_lines results =
    let by_code = count_by_code results in
    totals_lines results
    ++ (if by_code == []
        then []
        else codes "By code:"
          ∷ (map code_line (sort code_leb by_code)
              ++ codes "By directory:"
                ∷ map directory_line (sort directory_leb (count_by_directory results))))

abbrev pub has_code : Text → Text → Violation × Text → Bool
has_code rule_code severity f = code_key f == (rule_code, severity)

abbrev pub is_in : Text → Violation × Text → Bool
is_in directory f = directory_key f == directory
