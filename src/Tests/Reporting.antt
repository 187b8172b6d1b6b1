-- ===== src/Tests/Reporting.antt =====
-- Selectors, directives, source lines, narrowing and promotion.
use lanorme.Prelude.{
  ℕ, ◌+◌, ◌≡◌, refl, ◌↔◌, ◌⊎◌, inl, inr, true, not, ◌&&◌, Option, none, some, List, [], ◌∷◌, ◌++◌,
  map, if◌then◌else◌, ◌==◌, nat_eq, list_eq, pair_eq, triple_eq, any, contains, Among, first,
  Among-cons,
}
use lanorme.Text.{
  Text, codes, is_space, is_alnum, upper, strip, before, words, ends_with, forward_slashes,
}
use lanorme.Tests.Fixtures.{plugins, dry_result, dry_check, registry, disk, reading}
use lanorme.Finding.{count_findings, status, fail, expand_rules, extract_code, filter_findings}
use lanorme.Finding.Codes.{finding_codes, expand_rules-codes}
use lanorme.Check.{ok}
use lanorme.Selectors.{
  known_codes, is_code_matched, reject_unknown_selectors, checks_for_selector, check_values,
  extract_category,
}
use lanorme.Selectors.Laws.{reject_unknown_selectors-ok, checks_for_selector_iff, IsUseful, Owns}
use lanorme.Directives.{in_list_class, is_silenced_inline}
use lanorme.Directives.Laws.{
  ignore_directive, is_silenced_inline-ignore, is_silenced_inline-noqa, is_unsuppressable,
  listed_codes,
}
use lanorme.SourceLines.{read_lines, read_lines-first_read, first_read, pick_line}
use lanorme.Narrowing.{Narrowing, apply}
use lanorme.Narrowing.Accounting.{total_dropped, apply-count}
use lanorme.Narrowing.Survival.{survives, targeted_results, anchored, apply-survives}
use lanorme.Promotion.{
  apply_promotions, is_promoted, is_named, promote_result, escalates, apply_promotions_idem,
  is_promoted-advisory, status-promote,
}

category_of_code : extract_category (codes "LAYER-002") ≡ codes "LAYER"
unfolding extract_category
category_of_code = refl

dry_declared : Among (upper (codes "dry-001")) (known_codes plugins registry)
unfolding upper known_codes extract_code words before
dry_declared = first

dry_matched : is_code_matched (codes "dry-001") (codes "dry-001" ∷ []) ≡ true
unfolding is_code_matched strip upper extract_category
dry_matched = refl

blank : strip (codes " ") ≡ []
unfolding strip
blank = refl

useful : (s : Text) → Among s (codes "dry-001" ∷ codes " " ∷ []) → IsUseful plugins registry s
useful s m =
    Among-cons (IsUseful plugins registry) (inr (codes "dry-001", dry_declared, dry_matched))
      (λ n. Among-cons (IsUseful plugins registry) (inl blank) (λ k. elim k [ ]) n) m

reject_unknown_selectors-ok_example :
    reject_unknown_selectors plugins registry (codes "'select'") (codes "dry-001" ∷ codes " " ∷ [])
    ≡ ok tt
reject_unknown_selectors-ok_example =
    reject_unknown_selectors-ok plugins registry (codes "'select'")
      (codes "dry-001" ∷ codes " " ∷ []) useful

checks_for_selector_iff_example :
    Among dry_check (checks_for_selector plugins registry (codes "dry")) ↔ (
      Among dry_check (check_values plugins registry)
      × Owns plugins registry (upper (codes "dry")) dry_check)
checks_for_selector_iff_example = checks_for_selector_iff plugins registry (codes "dry") dry_check

is_silenced_inline-ignore_example :
    is_silenced_inline
      (codes "x = 1  " ++ ignore_directive (codes "size, DRY-001") (codes " why"))
      (codes "DRY-001: clone")
    ≡ (not (is_unsuppressable (codes "DRY-001: clone"))
        && is_code_matched
            (extract_code (codes "DRY-001: clone"))
            (listed_codes (codes "size, DRY-001")))
unfolding in_list_class is_alnum is_space
is_silenced_inline-ignore_example =
    is_silenced_inline-ignore (codes "x = 1  ") b's' (codes "ize, DRY-001") (codes " why")
      (codes "DRY-001: clone") refl refl refl

is_silenced_inline-noqa_example :
    is_silenced_inline (codes "x = 1  " ++ codes "# noqa") (codes "SUPPRESS-001: budget")
    ≡ not (is_unsuppressable (codes "SUPPRESS-001: budget"))
is_silenced_inline-noqa_example =
    is_silenced_inline-noqa (codes "x = 1  ") (codes "SUPPRESS-001: budget") refl

-- Two spellings of one path, of which each file has its own lines.
abbrev two_files : Text → Option (List Text)
two_files file =
    if file == codes "a/b.py"
    then some (codes "one" ∷ codes "two" ∷ [])
    else some (codes "other" ∷ [])

abbrev line_requests : List (Text × ℕ)
line_requests = (codes "a/b.py", 2) ∷ (codes "a\\b.py", 1) ∷ (codes "c.py", 1) ∷ []

read_lines-first_read_example :
    read_lines two_files line_requests []
    ≡ map
        (λ (file, line). pick_line (first_read two_files line_requests (forward_slashes file)) line)
        line_requests
read_lines-first_read_example = read_lines-first_read two_files line_requests

abbrev narrowing : Narrowing
narrowing = record {
  select = codes "dry" ∷ codes "SIZE" ∷ [];
  ignore = codes "SIZE-001" ∷ [];
  exclude = codes "vendor/*" ∷ [];
  per_file_ignores = (codes "b.*", codes "DRY" ∷ []) ∷ [];
  project_root = codes "p" ∷ [];
  targets = none;
  run_root = none;
}

apply-count_example :
    count_findings (apply disk reading narrowing (dry_result ∷ [])).results
      + total_dropped (apply disk reading narrowing (dry_result ∷ [])).dropped
    ≡ count_findings (dry_result ∷ [])
apply-count_example = apply-count disk reading narrowing (dry_result ∷ [])

apply-survives_example :
    (apply disk reading narrowing (dry_result ∷ [])).results
    ≡ map (filter_findings (survives disk reading narrowing)) (
        anchored disk reading narrowing
          (targeted_results disk reading narrowing none (dry_result ∷ [])))
apply-survives_example = apply-survives disk reading narrowing (dry_result ∷ [])

apply_promotions_idem_example :
    apply_promotions
      (apply_promotions (dry_result ∷ []) (codes "ALL" ∷ []) (codes "SIZE-001" ∷ []))
      (codes "ALL" ∷ [])
      (codes "SIZE-001" ∷ [])
    ≡ apply_promotions (dry_result ∷ []) (codes "ALL" ∷ []) (codes "SIZE-001" ∷ [])
apply_promotions_idem_example =
    apply_promotions_idem (dry_result ∷ []) (codes "ALL" ∷ []) (codes "SIZE-001" ∷ [])

advisory_listed : contains (codes "SIZE-001" ∷ []) (upper (codes "size-001")) ≡ true
unfolding upper
advisory_listed = refl

is_promoted-advisory_example :
    is_promoted (codes "size-001") (codes "ALL" ∷ []) (codes "SIZE-001" ∷ []) ≡ (
      not (ends_with (codes "size-001") (codes "-000"))
      && is_named (codes "size-001") (codes "ALL" ∷ []))
is_promoted-advisory_example =
    is_promoted-advisory (codes "size-001") (codes "ALL" ∷ []) (codes "SIZE-001" ∷ [])
      advisory_listed

status-promote_example : (status (promote_result (codes "SIZE" ∷ []) [] dry_result) ≡ fail) ↔ (
    (status dry_result ≡ fail)
    ⊎ (any (escalates (codes "SIZE" ∷ []) []) dry_result.warnings ≡ true))
status-promote_example = status-promote (codes "SIZE" ∷ []) [] dry_result

expand_rules-codes_example :
    (finding_codes (expand_rules (codes "DRY-001: clone" ∷ []) dry_result).violations
      ≡ finding_codes dry_result.violations)
    × (finding_codes (expand_rules (codes "DRY-001: clone" ∷ []) dry_result).warnings
        ≡ finding_codes dry_result.warnings)
expand_rules-codes_example = expand_rules-codes (codes "DRY-001: clone" ∷ []) dry_result
