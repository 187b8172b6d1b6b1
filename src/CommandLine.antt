-- ===== src/CommandLine.antt =====
-- lanorme/cli.py: what the `check` command does around a run, from its options to its exit code.
pub mod Exit
use lanorme.Prelude.{
  ℕ, zero, suc, ◌+◌, ◌-◌, ◌*◌, ◌≤◌, ◌<◌, min, String, ◌≡◌, refl, sym, ap, ap₂, ◌∙◌, subst, fun_ext,
  ◌≢◌, ◌↔◌, ◌⊎◌, inl, inr, Bool, true, false, not, ◌&&◌, ◌||◌, false≢true, Option, none, some, List,
  [], ◌∷◌, ◌++◌, map, append-nil, append_assoc, arith, ltb, leb, if◌then◌else◌, tests, Bool-cases,
  Option-cases, Eq, ◌==◌, eq_iff, eq_refl, nat_eq, list_eq, pair_eq, triple_eq, length, keep, any,
  all, count_if, contains, flat_map, length-append, keep-append, keep-keep, count_if-append,
  length-keep-le, length-keep_add, any-append, any-map, length-map, take, drop, get_elem?, Among,
  first, later, any_of_Among, Among-of_any, all_of_Among, contains_of_Among, Among-of_contains,
  Among-append_left, Among-cons, Among-of_keep, Among-of_sort, Among-keep, Among-append_right,
  Among-map, Among-flat_map, Among-of_map, Among-of_append, Among-of_flat_map, reverse,
  Among-reverse, Among-of_reverse, length-reverse, sort, Among-sort, count_if-sort, any-sort,
  sum_by, sum_by-sort, text_leb,
}
use lanorme.Text.{
  Text, codes, is_space, is_upper, is_digit, is_alnum, upper_char, upper, lstrip, rstrip, strip,
  before, after, words, split, join, starts_with, ends_with, forward_slashes, decimal, base_name,
  dir_name,
}
use lanorme.Prelude.Dict.{Dict, lookup, insert}
use lanorme.Finding.{Status, pass, warn, fail, CheckResult, status, count_findings}
use lanorme.Check.{Result, ok, err, CheckApi, unknown_check, missing_baseline}
use lanorme.Config.{Value, text, list, Values, nil, cons, Table, get}
use lanorme.Selectors.{checks_for_selector}
use lanorme.Promotion.{apply_promotions, promote_result, escalates, status-promote}
use lanorme.Baseline.{Key, Entry, load, suppress, find_drift, written}
use lanorme.Runner.{RunOutcome}
use lanorme.Reports.{is_status}

-- `_split_csv`
unfoldable pub split_csv : Option Text → List Text
split_csv none = []
split_csv (some []) = []
split_csv (some (c ∷ s)) = keep (λ item. not (item == [])) (map strip (split b',' (c ∷ s)))

module _ (string_of : Value → Text) where
  strings_of : Values → List Text
  strings_of nil = []
  strings_of (cons v vs) = string_of v ∷ strings_of vs

  -- `_read_config_list`, with `str` of an item.
  unfoldable pub read_config_list : Option Value → List Text
  unfolding strings_of
  read_config_list (some (text s)) = s ∷ []
  read_config_list (some (list vs)) = strings_of vs
  read_config_list _ = []

  -- What an option gives, and else the config under its key.
  unfoldable pub option_or_config : Option Text → Text → Table → List Text
  unfolding split_csv read_config_list
  option_or_config given key config =
      if split_csv given == [] then read_config_list (get key config) else split_csv given

module _ (api : CheckApi) where
  open api use {Check}

  by_selector : Text → List Check → Result (List Check × List Text)
  by_selector selector [] = err (unknown_check selector)
  by_selector selector (check ∷ checks) = ok (check ∷ checks, upper selector ∷ [])

  -- `_resolve_single`; the note that a selection is not enabled is left out.
  unfoldable pub resolve_single : Dict Text Check → Text → Result (List Check × List Text)
  unfolding by_selector
  resolve_single registered selector = elim (lookup selector registered) [
    | some check ↦ ok (check ∷ [], [])
    | none ↦ by_selector selector (checks_for_selector api registered selector)
  ]

module _ (read : Text → Option (List Text)) (sha : Text → Text) where
  -- `_apply_baseline`, by what the configured file holds: `none` where none is configured, and
  -- within it `none` where the file does not exist.
  unfoldable pub apply_baseline :
      Option (Option (List (Key × Entry))) → RunOutcome → Result (RunOutcome × List (Text × Text))
  apply_baseline none outcome = ok (outcome, [])
  apply_baseline (some none) outcome = err missing_baseline
  apply_baseline (some (some raw)) outcome =
      let entries = load raw in
      let survivors = suppress read sha entries outcome.results in
      ok (
        record outcome {
          results = survivors;
          dropped =
              insert (codes "baseline") (count_findings outcome.results - count_findings survivors)
                outcome.dropped;
        },
        find_drift read sha entries outcome.results,
      )

  -- The part of `_run_and_report` behind the run: the outcome that is printed, and the drift.
  unfoldable pub conclude_run :
      Option (Option (List (Key × Entry)))
      → List Text
      → List Text
      → RunOutcome
      → Result (RunOutcome × List (Text × Text))
  unfolding apply_baseline
  conclude_run recorded promote advisory outcome = elim (apply_baseline recorded outcome) [
    | err e ↦ err e
    | ok (narrowed, drift) ↦
        ok (record narrowed { results = apply_promotions narrowed.results promote advisory }, drift)
  ]

-- `sys.exit(1)` where any result fails
unfoldable pub exit_code : List CheckResult → ℕ
exit_code results = if any (λ r. is_status fail (status r)) results then 1 else 0
