-- ===== src/Registry.antt =====
-- lanorme/__init__.py: the registered checks by name, and a run of all of them.
pub mod Laws
use lanorme.Prelude.{
  ℕ, zero, suc, ◌+◌, ◌-◌, ◌*◌, ◌≤◌, ◌<◌, min, String, ◌≡◌, refl, sym, ap, ap₂, ◌∙◌, subst, fun_ext,
  ◌≢◌, ◌↔◌, ◌⊎◌, inl, inr, Bool, true, false, not, ◌&&◌, ◌||◌, false≢true, Option, none, some, List,
  [], ◌∷◌, ◌++◌, map, append-nil, append_assoc, arith, ltb, leb, if◌then◌else◌, tests, Bool-cases,
  Option-cases, Eq, ◌==◌, eq_iff, eq_refl, nat_eq, list_eq, pair_eq, triple_eq, length, keep, any,
  all, count_if, contains, flat_map, length-append, keep-append, keep-keep, count_if-append,
  length-keep-le, length-keep_add, any-append, any-map, length-map, take, drop, get_elem?, Among,
  first, later, any_of_Among, Among-of_any, all_of_Among, contains_of_Among, Among-of_contains,
  Among-append_left, Among-cons, Among-of_keep, Among-of_sort, Among-keep, Among-append_right,
  Among-map, Among-flat_map, Among-of_map, Among-of_append, Among-of_flat_map, reverse,
  Among-reverse, Among-of_reverse, length-reverse, sort, Among-sort, count_if-sort, any-sort,
  sum_by, sum_by-sort, text_leb,
}
use lanorme.Text.{
  Text, codes, is_space, is_upper, is_digit, is_alnum, upper_char, upper, lstrip, rstrip, strip,
  before, after, words, split, join, starts_with, ends_with, forward_slashes, decimal, base_name,
  dir_name,
}
use lanorme.Prelude.Dict.{Dict, lookup, insert, erase, lookup-insert, lookup-erase}
use lanorme.Finding.{CheckResult}
use lanorme.Scan.{Scan}
use lanorme.Check.{Result, ok, err, ◌>>=◌, CheckApi, Invocation, isolate, run_check, name_taken}

is_some : {A : Type 0} → Option A → Bool
is_some none = false
is_some (some _) = true

module _ (api : CheckApi) where
  open api use {Check, name, identity, audit}

  -- `isinstance(check, ResultAuditor)`
  unfoldable pub is_auditor : Check → Bool
  unfolding is_some
  is_auditor check = is_some (audit check)

  unfoldable pub register : Check → Dict Text Check → Result (Dict Text Check)
  register check checks = elim (lookup (name check) checks) [
    | none ↦ ok (insert (name check) check checks)
    | some existing ↦
        if identity existing == identity check
        then ok (insert (name check) check checks)
        else err (name_taken (name check))
  ]

  unfoldable pub unregister : Text → Dict Text Check → Dict Text Check
  unregister wanted checks = erase wanted checks

  -- What `audit` does to a check that has none is never asked.
  run_audit_of :
      Check
      → Option (Dict Text CheckResult → Invocation)
      → Dict Text CheckResult
      → Result CheckResult
  run_audit_of check none results = err (name_taken (name check))
  run_audit_of check (some f) results = isolate api check (f results)

  unfoldable pub run_audit : Check → Dict Text CheckResult → Result CheckResult
  unfolding run_audit_of
  run_audit check results = run_audit_of check (audit check) results

  -- The first loop of `run_all`: every check that is no auditor.
  unfoldable pub run_plain :
      Dict Text Check → Scan → Dict Text CheckResult → Result (Dict Text CheckResult)
  unfolding is_auditor
  run_plain [] scan results = ok results
  run_plain ((n, check) ∷ checks) scan results =
      if is_auditor check
      then run_plain checks scan results
      else run_check api check scan >>= (λ result. run_plain checks scan (insert n result results))

  -- The second loop: the auditors, each over all results so far.
  unfoldable pub run_auditors :
      Dict Text Check → Dict Text CheckResult → Result (Dict Text CheckResult)
  unfolding is_auditor run_audit
  run_auditors [] results = ok results
  run_auditors ((n, check) ∷ checks) results =
      if is_auditor check
      then run_audit check results >>= (λ result. run_auditors checks (insert n result results))
      else run_auditors checks results

  -- The results under the names given that have one.
  unfoldable pub reported : List Text → Dict Text CheckResult → List CheckResult
  reported [] results = []
  reported (n ∷ names) results =
      let rest = reported names results in
      elim (lookup n results) [ none ↦ rest | some result ↦ result ∷ rest ]

  unfoldable pub run_all : Dict Text Check → Scan → Result (List CheckResult)
  unfolding run_plain run_auditors reported
  run_all checks scan = run_plain checks scan [] >>= (λ plain.
      run_auditors checks plain >>= (λ results. ok (reported (map (λ (n, _). n) checks) results)))
