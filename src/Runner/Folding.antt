-- ===== src/Runner/Folding.antt =====
-- The results of the passes, folded into one for each check.
use lanorme.Prelude.{
  ℕ, ◌+◌, ◌≡◌, Option, none, some, [], ◌∷◌, arith, nat_eq, list_eq, pair_eq, triple_eq, length,
  length-append, sum_by,
}
use lanorme.Text.{Text}
use lanorme.Prelude.Dict.{Dict, lookup, insert}
use lanorme.Finding.{CheckResult}
use lanorme.Check.{CheckApi}
use lanorme.Checkconfig.{ConfigureApi}
use lanorme.Config.Files.{ConfigFiles}
use lanorme.Regions.{combine_results}
use lanorme.Runner.{fold_pass}

-- How many findings a result holds, of either tier.
abbrev pub size : CheckResult → ℕ
size result = length result.violations + length result.warnings

abbrev pub size_or_zero : Option CheckResult → ℕ
size_or_zero none = 0
size_or_zero (some result) = size result

abbrev pub total : Dict Text CheckResult → ℕ
total by_name = sum_by (λ (_, result). size result) by_name

total-insert :
    (n : Text) (result : CheckResult) (d : Dict Text CheckResult)
    → total (insert n result d) + size_or_zero (lookup n d) ≡ total d + size result
unfolding insert lookup
total-insert n result [] = omega arith
total-insert n result ((k, r) ∷ d) = ground (arith, total-insert n result d)

size-combine_results :
    (existing : Option CheckResult) (addition : CheckResult)
    → size (combine_results existing addition) ≡ size_or_zero existing + size addition
unfolding combine_results
size-combine_results none addition = omega arith
size-combine_results (some existing) addition = omega (
  arith,
  length-append existing.violations addition.violations,
  length-append existing.warnings addition.warnings,
)

-- Folding the results of a region's pass into the totals neither loses a finding nor counts one
-- twice.
pub total-fold_pass :
    (api : CheckApi) (conf : ConfigureApi api) (files : ConfigFiles)
    (passed by_name : Dict Text CheckResult)
    → total (fold_pass api conf files passed by_name) ≡ total passed + total by_name
unfolding fold_pass
total-fold_pass api conf files [] by_name = omega arith
total-fold_pass api conf files ((n, result) ∷ passed) by_name =
    let step = combine_results (lookup n by_name) result in
    omega (
      arith,
      total-fold_pass api conf files passed (insert n step by_name),
      total-insert n step by_name,
      size-combine_results (lookup n by_name) result,
    )
