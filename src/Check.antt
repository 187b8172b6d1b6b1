-- ===== src/Check.antt =====
-- lanorme/__init__.py: what a check is to the runner (the `Check` and `ResultAuditor` protocols),
-- the errors of errors.py, and a run of one check with its exceptions isolated.
use lanorme.Prelude.{
  ℕ, ◌≡◌, refl, Bool, false, Option, none, List, [], ◌∷◌, ◌++◌, nat_eq, list_eq, pair_eq, triple_eq,
  take,
}
use lanorme.Prelude.Dict.{Dict}
use lanorme.Text.{Text, codes}
use lanorme.FilePath.{FilePath}
use lanorme.Finding.{CheckResult, expand_rules}
use lanorme.Scan.{Scan}

-- A `UsageError`, by what it refuses; the wording of its message is left out. `crashed` is an
-- exception of another type that ends the command, by its type's name.
pub data UsageError : Type 0 where
  name_taken : Text → UsageError
  unknown_selectors : Text → List Text → UsageError
  unknown_keys : Text → List Text → UsageError
  invalid_value : Text → Option Text → UsageError
  prefixed_table : FilePath → UsageError
  invalid_toml : FilePath → UsageError
  crashed : Text → UsageError
  not_copyable : Text → UsageError
  malformed_baseline : UsageError
  missing_baseline : UsageError
  bad_extends : UsageError
  unknown_profile : Text → UsageError
  unknown_check : Text → UsageError
  check_refused : Text → UsageError

pub data Result {ℓ} (A : Type ℓ) : Type ℓ where
  ok : A → Result A
  err : UsageError → Result A

infixl 10 ◌>>=◌
abbrev pub ◌>>=◌ {ℓ κ} : {A : Type ℓ} {B : Type κ} → Result A → (A → Result B) → Result B
ok a >>= f = f a
err e >>= f = err e

-- Where the rest of a chain was reached and ended well, with the value that it went on from.
pub went_on {ℓ κ} :
    {Before : Type ℓ} {After : Type κ} {last : After} (rest : Before → Result After)
    (start : Result Before)
    → (start >>= rest) ≡ ok last
    → (from : Before) × (rest from ≡ ok last) × (start ≡ ok from)
went_on rest (err refusal) chain = cc
went_on rest (ok from) chain = (from, chain, refl)

-- How a call of a check's own code ends: a result, a `UsageError`, or any other exception, with
-- its type's name and its text.
pub data Invocation : Type 0 where
  returned : CheckResult → Invocation
  refused : UsageError → Invocation
  raised : Text → Text → Invocation

-- A check is a plugin: the engine knows it by these operations alone.
pub record CheckApi : Type 1 where
  pub Check : Type 0
  -- `id(check)`: which object it is
  pub identity : Check → ℕ
  pub name : Check → Text
  pub description : Check → Text
  pub rules : Check → List Text
  pub is_tree_scoped : Check → Bool
  pub advisory_codes : Check → List Text
  -- the `enabled` attribute, where the check has one
  pub enabled : Check → Option Bool
  pub invoke : Check → Scan → Invocation
  -- `audit`, where the check is a `ResultAuditor`
  pub audit : Check → Option (Dict Text CheckResult → Invocation)

-- `str(exc)[:200] or "no detail"`
detail : Text → Text
detail [] = codes "no detail"
detail (c ∷ text) = take 200 (c ∷ text)

module _ (api : CheckApi) where
  open api use {Check, name, rules, invoke}

  crash_message : Check → Text → Text → Text
  unfolding detail
  crash_message check kind text =
      codes "Check '"
      ++ (name check ++ (codes "' failed on this tree: " ++ (kind ++ (codes ": " ++ detail text))))

  unfoldable pub crash_notice : Check → Text → Text → CheckResult
  unfolding crash_message
  crash_notice check kind text = record {
    check = name check;
    violations = [];
    warnings =
        record {
          file = [];
          line = 0;
          rule = codes "RUN-000: check raised an exception";
          message = crash_message check kind text;
          fix =
              codes
                "This is a bug in the check (or a setting it did not validate); the rest of the run continued";
          column = none;
          end_line = none;
          end_column = none;
          promoted = false;
        }
        ∷ [];
  }

  -- The `try` of `run_check` and `run_audit`.
  unfoldable pub isolate : Check → Invocation → Result CheckResult
  unfolding crash_notice
  isolate check (returned result) = ok (expand_rules (rules check) result)
  isolate check (refused e) = err e
  isolate check (raised kind text) = ok (crash_notice check kind text)

  unfoldable pub run_check : Check → Scan → Result CheckResult
  unfolding isolate
  run_check check scan = isolate check (invoke check scan)
