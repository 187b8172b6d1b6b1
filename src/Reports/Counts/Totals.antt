-- ===== src/Reports/Counts/Totals.antt =====
-- What the counts of a summary add up to.
use lanorme.Prelude.{
  ℕ, suc, ◌+◌, ◌≡◌, refl, ap, ◌∙◌, List, [], ◌∷◌, map, arith, if◌then◌else◌, Eq, ◌==◌, nat_eq,
  list_eq, pair_eq, triple_eq, length, count_if, length-append, length-map, sum_by,
}
use lanorme.Prelude.Dict.{Dict, lookup, insert, lookup-insert}
use lanorme.Text.{Text, codes}
use lanorme.Finding.{Status, pass, warn, fail, Violation, CheckResult, status}
use lanorme.Reports.{is_status, count_status, count_errors, count_advisories}
use lanorme.Reports.Counts.{
  count_at, count_one, count_keys, tagged, counted, code_key, directory_key, count_by_code,
  count_by_directory, has_code, is_in,
}

-- The sum of the counts.
abbrev pub total {ℓ} : {K : Type ℓ} → Dict K ℕ → ℕ
total counts = sum_by (λ (_, n). n) counts

module _ {ℓ} {K : Type ℓ} ⦃e : Eq K⦄ where
  count_at-one :
      (key k : K) (counts : Dict K ℕ)
      → count_at k (count_one key counts)
        ≡ (if key == k then suc (count_at k counts) else count_at k counts)
  unfolding count_one count_at
  count_at-one key k counts =
      ground (arith, lookup-insert key k (count_at key counts + 1) counts, e.same_iff key k)

  total-insert :
      (key : K) (n : ℕ) (counts : Dict K ℕ)
      → total (insert key n counts) + count_at key counts ≡ total counts + n
  unfolding insert count_at lookup
  total-insert key n [] = omega arith
  total-insert key n ((k, m) ∷ counts) = ground (arith, total-insert key n counts)

  total-count_keys :
      (keys : List K) (counts : Dict K ℕ)
      → total (count_keys keys counts) ≡ total counts + length keys
  unfolding count_keys count_one
  total-count_keys [] counts = omega arith
  total-count_keys (key ∷ keys) counts = omega (
    arith,
    total-count_keys keys (count_one key counts),
    total-insert key (count_at key counts + 1) counts,
  )

  count_at-count_keys :
      (keys : List K) (k : K) (counts : Dict K ℕ)
      → count_at k (count_keys keys counts) ≡ count_at k counts + count_if (λ j. j == k) keys
  unfolding count_keys
  count_at-count_keys [] k counts = omega arith
  count_at-count_keys (key ∷ keys) k counts =
      ground (arith, count_at-count_keys keys k (count_one key counts), count_at-one key k counts)

count_if-map {ℓ κ} :
    {A : Type ℓ} {K : Type κ}
    → ⦃e : Eq K⦄ → (key : A → K) (k : K) (xs : List A)
    → count_if (λ j. j == k) (map key xs) ≡ count_if (λ x. key x == k) xs
count_if-map key k [] = refl
count_if-map key k (x ∷ xs) = ground (arith, count_if-map key k xs)

count_at-fresh {ℓ κ} :
    {A : Type ℓ} {K : Type κ}
    → ⦃e : Eq K⦄ → (key : A → K) (k : K) (xs : List A)
    → count_at k (count_keys (map key xs) []) ≡ count_if (λ x. key x == k) xs
unfolding count_at lookup
count_at-fresh key k xs =
    omega (arith, count_at-count_keys (map key xs) k [], count_if-map key k xs)

total-fresh {ℓ κ} :
    {A : Type ℓ} {K : Type κ}
    → ⦃e : Eq K⦄ → (key : A → K) (xs : List A) → total (count_keys (map key xs) []) ≡ length xs
total-fresh key xs = omega (arith, total-count_keys (map key xs) [], length-map xs key)

length-tagged : (r : CheckResult) → length (tagged r) ≡ length r.violations + length r.warnings
unfolding tagged
length-tagged r =
    let errors : List (Violation × Text) = map (λ v. (v, codes "error")) r.violations in
    let advisories : List (Violation × Text) = map (λ v. (v, codes "warning")) r.warnings in
    let left : length errors ≡ length r.violations =
      length-map r.violations (λ v. (v, codes "error")) in
    let right : length advisories ≡ length r.warnings =
      length-map r.warnings (λ v. (v, codes "warning")) in
    omega (arith, length-append errors advisories, left, right)

length-counted :
    (results : List CheckResult)
    → length (counted results) ≡ count_errors results + count_advisories results
unfolding counted count_errors count_advisories
length-counted [] = refl
length-counted (r ∷ results) =
    length-append (tagged r) (counted results)
    ∙ omega (arith, length-counted results, length-tagged r)

one_status :
    (s : Status) (p w f : ℕ)
    → suc (p + w + f)
      ≡ (if is_status pass s then suc p else p)
        + (if is_status warn s then suc w else w)
        + (if is_status fail s then suc f else f)
one_status pass p w f = omega arith
one_status warn p w f = omega arith
one_status fail p w f = omega arith

statuses_add :
    (results : List CheckResult)
    → length results
      ≡ count_status pass results + count_status warn results + count_status fail results
unfolding count_status
statuses_add [] = omega arith
statuses_add (r ∷ results) =
    ap suc (statuses_add results)
    ∙ one_status (status r) (count_status pass results) (count_status warn results)
        (count_status fail results)

-- The results that passed, warned and failed are all the results; the counts by code and the counts
-- by directory each add up to all the findings; and under each code, severity and directory stands
-- the number of its findings.
pub summary-counts :
    (results : List CheckResult)
    → (length results
        ≡ count_status pass results + count_status warn results + count_status fail results)
      × (total (count_by_code results) ≡ count_errors results + count_advisories results)
      × (total (count_by_directory results) ≡ count_errors results + count_advisories results)
      × ((rule_code severity : Text)
          → count_at {K = Text × Text} (rule_code, severity) (count_by_code results)
            ≡ count_if (has_code rule_code severity) (counted results))
      × ((directory : Text)
          → count_at directory (count_by_directory results)
            ≡ count_if (is_in directory) (counted results))
unfolding count_by_code count_by_directory
summary-counts results = (
  statuses_add results,
  total-fresh code_key (counted results) ∙ length-counted results,
  total-fresh directory_key (counted results) ∙ length-counted results,
  λ rule_code severity. count_at-fresh code_key (rule_code, severity) (counted results),
  λ directory. count_at-fresh directory_key directory (counted results),
)
