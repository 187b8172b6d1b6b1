-- ===== src/Baseline/Budget.antt =====
-- The count of a baseline entry is a budget: how many findings it hides, and which.
use lanorme.Prelude.{
  ℕ, ◌+◌, ◌≤◌, min, ◌≡◌, refl, Bool, false, not, ◌&&◌, Option, none, some, List, [], ◌∷◌, arith,
  if◌then◌else◌, ◌==◌, eq_iff, nat_eq, list_eq, pair_eq, triple_eq, count_if,
}
use lanorme.Prelude.Dict.{Dict, lookup, insert, lookup-insert}
use lanorme.Text.{Text}
use lanorme.Finding.{Violation, CheckResult}
use lanorme.Baseline.{
  Tier, error, warning, Key, Entry, is_error, build_key, covers, used, is_kept, filter_kept,
  suppress_from, suppress,
}

-- How many findings an entry may hide, 0 where the key is not recorded.
unfoldable pub limit : Dict Key Entry → Key → ℕ
limit entries key = elim (lookup key entries) [ none ↦ 0 | some e ↦ e.count ]

-- The key is recorded, and its entry hides findings of the tier.
unfoldable pub covered : Dict Key Entry → Key → Tier → Bool
unfolding covers is_error
covered entries key tier = elim (lookup key entries) [ none ↦ false | some e ↦ covers e tier ]

module _ (read : Text → Option (List Text)) (sha : Text → Text) (key : Key) where
  -- The finding has a file, and its identity is the key.
  unfoldable pub has_key : Violation → Bool
  has_key v = not (v.file == []) && build_key read sha v == key

  unfoldable pub matching : List Violation → ℕ
  matching = count_if has_key

  abbrev one_if : Bool → ℕ
  one_if b = if b then 1 else 0

  used-insert :
      (j : Key) (m : ℕ) (consumed : Dict Key ℕ)
      → used (insert j m consumed) key ≡ (if j == key then m else used consumed key)
  unfolding used
  used-insert j m consumed = ground (arith, lookup-insert j key m consumed)

  is_kept-count :
      (entries : Dict Key Entry) (tier : Tier) (v : Violation) (consumed : Dict Key ℕ)
      → one_if ((is_kept read sha entries tier v consumed).0 && has_key v)
          + used (is_kept read sha entries tier v consumed).1 key
        ≡ one_if (has_key v) + used consumed key
  unfolding is_kept has_key
  is_kept-count entries tier v consumed = ground (
    arith,
    used-insert (build_key read sha v) (used consumed (build_key read sha v) + 1) consumed,
    eq_iff (build_key read sha v) key,
  )

  is_kept-used :
      (entries : Dict Key Entry) (tier : Tier) (v : Violation) (consumed : Dict Key ℕ)
      → used consumed key ≤ limit entries key
      → used (is_kept read sha entries tier v consumed).1 key ≡ (
          if has_key v && covered entries key tier
          then min (limit entries key) (used consumed key + 1)
          else used consumed key)
  unfolding is_kept has_key limit covered
  is_kept-used entries tier v consumed h = ground (
    arith,
    used-insert (build_key read sha v) (used consumed (build_key read sha v) + 1) consumed,
    eq_iff (build_key read sha v) key,
  )

  filter_kept-count :
      (entries : Dict Key Entry) (tier : Tier) (vs : List Violation) (consumed : Dict Key ℕ)
      → matching (filter_kept read sha entries tier vs consumed).0
          + used (filter_kept read sha entries tier vs consumed).1 key
        ≡ matching vs + used consumed key
  unfolding filter_kept matching
  filter_kept-count entries tier [] consumed = refl
  filter_kept-count entries tier (v ∷ vs) consumed = ground (
    arith,
    is_kept-count entries tier v consumed,
    filter_kept-count entries tier vs (is_kept read sha entries tier v consumed).1,
  )

  filter_kept-used :
      (entries : Dict Key Entry) (tier : Tier) (vs : List Violation) (consumed : Dict Key ℕ)
      → used consumed key ≤ limit entries key
      → used (filter_kept read sha entries tier vs consumed).1 key ≡ (
          if covered entries key tier
          then min (limit entries key) (used consumed key + matching vs)
          else used consumed key)
  unfolding filter_kept matching
  filter_kept-used entries tier [] consumed h = ground arith
  filter_kept-used entries tier (v ∷ vs) consumed h = ground (
    arith,
    is_kept-used entries tier v consumed h,
    filter_kept-used entries tier vs (is_kept read sha entries tier v consumed).1,
  )

  -- The findings of a run with the key, of both tiers.
  unfoldable pub matching_all : List CheckResult → ℕ
  matching_all [] = 0
  matching_all (r ∷ results) = (matching r.violations + matching r.warnings) + matching_all results

  -- Those of them that the key's entry may hide.
  unfoldable pub eligible : Dict Key Entry → List CheckResult → ℕ
  eligible entries [] = 0
  eligible entries (r ∷ results) =
      ((if covered entries key error then matching r.violations else 0)
        + (if covered entries key warning then matching r.warnings else 0))
      + eligible entries results

  suppress_from-count :
      (entries : Dict Key Entry) (results : List CheckResult) (consumed : Dict Key ℕ)
      → used consumed key ≤ limit entries key
      → matching_all (suppress_from read sha entries results consumed)
          + min (limit entries key) (used consumed key + eligible entries results)
        ≡ matching_all results + used consumed key
  unfolding suppress_from matching_all eligible
  suppress_from-count entries [] consumed h = omega arith
  suppress_from-count entries (r ∷ results) consumed h =
      let c : Dict Key ℕ = (filter_kept read sha entries error r.violations consumed).1 in
      let d : Dict Key ℕ = (filter_kept read sha entries warning r.warnings c).1 in
      ground (
        arith,
        filter_kept-count entries error r.violations consumed,
        filter_kept-used entries error r.violations consumed h,
        filter_kept-count entries warning r.warnings c,
        filter_kept-used entries warning r.warnings c,
        suppress_from-count entries results d,
      )

  -- For every key, the findings that the baseline hides are as many as its entry may hide, up to
  -- the recorded count: hidden and reported ones add up to those of the run, so one more finding
  -- than recorded is always reported.
  pub suppress-count :
      (entries : Dict Key Entry) (results : List CheckResult)
      → matching_all (suppress read sha entries results)
          + min (limit entries key) (eligible entries results)
        ≡ matching_all results
  unfolding suppress used lookup
  suppress-count entries results =
      omega
        (arith, nothing_used, suppress_from-count entries results [] (omega (arith, nothing_used)))
    where
      nothing_used : used [] key ≡ 0
      nothing_used = refl
