-- ===== src/Baseline/Findings.antt =====
-- The findings of a run that have a file, and sets of pairs as lists.
use lanorme.Prelude.{
  ◌≡◌, refl, sym, ◌∙◌, subst, ◌⊎◌, inl, inr, Bool, true, false, not, false≢true, List, [], ◌∷◌,
  ◌++◌, map, arith, Bool-cases, ◌==◌, eq_iff, nat_eq, list_eq, pair_eq, triple_eq, keep, contains,
  Among, first, later, Among-of_contains, Among-append_left, Among-cons, Among-of_keep, Among-keep,
  Among-append_right, Among-map, Among-of_map, Among-of_append,
}
use lanorme.Prelude.Dict.{Dict, has_key}
use lanorme.Text.{Text}
use lanorme.Finding.{Violation, CheckResult}
use lanorme.Baseline.{
  Key, Entry, Tier, error, warning, has_file, with_tier, iter_findings, distinct,
}

pub not-true : {b : Bool} → not b ≡ true → b ≡ false
not-true h = ground arith

pub of_false : {b : Bool} → b ≡ false → not b ≡ true
of_false h = ground arith

pub Among-distinct :
    {p : Text × Text} (ps : List (Text × Text)) → Among p ps → Among p (distinct ps)
unfolding distinct
Among-distinct [] m = elim m [ ]
Among-distinct (q ∷ ps) first = elim (Bool-cases (contains ps q)) [
  | inl again ↦ rw again (Among-distinct ps (Among-of_contains q ps again))
  | inr last ↦ rw last first
]
Among-distinct (q ∷ ps) (later m) = elim (Bool-cases (contains ps q)) [
  | inl again ↦ rw again (Among-distinct ps m)
  | inr last ↦ rw last (later (Among-distinct ps m))
]

pub Among-of_distinct :
    {p : Text × Text} (ps : List (Text × Text)) → Among p (distinct ps) → Among p ps
unfolding distinct
Among-of_distinct [] m = m
Among-of_distinct (q ∷ ps) m = elim (Bool-cases (contains ps q)) [
  | inl again ↦ later (Among-of_distinct ps (rw again at m))
  | inr last ↦
      Among-cons (λ p. Among p (q ∷ ps)) first (λ n. later (Among-of_distinct ps n)) (rw last at m)
]

pub absent : {b : Bool} → ¬ (b ≡ true) → b ≡ false
absent {b = false} h = refl
absent {b = true} h = absurd (h refl)

pub not_both : {b : Bool} → b ≡ false → b ≡ true → ⊥
not_both h k = false≢true (sym h ∙ k)

pub has_key-recorded :
    (entries : Dict Key Entry) (key : Key)
    → has_key key entries ≡ contains (map (λ (k, _). k) entries) key
unfolding has_key
has_key-recorded [] key = refl
has_key-recorded ((k, e) ∷ entries) key =
    rw (has_key-recorded entries key) (ground (arith, eq_iff k key, eq_iff key k))

Among-with_tier :
    (tier : Tier) (vs : List Violation) (v : Violation)
    → Among v vs
    → (v.file == []) ≡ false
    → Among (v, tier) (with_tier tier vs)
unfolding with_tier has_file
Among-with_tier tier vs v m h =
    Among-map (λ v. (v, tier)) (Among-keep has_file (ground (arith, h)) m)

Among-of_with_tier :
    (tier : Tier) (vs : List Violation) (found : Violation × Tier)
    → Among found (with_tier tier vs)
    → Among found.0 vs × ((found.0.file == []) ≡ false)
unfolding with_tier has_file
Among-of_with_tier tier vs found m =
    let (v, k, e) = Among-of_map (λ v. (v, tier)) found (keep has_file vs) m in
    let (at, holds) = Among-of_keep has_file vs k in
    subst (λ f. Among f.0 vs × ((f.0.file == []) ≡ false)) (sym e) (at, ground (arith, holds))

-- A finding of the run, of either tier, that has a file.
unfoldable pub IsFound : List CheckResult → Violation → Type 0
IsFound results v =
    (r : CheckResult) × Among r results
    × (Among v r.violations ⊎ Among v r.warnings)
    × ((v.file == []) ≡ false)

pub Among-of_iter_findings :
    (results : List CheckResult) (found : Violation × Tier)
    → Among found (iter_findings results)
    → IsFound results found.0
unfolding iter_findings IsFound
Among-of_iter_findings [] found m = elim m [ ]
Among-of_iter_findings (r ∷ results) found m =
    elim (Among-of_append found (with_tier error r.violations)
      (with_tier warning r.warnings ++ iter_findings results) m) [
        | inl k ↦
            let (at, filed) = Among-of_with_tier error r.violations found k in
            (r, first, inl at, filed)
        | inr rest ↦
            elim (Among-of_append found (with_tier warning r.warnings) (iter_findings results)
              rest) [
                | inl k ↦
                    let (at, filed) = Among-of_with_tier warning r.warnings found k in
                    (r, first, inr at, filed)
                | inr k ↦
                    let (s, at, tiers, filed) = Among-of_iter_findings results found k in
                    (s, later at, tiers, filed)
              ]
      ]

pub Among-iter_findings :
    (results : List CheckResult) (v : Violation)
    → IsFound results v
    → (tier : Tier) × Among (v, tier) (iter_findings results)
unfolding iter_findings IsFound
Among-iter_findings [] v (r, at, tiers, filed) = elim at [ ]
Among-iter_findings (s ∷ results) v (r, at, tiers, filed) =
    let Lists : CheckResult → Type 0 = λ r. Among v r.violations ⊎ Among v r.warnings in
    let Held : Type 0 = (tier : Tier) × Among (v, tier) (iter_findings (s ∷ results)) in
    let here : Lists s → Held = (λ tiers. elim tiers [
      | inl k ↦ (error, Among-append_left _ (Among-with_tier error s.violations v k filed))
      | inr k ↦ (
        warning,
        Among-append_right (with_tier error s.violations)
            (Among-append_left _ (Among-with_tier warning s.warnings v k filed)),
      )
    ]) in
    let further : Among r results → Lists r → Held = (λ k tiers.
      let (tier, m) = Among-iter_findings results v (r, k, tiers, filed) in
      (
        tier,
        Among-append_right (with_tier error s.violations)
            (Among-append_right (with_tier warning s.warnings) m),
      )) in
    Among-cons (λ q. (Among q results → Lists q → Held) → Lists q → Held) (λ _ tiers. here tiers)
      (λ k far tiers. far k tiers) at further tiers
