-- ===== src/Baseline/Staleness.antt =====
-- Which recorded keys `baseline status` and the drift note report.
use lanorme.Prelude.{
  ◌≡◌, sym, ◌∙◌, subst, ◌↔◌, ◌⊎◌, Bool, true, false, not, Option, List, [], ◌∷◌, map, ◌==◌, nat_eq,
  list_eq, pair_eq, triple_eq, keep, contains, Among, contains_of_Among, Among-of_contains,
  Among-of_keep, Among-of_sort, Among-keep, Among-map, Among-of_map, Among-sort,
}
use lanorme.Prelude.Dict.{Dict, has_key}
use lanorme.Text.{Text}
use lanorme.Finding.{Violation, CheckResult}
use lanorme.Baseline.{
  Key, Entry, iter_findings, build_key, keys_of, file_and_code, find_stale, find_drift,
}
use lanorme.Baseline.Findings.{
  not-true, of_false, Among-distinct, Among-of_distinct, absent, not_both, has_key-recorded,
  IsFound, Among-of_iter_findings, Among-iter_findings,
}

module _ (read : Text → Option (List Text)) (sha : Text → Text) where
  -- The keys that a baseline records.
  abbrev pub recorded_keys : Dict Key Entry → List Key
  recorded_keys = map (λ (key, _). key)

  -- Some violation or warning of the run has a file, and the key is its own.
  abbrev pub HasKey : List CheckResult → Key → Type 0
  HasKey results key =
      (r : CheckResult) × (v : Violation) × Among r results
      × (Among v r.violations ⊎ Among v r.warnings)
      × ((v.file == []) ≡ false)
      × (build_key read sha v ≡ key)

  HasKey-of_Among :
      (results : List CheckResult) (key : Key)
      → Among key (keys_of read sha results)
      → HasKey results key
  unfolding keys_of IsFound
  HasKey-of_Among results key m =
      let (found, k, e) =
        Among-of_map (λ (finding, _). build_key read sha finding) key (iter_findings results) m in
      let (r, at, tiers, filed) = Among-of_iter_findings results found k in
      (r, found.0, at, tiers, filed, sym e)

  Among-of_HasKey :
      (results : List CheckResult) (key : Key)
      → HasKey results key
      → Among key (keys_of read sha results)
  unfolding keys_of IsFound
  Among-of_HasKey results key (r, v, at, tiers, filed, e) =
      let (tier, m) = Among-iter_findings results v (r, at, tiers, filed) in
      subst (λ k. Among k (keys_of read sha results)) e
        (Among-map (λ (finding, _). build_key read sha finding) m)

  -- A key is stale exactly if it is recorded and no violation or warning of the run that has a file
  -- has it.
  pub find_stale_iff :
      (entries : Dict Key Entry) (results : List CheckResult) (key : Key)
      → Among key (find_stale read sha entries results)
        ↔ (Among key (recorded_keys entries) × ¬ HasKey results key)
  unfolding find_stale
  find_stale_iff entries results key = (
    (λ m.
        let (k, h) =
          Among-of_keep (λ k. not (contains (keys_of read sha results) k)) (recorded_keys entries)
            (Among-of_sort _ _ m) in
        (k, λ has. not_both (not-true h) (contains_of_Among (Among-of_HasKey results key has)))),
    (λ (m, h). Among-sort _ _ (
        Among-keep (λ k. not (contains (keys_of read sha results) k))
          (of_false (
            absent (λ held. h (
              HasKey-of_Among results key
                (Among-of_contains key (keys_of read sha results) held)))))
          m)),
  )

  abbrev unmatched : Dict Key Entry → List CheckResult → List (Text × Text)
  unmatched entries results =
      map file_and_code (keep (λ key. not (has_key key entries)) (keys_of read sha results))

  -- Some key of a finding of the run is not recorded and has the file and code.
  abbrev pub IsUnrecorded : Dict Key Entry → List CheckResult → Text × Text → Type 0
  IsUnrecorded entries results p =
      (key : Key) × HasKey results key
      × (contains (recorded_keys entries) key ≡ false)
      × (p ≡ file_and_code key)

  -- Some recorded key that no finding of the run has has the file and code.
  abbrev pub IsGone : Dict Key Entry → List CheckResult → Text × Text → Type 0
  IsGone entries results p =
      (key : Key) × (Among key (recorded_keys entries) × ¬ HasKey results key)
      × (p ≡ file_and_code key)

  IsUnrecorded-of_contains :
      (entries : Dict Key Entry) (results : List CheckResult) (p : Text × Text)
      → contains (unmatched entries results) p ≡ true
      → IsUnrecorded entries results p
  IsUnrecorded-of_contains entries results p h =
      let fresh : Key → Bool = λ key. not (has_key key entries) in
      let (key, m, e) =
        Among-of_map file_and_code p (keep fresh (keys_of read sha results))
          (Among-of_contains p (unmatched entries results) h) in
      let (at, holds) = Among-of_keep fresh (keys_of read sha results) m in
      (key, HasKey-of_Among results key at, sym (has_key-recorded entries key) ∙ not-true holds, e)

  contains_of_IsUnrecorded :
      (entries : Dict Key Entry) (results : List CheckResult) (p : Text × Text)
      → IsUnrecorded entries results p
      → contains (unmatched entries results) p ≡ true
  contains_of_IsUnrecorded entries results p (key, has, fresh, e) = contains_of_Among (
      subst (λ q. Among q (unmatched entries results)) (sym e)
        (Among-map file_and_code (
          Among-keep (λ key. not (has_key key entries))
            (of_false (has_key-recorded entries key ∙ fresh)) (Among-of_HasKey results key has))))

  -- Drift is reported for a file and code exactly if some recorded key that no finding of the run
  -- has has them, and some key of a finding of the run that is not recorded has them too; so a
  -- further finding beside entries that all still match is not drift.
  pub find_drift_iff :
      (entries : Dict Key Entry) (results : List CheckResult) (p : Text × Text)
      → Among p (find_drift read sha entries results)
        ↔ (IsGone entries results p × IsUnrecorded entries results p)
  unfolding find_drift
  find_drift_iff [] results p = ((λ m. elim m [ ]), (λ ((key, (m, _), _), _). elim m [ ]))
  find_drift_iff (e ∷ entries) results p =
      let all_entries = e ∷ entries in
      let stale = find_stale read sha all_entries results in
      (
        (λ m.
            let (k, h) =
              Among-of_keep (contains (unmatched all_entries results)) (map file_and_code stale)
                (Among-of_distinct _ (Among-of_sort _ _ m)) in
            let (key, at, same) = Among-of_map file_and_code p stale k in
            (
              (key, (find_stale_iff all_entries results key).0 at, same),
              IsUnrecorded-of_contains all_entries results p h,
            )),
        (λ ((key, gone, same), fresh). Among-sort _ _ (
            Among-distinct _ (
              Among-keep (contains (unmatched all_entries results))
                (contains_of_IsUnrecorded all_entries results p fresh)
                (subst (λ q. Among q (map file_and_code stale)) (sym same)
                  (Among-map file_and_code ((find_stale_iff all_entries results key).1 gone)))))),
      )
