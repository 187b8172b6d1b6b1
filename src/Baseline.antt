-- ===== src/Baseline.antt =====
-- lanorme/baseline.py: the recorded findings of a project, matched against those of a run.
-- `read` gives under a path with forward slashes the lines that the run's line cache holds for it,
-- and `sha` is the hex digest of SHA-256; JSON is left to its library,
-- so a baseline is what `_parse_entry` reads, with counts that are not negative.
pub mod Budget
pub mod Ledger
pub mod Findings
pub mod Staleness
pub mod RoundTrip
use lanorme.Prelude.{
  ℕ, zero, suc, ◌+◌, ◌-◌, ◌*◌, ◌≤◌, ◌<◌, min, String, ◌≡◌, refl, sym, ap, ap₂, ◌∙◌, subst, fun_ext,
  ◌≢◌, ◌↔◌, ◌⊎◌, inl, inr, Bool, true, false, not, ◌&&◌, ◌||◌, false≢true, Option, none, some, List,
  [], ◌∷◌, ◌++◌, map, append-nil, append_assoc, arith, ltb, leb, if◌then◌else◌, tests, Bool-cases,
  Option-cases, Eq, ◌==◌, eq_iff, eq_refl, nat_eq, list_eq, pair_eq, triple_eq, length, keep, any,
  all, count_if, contains, flat_map, length-append, keep-append, keep-keep, count_if-append,
  length-keep-le, length-keep_add, any-append, any-map, length-map, take, drop, get_elem?, Among,
  first, later, any_of_Among, Among-of_any, all_of_Among, contains_of_Among, Among-of_contains,
  Among-append_left, Among-cons, Among-of_keep, Among-of_sort, Among-keep, Among-append_right,
  Among-map, Among-flat_map, Among-of_map, Among-of_append, Among-of_flat_map, reverse,
  Among-reverse, Among-of_reverse, length-reverse, sort, Among-sort, count_if-sort, any-sort,
  sum_by, sum_by-sort, text_leb,
}
use lanorme.Prelude.Dict.{Dict, lookup, insert, has_key}
use lanorme.Text.{
  Text, codes, is_space, is_upper, is_digit, is_alnum, upper_char, upper, lstrip, rstrip, strip,
  before, after, words, split, join, starts_with, ends_with, forward_slashes, decimal, base_name,
  dir_name,
}
use lanorme.Finding.{Violation, CheckResult, extract_code}
use lanorme.SourceLines.{source_line}

pub data Tier : Type 0 where
  error warning : Tier

-- `(path, code, anchor)`
abbrev pub Key : Type 0
Key = Text × Text × Text

abbrev pub file_anchor : Text
file_anchor = codes "file"

drop_dot_slash : Text → Text
drop_dot_slash s = if starts_with s (codes "./") then drop 2 s else s

unfoldable pub normalise_path : Text → Text
unfolding drop_dot_slash
normalise_path file = drop_dot_slash (forward_slashes file)

-- `_describe`: `tail.strip() if sep else head.strip()`
unfoldable pub describe : Text → Text
describe rule = elim (after b':' rule) [ none ↦ strip (before b':' rule) | some tail ↦ strip tail ]

pub record Entry : Type 0 where
  pub severity : Tier
  pub count : ℕ

unfoldable pub is_error : Tier → Bool
is_error error = true
is_error warning = false

unfoldable pub worst : Tier → Tier → Tier
worst error _ = error
worst warning t = t

unfoldable pub merge : Entry → Entry → Entry
unfolding worst
merge e f = record { severity = worst e.severity f.severity; count = e.count + f.count }

-- One more occurrence of a key: the entry, or what was there merged with it.
unfoldable pub record_one {ℓ} : {K : Type ℓ} ⦃e : Eq K⦄ → Dict K Entry → K → Entry → Dict K Entry
record_one entries key entry = elim (lookup key entries) [
  | none ↦ insert key entry entries
  | some existing ↦ insert key (merge existing entry) entries
]

-- The loop of `Baseline.load`, over the entries that the file lists.
unfoldable pub load_onto {ℓ} :
    {K : Type ℓ} ⦃e : Eq K⦄ → Dict K Entry → List (K × Entry) → Dict K Entry
load_onto entries [] = entries
load_onto entries ((key, entry) ∷ raw) = load_onto (record_one entries key entry) raw

unfoldable pub load : List (Key × Entry) → Dict Key Entry
load raw = load_onto [] raw

has_file : Violation → Bool
has_file finding = not (finding.file == [])

with_tier : Tier → List Violation → List (Violation × Tier)
unfolding has_file
with_tier tier findings = map (λ v. (v, tier)) (keep has_file findings)

-- `_iter_findings`
unfoldable pub iter_findings : List CheckResult → List (Violation × Tier)
unfolding with_tier
iter_findings [] = []
iter_findings (r ∷ results) =
    with_tier error r.violations ++ (with_tier warning r.warnings ++ iter_findings results)

-- The entry hides a finding of the tier.
covers : Entry → Tier → Bool
covers entry tier = not (is_error tier && not (is_error entry.severity))

used : Dict Key ℕ → Key → ℕ
used consumed key = elim (lookup key consumed) [ none ↦ 0 | some n ↦ n ]

key_leb : Key → Key → Bool
key_leb (file, code, anchor_) (file', code', anchor') =
    if file == file'
    then (if code == code' then text_leb anchor_ anchor' else text_leb code code')
    else text_leb file file'

pair_leb : Text × Text → Text × Text → Bool
pair_leb (file, code) (file', code') =
    if file == file' then text_leb code code' else text_leb file file'

abbrev pub file_and_code : Key → Text × Text
file_and_code (file, code, _) = (file, code)

-- A set of pairs, as the list of its items without repetition.
pub distinct : List (Text × Text) → List (Text × Text)
distinct [] = []
distinct (p ∷ ps) = let rest = distinct ps in if contains ps p then rest else p ∷ rest

module _ (read : Text → Option (List Text)) (sha : Text → Text) where
  -- `FindingKeys._anchor`
  unfoldable pub anchor : Text → ℕ → Text
  anchor file line =
      let source = strip (source_line read (forward_slashes file) line) in
      if leb 2 line && not (source == []) then codes "sha:" ++ sha source else file_anchor

  unfoldable pub build_key : Violation → Key
  build_key finding =
      (normalise_path finding.file, extract_code finding.rule, anchor finding.file finding.line)

  -- `is_kept` of `suppress`, with the counts that it updates.
  is_kept : Dict Key Entry → Tier → Violation → Dict Key ℕ → Bool × Dict Key ℕ
  is_kept entries tier finding consumed =
      if finding.file == [] then (true, consumed) else elim (lookup (build_key finding) entries) [
        | none ↦ (true, consumed)
        | some entry ↦
            if not (covers entry tier)
            then (true, consumed)
            else if leb entry.count (used consumed (build_key finding))
            then (true, consumed)
            else (
              false,
              insert (build_key finding) (used consumed (build_key finding) + 1) consumed,
            )
      ]

  filter_kept : Dict Key Entry → Tier → List Violation → Dict Key ℕ → List Violation × Dict Key ℕ
  unfolding is_kept used covers
  filter_kept entries tier [] consumed = ([], consumed)
  filter_kept entries tier (v ∷ vs) consumed =
      let (kept, consumed') = is_kept entries tier v consumed in
      let (rest, consumed'') = filter_kept entries tier vs consumed' in
      (if kept then v ∷ rest else rest, consumed'')

  suppress_from : Dict Key Entry → List CheckResult → Dict Key ℕ → List CheckResult
  unfolding filter_kept
  suppress_from entries [] consumed = []
  suppress_from entries (r ∷ results) consumed =
      let (violations, consumed') = filter_kept entries error r.violations consumed in
      let (warnings, consumed'') = filter_kept entries warning r.warnings consumed' in
      record { check = r.check; violations = violations; warnings = warnings }
      ∷ suppress_from entries results consumed''

  -- `Baseline.suppress`
  unfoldable pub suppress : Dict Key Entry → List CheckResult → List CheckResult
  unfolding suppress_from is_error
  suppress entries results = suppress_from entries results []

  unfoldable pub keys_of : List CheckResult → List Key
  keys_of results = map (λ (finding, _). build_key finding) (iter_findings results)

  -- `Baseline.find_stale`
  unfoldable pub find_stale : Dict Key Entry → List CheckResult → List Key
  unfolding keys_of key_leb
  find_stale entries results =
      sort key_leb
        (keep (λ key. not (contains (keys_of results) key)) (map (λ (key, _). key) entries))

  -- `Baseline.find_drift`: `sorted(stale & unmatched)`
  unfoldable pub find_drift : Dict Key Entry → List CheckResult → List (Text × Text)
  unfolding keys_of pair_leb distinct
  find_drift [] results = []
  find_drift (e ∷ entries) results =
      let unmatched =
        map file_and_code (keep (λ key. not (has_key key (e ∷ entries))) (keys_of results)) in
      sort pair_leb (
        distinct (keep (contains unmatched) (map file_and_code (find_stale (e ∷ entries) results))))

  -- One turn of the loop in `_build_entries`; the description does not enter the matching.
  tally_finding : Dict Key Entry → Violation × Tier → Dict Key Entry
  tally_finding tally (finding, tier) =
      record_one tally (build_key finding) (record { severity = tier; count = 1 })

  tally_onto : Dict Key Entry → List (Violation × Tier) → Dict Key Entry
  unfolding tally_finding
  tally_onto tally [] = tally
  tally_onto tally (f ∷ fs) = tally_onto (tally_finding tally f) fs

  unfoldable pub build_entries : List CheckResult → Dict Key Entry
  unfolding tally_onto
  build_entries results = tally_onto [] (iter_findings results)

  -- What `write` leaves in the file: the entries in the order of their keys.
  unfoldable pub written : List CheckResult → List (Key × Entry)
  unfolding key_leb
  written results = sort (λ (key, _) (key', _). key_leb key key') (build_entries results)
