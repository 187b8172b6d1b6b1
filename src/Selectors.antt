-- ===== src/Selectors.antt =====
-- lanorme/selectors.py: which rule codes a selector names, and the refusal of unknown selectors.
pub mod Categories
pub mod Laws
use lanorme.Prelude.{
  ℕ, zero, suc, ◌+◌, ◌-◌, ◌*◌, ◌≤◌, ◌<◌, min, String, ◌≡◌, refl, sym, ap, ap₂, ◌∙◌, subst, fun_ext,
  ◌≢◌, ◌↔◌, ◌⊎◌, inl, inr, Bool, true, false, not, ◌&&◌, ◌||◌, false≢true, Option, none, some, List,
  [], ◌∷◌, ◌++◌, map, append-nil, append_assoc, arith, ltb, leb, if◌then◌else◌, tests, Bool-cases,
  Option-cases, Eq, ◌==◌, eq_iff, eq_refl, nat_eq, list_eq, pair_eq, triple_eq, length, keep, any,
  all, count_if, contains, flat_map, length-append, keep-append, keep-keep, count_if-append,
  length-keep-le, length-keep_add, any-append, any-map, length-map, take, drop, get_elem?, Among,
  first, later, any_of_Among, Among-of_any, all_of_Among, contains_of_Among, Among-of_contains,
  Among-append_left, Among-cons, Among-of_keep, Among-of_sort, Among-keep, Among-append_right,
  Among-map, Among-flat_map, Among-of_map, Among-of_append, Among-of_flat_map, reverse,
  Among-reverse, Among-of_reverse, length-reverse, sort, Among-sort, count_if-sort, any-sort,
  sum_by, sum_by-sort, text_leb,
}
use lanorme.Prelude.Dict.{Dict}
use lanorme.Text.{
  Text, codes, is_space, is_upper, is_digit, is_alnum, upper_char, upper, lstrip, rstrip, strip,
  before, after, words, split, join, starts_with, ends_with, forward_slashes, decimal, base_name,
  dir_name,
}
use lanorme.Finding.{extract_code}
use lanorme.Check.{CheckApi, Result, ok, err, unknown_selectors}

-- The longest run of capitals at the head of a text, and what follows it.
capitals : Text → Text
unfolding is_upper
capitals [] = []
capitals (c ∷ s) = let rest = capitals s in if is_upper c then c ∷ rest else []

after_capitals : Text → Text
unfolding is_upper
after_capitals [] = []
after_capitals (c ∷ s) = let rest = after_capitals s in if is_upper c then rest else c ∷ s

category_or : Text → Text → Text → Text
unfolding is_digit
category_or code (c ∷ prefix) (dash ∷ d ∷ _) =
    if dash == b'-' && is_digit d then c ∷ prefix else code
category_or code _ _ = code

-- `_CODE_RE` is `^([A-Z]+)-\d+`.
unfoldable pub extract_category : Text → Text
unfolding capitals after_capitals category_or
extract_category code = category_or code (capitals code) (after_capitals code)

-- `{p.strip().upper() for p in patterns if p.strip()}`
unfoldable pub wanted_selectors : List Text → List Text
wanted_selectors [] = []
wanted_selectors (p ∷ patterns) =
    let rest = wanted_selectors patterns in if strip p == [] then rest else upper (strip p) ∷ rest

abbrev pub all_selector : Text
all_selector = codes "ALL"

unfoldable pub names_code : Text → Text → Bool
names_code code p = p == all_selector || (p == code || p == extract_category code)

unfoldable pub is_code_matched : Text → List Text → Bool
unfolding names_code wanted_selectors
is_code_matched code patterns = any (names_code (upper code)) (wanted_selectors patterns)

module _ (api : CheckApi) where
  open api use {Check, name, rules, advisory_codes}

  unfoldable pub collect_advisory_codes : List Check → List Text
  collect_advisory_codes checks = flat_map (λ check. map upper (advisory_codes check)) checks

  abbrev pub Registered : Type 0
  Registered = Dict Text Check

  abbrev pub check_values : Registered → List Check
  check_values = map (λ (_, check). check)

  owns : Text → Check → Bool
  owns wanted check =
      any (λ rule. extract_code rule == wanted || extract_category (extract_code rule) == wanted)
        (rules check)

  unfoldable pub checks_for_selector : Registered → Text → List Check
  unfolding owns
  checks_for_selector registered selector =
      sort (λ a b. text_leb (name a) (name b))
        (keep (owns (upper selector)) (check_values registered))

  unfoldable pub known_codes : Registered → List Text
  known_codes registered =
      flat_map (λ check. map (λ rule. upper (extract_code rule)) (rules check))
        (check_values registered)

  unfoldable pub known_categories : Registered → List Text
  unfolding known_codes
  known_categories registered = map (before b'-') (known_codes registered) ++ (codes "RUN" ∷ [])

-- The tail of `_selector_is_known`, after `partition("-")`.
number_is_known : List Text → List Text → Text → Option Text → Bool
number_is_known codes_ categories category none = false
number_is_known codes_ categories category (some []) = false
number_is_known codes_ categories category (some (d ∷ number)) =
    contains categories category
    && (d ∷ number == codes "000" || contains codes_ (category ++ codes "-NNN"))

unfoldable pub selector_is_known : List Text → List Text → Text → Bool
unfolding number_is_known
selector_is_known codes_ categories selector =
    let wanted = upper (strip selector) in
    wanted == all_selector
    || contains codes_ wanted
    || contains categories wanted
    || number_is_known codes_ categories (before b'-' wanted) (after b'-' wanted)

unknown_or_ok : Text → List Text → Result (Unit {0})
unknown_or_ok origin [] = ok tt
unknown_or_ok origin (s ∷ unknown) = err (unknown_selectors origin (map strip (s ∷ unknown)))

module _ (api : CheckApi) where
  unfoldable pub reject_unknown_selectors : Registered api → Text → List Text → Result (Unit {0})
  unfolding selector_is_known unknown_or_ok known_codes known_categories
  reject_unknown_selectors registered origin selectors = unknown_or_ok origin (
      keep
        (λ s.
          not (strip s == [])
          && not
              (selector_is_known (known_codes api registered) (known_categories api registered) s))
        selectors)
