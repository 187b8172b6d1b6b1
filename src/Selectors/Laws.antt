-- ===== src/Selectors/Laws.antt =====
-- What selector matching and validation guarantee.
use lanorme.Prelude.{
  ℕ, ◌≡◌, refl, ◌↔◌, ◌⊎◌, inl, inr, Bool, true, false, not, ◌&&◌, ◌||◌, List, [], ◌∷◌, map, arith,
  Bool-cases, ◌==◌, eq_iff, nat_eq, list_eq, pair_eq, triple_eq, keep, contains, Among, first,
  later, any_of_Among, Among-of_any, contains_of_Among, Among-append_left, Among-of_keep,
  Among-of_sort, Among-keep, Among-map, Among-sort,
}
use lanorme.Text.{Text, is_upper, upper, strip, before}
use lanorme.Text.Laws.{upper-upper, strip-upper}
use lanorme.Finding.{extract_code}
use lanorme.Check.{CheckApi, ok}
use lanorme.Selectors.Categories.{IsCategory, extract_category_sound, extract_category_complete}
use lanorme.Selectors.{
  wanted_selectors, is_code_matched, names_code, extract_category, category_or, capitals,
  after_capitals, Registered, check_values, known_codes, known_categories, selector_is_known,
  reject_unknown_selectors, unknown_or_ok, all_selector, owns, checks_for_selector,
}

upper-eq-nil : (s : Text) → (upper s == []) ≡ (s == [])
unfolding upper
upper-eq-nil [] = refl
upper-eq-nil (c ∷ s) = refl

wanted_selectors-upper : (ps : List Text) → wanted_selectors (map upper ps) ≡ wanted_selectors ps
unfolding wanted_selectors
wanted_selectors-upper [] = refl
wanted_selectors-upper (p ∷ ps) =
    rw (strip-upper, wanted_selectors-upper ps, upper-eq-nil, upper-upper) refl

-- Selectors match alike in any letter case, of the code and of every selector.
pub is_code_matched-upper :
    (code : Text) (ps : List Text)
    → is_code_matched (upper code) (map upper ps) ≡ is_code_matched code ps
unfolding is_code_matched
is_code_matched-upper code ps = rw (wanted_selectors-upper, upper-upper) refl

before-eq-capitals :
    (s : Text) (d : ℕ) (t : Text)
    → after_capitals s ≡ d ∷ t
    → (d == b'-') ≡ true
    → before b'-' s ≡ capitals s
unfolding before capitals after_capitals is_upper
before-eq-capitals [] d t h e = cc
before-eq-capitals (c ∷ s) d t h e = ground (arith, before-eq-capitals s d t)

category_or_cases :
    (code prefix rest : Text)
    → ((d : ℕ) (t : Text) → rest ≡ d ∷ t → (d == b'-') ≡ true → before b'-' code ≡ prefix)
    → (category_or code prefix rest ≡ code) ⊎ (category_or code prefix rest ≡ before b'-' code)
unfolding category_or
category_or_cases code [] rest h = inl refl
category_or_cases code (c ∷ prefix) [] h = inl refl
category_or_cases code (c ∷ prefix) (dash ∷ []) h = inl refl
category_or_cases code (c ∷ prefix) (dash ∷ d ∷ rest) h = elim (Bool-cases (dash == b'-')) [
  | inl hit ↦ rw (h dash (d ∷ rest) refl hit) (ground arith)
  | inr miss ↦ inl (ground arith)
]

-- A category is the code itself or what stands before its first dash.
category_cases :
    (code : Text) → (extract_category code ≡ code) ⊎ (extract_category code ≡ before b'-' code)
unfolding extract_category
category_cases code =
    category_or_cases code (capitals code) (after_capitals code) (before-eq-capitals code)

keep-eq-nil :
    (p : Text → Bool) (xs : List Text) → ((x : Text) → Among x xs → p x ≡ false) → keep p xs ≡ []
keep-eq-nil p [] h = refl
keep-eq-nil p (x ∷ xs) h = rw (h x first) (keep-eq-nil p xs (λ y m. h y (later m)))

module _ (api : CheckApi) (registered : Registered api) where
  open api use {Check, rules}

  -- A rule code that some registered check declares, in capitals.
  abbrev pub IsDeclared : Text → Type 0
  IsDeclared code = Among code (known_codes api registered)

  code-IsKnown :
      (code : Text)
      → IsDeclared code
      → contains (known_categories api registered) (before b'-' code) ≡ true
  unfolding known_categories
  code-IsKnown code m = contains_of_Among (Among-append_left _ (Among-map (before b'-') m))

  names-IsKnown :
      (code p : Text)
      → IsDeclared code
      → names_code code p ≡ true
      → (p == all_selector
          || contains (known_codes api registered) p
          || contains (known_categories api registered) p)
        ≡ true
  unfolding names_code
  names-IsKnown code p m h = elim (category_cases code) [
    | inl itself ↦
        ground (arith, eq_iff p code, eq_iff p (extract_category code), contains_of_Among m)
    | inr head ↦ ground (
      arith,
      eq_iff p code,
      eq_iff p (extract_category code),
      contains_of_Among m,
      code-IsKnown code m,
    )
  ]

  -- Either blank, or it matches a rule that some registered check declares.
  abbrev pub IsUseful : Text → Type 0
  IsUseful s =
      (strip s ≡ [])
      ⊎ ((code : Text) × IsDeclared (upper code) × (is_code_matched code (s ∷ []) ≡ true))

  is_refused : Text → Bool
  is_refused s =
      not (strip s == [])
      && not (selector_is_known (known_codes api registered) (known_categories api registered) s)

  matched-IsKnown :
      (s code : Text)
      → IsDeclared (upper code)
      → is_code_matched code (s ∷ []) ≡ true
      → is_refused s ≡ false
  unfolding is_refused is_code_matched selector_is_known wanted_selectors
  matched-IsKnown s code m h = ground (arith, names-IsKnown (upper code) (upper (strip s)) m)

  useful-IsKnown : (s : Text) → IsUseful s → is_refused s ≡ false
  unfolding is_refused
  useful-IsKnown s u = elim u [
    | inl blank ↦ rw blank refl
    | inr (code, m, h) ↦ matched-IsKnown s code m h
  ]

  -- Validation never refuses a selector that would narrow to some declared rule: it passes every
  -- list whose items are blank or match a declared code, its category or ALL.
  pub reject_unknown_selectors-ok :
      (origin : Text) (selectors : List Text)
      → ((s : Text) → Among s selectors → IsUseful s)
      → reject_unknown_selectors api registered origin selectors ≡ ok tt
  unfolding reject_unknown_selectors unknown_or_ok is_refused
  reject_unknown_selectors-ok origin selectors h =
      rw (keep-eq-nil is_refused selectors (λ s m. useful-IsKnown s (h s m))) refl

  -- Some rule of the check has the code, as declared, or has the category.
  abbrev pub Owns : Text → Check → Type 0
  Owns wanted check =
      (rule : Text) × Among rule (rules check)
      × ((extract_code rule ≡ wanted) ⊎ IsCategory wanted (extract_code rule))

  owns-Owns : (wanted : Text) (check : Check) → owns api wanted check ≡ true → Owns wanted check
  unfolding owns
  owns-Owns wanted check h =
      let (rule, m, either) = Among-of_any _ (rules check) h in
      let code = extract_code rule in
      (
        rule,
        m,
        elim (Bool-cases (code == wanted)) [
          | inl same ↦ inl ((eq_iff code wanted).0 same)
          | inr other ↦
              extract_category_sound code wanted
                ((eq_iff (extract_category code) wanted).0 (rw other at either))
        ],
      )

  Owns-owns : (wanted : Text) (check : Check) → Owns wanted check → owns api wanted check ≡ true
  unfolding owns
  Owns-owns wanted check (rule, m, either) =
      let code = extract_code rule in
      any_of_Among
        (λ rule. extract_code rule == wanted || extract_category (extract_code rule) == wanted) m
        (elim either [
          | inl same ↦ let e = (eq_iff code wanted).1 same in ground (arith, e)
          | inr category ↦
              let e =
                (eq_iff (extract_category code) wanted).1
                  (extract_category_complete code wanted category) in
              ground (arith, e)
        ])

  -- A selector, put in capitals, picks exactly the registered checks of which some rule's code, as
  -- it is declared, is the selector, or is the selector, of capitals only, followed by a dash and
  -- a digit.
  pub checks_for_selector_iff :
      (selector : Text) (check : Check)
      → Among check (checks_for_selector api registered selector)
        ↔ (Among check (check_values api registered) × Owns (upper selector) check)
  unfolding checks_for_selector
  checks_for_selector_iff selector check = (
    (λ m.
        let (k, h) =
          Among-of_keep (owns api (upper selector)) (check_values api registered)
            (Among-of_sort _ _ m) in
        (k, owns-Owns (upper selector) check h)),
    (λ (k, o).
        Among-sort _ _
          (Among-keep (owns api (upper selector)) (Owns-owns (upper selector) check o) k)),
  )
