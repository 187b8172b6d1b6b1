-- ===== src/Promotion.antt =====
-- lanorme/filters.py: warnings that the configuration turns into violations.
use lanorme.Finding.{judge}
use lanorme.Prelude.{
  ◌≡◌, refl, ap, ap₂, ◌↔◌, ◌⊎◌, inl, inr, Bool, true, false, not, ◌&&◌, ◌||◌, List, [], ◌∷◌, ◌++◌,
  map, append-nil, arith, if◌then◌else◌, Bool-cases, ◌==◌, eq_iff, nat_eq, list_eq, pair_eq,
  triple_eq, keep, any, contains, length-append, length-keep_add, length-map,
}
use lanorme.Text.{Text, codes, upper, strip, ends_with}
use lanorme.Finding.{Violation, CheckResult, fail, status, count_findings, extract_code}
use lanorme.Selectors.{
  is_code_matched, names_code, wanted_selectors, extract_category, all_selector,
}

is_all : Text → Bool
is_all pattern = upper (strip pattern) == all_selector

unfoldable pub is_promoted : Text → List Text → List Text → Bool
unfolding is_all
is_promoted code promote advisory =
    if ends_with code (codes "-000")
    then false
    else is_code_matched code
        (if contains advisory (upper code) then keep (λ p. not (is_all p)) promote else promote)

unfoldable pub escalates : List Text → List Text → Violation → Bool
escalates promote advisory warning = is_promoted (extract_code warning.rule) promote advisory

unfoldable pub mark_promoted : Violation → Violation
mark_promoted warning = record warning { promoted = true }

-- The loop over one result: `escalated` and `kept` are the two parts of its warnings.
unfoldable pub promote_result : List Text → List Text → CheckResult → CheckResult
unfolding mark_promoted
promote_result promote advisory result = record {
  check = result.check;
  violations =
      result.violations ++ map mark_promoted (keep (escalates promote advisory) result.warnings);
  warnings = keep (λ w. not (escalates promote advisory w)) result.warnings;
}

unfoldable pub apply_promotions : List CheckResult → List Text → List Text → List CheckResult
unfolding promote_result
apply_promotions results promote advisory =
    if promote == [] then results else map (promote_result promote advisory) results

count_findings-promote :
    (promote advisory : List Text) (results : List CheckResult)
    → count_findings (map (promote_result promote advisory) results) ≡ count_findings results
unfolding count_findings promote_result
count_findings-promote promote advisory [] = refl
count_findings-promote promote advisory (r ∷ results) = omega (
  arith,
  length-append r.violations (map mark_promoted (keep (escalates promote advisory) r.warnings)),
  length-map (keep (escalates promote advisory) r.warnings) mark_promoted,
  length-keep_add (escalates promote advisory) r.warnings,
  count_findings-promote promote advisory results,
)

-- Promotion moves findings and loses none.
pub apply_promotions-count :
    (results : List CheckResult) (promote advisory : List Text)
    → count_findings (apply_promotions results promote advisory) ≡ count_findings results
unfolding apply_promotions
apply_promotions-count results promote advisory =
    ground (arith, count_findings-promote promote advisory results)

keep-kept :
    (p : Violation → Bool) (xs : List Violation)
    → (keep p (keep (λ x. not (p x)) xs) ≡ [])
      × (keep (λ x. not (p x)) (keep (λ x. not (p x)) xs) ≡ keep (λ x. not (p x)) xs)
keep-kept p [] = (refl, refl)
keep-kept p (x ∷ xs) = elim (Bool-cases (p x)) [
  | inl hit ↦ rw hit (keep-kept p xs)
  | inr miss ↦
      let (a, b) = keep-kept p xs in (rw (miss, miss) a, rw (miss, miss) (ap (λ l. x ∷ l) b))
]

promote_result_idem :
    (promote advisory : List Text) (r : CheckResult)
    → promote_result promote advisory (promote_result promote advisory r)
      ≡ promote_result promote advisory r
unfolding promote_result
promote_result_idem promote advisory r =
    let (a, b) = keep-kept (escalates promote advisory) r.warnings in
    rw (a, b)
      (ap
        (λ vs. record {
          check = r.check;
          violations = vs;
          warnings = keep (λ w. not (escalates promote advisory w)) r.warnings;
        })
        (append-nil _))

map_idem :
    (f : CheckResult → CheckResult) (rs : List CheckResult)
    → ((r : CheckResult) → f (f r) ≡ f r)
    → map f (map f rs) ≡ map f rs
map_idem f [] h = refl
map_idem f (r ∷ rs) h = ap₂ ◌∷◌ (h r) (map_idem f rs h)

-- Promoting once more changes nothing: what is left as a warning is never escalated.
pub apply_promotions_idem :
    (results : List CheckResult) (promote advisory : List Text)
    → apply_promotions (apply_promotions results promote advisory) promote advisory
      ≡ apply_promotions results promote advisory
unfolding apply_promotions
apply_promotions_idem results promote advisory = elim (Bool-cases (promote == [])) [
  | inl off ↦ rw off refl
  | inr on ↦ rw on (map_idem _ results (promote_result_idem promote advisory))
]

upper-nil : upper [] ≡ []
unfolding upper
upper-nil = refl

wanted_selectors-no_all :
    (ps : List Text)
    → wanted_selectors (keep (λ p. not (is_all p)) ps)
      ≡ keep (λ p. not (p == all_selector)) (wanted_selectors ps)
unfolding wanted_selectors is_all
wanted_selectors-no_all [] = refl
wanted_selectors-no_all (p ∷ ps) =
    ground (arith, wanted_selectors-no_all ps, eq_iff (strip p) [], upper-nil)

-- The selector spells the code or its category.
pub is_named : Text → List Text → Bool
is_named code ps =
    any (λ p. not (p == all_selector) && (p == upper code || p == extract_category (upper code)))
      (wanted_selectors ps)

any-keep : (p q : Text → Bool) (xs : List Text) → any q (keep p xs) ≡ any (λ x. p x && q x) xs
any-keep p q [] = refl
any-keep p q (x ∷ xs) = ground (arith, any-keep p q xs)

any-ext : (p q : Text → Bool) (xs : List Text) → ((x : Text) → p x ≡ q x) → any p xs ≡ any q xs
any-ext p q [] h = refl
any-ext p q (x ∷ xs) h = rw (h x, any-ext p q xs h) refl

-- A code that its check declares advisory is escalated exactly if it is no `-000` notice and some
-- selector other than ALL names it or its category; ALL alone never does.
pub is_promoted-advisory :
    (code : Text) (promote advisory : List Text)
    → contains advisory (upper code) ≡ true
    → is_promoted code promote advisory
      ≡ (not (ends_with code (codes "-000")) && is_named code promote)
unfolding is_promoted is_code_matched is_named names_code
is_promoted-advisory code promote advisory h =
    rw
      (
        h,
        wanted_selectors-no_all promote,
        any-keep,
        any-ext (λ p. not (p == all_selector) && names_code (upper code) p)
            (λ p.
              not (p == all_selector) && (p == upper code || p == extract_category (upper code)))
            (wanted_selectors promote) (λ p. ground arith),
      )
      (ground arith)

judge-escalated :
    (p : Violation → Bool) (ws rest : List Violation)
    → (judge (map mark_promoted (keep p ws)) rest ≡ fail) ↔ (any p ws ≡ true)
unfolding judge
judge-escalated p [] [] = ((λ h. cc), (λ h. cc))
judge-escalated p [] (r ∷ rest) = ((λ h. cc), (λ h. cc))
judge-escalated p (w ∷ ws) rest = elim (Bool-cases (p w)) [
  | inl hit ↦ rw hit ((λ _. refl), (λ _. refl))
  | inr miss ↦ rw miss (judge-escalated p ws rest)
]

judge-append :
    (p : Violation → Bool) (vs ws rest : List Violation)
    → (judge (vs ++ map mark_promoted (keep p ws)) rest ≡ fail)
      ↔ ((judge vs ws ≡ fail) ⊎ (any p ws ≡ true))
unfolding judge
judge-append p [] [] rest =
    ((λ h. inr ((judge-escalated p [] rest).0 h)), (λ h. elim h [ inl e ↦ cc | inr e ↦ cc ]))
judge-append p [] (w ∷ ws) rest = (
  (λ h. inr ((judge-escalated p (w ∷ ws) rest).0 h)),
  (λ h. elim h [ inl e ↦ cc | inr e ↦ (judge-escalated p (w ∷ ws) rest).1 e ]),
)
judge-append p (v ∷ vs) ws rest = ((λ _. inl refl), (λ _. refl))

-- A result fails after promotion exactly if it failed before or some warning of it is escalated.
pub status-promote :
    (promote advisory : List Text) (result : CheckResult)
    → (status (promote_result promote advisory result) ≡ fail)
      ↔ ((status result ≡ fail) ⊎ (any (escalates promote advisory) result.warnings ≡ true))
unfolding status promote_result
status-promote promote advisory result =
    judge-append (escalates promote advisory) result.violations result.warnings
      (keep (λ w. not (escalates promote advisory w)) result.warnings)
