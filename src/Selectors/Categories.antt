-- ===== src/Selectors/Categories.antt =====
-- Which codes have a category: capitals, a dash and a digit.
use lanorme.Prelude.{
  ℕ, ◌≡◌, refl, sym, ap, ◌∙◌, subst, ◌⊎◌, inl, inr, true, false, ◌&&◌, false≢true, [], ◌∷◌, ◌++◌,
  arith, Bool-cases, ◌==◌, eq_iff, nat_eq, list_eq, pair_eq, triple_eq, all,
}
use lanorme.Text.{Text, is_upper, is_digit}
use lanorme.Selectors.{capitals, after_capitals, category_or, extract_category}

-- The code is the category, in capitals only, followed by a dash and a digit.
abbrev pub IsCategory : Text → Text → Type 0
IsCategory category code =
    (d : ℕ) × (rest : Text) × (code ≡ category ++ b'-' ∷ d ∷ rest)
    × (is_digit d ≡ true)
    × (all is_upper category ≡ true)
    × ((category == []) ≡ false)

capitals-split : (s : Text) → s ≡ capitals s ++ after_capitals s
unfolding capitals after_capitals
capitals-split [] = refl
capitals-split (c ∷ s) = elim (Bool-cases (is_upper c)) [
  | inl capital ↦ rw capital (ap (λ t. c ∷ t) (capitals-split s))
  | inr other ↦ rw other refl
]

capitals-all : (s : Text) → all is_upper (capitals s) ≡ true
unfolding capitals
capitals-all [] = refl
capitals-all (c ∷ s) = elim (Bool-cases (is_upper c)) [
  | inl capital ↦ rw capital (ground (arith, capital, capitals-all s))
  | inr other ↦ rw other refl
]

category_or_sound :
    (code prefix rest wanted : Text)
    → code ≡ prefix ++ rest
    → all is_upper prefix ≡ true
    → category_or code prefix rest ≡ wanted
    → (code ≡ wanted) ⊎ IsCategory wanted code
unfolding category_or
category_or_sound code [] rest wanted e k h = inl h
category_or_sound code (c ∷ prefix) [] wanted e k h = inl h
category_or_sound code (c ∷ prefix) (dash ∷ []) wanted e k h = inl h
category_or_sound code (c ∷ prefix) (dash ∷ d ∷ rest) wanted e k h =
    elim (Bool-cases (dash == b'-' && is_digit d)) [
      | inr other ↦ inl (rw other at h)
      | inl both ↦
          let same : c ∷ prefix ≡ wanted = rw both at h in
          let dashed : dash ≡ b'-' = ground (arith, eq_iff dash b'-', both) in
          inr (
            subst (λ w. IsCategory w code) same
              (
                d,
                rest,
                e ∙ ap (λ a. (c ∷ prefix) ++ a ∷ d ∷ rest) dashed,
                ground (arith, both),
                k,
                refl,
              ))
    ]

pub extract_category_sound :
    (code wanted : Text) → extract_category code ≡ wanted → (code ≡ wanted) ⊎ IsCategory wanted code
unfolding extract_category
extract_category_sound code wanted h =
    category_or_sound code (capitals code) (after_capitals code) wanted (capitals-split code)
      (capitals-all code) h

capitals-stop : (s t : Text) → all is_upper s ≡ true → capitals (s ++ b'-' ∷ t) ≡ s
unfolding capitals is_upper
capitals-stop [] t h = refl
capitals-stop (c ∷ s) t h = ground (arith, capitals-stop s t)

after_capitals-stop :
    (s t : Text) → all is_upper s ≡ true → after_capitals (s ++ b'-' ∷ t) ≡ b'-' ∷ t
unfolding after_capitals is_upper
after_capitals-stop [] t h = refl
after_capitals-stop (c ∷ s) t h = ground (arith, after_capitals-stop s t)

pub extract_category_complete :
    (code wanted : Text) → IsCategory wanted code → extract_category code ≡ wanted
unfolding extract_category category_or
extract_category_complete code [] (d, rest, e, digit, k, given) = absurd (false≢true (sym given))
extract_category_complete code (c ∷ wanted) (d, rest, e, digit, k, given) =
    rw
      (
        e,
        capitals-stop (c ∷ wanted) (d ∷ rest) k,
        after_capitals-stop (c ∷ wanted) (d ∷ rest) k,
        category_or,
        digit,
      )
      refl
