-- ===== src/Finding/Codes.antt =====
-- Expanding a bare rule code to the rule that its check declares keeps what the finding is.
use lanorme.Prelude.{
  ◌≡◌, refl, ap₂, inl, inr, some, List, [], ◌∷◌, map, arith, Bool-cases, Option-cases, eq_iff,
  nat_eq, list_eq, pair_eq, triple_eq, contains,
}
use lanorme.Prelude.Dict.{Dict, lookup, insert, lookup-insert}
use lanorme.Text.{Text}
use lanorme.Text.Laws.{first_word-before_idem}
use lanorme.Finding.{Violation, CheckResult, extract_code, declared_rules, expand, expand_rules}

-- The code of a code is itself.
pub extract_code-extract_code : (rule : Text) → extract_code (extract_code rule) ≡ extract_code rule
unfolding extract_code
extract_code-extract_code rule = first_word-before_idem b':' rule

-- Each entry of the dict is the rule of its code.
record IsFaithful (declared : Dict Text Text) : Type 0 where
  at : (k rule : Text) → lookup k declared ≡ some rule → extract_code rule ≡ k

insert-IsFaithful :
    (rule : Text) (declared : Dict Text Text)
    → IsFaithful declared
    → IsFaithful (insert (extract_code rule) rule declared)
insert-IsFaithful rule declared f = record {
  at = λ k r h. ground (
    arith,
    lookup-insert (extract_code rule) k rule declared,
    eq_iff (extract_code rule) k,
    f.at k r,
  );
}

declared_rules-IsFaithful :
    (rules : List Text) (declared : Dict Text Text)
    → IsFaithful declared
    → IsFaithful (declared_rules rules declared)
unfolding declared_rules
declared_rules-IsFaithful [] declared f = f
declared_rules-IsFaithful (rule ∷ rules) declared f = elim (Bool-cases (contains rule b':')) [
  | inl described ↦
      rw described (declared_rules-IsFaithful rules _ (insert-IsFaithful rule declared f))
  | inr bare ↦ rw bare (declared_rules-IsFaithful rules declared f)
]

expand-code :
    (declared : Dict Text Text) (v : Violation)
    → IsFaithful declared
    → extract_code (expand declared v).rule ≡ extract_code v.rule
unfolding expand
expand-code declared v f = elim (Option-cases (lookup v.rule declared)) [
  | inl absent ↦ ground arith
  | inr (rule, found) ↦
      let e : extract_code rule ≡ v.rule = f.at v.rule rule found in
      let idem : extract_code (extract_code rule) ≡ extract_code rule =
        extract_code-extract_code rule in
      ground arith
]

map-code :
    (declared : Dict Text Text) (vs : List Violation)
    → IsFaithful declared
    → map (λ (v : Violation). extract_code v.rule) (map (expand declared) vs)
      ≡ map (λ (v : Violation). extract_code v.rule) vs
map-code declared [] f = refl
map-code declared (v ∷ vs) f = ap₂ ◌∷◌ (expand-code declared v f) (map-code declared vs f)

-- The codes of a list of findings, in order.
pub finding_codes : List Violation → List Text
finding_codes = map (λ (v : Violation). extract_code v.rule)

nothing-IsFaithful : IsFaithful []
unfolding lookup
nothing-IsFaithful = record { at = λ k rule h. cc }

-- Expansion changes no finding's code, in either list, so selection, baseline and suppressions
-- see the same codes with or without the descriptions.
pub expand_rules-codes :
    (rules : List Text) (result : CheckResult)
    → (finding_codes (expand_rules rules result).violations ≡ finding_codes result.violations)
      × (finding_codes (expand_rules rules result).warnings ≡ finding_codes result.warnings)
unfolding expand_rules finding_codes
expand_rules-codes rules result =
    let f : IsFaithful (declared_rules rules []) =
      declared_rules-IsFaithful rules [] nothing-IsFaithful in
    (map-code _ result.violations f, map-code _ result.warnings f)
