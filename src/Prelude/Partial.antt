-- ===== src/Prelude/Partial.antt =====
-- Loops over a list whose body may raise: `none` where it does at some item.
use mathlib.Core.Path.{◌≡◌, refl, sym, subst}
use mathlib.Core.Logic.{inl, inr}
use mathlib.Core.Bool.{Bool}
use mathlib.Core.Option.{Option, none, some}
use mathlib.Core.List.{List, [], ◌∷◌, ◌++◌}
use Prim.Native.Nat.{◌≤◌}
use native.Mathlib.Omega.{arith}
use lanorme.Prelude.Tests.{if◌then◌else◌, Bool-cases, Option-cases}
use lanorme.Prelude.Lists.{count_if, Among, first, later, Among-of_append}

-- The items for which the test holds.
unfoldable pub keep_when : {A : Type 0} → (A → Option Bool) → List A → Option (List A)
keep_when p [] = some []
keep_when p (x ∷ xs) =
    let rest = keep_when p xs in
    elim (p x) [
      | none ↦ none
      | some b ↦ elim rest [ none ↦ none | some ys ↦ some (if b then x ∷ ys else ys) ]
    ]

-- What all the items give, one behind the other.
unfoldable pub gather : {A B : Type 0} → (A → Option (List B)) → List A → Option (List B)
gather f [] = some []
gather f (x ∷ xs) =
    let rest = gather f xs in
    elim (f x) [ none ↦ none | some ys ↦ elim rest [ none ↦ none | some zs ↦ some (ys ++ zs) ] ]

pub keep_when-total :
    {A : Type 0} (p : A → Option Bool) (xs : List A)
    → ((a : A) → Among a xs → (b : Bool) × (p a ≡ some b))
    → (ys : List A) × (keep_when p xs ≡ some ys)
unfolding keep_when
keep_when-total p [] h = ([], refl)
keep_when-total p (x ∷ xs) h =
    let (b, e) = h x first in
    let (ys, e') = keep_when-total p xs (λ a m. h a (later m)) in
    ((if b then x ∷ ys else ys), rw (keep_when, e, e') refl)

pub count_if-keep_when :
    {A : Type 0} (p : A → Option Bool) (q : A → Bool) (xs ys : List A)
    → keep_when p xs ≡ some ys
    → count_if q ys ≤ count_if q xs
unfolding keep_when
count_if-keep_when p q [] ys h =
    let same : [] ≡ ys = cc in subst (λ zs. count_if q zs ≤ 0) same (omega arith)
count_if-keep_when p q (x ∷ xs) ys h = elim (Option-cases (p x)) [
  | inl e ↦ let h' = rw (keep_when, e) at h in cc
  | inr (b, e) ↦ elim (Option-cases (keep_when p xs)) [
    | inl e' ↦ let h' = rw (keep_when, e, e') at h in cc
    | inr (zs, e') ↦
        let h' = rw (keep_when, e, e') at h in
        let same : (if b then x ∷ zs else zs) ≡ ys = cc in
        let fewer = count_if-keep_when p q xs zs e' in
        subst (λ ws. count_if q ws ≤ count_if q (x ∷ xs)) same
          (elim (Bool-cases b) [
            | inl taken ↦ rw taken (ground (arith, fewer))
            | inr left ↦ rw left (ground (arith, fewer))
          ])
  ]
]

pub gather-total :
    {A B : Type 0} (f : A → Option (List B)) (xs : List A)
    → ((a : A) → Among a xs → (ys : List B) × (f a ≡ some ys))
    → (zs : List B) × (gather f xs ≡ some zs)
unfolding gather
gather-total f [] h = ([], refl)
gather-total f (x ∷ xs) h =
    let (ys, e) = h x first in
    let (zs, e') = gather-total f xs (λ a m. h a (later m)) in (ys ++ zs, rw (gather, e, e') refl)

pub Among-of_gather :
    {A B : Type 0} (f : A → Option (List B)) (xs : List A) (zs : List B) (z : B)
    → gather f xs ≡ some zs
    → Among z zs
    → (a : A) × (ys : List B) × Among a xs × (f a ≡ some ys) × Among z ys
unfolding gather
Among-of_gather f [] zs z h m =
    let same : [] ≡ zs = cc in elim (subst (λ ws. Among z ws) (sym same) m) [ ]
Among-of_gather f (x ∷ xs) zs z h m = elim (Option-cases (f x)) [
  | inl e ↦ let h' = rw (gather, e) at h in cc
  | inr (ys, e) ↦ elim (Option-cases (gather f xs)) [
    | inl e' ↦ let h' = rw (gather, e, e') at h in cc
    | inr (ws, e') ↦
        let h' = rw (gather, e, e') at h in
        let same : ys ++ ws ≡ zs = cc in
        elim (Among-of_append z ys ws (subst (λ us. Among z us) (sym same) m)) [
          | inl k ↦ (x, ys, first, e, k)
          | inr k ↦
              let (a, us, at, e'', n) = Among-of_gather f xs ws z e' k in (a, us, later at, e'', n)
        ]
  ]
]
