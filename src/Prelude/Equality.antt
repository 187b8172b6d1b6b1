-- ===== src/Prelude/Equality.antt =====
-- Python's `==` on the keys of the program: numbers, texts, and tuples of these.
use Prim.Native.Nat.{ℕ, compare, Ordering}
use mathlib.Core.Path.{◌≡◌, refl}
use mathlib.Core.Logic.{◌↔◌}
use mathlib.Core.Bool.{Bool, true, false, ◌&&◌}
use mathlib.Core.List.{List, [], ◌∷◌}
use native.Mathlib.Omega.{arith}

-- How a type is compared, and that the comparison is right.
pub record Eq {ℓ} (K : Type ℓ) : Type ℓ where
  pub same : K → K → Bool
  pub same_iff : (j k : K) → (same j k ≡ true) ↔ (j ≡ k)

infix 50 ◌==◌
abbrev pub ◌==◌ {ℓ} : {K : Type ℓ} ⦃e : Eq K⦄ → K → K → Bool
◌==◌ ⦃e⦄ j k = e.same j k

pub eq_iff {ℓ} : {A : Type ℓ} ⦃e : Eq A⦄ (a b : A) → ((a == b) ≡ true) ↔ (a ≡ b)
eq_iff ⦃e⦄ = e.same_iff

pub eq_refl {ℓ} : {A : Type ℓ} ⦃e : Eq A⦄ (a : A) → (a == a) ≡ true
eq_refl ⦃e⦄ a = (e.same_iff a a).1 refl

abbrev same_number : ℕ → ℕ → Bool
same_number a b = elim (compare a b) [ Ordering.eq ↦ true | _ ↦ false ]

pub nat_same_iff : (a b : ℕ) → (same_number a b ≡ true) ↔ (a ≡ b)
nat_same_iff a b = ground arith

instance abbrev pub nat_eq : Eq ℕ
nat_eq = record { same = same_number; same_iff = nat_same_iff }

module _ {ℓ} {A : Type ℓ} ⦃e : Eq A⦄ where
  abbrev same_list : List A → List A → Bool
  same_list [] [] = true
  same_list [] (_ ∷ _) = false
  same_list (_ ∷ _) [] = false
  same_list (x ∷ xs) (y ∷ ys) = x == y && same_list xs ys

  pub list_same_iff : (xs ys : List A) → (same_list xs ys ≡ true) ↔ (xs ≡ ys)
  list_same_iff [] [] = ((λ _. refl), (λ _. refl))
  list_same_iff [] (y ∷ ys) = ((λ h. cc), (λ h. cc))
  list_same_iff (x ∷ xs) [] = ((λ h. cc), (λ h. cc))
  list_same_iff (x ∷ xs) (y ∷ ys) = (
    (λ h. ground (arith, e.same_iff x y, list_same_iff xs ys)),
    (λ h. ground (arith, e.same_iff x y, list_same_iff xs ys)),
  )

  instance abbrev pub list_eq : Eq (List A)
  list_eq = record { same = same_list; same_iff = list_same_iff }

module _ {ℓ κ} {A : Type ℓ} {B : Type κ} ⦃e : Eq A⦄ ⦃f : Eq B⦄ where
  abbrev same_pair : A × B → A × B → Bool
  same_pair (a, b) (c, d) = a == c && b == d

  pub pair_same_iff : (p q : A × B) → (same_pair p q ≡ true) ↔ (p ≡ q)
  pair_same_iff (a, b) (c, d) = (
    (λ h. ground (arith, e.same_iff a c, f.same_iff b d)),
    (λ h. ground (arith, e.same_iff a c, f.same_iff b d)),
  )

  instance abbrev pub pair_eq : Eq (A × B)
  pair_eq = record { same = same_pair; same_iff = pair_same_iff }

module _ {ℓ κ μ} {A : Type ℓ} {B : Type κ} {C : Type μ} ⦃e : Eq A⦄ ⦃f : Eq B⦄ ⦃g : Eq C⦄ where
  abbrev same_triple : A × B × C → A × B × C → Bool
  same_triple (a, b, c) (a', b', c') = a == a' && (b == b' && c == c')

  pub triple_same_iff : (p q : A × B × C) → (same_triple p q ≡ true) ↔ (p ≡ q)
  triple_same_iff (a, b, c) (a', b', c') = (
    (λ h. ground (arith, e.same_iff a a', f.same_iff b b', g.same_iff c c')),
    (λ h. ground (arith, e.same_iff a a', f.same_iff b b', g.same_iff c c')),
  )

  instance abbrev pub triple_eq : Eq (A × B × C)
  triple_eq = record { same = same_triple; same_iff = triple_same_iff }
