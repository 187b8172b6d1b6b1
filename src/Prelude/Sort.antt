-- ===== src/Prelude/Sort.antt =====
-- Python's `sorted`: stable, by an order given as a Boolean test.
use Prim.Native.Nat.{ℕ}
use mathlib.Core.Path.{◌≡◌, refl}
use mathlib.Core.Logic.{inl, inr}
use mathlib.Core.Bool.{Bool, true, false, ◌&&◌, ◌||◌}
use mathlib.Core.List.{List, [], ◌∷◌}
use native.Mathlib.Omega.{arith}
use lanorme.Prelude.Tests.{ltb, if◌then◌else◌, Bool-cases}
use lanorme.Prelude.Equality.{◌==◌, nat_eq}
use lanorme.Prelude.Lists.{count_if, any, sum_by, Among, first, later, Among-cons}

module _ {ℓ} {A : Type ℓ} (le : A → A → Bool) where
  insert_sorted : A → List A → List A
  insert_sorted x [] = x ∷ []
  insert_sorted x (y ∷ ys) = if le x y then x ∷ (y ∷ ys) else y ∷ insert_sorted x ys

  unfoldable pub sort : List A → List A
  unfolding insert_sorted
  sort [] = []
  sort (x ∷ xs) = insert_sorted x (sort xs)

  Among-insert_self : (x : A) (ys : List A) → Among x (insert_sorted x ys)
  unfolding insert_sorted
  Among-insert_self x [] = first
  Among-insert_self x (y ∷ ys) = elim (Bool-cases (le x y)) [
    | inl small ↦ rw small first
    | inr large ↦ rw large (later (Among-insert_self x ys))
  ]

  Among-insert : (x : A) {a : A} (ys : List A) → Among a ys → Among a (insert_sorted x ys)
  unfolding insert_sorted
  Among-insert x [] m = elim m [ ]
  Among-insert x (y ∷ ys) first = elim (Bool-cases (le x y)) [
    | inl small ↦ rw small (later first)
    | inr large ↦ rw large first
  ]
  Among-insert x (y ∷ ys) (later m) = elim (Bool-cases (le x y)) [
    | inl small ↦ rw small (later (later m))
    | inr large ↦ rw large (later (Among-insert x ys m))
  ]

  pub Among-sort : {a : A} (xs : List A) → Among a xs → Among a (sort xs)
  unfolding sort
  Among-sort [] m = elim m [ ]
  Among-sort (x ∷ xs) first = Among-insert_self x (sort xs)
  Among-sort (x ∷ xs) (later m) = Among-insert x (sort xs) (Among-sort xs m)

  Among-of_insert : (x : A) {a : A} (ys : List A) → Among a (insert_sorted x ys) → Among a (x ∷ ys)
  unfolding insert_sorted
  Among-of_insert x [] m = m
  Among-of_insert x (y ∷ ys) m = elim (Bool-cases (le x y)) [
    | inl small ↦ rw small at m
    | inr large ↦
        Among-cons (λ b. Among b (x ∷ y ∷ ys)) (later first)
          (λ n.
            Among-cons (λ b. Among b (x ∷ y ∷ ys)) first (λ k. later (later k))
              (Among-of_insert x ys n))
          (rw large at m)
  ]

  pub Among-of_sort : {a : A} (xs : List A) → Among a (sort xs) → Among a xs
  unfolding sort
  Among-of_sort [] m = m
  Among-of_sort (x ∷ xs) m =
      Among-cons (λ b. Among b (x ∷ xs)) first (λ k. later (Among-of_sort xs k))
        (Among-of_insert x (sort xs) m)

  count_if-insert :
      (p : A → Bool) (x : A) (ys : List A) → count_if p (insert_sorted x ys) ≡ count_if p (x ∷ ys)
  unfolding insert_sorted
  count_if-insert p x [] = refl
  count_if-insert p x (y ∷ ys) = ground (arith, count_if-insert p x ys)

  pub count_if-sort : (p : A → Bool) (xs : List A) → count_if p (sort xs) ≡ count_if p xs
  unfolding sort
  count_if-sort p [] = refl
  count_if-sort p (x ∷ xs) = ground (arith, count_if-insert p x (sort xs), count_if-sort p xs)

  any-insert : (p : A → Bool) (x : A) (ys : List A) → any p (insert_sorted x ys) ≡ any p (x ∷ ys)
  unfolding insert_sorted
  any-insert p x [] = refl
  any-insert p x (y ∷ ys) = ground (arith, any-insert p x ys)

  pub any-sort : (p : A → Bool) (xs : List A) → any p (sort xs) ≡ any p xs
  unfolding sort
  any-sort p [] = refl
  any-sort p (x ∷ xs) = ground (arith, any-insert p x (sort xs), any-sort p xs)

  sum_by-insert :
      (f : A → ℕ) (x : A) (ys : List A) → sum_by f (insert_sorted x ys) ≡ sum_by f (x ∷ ys)
  unfolding insert_sorted
  sum_by-insert f x [] = refl
  sum_by-insert f x (y ∷ ys) = ground (arith, sum_by-insert f x ys)

  pub sum_by-sort : (f : A → ℕ) (xs : List A) → sum_by f (sort xs) ≡ sum_by f xs
  unfolding sort
  sum_by-sort f [] = refl
  sum_by-sort f (x ∷ xs) = ground (arith, sum_by-insert f x (sort xs), sum_by-sort f xs)

-- `a <= b` on texts, by code points.
unfoldable pub text_leb : List ℕ → List ℕ → Bool
text_leb [] _ = true
text_leb (c ∷ s) [] = false
text_leb (c ∷ s) (d ∷ t) = ltb c d || (c == d && text_leb s t)
