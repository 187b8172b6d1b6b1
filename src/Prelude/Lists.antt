-- ===== src/Prelude/Lists.antt =====
-- List functions that Python's comprehensions, `len`, `in` and `any` are written with.
use Prim.Native.Nat.{ℕ, zero, suc, ◌+◌, ◌≤◌}
use mathlib.Core.Path.{◌≡◌, refl, subst, ap}
use mathlib.Core.Bool.{Bool, true, false, not, ◌&&◌, ◌||◌, false≢true}
use mathlib.Core.Option.{Option, none, some}
use mathlib.Core.Logic.{inl, inr, ◌⊎◌}
use mathlib.Core.List.{List, [], ◌∷◌, ◌++◌, map}
use native.Mathlib.Omega.{arith}
use lanorme.Prelude.Tests.{if◌then◌else◌, Bool-cases}
use lanorme.Prelude.Equality.{Eq, ◌==◌}

module _ {ℓ} {A : Type ℓ} where
  abbrev pub length : List A → ℕ
  length [] = 0
  length (x ∷ xs) = suc (length xs)

  -- `[x for x in xs if p(x)]`
  abbrev pub keep : (A → Bool) → List A → List A
  keep p [] = []
  keep p (x ∷ xs) = let rest = keep p xs in if p x then x ∷ rest else rest

  -- `any(p(x) for x in xs)`
  abbrev pub any : (A → Bool) → List A → Bool
  any p [] = false
  any p (x ∷ xs) = p x || any p xs

  -- `all(p(x) for x in xs)`
  abbrev pub all : (A → Bool) → List A → Bool
  all p [] = true
  all p (x ∷ xs) = p x && all p xs

  -- `sum(1 for x in xs if p(x))`
  abbrev pub count_if : (A → Bool) → List A → ℕ
  count_if p [] = 0
  count_if p (x ∷ xs) = if p x then suc (count_if p xs) else count_if p xs

  -- `sum(f(x) for x in xs)`
  abbrev pub sum_by : (A → ℕ) → List A → ℕ
  sum_by f [] = 0
  sum_by f (x ∷ xs) = f x + sum_by f xs

  pub length-append : (xs ys : List A) → length (xs ++ ys) ≡ length xs + length ys
  length-append [] ys = omega arith
  length-append (x ∷ xs) ys = omega (arith, length-append xs ys)

  pub keep-append : (p : A → Bool) (xs ys : List A) → keep p (xs ++ ys) ≡ keep p xs ++ keep p ys
  keep-append p [] ys = refl
  keep-append p (x ∷ xs) ys = ground (arith, keep-append p xs ys)

  pub keep-keep : (p q : A → Bool) (xs : List A) → keep q (keep p xs) ≡ keep (λ x. p x && q x) xs
  keep-keep p q [] = refl
  keep-keep p q (x ∷ xs) = ground (arith, keep-keep p q xs)

  pub count_if-append :
      (p : A → Bool) (xs ys : List A) → count_if p (xs ++ ys) ≡ count_if p xs + count_if p ys
  count_if-append p [] ys = omega arith
  count_if-append p (x ∷ xs) ys = ground (arith, count_if-append p xs ys)

  pub length-keep-le : (p : A → Bool) (xs : List A) → length (keep p xs) ≤ length xs
  length-keep-le p [] = omega arith
  length-keep-le p (x ∷ xs) = ground (arith, length-keep-le p xs)

  pub length-keep_add :
      (p : A → Bool) (xs : List A)
      → length (keep p xs) + length (keep (λ x. not (p x)) xs) ≡ length xs
  length-keep_add p [] = omega arith
  length-keep_add p (x ∷ xs) = ground (arith, length-keep_add p xs)

  pub any-append : (p : A → Bool) (xs ys : List A) → any p (xs ++ ys) ≡ (any p xs || any p ys)
  any-append p [] ys = refl
  any-append p (x ∷ xs) ys = ground (arith, any-append p xs ys)

module _ {ℓ} {A : Type ℓ} where
  abbrev pub take : ℕ → List A → List A
  take zero xs = []
  take (suc n) [] = []
  take (suc n) (x ∷ xs) = x ∷ take n xs

  abbrev pub drop : ℕ → List A → List A
  drop zero xs = xs
  drop (suc n) [] = []
  drop (suc n) (x ∷ xs) = drop n xs

  -- The item at a place counted from 0.
  abbrev pub get_elem? : List A → ℕ → Option A
  get_elem? [] i = none
  get_elem? (x ∷ xs) zero = some x
  get_elem? (x ∷ xs) (suc i) = get_elem? xs i

-- An item of a list, with its place kept: a Boolean search finds one.
pub data Among {ℓ} {A : Type ℓ} (a : A) : List A → Type ℓ where
  first : {xs : List A} → Among a (a ∷ xs)
  later : {x : A} {xs : List A} → Among a xs → Among a (x ∷ xs)

module _ {ℓ} {A : Type ℓ} where
  pub any_of_Among :
      (p : A → Bool) {a : A} {xs : List A} → Among a xs → p a ≡ true → any p xs ≡ true
  any_of_Among p first h = rw h
  any_of_Among p (later m) h = ground (arith, any_of_Among p m h)

  pub Among-of_any :
      (p : A → Bool) (xs : List A) → any p xs ≡ true → (a : A) × Among a xs × (p a ≡ true)
  Among-of_any p [] h = absurd (false≢true h)
  Among-of_any p (x ∷ xs) h = elim (Bool-cases (p x)) [
    | inl holds ↦ (x, first, holds)
    | inr fails ↦ let (a, m, e) = Among-of_any p xs (rw fails at h) in (a, later m, e)
  ]

  pub all_of_Among :
      (p : A → Bool) {a : A} {xs : List A} → all p xs ≡ true → Among a xs → p a ≡ true
  all_of_Among p h first = ground arith
  all_of_Among p h (later m) = all_of_Among p (ground arith) m

  pub Among-keep :
      (p : A → Bool) {a : A} {xs : List A} → p a ≡ true → Among a xs → Among a (keep p xs)
  Among-keep p h (first {xs = xs}) = rw h first
  Among-keep p h (later {x = x} m) = elim (Bool-cases (p x)) [
    | inl holds ↦ rw holds (later (Among-keep p h m))
    | inr fails ↦ rw fails (Among-keep p h m)
  ]

  -- Where an item of a list with a head stands.
  pub Among-cons {κ} :
      (Q : A → Type κ) {a x : A} {xs : List A} → Q x → (Among a xs → Q a) → Among a (x ∷ xs) → Q a
  Among-cons Q q f first = q
  Among-cons Q q f (later m) = f m

  pub Among-of_keep :
      (p : A → Bool) {a : A} (xs : List A) → Among a (keep p xs) → Among a xs × (p a ≡ true)
  Among-of_keep p [] m = elim m [ ]
  Among-of_keep p (x ∷ xs) m = elim (Bool-cases (p x)) [
    | inl holds ↦
        Among-cons (λ b. Among b (x ∷ xs) × (p b ≡ true)) (first, holds)
          (λ n. let (k, e) = Among-of_keep p xs n in (later k, e)) (rw holds at m)
    | inr fails ↦ let (k, e) = Among-of_keep p xs (rw fails at m) in (later k, e)
  ]

  pub Among-append_left : {a : A} {xs : List A} (ys : List A) → Among a xs → Among a (xs ++ ys)
  Among-append_left ys first = first
  Among-append_left ys (later m) = later (Among-append_left ys m)

  pub Among-append_right : {a : A} (xs : List A) {ys : List A} → Among a ys → Among a (xs ++ ys)
  Among-append_right [] m = m
  Among-append_right (x ∷ xs) m = later (Among-append_right xs m)

module _ {ℓ} {A : Type ℓ} ⦃e : Eq A⦄ where
  -- `a in xs`
  abbrev pub contains : List A → A → Bool
  contains xs a = any (λ x. x == a) xs

  pub contains_of_Among : {a : A} {xs : List A} → Among a xs → contains xs a ≡ true
  contains_of_Among {a} m = any_of_Among (λ x. x == a) m ((e.same_iff a a).1 refl)

  pub Among-of_contains : (a : A) (xs : List A) → contains xs a ≡ true → Among a xs
  Among-of_contains a xs h =
      let (x, m, p) = Among-of_any (λ x. x == a) xs h in
      subst (λ y. Among y xs) ((e.same_iff x a).0 p) m

-- `[y for x in xs for y in f(x)]`
module _ {ℓ κ} {A : Type ℓ} {B : Type κ} where
  abbrev pub flat_map : (A → List B) → List A → List B
  flat_map f [] = []
  flat_map f (x ∷ xs) = f x ++ flat_map f xs

  pub Among-map : (f : A → B) {a : A} {xs : List A} → Among a xs → Among (f a) (map f xs)
  Among-map f first = first
  Among-map f (later m) = later (Among-map f m)

  pub Among-flat_map :
      (f : A → List B) {a : A} {b : B} {xs : List A}
      → Among a xs
      → Among b (f a)
      → Among b (flat_map f xs)
  Among-flat_map f (first {xs = xs}) m = Among-append_left (flat_map f xs) m
  Among-flat_map f (later {x = x} n) m = Among-append_right (f x) (Among-flat_map f n m)

  pub length-map : (xs : List A) (f : A → B) → length (map f xs) ≡ length xs
  length-map [] f = refl
  length-map (x ∷ xs) f = ap suc (length-map xs f)

  pub any-map : (p : B → Bool) (f : A → B) (xs : List A) → any p (map f xs) ≡ any (λ x. p (f x)) xs
  any-map p f [] = refl
  any-map p f (x ∷ xs) = ground (arith, any-map p f xs)

pub Among-of_map :
    {A B : Type 0} (f : A → B) (b : B) (xs : List A)
    → Among b (map f xs)
    → (a : A) × Among a xs × (b ≡ f a)
Among-of_map f b [] m = elim m [ ]
Among-of_map f b (x ∷ xs) m =
    Among-cons (λ c. (a : _) × Among a (x ∷ xs) × (c ≡ f a)) (x, first, refl)
      (λ n. let (a, k, e) = Among-of_map f b xs n in (a, later k, e)) m

pub Among-of_append :
    {A : Type 0} (a : A) (xs ys : List A) → Among a (xs ++ ys) → Among a xs ⊎ Among a ys
Among-of_append a [] ys m = inr m
Among-of_append a (x ∷ xs) ys m =
    Among-cons (λ b. Among b (x ∷ xs) ⊎ Among b ys) (inl first)
      (λ n. elim (Among-of_append a xs ys n) [ inl k ↦ inl (later k) | inr k ↦ inr k ]) m

pub Among-of_flat_map :
    {A B : Type 0} (f : A → List B) (b : B) (xs : List A)
    → Among b (flat_map f xs)
    → (a : A) × Among a xs × Among b (f a)
Among-of_flat_map f b [] m = elim m [ ]
Among-of_flat_map f b (x ∷ xs) m = elim (Among-of_append b (f x) (flat_map f xs) m) [
  | inl own ↦ (x, first, own)
  | inr rest ↦ let (a, k, n) = Among-of_flat_map f b xs rest in (a, later k, n)
]

-- `list(reversed(xs))`
abbrev pub reverse {ℓ} : {A : Type ℓ} → List A → List A
reverse [] = []
reverse (x ∷ xs) = reverse xs ++ x ∷ []

pub Among-reverse {ℓ} : {A : Type ℓ} (a : A) (xs : List A) → Among a xs → Among a (reverse xs)
Among-reverse a [] m = elim m [ ]
Among-reverse a (x ∷ xs) first = Among-append_right (reverse xs) first
Among-reverse a (x ∷ xs) (later m) = Among-append_left (x ∷ []) (Among-reverse a xs m)

pub Among-of_reverse : {A : Type 0} (a : A) (xs : List A) → Among a (reverse xs) → Among a xs
Among-of_reverse a [] m = m
Among-of_reverse a (x ∷ xs) m = elim (Among-of_append a (reverse xs) (x ∷ []) m) [
  | inl k ↦ later (Among-of_reverse a xs k)
  | inr k ↦ Among-cons (λ b. Among b (x ∷ xs)) first (λ n. elim n [ ]) k
]

pub length-reverse {ℓ} : {A : Type ℓ} (xs : List A) → length (reverse xs) ≡ length xs
length-reverse [] = refl
length-reverse (x ∷ xs) = omega (arith, length-append (reverse xs) (x ∷ []), length-reverse xs)
