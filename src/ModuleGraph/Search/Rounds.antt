-- ===== src/ModuleGraph/Search/Rounds.antt =====
-- What one round of the search leaves behind: the names that it meets, and the work that is left.
use lanorme.Prelude.{
  ℕ, ◌+◌, ◌≤◌, ◌<◌, ◌≡◌, refl, subst, ◌≢◌, ◌⊎◌, inl, inr, true, false, not, List, [], ◌∷◌, arith,
  Bool-cases, ◌==◌, eq_iff, eq_refl, nat_eq, list_eq, pair_eq, triple_eq, length, count_if,
  contains, Among, first, later, Among-cons,
}
use lanorme.Text.{Text}
use lanorme.ModuleGraph.Search.{Verdict, hit, skip, follow, Progress, stopped, going, offer}

Verdict-cases : (v : Verdict) → (v ≡ hit) ⊎ ((v ≡ skip) ⊎ (v ≡ follow))
Verdict-cases hit = inl refl
Verdict-cases skip = inr (inl refl)
Verdict-cases follow = inr (inr refl)

-- How many of the names listed are not seen yet.
abbrev pub unseen : List Text → List Text → ℕ
unseen universe seen = count_if (λ x. not (contains seen x)) universe

unseen-cons-le :
    (universe seen : List Text) (t : Text) → unseen universe (t ∷ seen) ≤ unseen universe seen
unseen-cons-le [] seen t = omega arith
unseen-cons-le (u ∷ universe) seen t = ground (arith, unseen-cons-le universe seen t)

unseen-cons :
    (universe seen : List Text) (t : Text)
    → Among t universe
    → contains seen t ≡ false
    → unseen universe (t ∷ seen) < unseen universe seen
unseen-cons [] seen t m h = elim m [ ]
unseen-cons (u ∷ universe) seen t first h =
    ground (arith, unseen-cons-le universe seen t, eq_refl t, h)
unseen-cons (u ∷ universe) seen t (later m) h = ground (arith, unseen-cons universe seen t m h)

-- Every target of the module is seen, or passed over.
abbrev pub IsSettled : (Text → Verdict) → (Text → List Text) → List Text → Text → Type 0
IsSettled judge next seen b =
    (c : Text) → Among c (next b) → (judge c ≢ hit) × (judge c ≡ follow → contains seen c ≡ true)

-- The work that is left: names to see and modules that wait.
abbrev pub IsWithin {ℓ} : {V : Type ℓ} → List Text → ℕ → Progress V → Type 0
IsWithin universe n (stopped v) = Unit
IsWithin universe n (going seen stack) = unseen universe seen + length stack ≤ n

pub Progress-cases {ℓ} :
    {V : Type ℓ} (p : Progress V)
    → ((v : V) × (p ≡ stopped v))
      ⊎ ((seen : List Text) × (stack : List (Text × V)) × (p ≡ going seen stack))
Progress-cases (stopped v) = inl (v, refl)
Progress-cases (going seen stack) = inr (seen, stack, refl)

module _ {ℓ} {V : Type ℓ} (judge : Text → Verdict) where
  abbrev pub OnStack : Text → List (Text × V) → Type ℓ
  OnStack x stack = (v : V) × Among (x, v) stack

  -- What one round of the inner loop leaves behind where it does not stop.
  pub record IsOffered (label : V) (ts seen : List Text) (stack : List (Text × V))
      (seen' : List Text) (stack' : List (Text × V)) : Type ℓ where
    pub grown : (x : Text) → contains seen x ≡ true → contains seen' x ≡ true
    pub met :
        (x : Text) → Among x ts → (judge x ≢ hit) × (judge x ≡ follow → contains seen' x ≡ true)
    pub waiting : (x : Text) → contains seen' x ≡ true → (contains seen x ≡ true) ⊎ OnStack x stack'
    pub kept : (p : Text × V) → Among p stack → Among p stack'
    pub fresh :
        (p : Text × V)
        → Among p stack'
        → Among p stack ⊎ ((p.1 ≡ label) × Among p.0 ts × (judge p.0 ≡ follow))

  abbrev pub Offered : V → List Text → List Text → List (Text × V) → Progress V → Type ℓ
  Offered label ts seen stack (stopped v) =
      (label ≡ v) × ((t : Text) × Among t ts × (judge t ≡ hit))
  Offered label ts seen stack (going seen' stack') = IsOffered label ts seen stack seen' stack'

  Offered-old :
      (label : V) (t : Text) (ts seen : List Text) (stack : List (Text × V)) (p : Progress V)
      → judge t ≢ hit
      → (judge t ≡ follow → contains seen t ≡ true)
      → Offered label ts seen stack p
      → Offered label (t ∷ ts) seen stack p
  Offered-old label t ts seen stack (stopped v) never old (e, (c, m, h)) = (e, (c, later m, h))
  Offered-old label t ts seen stack (going seen' stack') never old o = record {
    grown = o.grown;
    met = λ x m.
        Among-cons (λ y. (judge y ≢ hit) × (judge y ≡ follow → contains seen' y ≡ true))
          (never, λ f. o.grown t (old f)) (o.met x) m;
    waiting = o.waiting;
    kept = o.kept;
    fresh = λ q m. elim (o.fresh q m) [ inl s ↦ inl s | inr (e, n, f) ↦ inr (e, later n, f) ];
  }

  Offered-new :
      (label : V) (t : Text) (ts seen : List Text) (stack : List (Text × V)) (p : Progress V)
      → judge t ≡ follow
      → Offered label ts (t ∷ seen) ((t, label) ∷ stack) p
      → Offered label (t ∷ ts) seen stack p
  Offered-new label t ts seen stack (stopped v) f (e, (c, m, h)) = (e, (c, later m, h))
  Offered-new label t ts seen stack (going seen' stack') f o = record {
    grown = λ x h. o.grown x (ground (arith, h));
    met = λ x m.
        Among-cons (λ y. (judge y ≢ hit) × (judge y ≡ follow → contains seen' y ≡ true))
          ((λ h. cc), λ _. o.grown t (ground (arith, eq_refl t))) (o.met x) m;
    waiting = λ x h. elim (o.waiting x h) [
      | inr on ↦ inr on
      | inl old ↦ elim (Bool-cases (t == x)) [
        | inl same ↦ inr (
          label,
          o.kept (x, label)
              (subst (λ y. Among (y, label) ((t, label) ∷ stack)) ((eq_iff t x).0 same) first),
        )
        | inr other ↦ inl (rw other at old)
      ]
    ];
    kept = λ q m. o.kept q (later m);
    fresh = λ q m. elim (o.fresh q m) [
      | inr (e, n, g) ↦ inr (e, later n, g)
      | inl on ↦
          Among-cons
            (λ r. Among r stack ⊎ ((r.1 ≡ label) × Among r.0 (t ∷ ts) × (judge r.0 ≡ follow)))
            (inr (refl, first, f)) (λ k. inl k) on
    ];
  }

  pub offer-Offered :
      (label : V) (ts seen : List Text) (stack : List (Text × V))
      → Offered label ts seen stack (offer judge label ts seen stack)
  unfolding offer
  offer-Offered label [] seen stack = record {
    grown = λ x h. h;
    met = λ x m. elim m [ ];
    waiting = λ x h. inl h;
    kept = λ q m. m;
    fresh = λ q m. inl m;
  }
  offer-Offered label (t ∷ ts) seen stack = elim (Verdict-cases (judge t)) [
    | inl h ↦ rw (offer, h) (refl, (t, first, h))
    | inr (inl s) ↦
        rw (offer, s)
          (Offered-old label t ts seen stack (offer judge label ts seen stack) (λ h. cc) (λ h. cc)
            (offer-Offered label ts seen stack))
    | inr (inr f) ↦ elim (Bool-cases (contains seen t)) [
      | inl old ↦
          rw (offer, f, old)
            (Offered-old label t ts seen stack (offer judge label ts seen stack) (λ h. cc)
              (λ h. old) (offer-Offered label ts seen stack))
      | inr new ↦
          rw (offer, f, new)
            (Offered-new label t ts seen stack
              (offer judge label ts (t ∷ seen) ((t, label) ∷ stack)) f
              (offer-Offered label ts (t ∷ seen) ((t, label) ∷ stack)))
    ]
  ]

  IsWithin-weaken :
      (universe : List Text) (n m : ℕ) (p : Progress V)
      → IsWithin universe n p
      → n ≤ m
      → IsWithin universe m p
  IsWithin-weaken universe n m (stopped v) w le = tt
  IsWithin-weaken universe n m (going seen stack) w le = omega (arith, w, le)

  pub offer-IsWithin :
      (universe : List Text) (label : V) (ts seen : List Text) (stack : List (Text × V))
      → ((c : Text) → Among c ts → Among c universe)
      → IsWithin universe (unseen universe seen + length stack) (offer judge label ts seen stack)
  unfolding offer
  offer-IsWithin universe label [] seen stack inside = omega arith
  offer-IsWithin universe label (t ∷ ts) seen stack inside =
      let rest = offer-IsWithin universe label ts seen stack (λ c m. inside c (later m)) in
      elim (Verdict-cases (judge t)) [
        | inl h ↦ rw (offer, h) tt
        | inr (inl s) ↦ rw (offer, s) rest
        | inr (inr f) ↦ elim (Bool-cases (contains seen t)) [
          | inl old ↦ rw (offer, f, old) rest
          | inr new ↦
              rw (offer, f, new)
                (IsWithin-weaken universe (unseen universe (t ∷ seen) + length ((t, label) ∷ stack))
                  (unseen universe seen + length stack)
                  (offer judge label ts (t ∷ seen) ((t, label) ∷ stack))
                  (offer-IsWithin universe label ts (t ∷ seen) ((t, label) ∷ stack)
                    (λ c m. inside c (later m)))
                  (omega (arith, unseen-cons universe seen t (inside t first) new)))
        ]
      ]
