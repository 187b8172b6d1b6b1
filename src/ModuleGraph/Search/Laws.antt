-- ===== src/ModuleGraph/Search/Laws.antt =====
-- The loop finds a target to stop at exactly if one lies on a way from the stack.
use lanorme.Prelude.{
  ℕ, zero, suc, ◌+◌, ◌≤◌, ◌≡◌, sym, ◌∙◌, subst, ◌⊎◌, inl, inr, true, none, some, List, [], ◌∷◌,
  arith, nat_eq, list_eq, pair_eq, triple_eq, length, contains, Among, first, later, Among-cons,
}
use lanorme.Text.{Text}
use lanorme.ModuleGraph.Search.{Verdict, hit, follow, offer, explore}
use lanorme.ModuleGraph.Search.Rounds.{
  unseen, IsSettled, IsWithin, Progress-cases, OnStack, IsOffered, Offered, offer-Offered,
  offer-IsWithin,
}

module _ {ℓ} {V : Type ℓ} (judge : Text → Verdict) (next : Text → List Text) where
  -- A property of the stack that targets inherit holds of the module where the loop stops.
  pub explore_sound {κ} :
      (P : Text → V → Type κ)
      → ((b c : Text) (v : V) → P b v → Among c (next b) → judge c ≡ follow → P c v)
      → (fuel : ℕ) (seen : List Text) (stack : List (Text × V)) (v : V)
      → ((x : Text) (w : V) → Among (x, w) stack → P x w)
      → explore judge next fuel seen stack ≡ some v
      → (b : Text) × P b v × (c : Text) × Among c (next b) × (judge c ≡ hit)
  unfolding explore
  explore_sound P inherit zero seen stack v all_P h = cc
  explore_sound P inherit (suc fuel) seen [] v all_P h = cc
  explore_sound P inherit (suc fuel) seen ((b, label) ∷ stack) v all_P h =
      elim (Progress-cases (offer judge label (next b) seen stack)) [
        | inl (w, e) ↦
            let (same, (c, m, is_hit)) =
              subst (Offered judge label (next b) seen stack) e
                (offer-Offered judge label (next b) seen stack) in
            let ends = rw (explore, e) at h in
            (b, subst (P b) (same ∙ cc) (all_P b label first), c, m, is_hit)
        | inr (seen', stack', e) ↦
            let o =
              subst (Offered judge label (next b) seen stack) e
                (offer-Offered judge label (next b) seen stack) in
            explore_sound P inherit fuel seen' stack' v
              (λ x w m. elim (o.fresh (x, w) m) [
                | inl old ↦ all_P x w (later old)
                | inr (l, n, f) ↦ inherit b x w (subst (P b) (sym l) (all_P b label first)) n f
              ])
              (rw (explore, e) at h)
      ]

  IsSettled-after :
      (b : Text) (label : V) (seen : List Text) (stack : List (Text × V)) (seen' : List Text)
      (stack' : List (Text × V))
      → IsOffered judge label (next b) seen stack seen' stack'
      → ((x : Text)
          → contains seen x ≡ true
          → OnStack judge x ((b, label) ∷ stack) ⊎ IsSettled judge next seen x)
      → (x : Text) → contains seen' x ≡ true
      → OnStack judge x stack' ⊎ IsSettled judge next seen' x
  IsSettled-after b label seen stack seen' stack' o inv x m = elim (o.waiting x m) [
    | inr on ↦ inl on
    | inl old ↦ elim (inv x old) [
      | inr s ↦ inr (λ c n. ((s c n).0, λ f. o.grown c ((s c n).1 f)))
      | inl (v, on) ↦
          Among-cons (λ q. OnStack judge q.0 stack' ⊎ IsSettled judge next seen' q.0) (inr o.met)
            (λ n. inl (v, o.kept (x, v) n)) on
    ]
  ]

  pub explore_complete :
      (universe : List Text)
      → ((b c : Text) → Among c (next b) → Among c universe)
      → (fuel : ℕ) (seen : List Text) (stack : List (Text × V))
      → unseen universe seen + length stack ≤ fuel
      → ((x : Text) → contains seen x ≡ true → OnStack judge x stack ⊎ IsSettled judge next seen x)
      → explore judge next fuel seen stack ≡ none
      → (final : List Text) × ((x : Text) → contains seen x ≡ true → contains final x ≡ true)
        × ((x : Text) → contains final x ≡ true → IsSettled judge next final x)
  unfolding explore
  explore_complete universe inside fuel seen [] w inv h =
      (seen, (λ x m. m), λ x m. elim (inv x m) [ inl (_, on) ↦ elim on [ ] | inr s ↦ s ])
  explore_complete universe inside zero seen (p ∷ stack) w inv h = absurd (omega (arith, w))
  explore_complete universe inside (suc fuel) seen ((b, label) ∷ stack) w inv h =
      elim (Progress-cases (offer judge label (next b) seen stack)) [
        | inl (v, e) ↦ let never = rw (explore, e) at h in cc
        | inr (seen', stack', e) ↦
            let o =
              subst (Offered judge label (next b) seen stack) e
                (offer-Offered judge label (next b) seen stack) in
            let work : unseen universe seen' + length stack' ≤ unseen universe seen + length stack =
              subst (IsWithin universe (unseen universe seen + length stack)) e
                (offer-IsWithin judge universe label (next b) seen stack (λ c m. inside b c m)) in
            let inv' = IsSettled-after b label seen stack seen' stack' o inv in
            let (final, up, settled) =
              explore_complete universe inside fuel seen' stack' (omega (arith, w, work)) inv'
                (rw (explore, e) at h) in
            (final, (λ x m. up x (o.grown x m)), settled)
      ]
