-- ===== src/ModuleGraph/Reach.antt =====
-- `can_reach` finds exactly the chains of imports.
use lanorme.Prelude.{
  suc, ◌≤◌, ◌≡◌, refl, sym, ◌∙◌, subst, ◌≢◌, ◌↔◌, ◌⊎◌, inl, inr, true, false≢true, Option, List, [],
  ◌∷◌, arith, Bool-cases, Option-cases, ◌==◌, eq_iff, eq_refl, nat_eq, list_eq, pair_eq, triple_eq,
  length, contains, flat_map, Among, first, Among-append_left, Among-cons, Among-append_right,
}
use lanorme.Text.{Text}
use lanorme.Prelude.Dict.{Dict, lookup}
use lanorme.ModuleGraph.Search.{hit, follow, explore}
use lanorme.ModuleGraph.Search.Laws.{explore_sound, explore_complete}
use lanorme.ModuleGraph.Search.Rounds.{unseen, IsSettled, OnStack}
use lanorme.ModuleGraph.{ModuleGraph, items_at, all_items, goal_verdict, can_reach, is_found}

-- A chain of imports, one at least.
pub data Chain (graph : ModuleGraph) (start : Text) : Text → Type 0 where
  direct : {target : Text} → Among target (items_at graph.imports start) → Chain graph start target
  onward :
      {via target : Text}
      → Chain graph start via
      → Among target (items_at graph.imports via)
      → Chain graph start target

pub items_at-Among :
    (table : Dict Text (List Text)) (b c : Text)
    → Among c (items_at table b)
    → Among c (all_items table)
unfolding items_at lookup all_items
items_at-Among [] b c m = elim m [ ]
items_at-Among ((k, items) ∷ table) b c m = elim (Bool-cases (k == b)) [
  | inl same ↦ Among-append_left (flat_map (λ (_, xs). xs) table) (rw (items_at, same) at m)
  | inr other ↦ Among-append_right items (items_at-Among table b c (rw (items_at, other) at m))
]

pub unseen-le : (universe seen : List Text) → unseen universe seen ≤ length universe
unseen-le [] seen = omega arith
unseen-le (u ∷ universe) seen = ground (arith, unseen-le universe seen)

goal_verdict-hit : (goal t : Text) → goal_verdict goal t ≡ hit → t ≡ goal
unfolding goal_verdict
goal_verdict-hit goal t h = ground (arith, eq_iff t goal)

goal_verdict-follow :
    (goal t : Text) → (goal_verdict goal t ≢ hit) → (t ≢ goal) × (goal_verdict goal t ≡ follow)
unfolding goal_verdict
goal_verdict-follow goal t missed = elim (Bool-cases (t == goal)) [
  | inl same ↦ absurd (missed (rw (goal_verdict, same) refl))
  | inr other ↦ (λ e. false≢true (sym other ∙ (eq_iff t goal).1 e), rw (goal_verdict, other) refl)
]

module _ (graph : ModuleGraph) (start goal : Text) where
  -- The start, or what a chain leads to.
  abbrev IsMet : Text → Unit {0} → Type 0
  IsMet x _ = (x ≡ start) ⊎ Chain graph start x

  IsMet-onward :
      (b c : Text) → IsMet b tt → Among c (items_at graph.imports b) → Chain graph start c
  IsMet-onward b c (inl e) m = direct (subst (λ x. Among c (items_at graph.imports x)) e m)
  IsMet-onward b c (inr chain) m = onward chain m

  never_met :
      (final : List Text)
      → contains final start ≡ true
      → ((x : Text)
          → contains final x ≡ true
          → IsSettled (goal_verdict goal) (items_at graph.imports) final x)
      → (x : Text) → Chain graph start x
      → (contains final x ≡ true) × (x ≢ goal)
  never_met final at_start settled x (direct m) =
      let (missed, seen) = settled start at_start x m in
      let (other, f) = goal_verdict-follow goal x missed in (seen f, other)
  never_met final at_start settled x (onward {via} chain m) =
      let (missed, seen) = settled via (never_met final at_start settled via chain).0 x m in
      let (other, f) = goal_verdict-follow goal x missed in (seen f, other)

  abbrev bottom : List (Text × Unit {0})
  bottom = (start, tt) ∷ []

  on_bottom :
      (x : Text)
      → contains (start ∷ []) x ≡ true
      → OnStack (goal_verdict goal) x bottom
        ⊎ IsSettled (goal_verdict goal) (items_at graph.imports) (start ∷ []) x
  on_bottom x h =
      let e : start ≡ x = ground (arith, eq_iff start x, h) in
      inl (subst (λ y. OnStack (goal_verdict goal) y bottom) e (tt, first))

  -- The answer is true exactly if a chain of imports leads from the start to the goal.
  pub can_reach_iff : (can_reach graph start goal ≡ true) ↔ Chain graph start goal
  unfolding can_reach is_found
  can_reach_iff =
      let imports = items_at graph.imports in
      let fuel = suc (length (all_items graph.imports)) in
      let search : Option (Unit {0}) =
        explore (goal_verdict goal) imports fuel (start ∷ []) ((start, tt {0}) ∷ []) in
      elim (Option-cases search) [
        | inr (v, found) ↦
            let (b, met, c, m, h) =
              explore_sound (goal_verdict goal) imports IsMet
                (λ b c v met m f. inr (IsMet-onward b c met m)) fuel (start ∷ [])
                ((start, tt {0}) ∷ []) v
                (λ x w m. Among-cons (λ q. IsMet q.0 q.1) (inl refl) (λ n. elim n [ ]) m) found in
            (
              (λ _. subst (Chain graph start) (goal_verdict-hit goal c h) (IsMet-onward b c met m)),
              (λ _. rw found refl),
            )
        | inl lost ↦
            let (final, up, settled) =
              explore_complete (goal_verdict goal) imports (all_items graph.imports)
                (items_at-Among graph.imports) fuel (start ∷ []) ((start, tt {0}) ∷ [])
                (omega (arith, unseen-le (all_items graph.imports) (start ∷ []))) on_bottom lost in
            (
              (λ h. absurd (false≢true (rw lost at h))),
              (λ chain. absurd (
                  (never_met final (up start (ground (arith, eq_refl start))) settled goal chain).1
                    refl)),
            )
      ]
