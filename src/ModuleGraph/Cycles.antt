-- ===== src/ModuleGraph/Cycles.antt =====
-- `find_cycle_through` finds the new cycles that a merge of a group would make.
use lanorme.Prelude.{
  ◌+◌, ◌≡◌, refl, sym, ◌∙◌, subst, inl, inr, true, false, not, none, some, List, [], ◌∷◌, map,
  arith, Option-cases, nat_eq, list_eq, pair_eq, triple_eq, length, contains, length-map, Among,
  first, later, contains_of_Among, Among-of_contains, Among-cons, Among-of_keep, Among-of_sort,
  Among-keep, Among-map, Among-of_map, reverse, Among-reverse, Among-of_reverse, length-reverse,
  sort, Among-sort, text_leb,
}
use lanorme.Text.{Text}
use lanorme.ModuleGraph.Search.{Verdict, hit, follow}
use lanorme.ModuleGraph.Search.Laws.{explore_sound, explore_complete}
use lanorme.ModuleGraph.Search.Rounds.{IsSettled, OnStack}
use lanorme.ModuleGraph.{
  ModuleGraph, items_at, all_items, is_harmless_to_reach, outside_verdict, first_outside,
  find_outside_path, find_cycle_from, find_cycle_through,
}
use lanorme.ModuleGraph.Reach.{items_at-Among, unseen-le}

-- A way of imports through modules outside the group.
pub data Outside (graph : ModuleGraph) (group : List Text) (entry : Text) : Text → Type 0 where
  at_entry : Outside graph group entry entry
  past :
      {b c : Text}
      → Outside graph group entry b
      → Among c (items_at graph.imports b)
      → contains group c ≡ false
      → Outside graph group entry c

module _ (graph : ModuleGraph) (group : List Text) where
  -- A way that leaves the group at a member, with `entry` the first module outside, and comes back
  -- to a member that it is not harmless to reach.
  abbrev pub ComesBack : Text → Text → Type 0
  ComesBack member entry =
      Among entry (items_at graph.imports member)
      × (contains group entry ≡ false)
      × (b : Text) × Outside graph group entry b
      × (c : Text) × Among c (items_at graph.imports b)
      × (contains group c ≡ true)
      × (is_harmless_to_reach graph member c ≡ false)

  module _ (member : Text) where
    abbrev judge : Text → Verdict
    judge = outside_verdict graph member group

    abbrev entries : List Text
    entries = first_outside graph member group

    abbrev bottom : List (Text × Text)
    bottom = reverse (map (λ t. (t, t)) entries)

    judge-hit :
        (c : Text)
        → judge c ≡ hit
        → (contains group c ≡ true) × (is_harmless_to_reach graph member c ≡ false)
    unfolding outside_verdict
    judge-hit c h = ground (arith, h)

    judge-follow : (c : Text) → judge c ≡ follow → contains group c ≡ false
    unfolding outside_verdict
    judge-follow c h = ground (arith, h)

    judge-outside : (c : Text) → contains group c ≡ false → judge c ≡ follow
    unfolding outside_verdict
    judge-outside c h = ground (arith, h)

    judge-back :
        (c : Text)
        → contains group c ≡ true
        → is_harmless_to_reach graph member c ≡ false
        → judge c ≡ hit
    unfolding outside_verdict
    judge-back c h k = ground (arith, h, k)

    -- An entry, with a way from it.
    abbrev IsMet : Text → Text → Type 0
    IsMet x entry =
        Among entry (items_at graph.imports member)
        × (contains group entry ≡ false)
        × Outside graph group entry x

    bottom-IsMet : (x entry : Text) → Among (x, entry) bottom → IsMet x entry
    unfolding first_outside
    bottom-IsMet x entry m =
        let (t, n, e) =
          Among-of_map (λ t. (t, t)) (x, entry) entries
            (Among-of_reverse (x, entry) (map (λ t. (t, t)) entries) m) in
        let (k, out) =
          Among-of_keep (λ t. not (contains group t)) (items_at graph.imports member) n in
        let met : IsMet t t = (k, ground (arith, out), at_entry) in
        subst (λ (q : Text × Text). IsMet q.0 q.1) (sym e) met

    bottom-OnStack : (x : Text) → contains entries x ≡ true → OnStack judge x bottom
    bottom-OnStack x h = (
      x,
      Among-reverse (x, x) (map (λ t. (t, t)) entries)
          (Among-map (λ t. (t, t)) (Among-of_contains x entries h)),
    )

    find_outside_path-some :
        (entry : Text) → find_outside_path graph member group ≡ some entry → ComesBack member entry
    unfolding find_outside_path
    find_outside_path-some entry h =
        let (b, (m, out, way), c, n, is_hit) =
          explore_sound judge (items_at graph.imports) IsMet
            (λ b c v (m, out, way) n f. (m, out, past way n (judge-follow c f)))
            (length (all_items graph.imports) + length entries) entries bottom entry bottom-IsMet
            h in
        let (back, harmful) = judge-hit c is_hit in (m, out, b, way, c, n, back, harmful)

    length-bottom : length bottom ≡ length entries
    length-bottom = length-reverse (map (λ t. (t, t)) entries) ∙ length-map entries (λ t. (t, t))

    reached :
        (final : List Text) (entry : Text)
        → Among entry (items_at graph.imports member)
        → contains group entry ≡ false
        → ((x : Text) → contains entries x ≡ true → contains final x ≡ true)
        → ((x : Text) → contains final x ≡ true → IsSettled judge (items_at graph.imports) final x)
        → (b : Text) → Outside graph group entry b
        → contains final b ≡ true
    unfolding first_outside
    reached final entry m out up settled b at_entry =
        up entry (contains_of_Among (Among-keep (λ t. not (contains group t)) (rw out refl) m))
    reached final entry m out up settled c (past {b} way n other) =
        (settled b (reached final entry m out up settled b way) c n).1 (judge-outside c other)

    find_outside_path-none :
        find_outside_path graph member group ≡ none → (entry : Text) → ¬ ComesBack member entry
    unfolding find_outside_path
    find_outside_path-none h entry (m, out, b, way, c, n, back, harmful) =
        let (final, up, settled) =
          explore_complete judge (items_at graph.imports) (all_items graph.imports)
            (items_at-Among graph.imports) (length (all_items graph.imports) + length entries)
            entries bottom
            (omega (arith, unseen-le (all_items graph.imports) entries, length-bottom))
            (λ x m. inl (bottom-OnStack x m)) h in
        (settled b (reached final entry m out up settled b way) c n).0 (judge-back c back harmful)

  find_cycle_from_correct :
      (members : List Text)
      → ((x : Text)
          → find_cycle_from graph group members ≡ some x
          → (member : Text) × Among member members × ComesBack member x)
        × (find_cycle_from graph group members ≡ none
            → (member : Text) → Among member members
            → (x : Text) → ¬ ComesBack member x)
  unfolding find_cycle_from
  find_cycle_from_correct [] = ((λ x h. cc), (λ h member m. elim m [ ]))
  find_cycle_from_correct (member ∷ members) =
      let (found, lost) = find_cycle_from_correct members in
      elim (Option-cases (find_outside_path graph member group)) [
        | inr (y, e) ↦ (
          (λ x h. (
            member,
            first,
            find_outside_path-some member x (e ∙ (rw (find_cycle_from, e) at h)),
          )),
          (λ h. let never = rw (find_cycle_from, e) at h in cc),
        )
        | inl none_here ↦ (
          (λ x h.
              let (k, m, back) = found x (rw (find_cycle_from, none_here) at h) in
              (k, later m, back)),
          (λ h k m.
              Among-cons (λ j. (x : Text) → ¬ ComesBack j x)
                (find_outside_path-none member none_here)
                (lost (rw (find_cycle_from, none_here) at h) k) m),
        )
      ]

  -- The module found is the first one outside the group on a way that leaves the group at a member
  -- and comes back to a member that it is not harmless to reach. Where none is found there is no
  -- such way.
  pub find_cycle_through_correct :
      ((x : Text)
        → find_cycle_through graph group ≡ some x
        → (member : Text) × Among member group × ComesBack member x)
      × (find_cycle_through graph group ≡ none
          → (member : Text) → Among member group
          → (x : Text) → ¬ ComesBack member x)
  unfolding find_cycle_through
  find_cycle_through_correct =
      let (found, lost) = find_cycle_from_correct (sort text_leb group) in
      (
        (λ x h. let (k, m, back) = found x h in (k, Among-of_sort text_leb group m, back)),
        (λ h k m. lost h k (Among-sort text_leb group m)),
      )
