-- ===== src/Regions/Ancestors.antt =====
-- The region that a region inherits from, and the chain up to the outermost.
use lanorme.Prelude.{
  ℕ, zero, suc, ◌≤◌, ◌<◌, ◌≡◌, refl, sym, ap, ◌∙◌, subst, ◌⊎◌, inl, inr, Bool, true, false, not,
  ◌&&◌, false≢true, Option, none, some, List, [], ◌∷◌, arith, Bool-cases, Option-cases, ◌==◌,
  eq_iff, nat_eq, list_eq, pair_eq, triple_eq, length, Among, first, later,
}
use lanorme.FilePath.{FilePath, is_parent}
use lanorme.Config.{end, merge_config}
use lanorme.Regions.{
  closer, strip_root, Region, is_root, is_deeper, nearest_from, find_nearest_ancestor,
  ancestor_chain, fold_chain, resolve_merged,
}

-- One more than the depth of a region that is found, 0 where there is none.
abbrev pub reach : Option Region → ℕ
reach none = 0
reach (some region) = suc (length region.directory)

is_parent-shorter : (a b : FilePath) → is_parent a b ≡ true → length a < length b
unfolding is_parent
is_parent-shorter [] [] h = absurd (false≢true h)
is_parent-shorter [] (y ∷ b) h = omega arith
is_parent-shorter (x ∷ a) [] h = absurd (false≢true h)
is_parent-shorter (x ∷ a) (y ∷ b) h = ground (arith, is_parent-shorter a b)

is_parent_irrefl : (a : FilePath) → is_parent a a ≡ false
unfolding is_parent
is_parent_irrefl [] = refl
is_parent_irrefl (x ∷ a) = ground (arith, is_parent_irrefl a)

is_candidate : FilePath → Region → Bool
is_candidate dir candidate = not (candidate.directory == dir) && is_parent candidate.directory dir

is_candidate-parent :
    (dir : FilePath) (c : Region) → is_parent c.directory dir ≡ true → is_candidate dir c ≡ true
unfolding is_candidate
is_candidate-parent dir c h = ground (arith, eq_iff c.directory dir, is_parent_irrefl dir, h)

same_region : {r s : Region} → some r ≡ some s → r ≡ s
same_region h = cc

reach-closer :
    (dir : FilePath) (best : Option Region) (c : Region) → reach best ≤ reach (closer dir best c)
unfolding closer is_deeper
reach-closer dir none c = omega arith
reach-closer dir (some b) c = ground arith

reach-closer_candidate :
    (dir : FilePath) (best : Option Region) (c : Region)
    → is_parent c.directory dir ≡ true
    → suc (length c.directory) ≤ reach (closer dir best c)
unfolding closer is_deeper is_candidate
reach-closer_candidate dir none c h = ground (arith, is_candidate-parent dir c h)
reach-closer_candidate dir (some b) c h = ground (arith, is_candidate-parent dir c h)

closer-cases :
    (dir : FilePath) (best : Option Region) (c : Region)
    → (closer dir best c ≡ best)
      ⊎ ((closer dir best c ≡ some c) × (is_parent c.directory dir ≡ true))
unfolding closer
closer-cases dir best c = ground arith

reach-nearest_from :
    (dir : FilePath) (best : Option Region) (cs : List Region)
    → reach best ≤ reach (nearest_from dir best cs)
unfolding nearest_from
reach-nearest_from dir best [] = omega arith
reach-nearest_from dir best (c ∷ cs) =
    omega (arith, reach-closer dir best c, reach-nearest_from dir (closer dir best c) cs)

reach-Among :
    (dir : FilePath) (best : Option Region) (c : Region) (cs : List Region)
    → Among c cs
    → is_parent c.directory dir ≡ true
    → suc (length c.directory) ≤ reach (nearest_from dir best cs)
unfolding nearest_from
reach-Among dir best c [] m h = elim m [ ]
reach-Among dir best c (d ∷ cs) first h =
    omega
      (arith, reach-closer_candidate dir best c h, reach-nearest_from dir (closer dir best c) cs)
reach-Among dir best c (d ∷ cs) (later m) h = reach-Among dir (closer dir best d) c cs m h

nearest_from-Among :
    (dir : FilePath) (best : Option Region) (cs : List Region) (r : Region)
    → nearest_from dir best cs ≡ some r
    → (best ≡ some r) ⊎ (Among r cs × (is_parent r.directory dir ≡ true))
unfolding nearest_from
nearest_from-Among dir best [] r h = inl h
nearest_from-Among dir best (c ∷ cs) r h =
    elim (nearest_from-Among dir (closer dir best c) cs r h) [
      | inr (m, p) ↦ inr (later m, p)
      | inl kept ↦ elim (closer-cases dir best c) [
        | inl same ↦ inl (sym same ∙ kept)
        | inr (taken, p) ↦ inr (
            subst (λ x. Among x (c ∷ cs) × (is_parent x.directory dir ≡ true))
              (same_region (sym taken ∙ kept)) (first, p))
      ]
    ]

-- The region that is found is a candidate above the directory, and no candidate above it lies
-- deeper; in particular one is found where there is any.
pub find_nearest_ancestor-deepest :
    (dir : FilePath) (cs : List Region)
    → ((r : Region)
        → find_nearest_ancestor dir cs ≡ some r
        → Among r cs × (is_parent r.directory dir ≡ true))
      × ((c : Region)
          → Among c cs
          → is_parent c.directory dir ≡ true
          → length c.directory < reach (find_nearest_ancestor dir cs))
unfolding find_nearest_ancestor
find_nearest_ancestor-deepest dir cs = (
  λ r h. elim (nearest_from-Among dir none cs r h) [ inl none_some ↦ cc | inr found ↦ found ],
  λ c m h. reach-Among dir none c cs m h,
)

nearest-shorter :
    (dir : FilePath) (cs : List Region) (r : Region)
    → find_nearest_ancestor dir cs ≡ some r
    → length r.directory < length dir
nearest-shorter dir cs r h =
    is_parent-shorter r.directory dir ((find_nearest_ancestor-deepest dir cs).0 r h).1

chain-shallow :
    (fuel : ℕ) (region : Region) (regions : List Region)
    → length region.directory ≤ 0
    → ancestor_chain fuel region regions ≡ region ∷ []
unfolding ancestor_chain
chain-shallow zero region regions h = refl
chain-shallow (suc fuel) region regions h = elim (Bool-cases (is_root region)) [
  | inl root ↦ rw (ancestor_chain, root) refl
  | inr inner ↦ elim (Option-cases (find_nearest_ancestor region.directory regions)) [
    | inl outermost ↦ rw (ancestor_chain, inner, outermost) refl
    | inr (outer, found) ↦
        absurd (omega (arith, nearest-shorter region.directory regions outer found))
  ]
]

-- Fuel of at least the depth of the first region is enough: an ancestor lies less deep than the
-- region below it.
chain-fuel :
    (fuel more : ℕ) (region : Region) (regions : List Region)
    → length region.directory ≤ fuel
    → length region.directory ≤ more
    → ancestor_chain fuel region regions ≡ ancestor_chain more region regions
unfolding ancestor_chain
chain-fuel zero more region regions h k = sym (chain-shallow more region regions h)
chain-fuel (suc fuel) zero region regions h k = chain-shallow (suc fuel) region regions k
chain-fuel (suc fuel) (suc more) region regions h k = elim (Bool-cases (is_root region)) [
  | inl root ↦ rw (ancestor_chain, root) refl
  | inr inner ↦ elim (Option-cases (find_nearest_ancestor region.directory regions)) [
    | inl outermost ↦ rw (ancestor_chain, inner, outermost) refl
    | inr (outer, found) ↦
        let lt = nearest-shorter region.directory regions outer found in
        rw (ancestor_chain, inner, found)
          (ap (◌∷◌ region)
            (chain-fuel fuel more outer regions (omega (arith, lt)) (omega (arith, lt))))
  ]
]

-- The merged config of a region that declares `root = true`, or that lies below no other region, is
-- its own; that of any other region is that of its nearest ancestor with its own, less the key
-- `root`, merged over it.
pub resolve_merged-cascade :
    (region : Region) (regions : List Region)
    → (is_root region ≡ true
        → resolve_merged region regions ≡ merge_config end (strip_root region.raw))
      × (find_nearest_ancestor region.directory regions ≡ none
          → resolve_merged region regions ≡ merge_config end (strip_root region.raw))
      × ((outer : Region)
          → is_root region ≡ false
          → find_nearest_ancestor region.directory regions ≡ some outer
          → resolve_merged region regions
            ≡ merge_config (resolve_merged outer regions) (strip_root region.raw))
unfolding resolve_merged fold_chain
resolve_merged-cascade region regions =
    let enough =
      chain-fuel (length region.directory) (suc (length region.directory)) region regions
        (omega arith) (omega arith) in
    (
      λ root. rw enough (rw (ancestor_chain, root) refl),
      λ outermost. elim (Bool-cases (is_root region)) [
        | inl root ↦ rw enough (rw (ancestor_chain, root) refl)
        | inr inner ↦ rw enough (rw (ancestor_chain, inner, outermost) refl)
      ],
      λ outer inner found.
          let lt = nearest-shorter region.directory regions outer found in
          let same =
            chain-fuel (length region.directory) (length outer.directory) outer regions
              (omega (arith, lt)) (omega arith) in
          rw enough (rw (ancestor_chain, inner, found) (rw same refl)),
    )
