-- ===== src/MergeTargets/Directories/Enclosing.antt =====
-- The directories that a package sits under, and the deepest of them.
use lanorme.Prelude.{
  ◌+◌, ◌≤◌, ◌<◌, ◌≡◌, subst, inl, inr, some, List, [], ◌∷◌, arith, ltb, Bool-cases, Option-cases,
  ◌==◌, nat_eq, list_eq, pair_eq, triple_eq, length, take, drop, Among, first, later, Among-cons,
}
use lanorme.Text.{Text}
use lanorme.MergeTargets.Directories.{
  DirectoryReadByPath, rfind, padded, anchor_of, enclosing, deepest_from, deepest,
}
use lanorme.MergeTargets.Directories.Anchors.{IsAnchor, cut-IsAnchor}

pub anchor_of-IsAnchor :
    (place : Text) (directory : DirectoryReadByPath) (anchor : Text)
    → anchor_of place directory ≡ some anchor
    → IsAnchor place directory anchor
unfolding anchor_of
anchor_of-IsAnchor place directory anchor h = elim (Bool-cases (directory.path == [])) [
  | inl empty ↦ let h' = rw (anchor_of, empty) at h in cc
  | inr given ↦ elim (Option-cases (rfind (padded directory.path) (padded place))) [
    | inl e ↦ let h' = rw (anchor_of, given, e) at h in cc
    | inr (at, e) ↦
        let h' = rw (anchor_of, given, e) at h in
        let same : drop 1 (take (at + length directory.path + 1) (padded place)) ≡ anchor = cc in
        subst (IsAnchor place directory) same (cut-IsAnchor place directory at e)
  ]
]

-- The directory is one of the list, at its anchor.
abbrev pub IsFound : Text → List DirectoryReadByPath → DirectoryReadByPath × Text → Type 0
IsFound place directories (directory, anchor) =
    Among directory directories × IsAnchor place directory anchor

pub enclosing-IsFound :
    (place : Text) (directories : List DirectoryReadByPath) (q : DirectoryReadByPath × Text)
    → Among q (enclosing place directories)
    → IsFound place directories q
unfolding enclosing
enclosing-IsFound place [] q m = elim m [ ]
enclosing-IsFound place (directory ∷ directories) (other, anchor) m =
    let further : Among (other, anchor) (enclosing place directories)
        → IsFound place (directory ∷ directories) (other, anchor) =
      λ k.
        let (at, holds) = enclosing-IsFound place directories (other, anchor) k in
        (later at, holds) in
    elim (Option-cases (anchor_of place directory)) [
      | inl e ↦ further (rw (enclosing, e) at m)
      | inr (found, e) ↦
          Among-cons (IsFound place (directory ∷ directories))
            (first, anchor_of-IsAnchor place directory found e) further (rw (enclosing, e) at m)
    ]

deepest_from-Among :
    (best : DirectoryReadByPath × Text) (found : List (DirectoryReadByPath × Text))
    → Among (deepest_from best found) (best ∷ found)
unfolding deepest_from
deepest_from-Among best [] = first
deepest_from-Among (directory, anchor) ((next, deeper) ∷ found) =
    elim (Bool-cases (ltb (length anchor) (length deeper))) [
      | inl deep ↦ rw (deepest_from, deep) (later (deepest_from-Among (next, deeper) found))
      | inr shallow ↦
          rw (deepest_from, shallow)
            (Among-cons (λ q. Among q ((directory, anchor) ∷ (next, deeper) ∷ found)) first
              (λ k. later (later k)) (deepest_from-Among (directory, anchor) found))
    ]

deepest_from-le :
    (best : DirectoryReadByPath × Text) (found : List (DirectoryReadByPath × Text))
    (q : DirectoryReadByPath × Text)
    → Among q (best ∷ found)
    → length q.1 ≤ length (deepest_from best found).1
unfolding deepest_from
deepest_from-le best [] q m =
    Among-cons (λ p. length p.1 ≤ length best.1) (omega arith) (λ n. elim n [ ]) m
deepest_from-le (directory, anchor) ((next, deeper) ∷ found) q m =
    elim (Bool-cases (ltb (length anchor) (length deeper))) [
      | inl deep ↦
          let above = deepest_from-le (next, deeper) found in
          let step : length anchor < length deeper = ground (arith, deep) in
          rw (deepest_from, deep)
            (Among-cons (λ p. length p.1 ≤ length (deepest_from (next, deeper) found).1)
              (omega (arith, step, above (next, deeper) first)) (λ n. above q n) m)
      | inr shallow ↦
          let above = deepest_from-le (directory, anchor) found in
          let step : length deeper ≤ length anchor = ground (arith, shallow) in
          rw (deepest_from, shallow)
            (Among-cons (λ p. length p.1 ≤ length (deepest_from (directory, anchor) found).1)
              (above (directory, anchor) first)
              (λ n.
                Among-cons (λ p. length p.1 ≤ length (deepest_from (directory, anchor) found).1)
                  (omega (arith, step, above (directory, anchor) first)) (λ k. above q (later k)) n)
              m)
    ]

pub deepest_correct :
    (found : List (DirectoryReadByPath × Text)) (best : DirectoryReadByPath × Text)
    → deepest found ≡ some best
    → Among best found
      × ((q : DirectoryReadByPath × Text) → Among q found → length q.1 ≤ length best.1)
unfolding deepest
deepest_correct [] best h = cc
deepest_correct (q ∷ found) best h =
    let same : deepest_from q found ≡ best = cc in
    subst
      (λ b.
        Among b (q ∷ found)
        × ((p : DirectoryReadByPath × Text) → Among p (q ∷ found) → length p.1 ≤ length b.1))
      same (deepest_from-Among q found, deepest_from-le q found)

pub Among-enclosing :
    (place : Text) (directories : List DirectoryReadByPath) (directory : DirectoryReadByPath)
    (anchor : Text)
    → Among directory directories
    → anchor_of place directory ≡ some anchor
    → Among (directory, anchor) (enclosing place directories)
unfolding enclosing
Among-enclosing place [] directory anchor m = elim m [ ]
Among-enclosing place (next ∷ directories) directory anchor m =
    Among-cons
      (λ d.
        anchor_of place d ≡ some anchor → Among (d, anchor) (enclosing place (next ∷ directories)))
      (λ h. rw (enclosing, h) first)
      (λ k h.
        let further = Among-enclosing place directories directory anchor k h in
        elim (Option-cases (anchor_of place next)) [
          | inl e ↦ rw (enclosing, e) further
          | inr (found, e) ↦ rw (enclosing, e) (later further)
        ])
      m
