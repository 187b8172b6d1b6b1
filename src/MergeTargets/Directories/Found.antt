-- ===== src/MergeTargets/Directories/Found.antt =====
-- The directory that is found for a package, of all that another rule reads by path.
use lanorme.Prelude.{
  ℕ, ◌+◌, ◌≤◌, ◌≡◌, refl, sym, ◌∙◌, subst, inl, inr, true, false, false≢true, none, some, List, [],
  ◌∷◌, ◌++◌, arith, Bool-cases, Option-cases, ◌==◌, eq_refl, nat_eq, list_eq, pair_eq, triple_eq,
  length, any, drop, Among, first, later,
}
use lanorme.Text.{Text, starts_with, ends_with}
use lanorme.MergeTargets.Directories.{
  DirectoryReadByPath, is_exact, find_exact_directory, enclosing, padded,
  find_directory_read_by_path,
}
use lanorme.MergeTargets.Directories.Anchors.{IsAnchor, starts_with-le}
use lanorme.MergeTargets.Directories.Occurrences.{anchor_of-reaches}
use lanorme.MergeTargets.Directories.Enclosing.{
  anchor_of-IsAnchor, enclosing-IsFound, deepest_correct, Among-enclosing,
}

find_exact-Among :
    (place : Text) (directories : List DirectoryReadByPath) (directory : DirectoryReadByPath)
    → find_exact_directory place directories ≡ some directory
    → Among directory directories × (is_exact place directory ≡ true)
unfolding find_exact_directory
find_exact-Among place [] directory h = cc
find_exact-Among place (next ∷ directories) directory h = elim (Bool-cases (is_exact place next)) [
  | inl exact ↦
      let h' = rw (find_exact_directory, exact) at h in
      let same : next ≡ directory = cc in
      subst (λ d. Among d (next ∷ directories) × (is_exact place d ≡ true)) same (first, exact)
  | inr other ↦
      let (at, holds) =
        find_exact-Among place directories directory (rw (find_exact_directory, other) at h) in
      (later at, holds)
]

none_exact :
    (place : Text) (directories : List DirectoryReadByPath)
    → find_exact_directory place directories ≡ none
    → any (is_exact place) directories ≡ false
unfolding find_exact_directory
none_exact place [] h = refl
none_exact place (next ∷ directories) h = elim (Bool-cases (is_exact place next)) [
  | inl exact ↦ let h' = rw (find_exact_directory, exact) at h in cc
  | inr other ↦ rw other (none_exact place directories (rw (find_exact_directory, other) at h))
]

starts_with_self : (s : Text) → starts_with s s ≡ true
unfolding starts_with
starts_with_self [] = refl
starts_with_self (c ∷ s) = ground (arith, eq_refl c, starts_with_self s)

exact-IsAnchor :
    (place : Text) (directory : DirectoryReadByPath)
    → is_exact place directory ≡ true
    → IsAnchor place directory place
unfolding is_exact ends_with
exact-IsAnchor place directory h = (starts_with_self place, ground (arith, h))

-- The directory, which is not the root, stands on the path with its first part behind `k` characters:
-- between slashes, where both are padded with them.
abbrev pub StandsAt : Text → DirectoryReadByPath → ℕ → Type 0
StandsAt place directory k =
    ((directory.path == []) ≡ false)
    × (starts_with (drop k (b'/' ∷ (place ++ b'/' ∷ []))) (b'/' ∷ (directory.path ++ b'/' ∷ []))
        ≡ true)

abbrev Found : Text → List DirectoryReadByPath → DirectoryReadByPath × Text → Type 0
Found place directories (directory, anchor) =
    Among directory directories
    × IsAnchor place directory anchor
    × (any (is_exact place) directories ≡ true → anchor ≡ place)
    × ((other : DirectoryReadByPath) (k : ℕ)
        → Among other directories
        → StandsAt place other k
        → k + length other.path ≤ length anchor)

-- The directory that is found is one of the list. Its anchor is the head of the package's path and
-- ends with the directory; it is the whole path where a directory names the package itself; and no
-- directory of the list that stands on the path reaches further down it.
pub find_directory_read_by_path-deepest :
    (place : Text) (directories : List DirectoryReadByPath) (directory : DirectoryReadByPath)
    (anchor : Text)
    → find_directory_read_by_path place directories ≡ some (directory, anchor)
    → Among directory directories
      × ((starts_with place anchor ≡ true)
          × (ends_with (b'/' ∷ anchor) (b'/' ∷ directory.path) ≡ true))
      × (any (is_exact place) directories ≡ true → anchor ≡ place)
      × ((other : DirectoryReadByPath) (k : ℕ)
          → Among other directories
          → StandsAt place other k
          → k + length other.path ≤ length anchor)
unfolding find_directory_read_by_path padded
find_directory_read_by_path-deepest place directories directory anchor h =
    elim (Option-cases (find_exact_directory place directories)) [
      | inr (exact, e) ↦
          let h' = rw (find_directory_read_by_path, e) at h in
          let same : exact ≡ directory = cc in
          let whole : place ≡ anchor = cc in
          let (at, stands) = find_exact-Among place directories exact e in
          let reach : (other : DirectoryReadByPath) (k : ℕ)
              → Among other directories
              → StandsAt place other k
              → k + length other.path ≤ length place =
            λ other k _ (given, stands).
              let (deeper, e', far) = anchor_of-reaches place other k given stands in
              omega (
                arith,
                far,
                starts_with-le place deeper (anchor_of-IsAnchor place other deeper e').0,
              ) in
          subst (λ d. Found place directories (d, anchor)) same
            (subst (λ t. Found place directories (exact, t)) whole
              (at, exact-IsAnchor place exact stands, (λ _. refl), reach))
      | inl e ↦
          let best = rw (find_directory_read_by_path, e) at h in
          let (m, deep) = deepest_correct (enclosing place directories) (directory, anchor) best in
          let (at, holds) = enclosing-IsFound place directories (directory, anchor) m in
          (
            at,
            holds,
            (λ exact. absurd (false≢true (sym (none_exact place directories e) ∙ exact))),
            λ other k a (given, stands).
                let (deeper, e', far) = anchor_of-reaches place other k given stands in
                omega (
                  arith,
                  far,
                  deep (other, deeper) (Among-enclosing place directories other deeper a e'),
                ),
          )
    ]
