-- ===== src/Discovery/Walks.antt =====
-- Which files a walk lists.
use lanorme.Prelude.{
  ◌≡◌, refl, sym, ap, ◌∙◌, subst, ◌⊎◌, inl, inr, Bool, true, false, not, ◌&&◌, ◌||◌, Option, List,
  [], ◌∷◌, ◌++◌, append-nil, append_assoc, arith, Bool-cases, ◌==◌, eq_iff, nat_eq, list_eq,
  pair_eq, triple_eq, keep, any, contains, flat_map, Among, Among-cons, Among-of_keep,
  Among-of_sort, Among-of_map, Among-of_flat_map, sort,
}
use lanorme.Text.{Text, codes, starts_with}
use lanorme.FilePath.{FilePath}
use lanorme.Scan.{Scan}
use lanorme.Glob.{fnmatch}
use lanorme.Discovery.{
  is_on_scope_path, Tree, Forest, folder, no_dirs, subdir, Visit, walk, walk_kept, is_below,
  is_excluded, is_descended, visited_files, by_name, taken_files, iter_files, has_suffix, path_leb,
}

-- The prefix of the directory with these parts: each part and its slash.
abbrev pub prefix_text : List Text → Text
prefix_text [] = []
prefix_text (part ∷ parts) = part ++ (codes "/" ++ prefix_text parts)

prefix_text-append :
    (parts : List Text) (name : Text)
    → prefix_text (parts ++ name ∷ []) ≡ prefix_text parts ++ (name ++ codes "/")
prefix_text-append [] name = refl
prefix_text-append (part ∷ parts) name =
    ap (λ rest. part ++ (codes "/" ++ rest)) (prefix_text-append parts name)
    ∙ sym (append_assoc part (codes "/" ++ prefix_text parts) (name ++ codes "/"))

module _ (scan : Scan) (prune : List Text) where
  -- The directory is no pruned one by its name, no exclude glob matches its path, and where the
  -- scan has a scope its path is the scope's, lies below it or leads to it.
  abbrev pub IsOpen : Text → Text → Type 0
  IsOpen prefix name =
      (contains prune name ≡ false)
      × (any (λ pattern_. fnmatch (prefix ++ name) pattern_) scan.excludes ≡ false)
      × ((scan.scope ≡ [])
          ⊎ ((prefix ++ name ≡ scan.scope)
              ⊎ ((starts_with (prefix ++ name) (scan.scope ++ codes "/") ≡ true)
                  ⊎ (starts_with scan.scope ((prefix ++ name) ++ codes "/") ≡ true))))

  is_descended-IsOpen :
      (prefix name : Text) → is_descended scan prune prefix name ≡ true → IsOpen prefix name
  unfolding is_descended is_excluded is_on_scope_path is_below
  is_descended-IsOpen prefix name h = (
    ground (arith, h),
    ground (arith, h),
    elim (Bool-cases (scan.scope == [])) [
      | inl unset ↦ inl ((eq_iff scan.scope []).0 unset)
      | inr set ↦ inr (elim (Bool-cases (prefix ++ name == scan.scope)) [
        | inl same ↦ inl ((eq_iff (prefix ++ name) scan.scope).0 same)
        | inr other ↦
            inr (elim (Bool-cases (starts_with (prefix ++ name) (scan.scope ++ codes "/"))) [
              | inl below ↦ inl below
              | inr beside ↦ inr (ground (arith, h))
            ])
      ])
    ],
  )

  -- Each directory on the way down is open to the walk.
  abbrev pub IsKept : Text → List Text → Type 0
  IsKept prefix [] = Unit
  IsKept prefix (part ∷ parts) = IsOpen prefix part × IsKept (prefix ++ (part ++ codes "/")) parts

  IsKept-snoc :
      (prefix : Text) (parts : List Text) (name : Text)
      → IsKept prefix parts
      → IsOpen (prefix ++ prefix_text parts) name
      → IsKept prefix (parts ++ name ∷ [])
  IsKept-snoc prefix [] name k h = (subst (λ p. IsOpen p name) (append-nil prefix) h, tt)
  IsKept-snoc prefix (part ∷ parts) name (k, ks) h = (
    k,
    IsKept-snoc (prefix ++ (part ++ codes "/")) parts name ks (
        subst (λ p. IsOpen p name)
          (ap (◌++◌ prefix) (sym (append_assoc part (codes "/") (prefix_text parts)))
            ∙ sym (append_assoc prefix (part ++ codes "/") (prefix_text parts)))
          h),
  )

  -- A directory that the walk comes to.
  Located : FilePath → Text → Type 0
  Located here prefix =
      (parts : List Text) × (here ≡ scan.root ++ parts)
      × (prefix ≡ prefix_text parts)
      × IsKept [] parts

  Located-subdir :
      (here : FilePath) (prefix name : Text)
      → Located here prefix
      → IsOpen prefix name
      → Located (here ++ name ∷ []) (prefix ++ (name ++ codes "/"))
  unfolding Located
  Located-subdir here prefix name (parts, e, k, kept) h = (
    parts ++ name ∷ [],
    rw e (append_assoc scan.root parts (name ∷ [])),
    rw k (sym (prefix_text-append parts name)),
    IsKept-snoc [] parts name kept (subst (λ p. IsOpen p name) k h),
  )

  -- A visit of the walk: a directory that it comes to, and files only where the scope allows.
  Listed : Visit → Type 0
  Listed v =
      Located v.here v.prefix
      × ((n : Text)
          → Among n v.filenames
          → (scan.scope == [] || is_below scan.scope v.prefix) ≡ true)

  visited_files-scope :
      (prefix : Text) (files : List Text) (n : Text)
      → Among n (visited_files scan prune prefix files)
      → (scan.scope == [] || is_below scan.scope prefix) ≡ true
  unfolding visited_files
  visited_files-scope prefix files n m =
      elim (Bool-cases (scan.scope == [] || is_below scan.scope prefix)) [
        | inl within ↦ within
        | inr above ↦ elim (rw above at m) [ ]
      ]

  mutual
    unfolding walk Listed

    walk-Listed :
        (here : FilePath) (prefix : Text) (tree : Tree) (v : Visit)
        → Located here prefix
        → Among v (walk scan prune here prefix tree)
        → Listed v
    walk-Listed here prefix (folder files dirs) v l m =
        Among-cons Listed (l, visited_files-scope prefix files)
          (λ n.
            let (below, k, j) =
              Among-of_flat_map (λ (_, visits). visits) v
                (sort (by_name scan prune) (walk_kept scan prune here prefix dirs)) n in
            walk_kept-Listed here prefix dirs below v l
              (Among-of_sort (by_name scan prune) (walk_kept scan prune here prefix dirs) k) j)
          m

    walk_kept-Listed :
        (here : FilePath) (prefix : Text) (dirs : Forest) (below : Text × List Visit) (v : Visit)
        → Located here prefix
        → Among below (walk_kept scan prune here prefix dirs)
        → Among v below.1
        → Listed v
    walk_kept-Listed here prefix no_dirs below v l m n = elim m [ ]
    walk_kept-Listed here prefix (subdir d tree dirs) below v l m n =
        elim (Bool-cases (is_descended scan prune prefix d)) [
          | inr dropped ↦ walk_kept-Listed here prefix dirs below v l (rw dropped at m) n
          | inl kept ↦
              Among-cons (λ b. Among v b.1 → Listed v)
                (walk-Listed (here ++ d ∷ []) (prefix ++ (d ++ codes "/")) tree v
                  (Located-subdir here prefix d l (is_descended-IsOpen prefix d kept)))
                (λ k j. walk_kept-Listed here prefix dirs below v l k j) (rw kept at m) n
        ]

  -- Every file that is listed lies below the root, by a way of directories none of which is pruned by
  -- its name or matched by an exclude glob, and each of which is the scope, lies below it or leads to
  -- it. The file has the suffix, no exclude glob matches its path, and its directory is
  -- in the scope.
  pub iter_files_sound :
      (tree : Tree) (suffix : Option Text) (path : FilePath)
      → Among path (iter_files scan tree suffix prune)
      → (parts : List Text) × (name : Text) × (path ≡ scan.root ++ (parts ++ name ∷ []))
        × IsKept [] parts
        × (has_suffix suffix name ≡ true)
        × (any (λ pattern_. fnmatch (prefix_text parts ++ name) pattern_) scan.excludes ≡ false)
        × ((scan.scope == [] || starts_with (prefix_text parts) (scan.scope ++ codes "/")) ≡ true)
  unfolding iter_files taken_files Listed Located is_excluded is_below
  iter_files_sound tree suffix path m =
      let visits = walk scan prune scan.root [] tree in
      let (v, seen, taken) =
        Among-of_flat_map (taken_files scan suffix) path visits
          (Among-of_sort path_leb (flat_map (taken_files scan suffix) visits) m) in
      let passes : Text → Bool =
        λ name. has_suffix suffix name && not (is_excluded (v.prefix ++ name) scan.excludes) in
      let (name, kept, e) =
        Among-of_map (λ name. v.here ++ name ∷ []) path (keep passes v.filenames) taken in
      let (file, holds) = Among-of_keep passes v.filenames kept in
      let ((parts, at_root, at_prefix, way), scoped) =
        walk-Listed scan.root [] tree v ([], sym (append-nil scan.root), refl, tt) seen in
      (
        parts,
        name,
        e ∙ (ap (λ here. here ++ name ∷ []) at_root ∙ append_assoc scan.root parts (name ∷ [])),
        way,
        ground (arith, holds),
        subst (λ p. is_excluded (p ++ name) scan.excludes ≡ false) at_prefix
            (ground (arith, holds)),
        subst (λ p. (scan.scope == [] || is_below scan.scope p) ≡ true) at_prefix
            (scoped name file),
      )
