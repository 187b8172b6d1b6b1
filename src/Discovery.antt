-- ===== src/Discovery.antt =====
-- lanorme/discovery.py: the walk of a tree, pruned by name, exclude globs and scope.
pub mod Walks
pub mod Scopes
use lanorme.Prelude.{
  ℕ, zero, suc, ◌+◌, ◌-◌, ◌*◌, ◌≤◌, ◌<◌, min, String, ◌≡◌, refl, sym, ap, ap₂, ◌∙◌, subst, fun_ext,
  ◌≢◌, ◌↔◌, ◌⊎◌, inl, inr, Bool, true, false, not, ◌&&◌, ◌||◌, false≢true, Option, none, some, List,
  [], ◌∷◌, ◌++◌, map, append-nil, append_assoc, arith, ltb, leb, if◌then◌else◌, tests, Bool-cases,
  Option-cases, Eq, ◌==◌, eq_iff, eq_refl, nat_eq, list_eq, pair_eq, triple_eq, length, keep, any,
  all, count_if, contains, flat_map, length-append, keep-append, keep-keep, count_if-append,
  length-keep-le, length-keep_add, any-append, any-map, length-map, take, drop, get_elem?, Among,
  first, later, any_of_Among, Among-of_any, all_of_Among, contains_of_Among, Among-of_contains,
  Among-append_left, Among-cons, Among-of_keep, Among-of_sort, Among-keep, Among-append_right,
  Among-map, Among-flat_map, Among-of_map, Among-of_append, Among-of_flat_map, reverse,
  Among-reverse, Among-of_reverse, length-reverse, sort, Among-sort, count_if-sort, any-sort,
  sum_by, sum_by-sort, text_leb,
}
use lanorme.Text.{
  Text, codes, is_space, is_upper, is_digit, is_alnum, upper_char, upper, lstrip, rstrip, strip,
  before, after, words, split, join, starts_with, ends_with, forward_slashes, decimal, base_name,
  dir_name,
}
use lanorme.FilePath.{FilePath}
use lanorme.Glob.{fnmatch}
use lanorme.Scan.{Scan}

-- A directory as `os.walk` lists it. A link to a directory is an empty one, which the walk lists
-- and never enters.
mutual
  pub data Tree : Type 0 where
    folder : List Text → Forest → Tree

  pub data Forest : Type 0 where
    no_dirs : Forest
    subdir : Text → Tree → Forest → Forest

unfoldable pub default_prune_dirs : List Text
default_prune_dirs =
    codes ".git"
    ∷ (codes ".venv"
        ∷ (codes "venv"
            ∷ (codes "node_modules"
                ∷ (codes "__pycache__"
                    ∷ (codes "dist"
                        ∷ (codes "build"
                            ∷ (codes ".ruff_cache"
                                ∷ (codes ".pytest_cache" ∷ (codes ".mypy_cache" ∷ [])))))))))

-- `name.startswith(directory + "/")`
unfoldable pub is_below : Text → Text → Bool
is_below dir name = starts_with name (dir ++ codes "/")

unfoldable pub find_narrower_scope : Text → Text → Option Text
unfolding is_below
find_narrower_scope outer inner =
    if outer == [] || inner == [] || outer == inner
    then some (if outer == [] then inner else outer)
    else if is_below outer inner
    then some inner
    else if is_below inner outer
    then some outer
    else none

unfoldable pub is_on_scope_path : Text → Text → Bool
unfolding is_below
is_on_scope_path relative scope =
    relative == scope || is_below scope relative || is_below relative scope

unfoldable pub is_excluded : Text → List Text → Bool
is_excluded relative patterns = any (λ pattern. fnmatch relative pattern) patterns

-- What the walk yields for a directory: its prefix, the directories kept and the file names.
pub record Visit : Type 0 where
  pub here : FilePath
  pub prefix : Text
  pub dirnames : List Text
  pub filenames : List Text

module _ (scan : Scan) (prune : List Text) where
  -- The three tests of `_walk` on a subdirectory.
  unfoldable pub is_descended : Text → Text → Bool
  unfolding is_excluded is_on_scope_path
  is_descended prefix name =
      not (contains prune name)
      && not (is_excluded (prefix ++ name) scan.excludes)
      && (scan.scope == [] || is_on_scope_path (prefix ++ name) scan.scope)

  unfoldable pub visited_files : Text → List Text → List Text
  visited_files prefix files = if scan.scope == [] || is_below scan.scope prefix then files else []

  unfoldable pub by_name : Text × List Visit → Text × List Visit → Bool
  by_name (n, _) (m, _) = text_leb n m

  unfoldable mutual
    unfolding visited_files by_name is_descended

    pub walk : FilePath → Text → Tree → List Visit
    walk here prefix (folder files dirs) =
        let kept = sort by_name (walk_kept here prefix dirs) in
        record {
          here = here;
          prefix = prefix;
          dirnames = map (λ (n, _). n) kept;
          filenames = visited_files prefix files;
        }
        ∷ flat_map (λ (_, visits). visits) kept

    -- The visits below each subdirectory that is kept.
    pub walk_kept : FilePath → Text → Forest → List (Text × List Visit)
    walk_kept here prefix no_dirs = []
    walk_kept here prefix (subdir name tree dirs) =
        let rest = walk_kept here prefix dirs in
        let below = walk (here ++ name ∷ []) (prefix ++ (name ++ codes "/")) tree in
        if is_descended prefix name then (name, below) ∷ rest else rest

-- The order of paths, part by part.
unfoldable pub path_leb : FilePath → FilePath → Bool
path_leb [] _ = true
path_leb (a ∷ p) [] = false
path_leb (a ∷ p) (b ∷ q) = if a == b then path_leb p q else text_leb a b

unfoldable pub has_suffix : Option Text → Text → Bool
has_suffix none name = true
has_suffix (some suffix) name = ends_with name suffix

module _ (scan : Scan) where
  -- The file names of one visit that `iter_files` takes.
  unfoldable pub taken_files : Option Text → Visit → List FilePath
  unfolding is_excluded has_suffix
  taken_files suffix visit =
      map (λ name. visit.here ++ name ∷ [])
        (keep
          (λ name. has_suffix suffix name && not (is_excluded (visit.prefix ++ name) scan.excludes))
          visit.filenames)

  unfoldable pub iter_files : Tree → Option Text → List Text → List FilePath
  unfolding walk taken_files path_leb
  iter_files tree suffix prune =
      sort path_leb (flat_map (taken_files suffix) (walk scan prune scan.root [] tree))

  -- The directory names of one visit that `iter_dirs` takes.
  unfoldable pub taken_dirs : Visit → List FilePath
  unfolding is_below
  taken_dirs visit =
      map (λ name. visit.here ++ name ∷ [])
        (keep
          (λ name.
            scan.scope == []
            || is_below scan.scope (visit.prefix ++ name)
            || visit.prefix ++ name == scan.scope)
          visit.dirnames)

  unfoldable pub iter_dirs : Tree → List Text → List FilePath
  unfolding walk taken_dirs path_leb
  iter_dirs tree prune = sort path_leb (flat_map taken_dirs (walk scan prune scan.root [] tree))

  unfoldable pub iter_py_files : Tree → List FilePath
  unfolding iter_files default_prune_dirs
  iter_py_files tree = iter_files tree (some (codes ".py")) default_prune_dirs
