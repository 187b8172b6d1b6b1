-- ===== src/Regions.antt =====
-- lanorme/regions.py: the regions that config files make of a tree, and the scopes of a region.
pub mod WalkUp
pub mod Ancestors
pub mod Pruning
use lanorme.Prelude.{
  ℕ, zero, suc, ◌+◌, ◌-◌, ◌*◌, ◌≤◌, ◌<◌, min, String, ◌≡◌, refl, sym, ap, ap₂, ◌∙◌, subst, fun_ext,
  ◌≢◌, ◌↔◌, ◌⊎◌, inl, inr, Bool, true, false, not, ◌&&◌, ◌||◌, false≢true, Option, none, some, List,
  [], ◌∷◌, ◌++◌, map, append-nil, append_assoc, arith, ltb, leb, if◌then◌else◌, tests, Bool-cases,
  Option-cases, Eq, ◌==◌, eq_iff, eq_refl, nat_eq, list_eq, pair_eq, triple_eq, length, keep, any,
  all, count_if, contains, flat_map, length-append, keep-append, keep-keep, count_if-append,
  length-keep-le, length-keep_add, any-append, any-map, length-map, take, drop, get_elem?, Among,
  first, later, any_of_Among, Among-of_any, all_of_Among, contains_of_Among, Among-of_contains,
  Among-append_left, Among-cons, Among-of_keep, Among-of_sort, Among-keep, Among-append_right,
  Among-map, Among-flat_map, Among-of_map, Among-of_append, Among-of_flat_map, reverse,
  Among-reverse, Among-of_reverse, length-reverse, sort, Among-sort, count_if-sort, any-sort,
  sum_by, sum_by-sort, text_leb,
}
use lanorme.Text.{
  Text, codes, is_space, is_upper, is_digit, is_alnum, upper_char, upper, lstrip, rstrip, strip,
  before, after, words, split, join, starts_with, ends_with, forward_slashes, decimal, base_name,
  dir_name,
}
use lanorme.FilePath.{FilePath, FileSystem, relative_to, as_posix, is_parent}
use lanorme.Finding.{CheckResult, Violation}
use lanorme.Check.{UsageError, Result, ok, err, ◌>>=◌, crashed}
use lanorme.Config.{Value, Table, end, entry, get, merge_config, is_truthy, without}
use lanorme.Config.Files.{
  ConfigFiles, reject_unknown_top_level_keys, load_lanorme_config, label_config,
}

pub record Region : Type 0 where
  pub directory : FilePath
  pub raw : Table
  pub merged : Table

-- `Region.is_root`
unfoldable pub is_root : Region → Bool
is_root region = is_truthy (get (codes "root") region.raw)

unfoldable pub strip_root : Table → Table
strip_root config = without (codes "root") config

-- The inner test of the loop: the candidate replaces what was best so far.
is_deeper : Option Region → Region → Bool
is_deeper none candidate = true
is_deeper (some best) candidate = ltb (length best.directory) (length candidate.directory)

-- The best of the loop after one more candidate.
unfoldable pub closer : FilePath → Option Region → Region → Option Region
unfolding is_deeper
closer dir best candidate =
    if not (candidate.directory == dir)
      && is_parent candidate.directory dir
      && is_deeper best candidate
    then some candidate
    else best

-- The loop of `_find_nearest_ancestor`.
unfoldable pub nearest_from : FilePath → Option Region → List Region → Option Region
unfolding closer
nearest_from dir best [] = best
nearest_from dir best (candidate ∷ candidates) =
    nearest_from dir (closer dir best candidate) candidates

unfoldable pub find_nearest_ancestor : FilePath → List Region → Option Region
unfolding nearest_from
find_nearest_ancestor dir candidates = nearest_from dir none candidates

-- The loop of `_resolve_merged`: the regions from `node` outwards, up to one that is a root. Each
-- is a proper ancestor of the one before, so the depth of the first is fuel enough.
unfoldable pub ancestor_chain : ℕ → Region → List Region → List Region
unfolding is_root find_nearest_ancestor
ancestor_chain zero node regions = node ∷ []
ancestor_chain (suc fuel) node regions = elim (is_root node) [
  | true ↦ node ∷ []
  | false ↦ elim (find_nearest_ancestor node.directory regions) [
    | none ↦ node ∷ []
    | some outer ↦ node ∷ ancestor_chain fuel outer regions
  ]
]

-- The fold over the chain, outermost first.
unfoldable pub fold_chain : List Region → Table
unfolding strip_root
fold_chain [] = end
fold_chain (region ∷ outer) = merge_config (fold_chain outer) (strip_root region.raw)

unfoldable pub resolve_merged : Region → List Region → Table
unfolding ancestor_chain fold_chain
resolve_merged region regions = fold_chain (ancestor_chain (length region.directory) region regions)

with_merged : List Region → Region → Region
unfolding resolve_merged
with_merged regions region = record region { merged = resolve_merged region regions }

-- The two globs of one nested region.
unfoldable pub child_globs : Option (List Text) → Result (List Text)
child_globs none = err (crashed (codes "ValueError"))
child_globs (some parts) = ok (as_posix parts ∷ ((as_posix parts ++ codes "/*") ∷ []))

module _ (files : ConfigFiles) where
  open files use {fs}

  -- The body of the loop of `discover_regions`. An empty table makes no region.
  region_at :
      List Text → (Table → FilePath → Result Table) → FilePath → Option Table → Result (List Region)
  unfolding reject_unknown_top_level_keys label_config
  region_at checks extend here none = ok []
  region_at checks extend here (some end) = ok []
  region_at checks extend here (some (entry k v t)) = extend (entry k v t) here >>= (λ config.
      reject_unknown_top_level_keys checks config (label_config files here)
      >>= (λ _. ok (record { directory = here; raw = config; merged = end } ∷ [])))

  unfoldable pub nested_regions :
      List Text → (Table → FilePath → Result Table) → List FilePath → Result (List Region)
  unfolding region_at load_lanorme_config
  nested_regions checks extend [] = ok []
  nested_regions checks extend (dir ∷ dirs) =
      let here = fs.resolve dir in
      load_lanorme_config files here >>= (λ config.
        region_at checks extend here config
        >>= (λ found. nested_regions checks extend dirs >>= (λ rest. ok (found ++ rest))))

  -- `dirs` is what `iter_dirs` lists under the root.
  unfoldable pub discover_regions :
      List Text
      → (Table → FilePath → Result Table)
      → FilePath
      → List FilePath
      → Table
      → Result (List Region)
  unfolding nested_regions with_merged
  discover_regions checks extend scan_root dirs root_config =
      nested_regions checks extend dirs >>= (λ nested.
        let root : Region = record {
          directory = fs.resolve scan_root;
          raw = root_config;
          merged = end;
        } in
        let regions = sort (λ a b. leb (length a.directory) (length b.directory)) (root ∷ nested) in
        ok (map (with_merged regions) regions))

  unfoldable pub compute_region_prefix : Region → FilePath → Result Text
  compute_region_prefix region scan_root =
      if region.directory == fs.resolve scan_root
      then ok []
      else elim (relative_to region.directory (fs.resolve scan_root)) [
        | none ↦ err (crashed (codes "ValueError"))
        | some parts ↦ ok (as_posix parts)
      ]

  unfoldable pub build_child_exclude_globs : Region → List Region → FilePath → Result (List Text)
  unfolding child_globs
  build_child_exclude_globs region [] scan_root = ok []
  build_child_exclude_globs region (candidate ∷ regions) scan_root =
      let rest = build_child_exclude_globs region regions scan_root in
      if not (candidate.directory == region.directory)
        && is_parent region.directory candidate.directory
      then child_globs (relative_to candidate.directory (fs.resolve scan_root))
        >>= (λ globs. rest >>= (λ more. ok (globs ++ more)))
      else rest

-- `combine_results`
unfoldable pub combine_results : Option CheckResult → CheckResult → CheckResult
combine_results none addition = addition
combine_results (some existing) addition = record {
  check = addition.check;
  violations = existing.violations ++ addition.violations;
  warnings = existing.warnings ++ addition.warnings;
}
