-- ===== src/Presets.antt =====
-- lanorme/presets.py: the profiles that a config extends.
pub mod Override
use lanorme.Prelude.{
  ℕ, zero, suc, ◌+◌, ◌-◌, ◌*◌, ◌≤◌, ◌<◌, min, String, ◌≡◌, refl, sym, ap, ap₂, ◌∙◌, subst, fun_ext,
  ◌≢◌, ◌↔◌, ◌⊎◌, inl, inr, Bool, true, false, not, ◌&&◌, ◌||◌, false≢true, Option, none, some, List,
  [], ◌∷◌, ◌++◌, map, append-nil, append_assoc, arith, ltb, leb, if◌then◌else◌, tests, Bool-cases,
  Option-cases, Eq, ◌==◌, eq_iff, eq_refl, nat_eq, list_eq, pair_eq, triple_eq, length, keep, any,
  all, count_if, contains, flat_map, length-append, keep-append, keep-keep, count_if-append,
  length-keep-le, length-keep_add, any-append, any-map, length-map, take, drop, get_elem?, Among,
  first, later, any_of_Among, Among-of_any, all_of_Among, contains_of_Among, Among-of_contains,
  Among-append_left, Among-cons, Among-of_keep, Among-of_sort, Among-keep, Among-append_right,
  Among-map, Among-flat_map, Among-of_map, Among-of_append, Among-of_flat_map, reverse,
  Among-reverse, Among-of_reverse, length-reverse, sort, Among-sort, count_if-sort, any-sort,
  sum_by, sum_by-sort, text_leb,
}
use lanorme.Text.{
  Text, codes, is_space, is_upper, is_digit, is_alnum, upper_char, upper, lstrip, rstrip, strip,
  before, after, words, split, join, starts_with, ends_with, forward_slashes, decimal, base_name,
  dir_name,
}
use lanorme.FilePath.{FilePath, FileSystem, join_path}
use lanorme.Check.{Result, ok, err, ◌>>=◌, UsageError, bad_extends, unknown_profile, invalid_toml}
use lanorme.Config.{Value, Values, Table, text, list, end, get, merge_config, is_truthy, without}
use lanorme.Config.Files.{ConfigFiles, read_toml}
use lanorme.Checkconfig.{all_strings}

-- The entries of a value of `extends` that is set.
unfoldable pub extended_names : Option Value → Result (List Text)
unfolding all_strings
extended_names (some (text name)) = ok (name ∷ [])
extended_names (some (list vs)) = elim (all_strings vs) [
  | none ↦ err bad_extends
  | some names ↦ ok names
]
extended_names _ = err bad_extends

-- `bundled` holds the files shipped inside the package, by profile name.
module _ (files : ConfigFiles) (bundled : Text → Option FilePath) where
  open files use {fs}

  load_at : Text → FilePath → Result Table
  load_at name path = if fs.is_file path then read_toml files path else err (unknown_profile name)

  load_bundled : Text → Option FilePath → Result Table
  load_bundled name none = err (unknown_profile name)
  load_bundled name (some path) = read_toml files path

  unfoldable pub load_profile : Text → FilePath → Result Table
  unfolding load_at load_bundled
  load_profile name project_root =
      if ends_with name (codes ".toml") || contains name b'/'
      then load_at name (fs.resolve (join_path project_root name))
      else load_bundled name (bundled name)

  -- The profiles merged left to right, each without an `extends` of its own.
  unfoldable pub fold_profiles : FilePath → List Text → Table → Result Table
  unfolding load_profile
  fold_profiles project_root [] base = ok base
  fold_profiles project_root (name ∷ names) base = load_profile name project_root >>= (λ profile.
      fold_profiles project_root names (merge_config base (without (codes "extends") profile)))

  unfoldable pub resolve_extends : Table → FilePath → Result Table
  unfolding fold_profiles extended_names
  resolve_extends config project_root =
      if not (is_truthy (get (codes "extends") config))
      then ok config
      else extended_names (get (codes "extends") config) >>= (λ names.
        fold_profiles project_root names end
        >>= (λ base. ok (merge_config base (without (codes "extends") config))))
