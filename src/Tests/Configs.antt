-- ===== src/Tests/Configs.antt =====
-- Configs, regions, scopes and the registry.
use lanorme.Prelude.{
  ℕ, ◌<◌, ◌≡◌, refl, sym, subst, ◌↔◌, ◌⊎◌, true, false, ◌&&◌, ◌||◌, Option, none, some, List, [],
  ◌∷◌, ◌++◌, ◌==◌, nat_eq, list_eq, pair_eq, triple_eq, length, any, Among, first, sort,
}
use lanorme.Text.{Text, codes, join, starts_with, ends_with}
use lanorme.Prelude.Dict.{lookup, insert}
use lanorme.FilePath.{FilePath, FileSystem, is_parent, as_posix}
use lanorme.Check.{ok}
use lanorme.Config.{
  Value, Table, text, int, table, end, entry, get, merge_config, is_truthy, put, without,
  override_value,
}
use lanorme.Config.Files.{ConfigFiles}
use lanorme.Config.Merge.{IsDict, merged_entry, get-merge_config}
use lanorme.Checkconfig.{ConfigureApi, applied, build_settings, configure_checks, unknown_settings}
use lanorme.Checkconfig.Readers.{get-build_settings}
use lanorme.Discovery.{find_narrower_scope, is_excluded}
use lanorme.Scan.{Scan}
use lanorme.Glob.{fnmatch}
use lanorme.Presets.{resolve_extends, extended_names}
use lanorme.Presets.Override.{get-resolve_extends, IsMerged, own_value, HasDicts}
use lanorme.Config.{override_value, text}
use lanorme.Config.Keys.{is_known, reject_unknown_top_level_keys_iff}
use lanorme.Config.Files.{reject_unknown_top_level_keys}
use lanorme.Runner.{fold_pass}
use lanorme.Runner.Folding.{total, total-fold_pass}
use lanorme.Tests.Fixtures.{dry_result}
use lanorme.Config.{table_keys}
use lanorme.Discovery.{Tree, folder, no_dirs, subdir, iter_files, has_suffix}
use lanorme.Discovery.Walks.{IsKept, prefix_text, iter_files_sound}
use lanorme.Discovery.Scopes.{in_scope, in_narrower, in_narrower-find_narrower_scope}
use lanorme.Regions.{
  Region, is_root, find_nearest_ancestor, resolve_merged, strip_root, build_child_exclude_globs,
}
use lanorme.Regions.Ancestors.{reach, find_nearest_ancestor-deepest, resolve_merged-cascade}
use lanorme.Regions.Pruning.{is_nested, holds, build_child_exclude_globs-exact}
use lanorme.Registry.{register}
use lanorme.Tests.Fixtures.{plugins, disk, dry_check, registry}

abbrev limits : ℕ → Table
limits n = entry (codes "file_limits") (table (entry (codes "file_warn_lines") (int n) end)) end

abbrev override : Table
override = entry (codes "source_root") (text (codes "app")) (limits 300)

get-merge_config_example :
    get (codes "file_limits") (merge_config (limits 500) override)
    ≡ merged_entry (get (codes "file_limits") (limits 500)) (get (codes "file_limits") override)
unfolding get
get-merge_config_example =
    get-merge_config (codes "file_limits") (limits 500) override (refl, (refl, tt))

in_narrower-find_narrower_scope_example :
    in_narrower (find_narrower_scope (codes "src") (codes "src/app")) (codes "src/app/a.py") ≡ (
      in_scope (codes "src") (codes "src/app/a.py")
      && in_scope (codes "src/app") (codes "src/app/a.py"))
in_narrower-find_narrower_scope_example =
    in_narrower-find_narrower_scope (codes "src") (codes "src/app") (codes "src/app/a.py")

abbrev shallow : Table
shallow = entry (codes "file_warn_lines") (int 200) end

get-build_settings_example :
    get (codes "file_warn_lines") (
      build_settings
        (codes "shallow_modules")
        (entry (codes "shallow_modules") (table shallow) (limits 500)))
    ≡ some (int 200)
unfolding get
get-build_settings_example =
    get-build_settings (codes "shallow_modules")
      (entry (codes "shallow_modules") (table shallow) (limits 500)) shallow
      (codes "file_warn_lines") (int 200) refl refl

abbrev at_dir : FilePath → Table → Region
at_dir dir raw = record { directory = dir; raw = raw; merged = end }

abbrev root_region : Region
root_region = at_dir (codes "p" ∷ []) (limits 500)

abbrev app_region : Region
app_region = at_dir (codes "p" ∷ (codes "app" ∷ [])) (limits 300)

abbrev deep_region : Region
deep_region = at_dir (codes "p" ∷ (codes "app" ∷ (codes "old" ∷ []))) (limits 900)

abbrev all_regions : List Region
all_regions = root_region ∷ (app_region ∷ (deep_region ∷ []))

find_nearest_ancestor-deepest_example :
    ((r : Region)
      → find_nearest_ancestor deep_region.directory all_regions ≡ some r
      → Among r all_regions × (is_parent r.directory deep_region.directory ≡ true))
    × ((c : Region)
        → Among c all_regions
        → is_parent c.directory deep_region.directory ≡ true
        → length c.directory < reach (find_nearest_ancestor deep_region.directory all_regions))
find_nearest_ancestor-deepest_example =
    find_nearest_ancestor-deepest deep_region.directory all_regions

resolve_merged-cascade_example :
    (is_root deep_region ≡ true
      → resolve_merged deep_region all_regions ≡ merge_config end (strip_root deep_region.raw))
    × (find_nearest_ancestor deep_region.directory all_regions ≡ none
        → resolve_merged deep_region all_regions ≡ merge_config end (strip_root deep_region.raw))
    × ((outer : Region)
        → is_root deep_region ≡ false
        → find_nearest_ancestor deep_region.directory all_regions ≡ some outer
        → resolve_merged deep_region all_regions
          ≡ merge_config (resolve_merged outer all_regions) (strip_root deep_region.raw))
resolve_merged-cascade_example = resolve_merged-cascade deep_region all_regions

abbrev config_files : ConfigFiles
config_files = record { fs = disk; parse_toml = λ path. some (limits 500) }

abbrev app_globs : List Text
app_globs = codes "app" ∷ (codes "app/*" ∷ (codes "app/old" ∷ (codes "app/old/*" ∷ [])))

app_globs-built :
    build_child_exclude_globs config_files root_region all_regions (codes "p" ∷ []) ≡ ok app_globs
unfolding build_child_exclude_globs as_posix is_parent lanorme.FilePath.relative_to join
app_globs-built = refl

build_child_exclude_globs-exact_example :
    is_excluded (codes "app/a.py") app_globs
    ≡ any (λ c. is_nested root_region c && holds (codes "p" ∷ []) c (codes "app/a.py")) all_regions
unfolding as_posix lanorme.FilePath.relative_to join
build_child_exclude_globs-exact_example =
    build_child_exclude_globs-exact config_files root_region all_regions (codes "p" ∷ []) app_globs
      (codes "app/a.py") (refl, (refl, (refl, tt))) app_globs-built

registered_dry : register plugins dry_check [] ≡ ok ((codes "duplication", dry_check) ∷ [])
unfolding register lookup insert
registered_dry = refl

-- Configuring succeeds and leaves a plugin as it is.
abbrev configuring : ConfigureApi plugins
configuring = record {
  deepcopy = λ p. some p;
  is_configurable = λ p. true;
  settings_keys = λ p. some (codes "file_warn_lines" ∷ []);
  configure = λ p settings. applied p;
}

abbrev sized : Table
sized = entry (codes "size") (table shallow) end

configured_all : configure_checks plugins configuring registry sized ≡ ok registry
unfolding configure_checks get unknown_settings sort lanorme.Config.table_keys
configured_all = refl

-- A project with a vendored directory and one that is excluded.
abbrev project : Tree
project = folder (codes "a.py" ∷ (codes "b.md" ∷ [])) (
    subdir (codes "src") (folder (codes "c.py" ∷ []) no_dirs)
      (subdir (codes ".venv") (folder (codes "d.py" ∷ []) no_dirs) no_dirs))

abbrev whole_tree : Scan
whole_tree = record {
  root = codes "p" ∷ [];
  scope = codes "src";
  excludes = codes "old" ∷ [];
  source_root = [];
}

c_listed :
    iter_files whole_tree project (some (codes ".py")) (codes ".venv" ∷ [])
    ≡ (codes "p" ∷ (codes "src" ∷ (codes "c.py" ∷ []))) ∷ []
unfolding iter_files sort starts_with lanorme.Glob.fnmatch ends_with
c_listed = refl

iter_files_sound_example :
    (parts : List Text) × (name : Text) × ((codes "p" ∷ (codes "src" ∷ (codes "c.py" ∷ [])))
      ≡ codes "p" ∷ (parts ++ name ∷ []))
    × IsKept whole_tree (codes ".venv" ∷ []) [] parts
    × (has_suffix (some (codes ".py")) name ≡ true)
    × (any (λ pattern_. fnmatch (prefix_text parts ++ name) pattern_) (codes "old" ∷ []) ≡ false)
    × ((codes "src" == [] || starts_with (prefix_text parts) (codes "src" ++ codes "/")) ≡ true)
iter_files_sound_example =
    iter_files_sound whole_tree (codes ".venv" ∷ []) project (some (codes ".py"))
      (codes "p" ∷ (codes "src" ∷ (codes "c.py" ∷ [])))
      (subst (Among (codes "p" ∷ (codes "src" ∷ (codes "c.py" ∷ [])))) (sym c_listed) first)

reject_unknown_top_level_keys_iff_example :
    (reject_unknown_top_level_keys (codes "file_limits" ∷ []) override (codes "lanorme.toml")
      ≡ ok tt)
    ↔ ((k : Text) → Among k (table_keys override) → is_known (codes "file_limits" ∷ []) k ≡ true)
reject_unknown_top_level_keys_iff_example =
    reject_unknown_top_level_keys_iff (codes "file_limits" ∷ []) override (codes "lanorme.toml")

total-fold_pass_example :
    total (
      fold_pass plugins configuring config_files
        ((codes "size", dry_result) ∷ [])
        ((codes "size", dry_result) ∷ []))
    ≡ 8
total-fold_pass_example =
    total-fold_pass plugins configuring config_files ((codes "size", dry_result) ∷ [])
      ((codes "size", dry_result) ∷ [])

-- The bundled profile `strict` sets limits of its own.
abbrev bundled : Text → Option FilePath
bundled name = some (codes "pkg" ∷ (name ∷ []))

abbrev extending : Table
extending = entry (codes "extends") (text (codes "strict")) (limits 300)

abbrev extended : Table
extended = limits 300

extending_resolved : resolve_extends config_files bundled extending (codes "p" ∷ []) ≡ ok extended
unfolding resolve_extends is_truthy get ends_with lanorme.Config.Files.read_toml merge_config
    without put
extending_resolved = refl

keys_differ : HasDicts config_files bundled (codes "p" ∷ [])
unfolding get
keys_differ path t h = let same : limits 500 ≡ t = cc in subst IsDict same (refl, tt)

get-resolve_extends_example :
    ((is_truthy (get (codes "extends") extending) ≡ false) × (extended ≡ extending))
    ⊎ ((names : List Text) × (base : Table) × (is_truthy (get (codes "extends") extending) ≡ true)
        × (extended_names (get (codes "extends") extending) ≡ ok names)
        × IsMerged config_files bundled (codes "p" ∷ []) names end base
        × ((key : Text)
            → get key extended
              ≡ merged_entry
                  (get key base)
                  (own_value config_files bundled (codes "p" ∷ []) key extending)))
unfolding get
get-resolve_extends_example =
    get-resolve_extends config_files bundled (codes "p" ∷ []) keys_differ extending extended
      (refl, (refl, tt)) extending_resolved
