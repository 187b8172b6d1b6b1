-- ===== src/Checkconfig.antt =====
-- lanorme/checkconfig.py: typed reads of settings, and the configured copies of the checks.
pub mod Readers
use lanorme.Prelude.{
  ℕ, zero, suc, ◌+◌, ◌-◌, ◌*◌, ◌≤◌, ◌<◌, min, String, ◌≡◌, refl, sym, ap, ap₂, ◌∙◌, subst, fun_ext,
  ◌≢◌, ◌↔◌, ◌⊎◌, inl, inr, Bool, true, false, not, ◌&&◌, ◌||◌, false≢true, Option, none, some, List,
  [], ◌∷◌, ◌++◌, map, append-nil, append_assoc, arith, ltb, leb, if◌then◌else◌, tests, Bool-cases,
  Option-cases, Eq, ◌==◌, eq_iff, eq_refl, nat_eq, list_eq, pair_eq, triple_eq, length, keep, any,
  all, count_if, contains, flat_map, length-append, keep-append, keep-keep, count_if-append,
  length-keep-le, length-keep_add, any-append, any-map, length-map, take, drop, get_elem?, Among,
  first, later, any_of_Among, Among-of_any, all_of_Among, contains_of_Among, Among-of_contains,
  Among-append_left, Among-cons, Among-of_keep, Among-of_sort, Among-keep, Among-append_right,
  Among-map, Among-flat_map, Among-of_map, Among-of_append, Among-of_flat_map, reverse,
  Among-reverse, Among-of_reverse, length-reverse, sort, Among-sort, count_if-sort, any-sort,
  sum_by, sum_by-sort, text_leb,
}
use lanorme.Text.{
  Text, codes, is_space, is_upper, is_digit, is_alnum, upper_char, upper, lstrip, rstrip, strip,
  before, after, words, split, join, starts_with, ends_with, forward_slashes, decimal, base_name,
  dir_name,
}
use lanorme.Prelude.Dict.{Dict, insert}
use lanorme.Config.{
  Value, Values, Table, text, int, bool, list, table, other, nil, cons, end, entry, get, put,
  table_keys,
}
use lanorme.Check.{
  UsageError, Result, ok, err, ◌>>=◌, CheckApi, unknown_keys, invalid_value, not_copyable, crashed,
}

-- A read of a setting: the value, or the key that a `SettingError` names.
pub data Setting {ℓ} (A : Type ℓ) : Type ℓ where
  value : A → Setting A
  mistyped : Text → Setting A

module _ (settings : Table) (key : Text) where
  unfoldable pub is_flag_set : Bool → Setting Bool
  is_flag_set default = elim (get key settings) [
    | none ↦ value default
    | some (bool b) ↦ value b
    | some _ ↦ mistyped key
  ]

  unfoldable pub read_int : ℕ → Setting ℕ
  read_int default = elim (get key settings) [
    | none ↦ value default
    | some (int n) ↦ value n
    | some _ ↦ mistyped key
  ]

  unfoldable pub read_str : Text → Setting Text
  read_str default = elim (get key settings) [
    | none ↦ value default
    | some (text s) ↦ value s
    | some _ ↦ mistyped key
  ]

-- The strings of a list that holds nothing else.
unfoldable pub all_strings : Values → Option (List Text)
all_strings nil = some []
all_strings (cons (text s) vs) = elim (all_strings vs) [ none ↦ none | some ss ↦ some (s ∷ ss) ]
all_strings (cons _ vs) = none

or_mistyped : Text → Option (List Text) → Setting (List Text)
or_mistyped key none = mistyped key
or_mistyped key (some ss) = value ss

unfoldable pub read_str_list : Table → Text → List Text → Setting (List Text)
unfolding all_strings or_mistyped
read_str_list settings key default = elim (get key settings) [
  | none ↦ value default
  | some (list vs) ↦ or_mistyped key (all_strings vs)
  | some _ ↦ mistyped key
]

-- `RUN_KEYS`
unfoldable pub run_keys : List Text
run_keys =
    codes "select"
    ∷ (codes "ignore"
        ∷ (codes "exclude"
            ∷ (codes "promote"
                ∷ (codes "extends"
                    ∷ (codes "baseline"
                        ∷ (codes "source_root"
                            ∷ (codes "plugins"
                                ∷ (codes "per-file-ignores" ∷ (codes "root" ∷ [])))))))))

-- `_SOURCE_ROOT_CHECKS`
unfoldable pub source_root_checks : List Text
source_root_checks =
    codes "layer_deps"
    ∷ (codes "port_coverage" ∷ (codes "security_patterns" ∷ (codes "test_coverage" ∷ [])))

-- `_MIRRORED_SETTINGS.get(name, ())`
unfoldable pub mirrored_settings : Text → List (Text × (Text × Text))
mirrored_settings name =
    if name == codes "shallow_modules"
    then (codes "file_limits", (codes "file_warn_lines", codes "file_warn_lines"))
      ∷ ((codes "file_limits", (codes "file_error_lines", codes "file_error_lines"))
          ∷ ((codes "layer_deps", (codes "layers", codes "layers"))
              ∷ ((codes "layer_deps", (codes "composition_root", codes "layer_composition_root"))
                  ∷ ((codes "port_coverage", (codes "ports_dir", codes "ports_dir"))
                      ∷ ((codes "port_coverage", (codes "adapter_roots", codes "adapter_roots"))
                          ∷ ((
                            codes "port_coverage",
                            (codes "composition_root", codes "port_composition_root"),
                          )
                              ∷ []))))))
    else []

unfoldable pub is_mirrorable : Value → Bool
unfolding all_strings
is_mirrorable (int n) = true
is_mirrorable (text s) = true
is_mirrorable (list vs) = elim (all_strings vs) [ none ↦ false | some _ ↦ true ]
is_mirrorable _ = false

-- The value of an owner's table that is copied.
unfoldable pub owned_value : Option Value → Text → Option Value
unfolding is_mirrorable
owned_value (some (table t)) owner_key = elim (get owner_key t) [
  | none ↦ none
  | some v ↦ if is_mirrorable v then some v else none
]
owned_value _ owner_key = none

-- One turn of the loop of `_mirror_owner_settings`.
unfoldable pub mirror_setting : Text → Text → Text → Table → Table → Table
unfolding owned_value
mirror_setting owner owner_key key config settings = elim (get key settings) [
  | some _ ↦ settings
  | none ↦ elim (owned_value (get owner config) owner_key) [
    | none ↦ settings
    | some v ↦ put key v settings
  ]
]

unfoldable pub mirror_settings : List (Text × (Text × Text)) → Table → Table → Table
unfolding mirror_setting
mirror_settings [] config settings = settings
mirror_settings ((owner, (owner_key, key)) ∷ mirrored) config settings =
    mirror_settings mirrored config (mirror_setting owner owner_key key config settings)

section_of : Option Value → Table
section_of (some (table t)) = t
section_of _ = end

-- The top-level `source_root`, where it is a string that is not empty.
source_root_of : Option Value → Option Value
source_root_of (some (text (c ∷ s))) = some (text (c ∷ s))
source_root_of _ = none

unfoldable pub with_source_root : Text → Table → Table → Table
unfolding source_root_of source_root_checks
with_source_root name config settings =
    if contains source_root_checks name
    then elim (source_root_of (get (codes "source_root") config)) [
      | none ↦ settings
      | some root ↦ elim (get (codes "source_root") settings) [
        | some _ ↦ settings
        | none ↦ put (codes "source_root") root settings
      ]
    ]
    else settings

unfoldable pub build_settings : Text → Table → Table
unfolding section_of with_source_root mirror_settings mirrored_settings
build_settings name config =
    mirror_settings (mirrored_settings name) config
      (with_source_root name config (section_of (get name config)))

-- How a call of `configure` ends: the check with the settings applied, a value it rejects (a
-- `TypeError` or `ValueError`), another usage error, or an exception by its type's name.
pub data Configured {ℓ} (A : Type ℓ) : Type ℓ where
  applied : A → Configured A
  rejected : Configured A
  failed : Text → Configured A

-- What configuring asks of a check. `deepcopy` gives `none` where it raises.
pub record ConfigureApi (api : CheckApi) : Type 1 where
  pub deepcopy : api.Check → Option api.Check
  pub is_configurable : api.Check → Bool
  pub settings_keys : api.Check → Option (List Text)
  pub configure : api.Check → Table → Configured api.Check

-- Keys in sorted order that a check does not declare.
unfoldable pub unknown_settings : Option (List Text) → Table → List Text
unknown_settings none settings = []
unknown_settings (some declared) settings =
    sort text_leb (keep (λ k. not (contains declared k)) (table_keys settings))

refuse_settings : Text → List Text → Result (Unit {0})
refuse_settings name [] = ok tt
refuse_settings name (k ∷ keys) = err (unknown_keys name (k ∷ keys))

module _ (api : CheckApi) (conf : ConfigureApi api) where
  open api use {Check}
  open conf use {deepcopy, is_configurable, settings_keys, configure}

  unfoldable pub reject_unknown_keys : Check → Text → Table → Result (Unit {0})
  unfolding refuse_settings unknown_settings
  reject_unknown_keys check name settings =
      refuse_settings name (unknown_settings (settings_keys check) settings)

  -- One key replayed against a copy of its own: whether it is rejected. A `deepcopy` that raises
  -- here has raised on the same template before, and no key is tried.
  replay : Option Check → Text → Value → Result Bool
  replay none key v = ok true
  replay (some copied) key v = elim (configure copied (entry key v end)) [
    | applied _ ↦ ok false
    | rejected ↦ ok true
    | failed kind ↦ err (crashed kind)
  ]

  unfoldable pub find_offending_key : Check → Table → Result (Option Text)
  unfolding replay
  find_offending_key template end = ok none
  find_offending_key template (entry key v settings) =
      let rest = find_offending_key template settings in
      replay (deepcopy template) key v >>= (λ found. if found then ok (some key) else rest)

  after_configure : Text → Check → Table → Configured Check → Result Check
  unfolding find_offending_key
  after_configure name template settings (applied check) = ok check
  after_configure name template settings rejected =
      find_offending_key template settings >>= (λ key. err (invalid_value name key))
  after_configure name template settings (failed kind) = err (crashed kind)

  unfoldable pub configure_or_fail : Check → Check → Text → Table → Result Check
  unfolding after_configure reject_unknown_keys
  configure_or_fail check template name settings =
      reject_unknown_keys check name settings
      >>= (λ _. after_configure name template settings (configure check settings))

  unfoldable pub copy_template : Text → Check → Result Check
  copy_template name template = elim (deepcopy template) [
    | none ↦ err (not_copyable name)
    | some check ↦ ok check
  ]

  -- The `if settings:` of `configure_checks`.
  configure_if_set : Check → Check → Text → Table → Result Check
  unfolding configure_or_fail
  configure_if_set check template name end = ok check
  configure_if_set check template name (entry k v settings) =
      configure_or_fail check template name (entry k v settings)

  unfoldable pub configure_one : Text → Check → Table → Result Check
  unfolding configure_if_set copy_template build_settings
  configure_one name template config = copy_template name template >>= (λ check.
      if is_configurable check
      then configure_if_set check template name (build_settings name config)
      else ok check)

  -- One copy for each template, under its name and in its order.
  unfoldable pub configure_checks : Dict Text Check → Table → Result (Dict Text Check)
  unfolding configure_one
  configure_checks [] config = ok []
  configure_checks ((name, template) ∷ templates) config =
      configure_one name template config
      >>= (λ check. configure_checks templates config >>= (λ rest. ok ((name, check) ∷ rest)))
