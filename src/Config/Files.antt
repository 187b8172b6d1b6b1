-- ===== src/Config/Files.antt =====
-- lanorme/regions.py: reading the config file of a directory.
use lanorme.Prelude.{
  Bool, false, not, ◌&&◌, Option, none, some, List, [], ◌∷◌, ◌++◌, if◌then◌else◌, nat_eq, list_eq,
  pair_eq, triple_eq, keep, contains, sort, text_leb,
}
use lanorme.Text.{Text, codes, join}
use lanorme.FilePath.{FilePath, FileSystem}
use lanorme.Check.{Result, ok, err, ◌>>=◌, prefixed_table, invalid_toml, unknown_keys, crashed}
use lanorme.Config.{Value, Table, table, get, table_keys}
use lanorme.Checkconfig.{run_keys}

-- The files of a tree as TOML: `none` where a file does not parse.
pub record ConfigFiles : Type 0 where
  pub fs : FileSystem
  pub parse_toml : FilePath → Option Table

-- Keys in sorted order that are neither run keys nor names of checks.
unfoldable pub unknown_top_level : List Text → Table → List Text
unknown_top_level checks config =
    sort text_leb
      (keep (λ k. not (contains run_keys k) && not (contains checks k)) (table_keys config))

unfoldable pub refuse_keys : Text → List Text → Result (Unit {0})
refuse_keys origin [] = ok tt
refuse_keys origin (k ∷ keys) = err (unknown_keys origin (k ∷ keys))

unfoldable pub reject_unknown_top_level_keys : List Text → Table → Text → Result (Unit {0})
unfolding refuse_keys unknown_top_level
reject_unknown_top_level_keys checks config origin =
    refuse_keys origin (unknown_top_level checks config)

-- A `[tool.lanorme]` table, as `_reject_prefixed_table` looks for it.
has_prefixed_table : Option Value → Bool
has_prefixed_table (some (table tool)) = contains (table_keys tool) (codes "lanorme")
has_prefixed_table _ = false

unfoldable pub reject_prefixed_table : FilePath → Table → Result (Unit {0})
unfolding has_prefixed_table
reject_prefixed_table path config =
    if has_prefixed_table (get (codes "tool") config) then err (prefixed_table path) else ok tt

-- `.get("tool", {}).get("lanorme")` where it is a table; any other value has no `get` to call.
tool_table : Option Value → Result (Option Table)
tool_table none = ok none
tool_table (some (table tool)) = elim (get (codes "lanorme") tool) [
  | some (table config) ↦ ok (some config)
  | _ ↦ ok none
]
tool_table (some _) = err (crashed (codes "AttributeError"))

-- `str(path)` of an absolute path.
unfoldable pub path_text : FilePath → Text
path_text path = codes "/" ++ join (codes "/") path

module _ (files : ConfigFiles) where
  open files use {fs, parse_toml}

  unfoldable pub read_toml : FilePath → Result Table
  read_toml path = elim (parse_toml path) [ none ↦ err (invalid_toml path) | some t ↦ ok t ]

  -- `find_dedicated_config`
  unfoldable pub find_dedicated_config : FilePath → Option FilePath
  find_dedicated_config dir =
      if fs.is_file (dir ++ codes "lanorme.toml" ∷ [])
      then some (dir ++ codes "lanorme.toml" ∷ [])
      else if fs.is_file (dir ++ codes ".lanorme.toml" ∷ [])
      then some (dir ++ codes ".lanorme.toml" ∷ [])
      else none

  unfoldable pub load_lanorme_config : FilePath → Result (Option Table)
  unfolding read_toml find_dedicated_config reject_prefixed_table tool_table
  load_lanorme_config dir = elim (find_dedicated_config dir) [
    | some dedicated ↦
        read_toml dedicated
        >>= (λ config. reject_prefixed_table dedicated config >>= (λ _. ok (some config)))
    | none ↦
        if fs.is_file (dir ++ codes "pyproject.toml" ∷ [])
        then read_toml (dir ++ codes "pyproject.toml" ∷ [])
          >>= (λ config. tool_table (get (codes "tool") config))
        else ok none
  ]

  unfoldable pub label_config : FilePath → Text
  unfolding find_dedicated_config path_text
  label_config dir = elim (find_dedicated_config dir) [
    | some dedicated ↦ path_text dedicated
    | none ↦ path_text (dir ++ codes "pyproject.toml" ∷ []) ++ codes " [tool.lanorme]"
  ]
