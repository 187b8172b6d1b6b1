-- ===== src/Regions/WalkUp.antt =====
-- lanorme/regions.py: the configuration in force at a path, folded on the way up.
use lanorme.Prelude.{
  true, false, Option, none, some, List, [], ◌∷◌, ◌++◌, map, if◌then◌else◌, nat_eq, list_eq,
  pair_eq, triple_eq, reverse,
}
use lanorme.Text.{Text, codes, join}
use lanorme.FilePath.{FilePath}
use lanorme.Check.{Result, ok, ◌>>=◌}
use lanorme.Config.{Value, Table, end, get, merge_config, is_truthy}
use lanorme.Config.Files.{ConfigFiles, load_lanorme_config, label_config}
use lanorme.Regions.{strip_root}

pub record DiscoveredConfig : Type 0 where
  pub config : Table
  pub project_root : FilePath
  pub source : Option Text
  pub extends : Option Value

-- `chain[-1]`
outermost : List (FilePath × Table) → Option (FilePath × Table)
outermost [] = none
outermost (c ∷ []) = some c
outermost (c ∷ d ∷ chain) = outermost (d ∷ chain)

source_label : List Text → Option Text
source_label [] = none
source_label (label ∷ []) = some label
source_label (label ∷ inner ∷ labels) =
    some (label ++ (codes " (+ nested: " ++ (join (codes ", ") (inner ∷ labels) ++ codes ")")))

-- `path.parent`, the root its own.
parent : FilePath → FilePath
parent [] = []
parent (p ∷ []) = []
parent (p ∷ q ∷ path) = p ∷ parent (q ∷ path)

-- `(path, *path.parents)`
self_and_parents : FilePath → List FilePath
self_and_parents [] = [] ∷ []
self_and_parents (p ∷ path) = map (◌∷◌ p) (self_and_parents path) ++ ([] ∷ [])

module _ (files : ConfigFiles) where
  open files use {fs}

  -- `discover_config` collects the configs from the inside out, up to one that is a root.
  unfoldable pub collect_configs : List FilePath → Result (List (FilePath × Table))
  unfolding load_lanorme_config
  collect_configs [] = ok []
  collect_configs (dir ∷ dirs) =
      let outer = collect_configs dirs in
      load_lanorme_config files dir >>= (λ found. elim found [
        | none ↦ outer
        | some config ↦ elim (is_truthy (get (codes "root") config)) [
          | true ↦ ok ((dir, config) ∷ [])
          | false ↦ outer >>= (λ rest. ok ((dir, config) ∷ rest))
        ]
      ])

  -- The fold from the outermost config inwards; the chain is innermost first.
  unfoldable pub fold_configs :
      (Table → FilePath → Result Table) → List (FilePath × Table) → Result Table
  unfolding strip_root
  fold_configs extend [] = ok end
  fold_configs extend ((dir, config) ∷ outer) =
      fold_configs extend outer
      >>= (λ base. extend config dir >>= (λ resolved. ok (merge_config base (strip_root resolved))))

  found_config : FilePath → List (FilePath × Table) → Table → DiscoveredConfig
  unfolding outermost source_label label_config
  found_config start chain merged = record {
    config = merged;
    project_root = elim (outermost chain) [ none ↦ start | some (dir, _) ↦ dir ];
    source = source_label (reverse (map (λ (dir, _). label_config files dir) chain));
    extends = elim (outermost chain) [ none ↦ none | some (_, c) ↦ get (codes "extends") c ];
  }

  unfoldable pub discover_config :
      (Table → FilePath → Result Table) → FilePath → Result DiscoveredConfig
  unfolding found_config collect_configs fold_configs self_and_parents parent
  discover_config extend start =
      let here = fs.resolve start in
      let search = if fs.is_dir here then here else parent here in
      collect_configs (self_and_parents search)
      >>= (λ chain. fold_configs extend chain >>= (λ merged. ok (found_config search chain merged)))
