-- ===== src/ShallowModules/Settings.antt =====
-- lanorme/checks/shallow_modules.py: the settings of the check.
use lanorme.Prelude.{
  ℕ, ◌*◌, min, Bool, false, List, [], ◌∷◌, ltb, if◌then◌else◌, ◌==◌, nat_eq, list_eq, pair_eq,
  triple_eq, reverse,
}
use lanorme.Text.{Text, codes, forward_slashes}
use Prim.Native.Nat.{◌/◌}
use lanorme.Config.{Table}
use lanorme.Checkconfig.{
  Setting, value, mistyped, is_flag_set, read_int, read_str, read_str_list, Configured, applied,
  rejected,
}

-- The settings of `ShallowModulesCheck`.
pub record ShallowSettings : Type 0 where
  pub enabled : Bool
  pub min_modules : ℕ
  pub file_warn_lines : ℕ
  pub file_error_lines : ℕ
  pub layers : List Text
  pub layer_composition_root : List Text
  pub ports_dir : Text
  pub adapter_roots : List Text
  pub port_composition_root : List Text

-- The fields' defaults, with the constants of other checks that they name.
unfoldable pub default_settings : ShallowSettings
default_settings = record {
  enabled = false;
  min_modules = 3;
  file_warn_lines = 300;
  file_error_lines = 500;
  layers = codes "domain" ∷ codes "application" ∷ codes "infrastructure" ∷ codes "api" ∷ [];
  layer_composition_root =
      codes "api/dependencies/**"
      ∷ codes "api/dependencies.py"
      ∷ codes "api/deps.py"
      ∷ codes "api/v1/dependencies/**"
      ∷ codes "api/v1/dependencies.py"
      ∷ codes "api/v1/deps.py"
      ∷ codes "api/v1/main.py"
      ∷ [];
  ports_dir = codes "application/ports";
  adapter_roots = codes "infrastructure/services" ∷ [];
  port_composition_root =
      codes "*dependencies/*"
      ∷ codes "*dependencies.py"
      ∷ codes "*deps.py"
      ∷ codes "*v1/main.py"
      ∷ [];
}

drop_slashes : Text → Text
drop_slashes [] = []
drop_slashes (c ∷ s) = let rest = drop_slashes s in if c == b'/' then rest else c ∷ s

-- `s.strip("/")`
strip_slashes : Text → Text
unfolding drop_slashes
strip_slashes s = reverse (drop_slashes (reverse (drop_slashes s)))

-- A reader's value goes on; a mistyped one is a `TypeError`.
with_setting {ℓ} :
    {A : Type ℓ} → Setting A → (A → Configured ShallowSettings) → Configured ShallowSettings
with_setting (value a) rest = rest a
with_setting (mistyped key) rest = rejected

non_empty : List Text → List Text → List Text
non_empty [] default = default
non_empty (s ∷ ss) default = s ∷ ss

-- `ShallowModulesCheck.configure`
unfoldable pub configure_shallow : Table → ShallowSettings → Configured ShallowSettings
unfolding with_setting strip_slashes non_empty
configure_shallow settings check =
    with_setting (is_flag_set settings (codes "enabled") check.enabled) (λ enabled.
      with_setting (read_int settings (codes "min_modules") check.min_modules) (λ min_modules.
        if ltb min_modules 2
        then rejected
        else with_setting (read_int settings (codes "file_warn_lines") check.file_warn_lines)
            (λ warn_lines.
              with_setting (read_int settings (codes "file_error_lines") check.file_error_lines)
                (λ error_lines.
                  with_setting
                    (read_str_list settings (codes "layer_composition_root")
                      check.layer_composition_root)
                    (λ layer_roots.
                      with_setting (read_str settings (codes "ports_dir") []) (λ ports_dir.
                        with_setting (read_str_list settings (codes "layers") check.layers)
                          (λ layers.
                            with_setting
                              (read_str_list settings (codes "adapter_roots") check.adapter_roots)
                              (λ adapters.
                                with_setting
                                  (read_str_list settings (codes "port_composition_root")
                                    check.port_composition_root)
                                  (λ port_roots. applied (record {
                                    enabled = enabled;
                                    min_modules = min_modules;
                                    file_warn_lines = warn_lines;
                                    file_error_lines = error_lines;
                                    layers = non_empty layers check.layers;
                                    layer_composition_root = layer_roots;
                                    ports_dir =
                                        if ports_dir == []
                                        then check.ports_dir
                                        else strip_slashes (forward_slashes ports_dir);
                                    adapter_roots = non_empty adapters check.adapter_roots;
                                    port_composition_root =
                                        non_empty port_roots check.port_composition_root;
                                  }))))))))))

unfoldable pub merge_budget : ShallowSettings → ℕ
merge_budget settings = 2 * min settings.file_warn_lines settings.file_error_lines / 3
