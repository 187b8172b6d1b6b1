-- ===== src/Checkconfig/Readers.antt =====
-- What the settings table of a check holds, and which copies a run gets.
use lanorme.Prelude.{
  ◌≡◌, sym, ap, ◌∙◌, inl, inr, none, some, List, [], ◌∷◌, map, arith, Bool-cases, Option-cases,
  eq_iff, nat_eq, list_eq, pair_eq, triple_eq, contains,
}
use lanorme.Text.{Text, codes}
use lanorme.Prelude.Dict.{Dict}
use lanorme.Check.{went_on, ok, ◌>>=◌, CheckApi}
use lanorme.Config.{Value, Table, table, get, put}
use lanorme.Config.Merge.{get-put}
use lanorme.Checkconfig.{
  mirror_setting, source_root_of, source_root_checks, mirror_settings, owned_value, section_of,
  with_source_root, build_settings, mirrored_settings, ConfigureApi, configure_one,
  configure_checks,
}

get-put_other :
    (k j : Text) (v w : Value) (t : Table)
    → get k t ≡ none
    → get j t ≡ some w
    → get j (put k v t) ≡ some w
get-put_other k j v w t absent h = ground (arith, get-put k j v t, eq_iff k j, absent, h)

mirror_setting-get :
    (owner owner_key key : Text) (config settings : Table) (j : Text) (w : Value)
    → get j settings ≡ some w
    → get j (mirror_setting owner owner_key key config settings) ≡ some w
unfolding mirror_setting
mirror_setting-get owner owner_key key config settings j w h =
    elim (Option-cases (get key settings)) [
      | inr (_, found) ↦ rw (mirror_setting, found) h
      | inl absent ↦ elim (Option-cases (owned_value (get owner config) owner_key)) [
        | inl unowned ↦ rw (mirror_setting, absent, unowned) h
        | inr (v, owned) ↦
            rw (mirror_setting, absent, owned) (get-put_other key j v w settings absent h)
      ]
    ]

mirror_settings-get :
    (mirrored : List (Text × (Text × Text))) (config settings : Table) (j : Text) (w : Value)
    → get j settings ≡ some w
    → get j (mirror_settings mirrored config settings) ≡ some w
unfolding mirror_settings
mirror_settings-get [] config settings j w h = h
mirror_settings-get ((owner, (owner_key, key)) ∷ mirrored) config settings j w h =
    mirror_settings-get mirrored config (mirror_setting owner owner_key key config settings) j w
      (mirror_setting-get owner owner_key key config settings j w h)

with_source_root-get :
    (name : Text) (config settings : Table) (j : Text) (w : Value)
    → get j settings ≡ some w
    → get j (with_source_root name config settings) ≡ some w
unfolding with_source_root
with_source_root-get name config settings j w h =
    elim (Bool-cases (contains source_root_checks name)) [
      | inr outside ↦ rw outside h
      | inl layout ↦ elim (Option-cases (source_root_of (get (codes "source_root") config))) [
        | inl unset ↦ rw (layout, unset) h
        | inr (root, set) ↦ elim (Option-cases (get (codes "source_root") settings)) [
          | inr (_, own) ↦ rw (layout, set, own) h
          | inl absent ↦
              rw (layout, set, absent)
                (get-put_other (codes "source_root") j root w settings absent h)
        ]
      ]
    ]

-- Whatever a check's own table sets, its settings hold: neither the top-level `source_root` nor a
-- mirrored key replaces it.
pub get-build_settings :
    (name : Text) (config section : Table) (key : Text) (v : Value)
    → get name config ≡ some (table section)
    → get key section ≡ some v
    → get key (build_settings name config) ≡ some v
unfolding build_settings
get-build_settings name config section key v h k =
    mirror_settings-get (mirrored_settings name) config
      (with_source_root name config (section_of (get name config))) key v
      (with_source_root-get name config (section_of (get name config)) key v (rw h k))

-- Each template has its own copy in the result, under its name and in its order.
pub configure_checks-names :
    (api : CheckApi) (conf : ConfigureApi api) (templates : Dict Text api.Check) (config : Table)
    (configured : Dict Text api.Check)
    → configure_checks api conf templates config ≡ ok configured
    → map (λ (name, _). name) configured ≡ map (λ (name, _). name) templates
unfolding configure_checks
configure_checks-names api conf [] config configured h = cc
configure_checks-names api conf ((name, template) ∷ templates) config configured h =
    let (check, rest_h, _) =
      went_on
        (λ check.
          configure_checks api conf templates config >>= (λ rest. ok ((name, check) ∷ rest)))
        (configure_one api conf name template config) h in
    let (rest, last, e) =
      went_on (λ rest. ok ((name, check) ∷ rest)) (configure_checks api conf templates config)
        rest_h in
    let same : (name, check) ∷ rest ≡ configured = cc in
    sym (ap (map (λ (n, _). n)) same)
    ∙ ap (◌∷◌ name) (configure_checks-names api conf templates config rest e)
