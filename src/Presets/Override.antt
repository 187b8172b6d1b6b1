-- ===== src/Presets/Override.antt =====
-- What a config keeps of its own when it extends profiles.
use lanorme.Prelude.{
  ◌≡◌, sym, ap, ◌∙◌, ◌⊎◌, inl, inr, true, false, ◌||◌, Option, none, some, List, [], ◌∷◌, arith,
  if◌then◌else◌, Bool-cases, Option-cases, ◌==◌, eq_iff, nat_eq, list_eq, pair_eq, triple_eq,
  contains,
}
use lanorme.Text.{Text, codes, ends_with}
use lanorme.FilePath.{FilePath, join_path}
use lanorme.Check.{ok, ◌>>=◌, went_on}
use lanorme.Config.{Value, Table, end, entry, get, merge_config, is_truthy, without}
use lanorme.Config.Files.{ConfigFiles, read_toml}
use lanorme.Config.Merge.{IsDict, merged_entry, get-merge_config}
use lanorme.Presets.{resolve_extends, fold_profiles, extended_names, load_profile}

table_same : {a b : Table} → ok a ≡ ok b → a ≡ b
table_same h = cc

get-without : (k j : Text) (t : Table) → get j (without k t) ≡ (if k == j then none else get j t)
unfolding get without
get-without k j end = ground arith
get-without k j (entry i v t) =
    ground (arith, eq_iff i k, eq_iff i j, eq_iff k j, get-without k j t)

IsDict-without : (k : Text) (t : Table) → IsDict t → IsDict (without k t)
unfolding without
IsDict-without k end d = tt
IsDict-without k (entry i v t) (new, d) = elim (Bool-cases (i == k)) [
  | inl same ↦ rw same (IsDict-without k t d)
  | inr other ↦
      rw other
        (ground (arith, get-without k i t, eq_iff i k, eq_iff k i, new), IsDict-without k t d)
]

module _ (files : ConfigFiles) (bundled : Text → Option FilePath) (project_root : FilePath) where
  -- What a table holds under a key other than `extends`, and nothing under that.
  abbrev pub own_value : Text → Table → Option Value
  own_value key t = if codes "extends" == key then none else get key t

  -- The profiles of the names, one merged over the other from the left, each without its `extends`.
  abbrev pub IsMerged : List Text → Table → Table → Type 0
  IsMerged [] base merged = base ≡ merged
  IsMerged (name ∷ names) base merged =
      (profile : Table) × (next : Table) × (load_profile files bundled name project_root
        ≡ ok profile)
      × ((key : Text) → get key next ≡ merged_entry (get key base) (own_value key profile))
      × IsMerged names next merged

  -- No table that the TOML parser gives has a key twice.
  abbrev pub HasDicts : Type 0
  HasDicts = (path : FilePath) (t : Table) → files.parse_toml path ≡ some t → IsDict t

  module _ (distinct : HasDicts) where
    read_toml-IsDict : (path : FilePath) (t : Table) → read_toml files path ≡ ok t → IsDict t
    unfolding read_toml
    read_toml-IsDict path t h = elim (Option-cases (files.parse_toml path)) [
      | inl e ↦ let h' = rw (read_toml, e) at h in cc
      | inr (read, e) ↦ distinct path t (e ∙ ap some (table_same (rw (read_toml, e) at h)))
    ]

    load_profile-IsDict :
        (name : Text) (t : Table) → load_profile files bundled name project_root ≡ ok t → IsDict t
    unfolding load_profile
    load_profile-IsDict name t h =
        elim (Bool-cases (ends_with name (codes ".toml") || contains name b'/')) [
          | inl at_path ↦
              let path = files.fs.resolve (join_path project_root name) in
              elim (Bool-cases (files.fs.is_file path)) [
                | inl there ↦ read_toml-IsDict path t (rw (load_profile, at_path, there) at h)
                | inr away ↦ let h' = rw (load_profile, at_path, away) at h in cc
              ]
          | inr named ↦ elim (Option-cases (bundled name)) [
            | inl e ↦ let h' = rw (load_profile, named, e) at h in cc
            | inr (path, e) ↦ read_toml-IsDict path t (rw (load_profile, named, e) at h)
          ]
        ]

    fold_profiles-IsMerged :
        (names : List Text) (base merged : Table)
        → fold_profiles files bundled project_root names base ≡ ok merged
        → IsMerged names base merged
    unfolding fold_profiles
    fold_profiles-IsMerged [] base merged h = table_same h
    fold_profiles-IsMerged (name ∷ names) base merged h =
        let (profile, rest, loaded) =
          went_on
            (λ profile.
              fold_profiles files bundled project_root names
                (merge_config base (without (codes "extends") profile)))
            (load_profile files bundled name project_root) h in
        let next = merge_config base (without (codes "extends") profile) in
        (
          profile,
          next,
          loaded,
          (λ key.
              get-merge_config key base (without (codes "extends") profile)
                (IsDict-without (codes "extends") profile (load_profile-IsDict name profile loaded))
              ∙ ap (merged_entry (get key base)) (get-without (codes "extends") key profile)),
          fold_profiles-IsMerged names next merged rest,
        )

    -- Where neither the config nor a table that the parser gives has a key twice, and the profiles
    -- are resolved: without a set `extends` the config stays as it is. Else its profiles are loaded
    -- and merged from the left, each without an `extends` of its own, and under every key but
    -- `extends` the config's own value goes over theirs: a table merged into a table, any other in
    -- the place of theirs.
    pub get-resolve_extends :
        (config resolved : Table)
        → IsDict config
        → resolve_extends files bundled config project_root ≡ ok resolved
        → ((is_truthy (get (codes "extends") config) ≡ false) × (resolved ≡ config))
          ⊎ ((names : List Text) × (base : Table) × (is_truthy (get (codes "extends") config)
                ≡ true)
              × (extended_names (get (codes "extends") config) ≡ ok names)
              × IsMerged names end base
              × ((key : Text)
                  → get key resolved ≡ merged_entry (get key base) (own_value key config)))
    unfolding resolve_extends
    get-resolve_extends config resolved d h =
        elim (Bool-cases (is_truthy (get (codes "extends") config))) [
          | inr unset ↦ inl (unset, sym (table_same (rw (resolve_extends, unset) at h)))
          | inl extends ↦
              let (names, after_names, listed) =
                went_on
                  (λ names.
                    fold_profiles files bundled project_root names end
                    >>= (λ base. ok (merge_config base (without (codes "extends") config))))
                  (extended_names (get (codes "extends") config))
                  (rw (resolve_extends, extends) at h) in
              let (base, last, folded) =
                went_on (λ base. ok (merge_config base (without (codes "extends") config)))
                  (fold_profiles files bundled project_root names end) after_names in
              inr (
                names,
                base,
                extends,
                listed,
                fold_profiles-IsMerged names end base folded,
                λ key.
                    ap (get key) (sym (table_same last))
                    ∙ (get-merge_config key base (without (codes "extends") config)
                          (IsDict-without (codes "extends") config d)
                        ∙ ap (merged_entry (get key base))
                            (get-without (codes "extends") key config)),
              )
        ]
