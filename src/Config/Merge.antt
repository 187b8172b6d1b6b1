-- ===== src/Config/Merge.antt =====
-- What a merged config holds under each key.
use lanorme.Prelude.{
  ◌≡◌, refl, Option, none, some, arith, if◌then◌else◌, ◌==◌, eq_iff, nat_eq, list_eq, pair_eq,
  triple_eq,
}
use lanorme.Text.{Text}
use lanorme.Config.{
  Value, text, int, bool, list, table, other, Table, end, entry, get, put, merge_config,
  override_value,
}

pub get-put :
    (k j : Text) (v : Value) (t : Table) → get j (put k v t) ≡ (if k == j then some v else get j t)
unfolding get put
get-put k j v end = refl
get-put k j v (entry i w t) = ground (arith, eq_iff k j, eq_iff i k, eq_iff i j, get-put k j v t)

-- The keys of a table are all different, as those of a dict are.
abbrev pub IsDict : Table → Type 0
IsDict end = Unit
IsDict (entry k v t) = (get k t ≡ none) × IsDict t

-- What a key holds where the override sets a value over the base's: a table is merged into a table,
-- and any other value replaces.
abbrev pub merged_value : Value → Option Value → Value
merged_value (table t) (some (table b)) = table (merge_config b t)
merged_value v _ = v

abbrev pub merged_entry : Option Value → Option Value → Option Value
merged_entry base none = base
merged_entry base (some v) = some (merged_value v base)

override_value-merged :
    (base : Option Value) (v : Value) → override_value base v ≡ merged_value v base
unfolding override_value
override_value-merged none (text _) = refl
override_value-merged none (int _) = refl
override_value-merged none (bool _) = refl
override_value-merged none (list _) = refl
override_value-merged none other = refl
override_value-merged none (table t) = refl
override_value-merged (some (text s)) (text _) = refl
override_value-merged (some (text s)) (int _) = refl
override_value-merged (some (text s)) (bool _) = refl
override_value-merged (some (text s)) (list _) = refl
override_value-merged (some (text s)) other = refl
override_value-merged (some (text s)) (table t) = refl
override_value-merged (some (int n)) (text _) = refl
override_value-merged (some (int n)) (int _) = refl
override_value-merged (some (int n)) (bool _) = refl
override_value-merged (some (int n)) (list _) = refl
override_value-merged (some (int n)) other = refl
override_value-merged (some (int n)) (table t) = refl
override_value-merged (some (bool x)) (text _) = refl
override_value-merged (some (bool x)) (int _) = refl
override_value-merged (some (bool x)) (bool _) = refl
override_value-merged (some (bool x)) (list _) = refl
override_value-merged (some (bool x)) other = refl
override_value-merged (some (bool x)) (table t) = refl
override_value-merged (some (list vs)) (text _) = refl
override_value-merged (some (list vs)) (int _) = refl
override_value-merged (some (list vs)) (bool _) = refl
override_value-merged (some (list vs)) (list _) = refl
override_value-merged (some (list vs)) other = refl
override_value-merged (some (list vs)) (table t) = refl
override_value-merged (some other) (text _) = refl
override_value-merged (some other) (int _) = refl
override_value-merged (some other) (bool _) = refl
override_value-merged (some other) (list _) = refl
override_value-merged (some other) other = refl
override_value-merged (some other) (table t) = refl
override_value-merged (some (table b)) (text _) = refl
override_value-merged (some (table b)) (int _) = refl
override_value-merged (some (table b)) (bool _) = refl
override_value-merged (some (table b)) (list _) = refl
override_value-merged (some (table b)) other = refl
override_value-merged (some (table b)) (table t) = refl

-- Where the override has no key twice: under each key a merged config holds what the override sets,
-- and what the base sets where the override is silent; where both set a table, the two merged.
pub get-merge_config :
    (key : Text) (base override : Table)
    → IsDict override
    → get key (merge_config base override) ≡ merged_entry (get key base) (get key override)
unfolding get merge_config
get-merge_config key base end d = refl
get-merge_config key base (entry k v t) (new, d) =
    let merged : Table = put k (override_value (get k base) v) base in
    ground (
      arith,
      get-merge_config key merged t d,
      get-put k key (override_value (get k base) v) base,
      override_value-merged (get k base) v,
      eq_iff k key,
      new,
    )
