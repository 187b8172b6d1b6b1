-- ===== src/Config.antt =====
-- TOML values as Python reads them, and `merge_config` of lanorme/regions.py.
pub mod Files
pub mod Keys
pub mod Merge
use lanorme.Prelude.{
  ℕ, zero, suc, ◌+◌, ◌-◌, ◌*◌, ◌≤◌, ◌<◌, min, String, ◌≡◌, refl, sym, ap, ap₂, ◌∙◌, subst, fun_ext,
  ◌≢◌, ◌↔◌, ◌⊎◌, inl, inr, Bool, true, false, not, ◌&&◌, ◌||◌, false≢true, Option, none, some, List,
  [], ◌∷◌, ◌++◌, map, append-nil, append_assoc, arith, ltb, leb, if◌then◌else◌, tests, Bool-cases,
  Option-cases, Eq, ◌==◌, eq_iff, eq_refl, nat_eq, list_eq, pair_eq, triple_eq, length, keep, any,
  all, count_if, contains, flat_map, length-append, keep-append, keep-keep, count_if-append,
  length-keep-le, length-keep_add, any-append, any-map, length-map, take, drop, get_elem?, Among,
  first, later, any_of_Among, Among-of_any, all_of_Among, contains_of_Among, Among-of_contains,
  Among-append_left, Among-cons, Among-of_keep, Among-of_sort, Among-keep, Among-append_right,
  Among-map, Among-flat_map, Among-of_map, Among-of_append, Among-of_flat_map, reverse,
  Among-reverse, Among-of_reverse, length-reverse, sort, Among-sort, count_if-sort, any-sort,
  sum_by, sum_by-sort, text_leb,
}
use lanorme.Text.{
  Text, codes, is_space, is_upper, is_digit, is_alnum, upper_char, upper, lstrip, rstrip, strip,
  before, after, words, split, join, starts_with, ends_with, forward_slashes, decimal, base_name,
  dir_name,
}

-- A table is a dict in insertion order. Floats and dates are values that no code here looks into.
mutual
  pub data Value : Type 0 where
    text : Text → Value
    int : ℕ → Value
    bool : Bool → Value
    list : Values → Value
    table : Table → Value
    other : Value

  pub data Values : Type 0 where
    nil : Values
    cons : Value → Values → Values

  pub data Table : Type 0 where
    end : Table
    entry : Text → Value → Table → Table

-- `config.get(key)`
unfoldable pub get : Text → Table → Option Value
get key end = none
get key (entry k v t) = if k == key then some v else get key t

-- `config[key] = value`
unfoldable pub put : Text → Value → Table → Table
put key value end = entry key value end
put key value (entry k v t) = if k == key then entry k value t else entry k v (put key value t)

-- `bool(value)`, with a list or table true if it has an item
unfoldable pub is_truthy : Option Value → Bool
is_truthy none = false
is_truthy (some (text [])) = false
is_truthy (some (text (_ ∷ _))) = true
is_truthy (some (int zero)) = false
is_truthy (some (int (suc _))) = true
is_truthy (some (bool b)) = b
is_truthy (some (list nil)) = false
is_truthy (some (list (cons _ _))) = true
is_truthy (some (table end)) = false
is_truthy (some (table (entry _ _ _))) = true
is_truthy (some other) = true

-- The keys of a table.
unfoldable pub table_keys : Table → List Text
table_keys end = []
table_keys (entry k v t) = k ∷ table_keys t

-- `{k: v for k, v in config.items() if k != key}`
unfoldable pub without : Text → Table → Table
without key end = end
without key (entry k v t) = let rest = without key t in if k == key then rest else entry k v rest

unfoldable mutual
  pub merge_config : Table → Table → Table
  merge_config base end = base
  merge_config base (entry key value override) =
      merge_config (put key (override_value (get key base) value) base) override

  -- What `override` leaves under a key: two tables merge, any other value replaces.
  pub override_value : Option Value → Value → Value
  override_value (some (table existing)) (table t) = table (merge_config existing t)
  override_value _ v = v
