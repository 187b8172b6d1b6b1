-- ===== src/ModuleGraph.antt =====
-- lanorme/module_graph.py: the modules of a tree, their import edges, and the questions asked of
-- them. A frozenset is a list in the order that it is iterated in.
pub mod Names
pub mod Build
pub mod Search
pub mod Reexport
pub mod Reach
pub mod Cycles
use lanorme.Prelude.{
  ℕ, zero, suc, ◌+◌, ◌-◌, ◌*◌, ◌≤◌, ◌<◌, min, String, ◌≡◌, refl, sym, ap, ap₂, ◌∙◌, subst, fun_ext,
  ◌≢◌, ◌↔◌, ◌⊎◌, inl, inr, Bool, true, false, not, ◌&&◌, ◌||◌, false≢true, Option, none, some, List,
  [], ◌∷◌, ◌++◌, map, append-nil, append_assoc, arith, ltb, leb, if◌then◌else◌, tests, Bool-cases,
  Option-cases, Eq, ◌==◌, eq_iff, eq_refl, nat_eq, list_eq, pair_eq, triple_eq, length, keep, any,
  all, count_if, contains, flat_map, length-append, keep-append, keep-keep, count_if-append,
  length-keep-le, length-keep_add, any-append, any-map, length-map, take, drop, get_elem?, Among,
  first, later, any_of_Among, Among-of_any, all_of_Among, contains_of_Among, Among-of_contains,
  Among-append_left, Among-cons, Among-of_keep, Among-of_sort, Among-keep, Among-append_right,
  Among-map, Among-flat_map, Among-of_map, Among-of_append, Among-of_flat_map, reverse,
  Among-reverse, Among-of_reverse, length-reverse, sort, Among-sort, count_if-sort, any-sort,
  sum_by, sum_by-sort, text_leb,
}
use lanorme.Text.{
  Text, codes, is_space, is_upper, is_digit, is_alnum, upper_char, upper, lstrip, rstrip, strip,
  before, after, words, split, join, starts_with, ends_with, forward_slashes, decimal, base_name,
  dir_name,
}
use lanorme.Prelude.Dict.{Dict, lookup}
use lanorme.ModuleGraph.Search.{Verdict, hit, skip, follow, explore}

-- `PACKAGE_FILE`
unfoldable pub package_file : Text
package_file = codes "__init__.py"

pub record ModuleNode : Type 0 where
  pub relative : Text
  pub root : Text
  pub dotted : Text
  pub is_package : Bool

pub record ModuleGraph : Type 0 where
  pub nodes : Dict Text ModuleNode
  pub packages : List Text
  pub importers : Dict Text (List Text)
  pub imports : Dict Text (List Text)

-- `table.get(key, ())` of a dict of sets.
unfoldable pub items_at : Dict Text (List Text) → Text → List Text
items_at table key = elim (lookup key table) [ none ↦ [] | some items ↦ items ]

-- Every module that some module imports, so that each module but the first comes from here.
unfoldable pub all_items : Dict Text (List Text) → List Text
all_items table = flat_map (λ (_, items). items) table

is_found : {A : Type 0} → Option A → Bool
is_found none = false
is_found (some _) = true

unfoldable pub goal_verdict : Text → Text → Verdict
goal_verdict goal target = if target == goal then hit else follow

module _ (graph : ModuleGraph) where
  open graph use {importers, imports}

  unfoldable pub find_importers : Text → List Text
  unfolding items_at
  find_importers relative = items_at importers relative

  -- The loop runs once for each module that is ever put on the stack.
  unfoldable pub can_reach : Text → Text → Bool
  unfolding is_found
  can_reach start goal = is_found (
      explore (goal_verdict goal) (items_at imports) (suc (length (all_items imports))) (start ∷ [])
        ((start, tt {0}) ∷ []))

  unfoldable pub is_harmless_to_reach : Text → Text → Bool
  is_harmless_to_reach member reached =
      if ends_with reached (codes "/" ++ package_file) && items_at imports reached == []
      then true
      else can_reach reached member

  -- What the loop of `_find_outside_path` does at a target.
  unfoldable pub outside_verdict : Text → List Text → Text → Verdict
  outside_verdict member group target =
      if contains group target
      then if is_harmless_to_reach member target then skip else hit
      else follow

  unfoldable pub first_outside : Text → List Text → List Text
  first_outside member group = keep (λ t. not (contains group t)) (items_at imports member)

  unfoldable pub find_outside_path : Text → List Text → Option Text
  find_outside_path member group =
      let first = first_outside member group in
      explore (outside_verdict member group) (items_at imports)
        (length (all_items imports) + length first) first (reverse (map (λ t. (t, t)) first))

  -- The first module found, member by member.
  unfoldable pub find_cycle_from : List Text → List Text → Option Text
  find_cycle_from group [] = none
  find_cycle_from group (member ∷ members) =
      let rest = find_cycle_from group members in
      elim (find_outside_path member group) [ none ↦ rest | some found ↦ some found ]

  unfoldable pub find_cycle_through : List Text → Option Text
  unfolding find_cycle_from
  find_cycle_through group = find_cycle_from group (sort text_leb group)
