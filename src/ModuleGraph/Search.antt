-- ===== src/ModuleGraph/Search.antt =====
-- The depth-first loop that `can_reach` and `_find_outside_path` of lanorme/module_graph.py share:
-- a stack of modules, each with a label, and the modules that were ever put on it.
pub mod Laws
pub mod Rounds
use lanorme.Prelude.{
  ℕ, zero, suc, ◌+◌, ◌-◌, ◌*◌, ◌≤◌, ◌<◌, min, String, ◌≡◌, refl, sym, ap, ap₂, ◌∙◌, subst, fun_ext,
  ◌≢◌, ◌↔◌, ◌⊎◌, inl, inr, Bool, true, false, not, ◌&&◌, ◌||◌, false≢true, Option, none, some, List,
  [], ◌∷◌, ◌++◌, map, append-nil, append_assoc, arith, ltb, leb, if◌then◌else◌, tests, Bool-cases,
  Option-cases, Eq, ◌==◌, eq_iff, eq_refl, nat_eq, list_eq, pair_eq, triple_eq, length, keep, any,
  all, count_if, contains, flat_map, length-append, keep-append, keep-keep, count_if-append,
  length-keep-le, length-keep_add, any-append, any-map, length-map, take, drop, get_elem?, Among,
  first, later, any_of_Among, Among-of_any, all_of_Among, contains_of_Among, Among-of_contains,
  Among-append_left, Among-cons, Among-of_keep, Among-of_sort, Among-keep, Among-append_right,
  Among-map, Among-flat_map, Among-of_map, Among-of_append, Among-of_flat_map, reverse,
  Among-reverse, Among-of_reverse, length-reverse, sort, Among-sort, count_if-sort, any-sort,
  sum_by, sum_by-sort, text_leb,
}
use lanorme.Text.{
  Text, codes, is_space, is_upper, is_digit, is_alnum, upper_char, upper, lstrip, rstrip, strip,
  before, after, words, split, join, starts_with, ends_with, forward_slashes, decimal, base_name,
  dir_name,
}

-- What the loop does at a target: stop, pass it over, or put it on the stack if it is new.
pub data Verdict : Type 0 where
  hit skip follow : Verdict

pub data Progress {ℓ} (V : Type ℓ) : Type ℓ where
  stopped : V → Progress V
  going : List Text → List (Text × V) → Progress V

module _ {ℓ} {V : Type ℓ} (judge : Text → Verdict) where
  -- The inner loop over the targets of one module; new ones take that module's label.
  unfoldable pub offer : V → List Text → List Text → List (Text × V) → Progress V
  offer label [] seen stack = going seen stack
  offer label (t ∷ ts) seen stack = elim (judge t) [
    | hit ↦ stopped label
    | skip ↦ offer label ts seen stack
    | follow ↦ elim (contains seen t) [
      | true ↦ offer label ts seen stack
      | false ↦ offer label ts (t ∷ seen) ((t, label) ∷ stack)
    ]
  ]

  -- The outer loop; the head of the stack is its top. The label of the module that has a target
  -- to stop at, `none` where there is none.
  unfoldable pub explore : (Text → List Text) → ℕ → List Text → List (Text × V) → Option V
  unfolding offer
  explore next zero seen stack = none
  explore next (suc fuel) seen [] = none
  explore next (suc fuel) seen ((module_, label) ∷ stack) =
      elim (offer label (next module_) seen stack) [
        | stopped v ↦ some v
        | going seen' stack' ↦ explore next fuel seen' stack'
      ]
