-- ===== src/Glob.antt =====
-- Python's `fnmatch.fnmatch` on a POSIX system: `*` spans `/`, `?` is any character, `[...]` a set.
pub mod Laws
use lanorme.Prelude.{
  ℕ, zero, suc, ◌+◌, ◌-◌, ◌*◌, ◌≤◌, ◌<◌, min, String, ◌≡◌, refl, sym, ap, ap₂, ◌∙◌, subst, fun_ext,
  ◌≢◌, ◌↔◌, ◌⊎◌, inl, inr, Bool, true, false, not, ◌&&◌, ◌||◌, false≢true, Option, none, some, List,
  [], ◌∷◌, ◌++◌, map, append-nil, append_assoc, arith, ltb, leb, if◌then◌else◌, tests, Bool-cases,
  Option-cases, Eq, ◌==◌, eq_iff, eq_refl, nat_eq, list_eq, pair_eq, triple_eq, length, keep, any,
  all, count_if, contains, flat_map, length-append, keep-append, keep-keep, count_if-append,
  length-keep-le, length-keep_add, any-append, any-map, length-map, take, drop, get_elem?, Among,
  first, later, any_of_Among, Among-of_any, all_of_Among, contains_of_Among, Among-of_contains,
  Among-append_left, Among-cons, Among-of_keep, Among-of_sort, Among-keep, Among-append_right,
  Among-map, Among-flat_map, Among-of_map, Among-of_append, Among-of_flat_map, reverse,
  Among-reverse, Among-of_reverse, length-reverse, sort, Among-sort, count_if-sort, any-sort,
  sum_by, sum_by-sort, text_leb,
}
use lanorme.Text.{
  Text, codes, is_space, is_upper, is_digit, is_alnum, upper_char, upper, lstrip, rstrip, strip,
  before, after, words, split, join, starts_with, ends_with, forward_slashes, decimal, base_name,
  dir_name,
}

-- A set is a list of ranges, with a mark where it is negated.
pub data Token : Type 0 where
  star : Token
  any_char : Token
  one_of : Bool → List (ℕ × ℕ) → Token
  literal : ℕ → Token

-- The inside of brackets: `x-y` is a range, any other character itself.
ranges : Text → List (ℕ × ℕ)
ranges [] = []
ranges (c ∷ []) = (c, c) ∷ []
ranges (c ∷ d ∷ []) = (c, c) ∷ ((d, d) ∷ [])
ranges (c ∷ d ∷ (e ∷ s)) = elim (d == b'-') [
  | true ↦ (c, e) ∷ ranges s
  | false ↦ (c, c) ∷ ranges (d ∷ (e ∷ s))
]

make_set : Text → Token
unfolding ranges
make_set [] = one_of false []
make_set (c ∷ s) = if c == b'!' then one_of true (ranges s) else one_of false (ranges (c ∷ s))

-- What stands between `[` and its `]`, and what follows. A `]` that comes first, or after `!`, is
-- an item. `seen` is the inside so far, `fresh` whether a `]` here is still an item.
close_set : Bool → Text → Text → Option (Text × Text)
close_set fresh seen [] = none
close_set fresh seen (c ∷ s) = elim (c == b']' && not fresh) [
  | true ↦ some (seen, s)
  | false ↦ close_set (fresh && (c == b'!' && seen == [])) (seen ++ c ∷ []) s
]

-- The pattern in front of one that is read; `skip` counts characters of a set already taken.
tokens_from : ℕ → Text → List Token
unfolding make_set close_set
tokens_from skip [] = []
tokens_from (suc skip) (c ∷ p) = tokens_from skip p
tokens_from zero (c ∷ p) = elim (c == b'*') [
  | true ↦ star ∷ tokens_from 0 p
  | false ↦ elim (c == b'?') [
    | true ↦ any_char ∷ tokens_from 0 p
    | false ↦ elim (c == b'[') [
      | true ↦ elim (close_set true [] p) [
        | none ↦ literal c ∷ tokens_from 0 p
        | some (inside, rest) ↦ make_set inside ∷ tokens_from (suc (length inside)) p
      ]
      | false ↦ literal c ∷ tokens_from 0 p
    ]
  ]
]

in_ranges : List (ℕ × ℕ) → ℕ → Bool
in_ranges [] c = false
in_ranges ((lo, hi) ∷ rest) c = (leb lo c && leb c hi) || in_ranges rest c

accepts : Token → ℕ → Bool
unfolding in_ranges
accepts star c = true
accepts any_char c = true
accepts (one_of negated items) c = if negated then not (in_ranges items c) else in_ranges items c
accepts (literal d) c = d == c

-- `p` matches some suffix.
on_some_suffix : (Text → Bool) → Text → Bool
on_some_suffix p [] = p []
on_some_suffix p (c ∷ s) = p (c ∷ s) || on_some_suffix p s

step : Token → (Text → Bool) → Text → Bool
unfolding accepts on_some_suffix
step star p s = on_some_suffix p s
step t p [] = false
step t p (c ∷ s) = accepts t c && p s

matches : List Token → Text → Bool
unfolding step
matches [] s = s == []
matches (t ∷ ts) s = step t (matches ts) s

-- `fnmatch.fnmatch(name, pattern)`
unfoldable pub fnmatch : Text → Text → Bool
unfolding matches tokens_from
fnmatch name pattern = matches (tokens_from 0 pattern) name
