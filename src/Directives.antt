-- ===== src/Directives.antt =====
-- lanorme/directives.py: the inline directives `# noqa` and `# lanorme: ignore[...]`. The two
-- regular expressions are deterministic up to one point, which `capture` spells out: the class of
-- a code list holds whitespace, so `\s*` in front of it gives one character back where the list
-- would else be empty.
pub mod Laws
use lanorme.Prelude.{
  ℕ, zero, suc, ◌+◌, ◌-◌, ◌*◌, ◌≤◌, ◌<◌, min, String, ◌≡◌, refl, sym, ap, ap₂, ◌∙◌, subst, fun_ext,
  ◌≢◌, ◌↔◌, ◌⊎◌, inl, inr, Bool, true, false, not, ◌&&◌, ◌||◌, false≢true, Option, none, some, List,
  [], ◌∷◌, ◌++◌, map, append-nil, append_assoc, arith, ltb, leb, if◌then◌else◌, tests, Bool-cases,
  Option-cases, Eq, ◌==◌, eq_iff, eq_refl, nat_eq, list_eq, pair_eq, triple_eq, length, keep, any,
  all, count_if, contains, flat_map, length-append, keep-append, keep-keep, count_if-append,
  length-keep-le, length-keep_add, any-append, any-map, length-map, take, drop, get_elem?, Among,
  first, later, any_of_Among, Among-of_any, all_of_Among, contains_of_Among, Among-of_contains,
  Among-append_left, Among-cons, Among-of_keep, Among-of_sort, Among-keep, Among-append_right,
  Among-map, Among-flat_map, Among-of_map, Among-of_append, Among-of_flat_map, reverse,
  Among-reverse, Among-of_reverse, length-reverse, sort, Among-sort, count_if-sort, any-sort,
  sum_by, sum_by-sort, text_leb,
}
use lanorme.Text.{
  Text, codes, is_space, is_upper, is_digit, is_alnum, upper_char, upper, lstrip, rstrip, strip,
  before, after, words, split, join, starts_with, ends_with, forward_slashes, decimal, base_name,
  dir_name,
}
use lanorme.Finding.{extract_code}
use lanorme.Selectors.{extract_category, is_code_matched}

-- The class `[A-Za-z0-9_,\-\s]`.
unfoldable pub in_list_class : ℕ → Bool
unfolding is_alnum is_space
in_list_class c = is_alnum c || is_space c || c == b'_' || c == b',' || c == b'-'

-- The longest run in the class.
list_run : Text → Text
unfolding in_list_class
list_run [] = []
list_run (c ∷ s) = let rest = list_run s in if in_list_class c then c ∷ rest else []

after_list_run : Text → Text
unfolding in_list_class
after_list_run [] = []
after_list_run (c ∷ s) = let rest = after_list_run s in if in_list_class c then rest else c ∷ s

-- The last whitespace character in front of a text, which `\s*` gives back.
last_space : ℕ → Text → Text
last_space c [] = c ∷ []
last_space c (d ∷ s) = d ∷ s

given_back : Text → Text
unfolding is_space last_space
given_back [] = []
given_back (c ∷ s) = let rest = given_back s in if is_space c then last_space c rest else []

or_given_back : Text → Text → Text
unfolding given_back
or_given_back [] s = given_back s
or_given_back (c ∷ run) s = c ∷ run

-- `\s*([A-Za-z0-9_,\-\s]+)`: the captured text, empty where the group cannot match.
capture : Text → Text
unfolding list_run or_given_back
capture s = or_given_back (list_run (lstrip s)) s

-- `text` at the head of `s` in any letter case: what follows it.
skip_word : Text → Text → Option Text
unfolding upper_char
skip_word [] s = some s
skip_word (d ∷ text) [] = none
skip_word (d ∷ text) (c ∷ s) = if upper_char c == d then skip_word text s else none

-- A match: no code list, or the captured one.
pub data Match : Type 0 where
  bare : Match
  coded : Text → Match

coded_or_bare : Text → Match
coded_or_bare [] = bare
coded_or_bare (c ∷ codes_) = coded (c ∷ codes_)

-- `(?:\s*:\s*([A-Za-z0-9_,\-\s]+))?`
noqa_tail : Text → Match
unfolding capture coded_or_bare
noqa_tail s = after_colon (lstrip s)
  where
    after_colon : Text → Match
    after_colon [] = bare
    after_colon (c ∷ rest) = if c == b':' then coded_or_bare (capture rest) else bare

-- `NOQA_RE` at the character after a `#`.
noqa_here : Text → Option Match
unfolding skip_word noqa_tail
noqa_here s = elim (skip_word (codes "NOQA") (lstrip s)) [
  | none ↦ none
  | some rest ↦ some (noqa_tail rest)
]

-- `(?:\s*\[([A-Za-z0-9_,\-\s]+)\])?`: without the bracket that closes, the group does not match.
ignore_tail : Text → Match
unfolding list_run after_list_run
ignore_tail s = opened (lstrip s)
  where
    closed : Text → Text → Match
    closed [] _ = bare
    closed (c ∷ run) [] = bare
    closed (c ∷ run) (d ∷ _) = if d == b']' then coded (c ∷ run) else bare

    opened : Text → Match
    opened [] = bare
    opened (c ∷ rest) = if c == b'[' then closed (list_run rest) (after_list_run rest) else bare

-- `IGNORE_RE` at the character after a `#`.
ignore_here : Text → Option Match
unfolding skip_word ignore_tail
ignore_here s = elim (skip_word (codes "LANORME") (lstrip s)) [
  | none ↦ none
  | some named ↦ elim (skip_word (codes ":") (lstrip named)) [
    | none ↦ none
    | some after_colon ↦ elim (skip_word (codes "IGNORE") (lstrip after_colon)) [
      | none ↦ none
      | some rest ↦ some (ignore_tail rest)
    ]
  ]
]

-- `pattern.search(line)`: the leftmost match; every match begins with a `#`.
search_hash : (Text → Option Match) → Text → Option Match
search_hash here [] = none
search_hash here (c ∷ line) =
    let rest = search_hash here line in
    if c == b'#' then elim (here line) [ none ↦ rest | some m ↦ some m ] else rest

unfoldable pub noqa_search : Text → Option Match
unfolding search_hash noqa_here
noqa_search = search_hash noqa_here

unfoldable pub ignore_search : Text → Option Match
unfolding search_hash ignore_here
ignore_search = search_hash ignore_here

unfoldable pub is_silenced_by_directive : Option Match → Text → Bool
is_silenced_by_directive none rule = false
is_silenced_by_directive (some bare) rule = true
is_silenced_by_directive (some (coded listed)) rule =
    is_code_matched (extract_code rule) (keep (λ c. not (c == [])) (map strip (split b',' listed)))

abbrev pub unsuppressable : List Text
unsuppressable = codes "SUPPRESS" ∷ []

unfoldable pub is_silenced_inline : Text → Text → Bool
unfolding is_silenced_by_directive
is_silenced_inline line rule =
    if contains unsuppressable (extract_category (extract_code rule))
    then false
    else is_silenced_by_directive (noqa_search line) rule
      || is_silenced_by_directive (ignore_search line) rule
