-- ===== src/Text.antt =====
-- The methods of Python's `str` that the program calls, on texts as lists of code points.
-- Whitespace is the whole of `str.isspace`. Case mapping and digits are those of ASCII, the
-- alphabet of rule codes, selectors and directives.
pub mod Laws
use Prim.Native.Char.{code}
use Prim.Native.Nat.{◌/◌, ◌%◌}
use lanorme.Prelude.{
  ℕ, zero, suc, ◌+◌, ◌-◌, ◌*◌, ◌≤◌, ◌<◌, min, String, ◌≡◌, refl, sym, ap, ap₂, ◌∙◌, subst, fun_ext,
  ◌≢◌, ◌↔◌, ◌⊎◌, inl, inr, Bool, true, false, not, ◌&&◌, ◌||◌, false≢true, Option, none, some, List,
  [], ◌∷◌, ◌++◌, map, append-nil, append_assoc, arith, ltb, leb, if◌then◌else◌, tests, Bool-cases,
  Option-cases, Eq, ◌==◌, eq_iff, eq_refl, nat_eq, list_eq, pair_eq, triple_eq, length, keep, any,
  all, count_if, contains, flat_map, length-append, keep-append, keep-keep, count_if-append,
  length-keep-le, length-keep_add, any-append, any-map, length-map, take, drop, get_elem?, Among,
  first, later, any_of_Among, Among-of_any, all_of_Among, contains_of_Among, Among-of_contains,
  Among-append_left, Among-cons, Among-of_keep, Among-of_sort, Among-keep, Among-append_right,
  Among-map, Among-flat_map, Among-of_map, Among-of_append, Among-of_flat_map, reverse,
  Among-reverse, Among-of_reverse, length-reverse, sort, Among-sort, count_if-sort, any-sort,
  sum_by, sum_by-sort, text_leb,
}

abbrev pub Text : Type 0
Text = List ℕ

-- A literal of the source.
abbrev pub codes : String → Text
codes String.[] = []
codes (String.◌∷◌ c s) = code c ∷ codes s

between : ℕ → ℕ → ℕ → Bool
between lo hi c = leb lo c && leb c hi

-- `c.isspace()`
unfoldable pub is_space : ℕ → Bool
unfolding between
is_space c =
    between 9 13 c
    || between 28 32 c
    || c == 133
    || c == 160
    || c == 5760
    || between 8192 8202 c
    || c == 8232
    || c == 8233
    || c == 8239
    || c == 8287
    || c == 12288

unfoldable pub is_upper : ℕ → Bool
unfolding between
is_upper c = between 65 90 c

unfoldable pub is_digit : ℕ → Bool
unfolding between
is_digit c = between 48 57 c

unfoldable pub is_alnum : ℕ → Bool
unfolding between is_upper is_digit
is_alnum c = is_upper c || between 97 122 c || is_digit c

unfoldable pub upper_char : ℕ → ℕ
unfolding between
upper_char c = if between 97 122 c then c - 32 else c

-- `s.upper()`
unfoldable pub upper : Text → Text
unfolding upper_char
upper = map upper_char

-- `s.lstrip()`
unfoldable pub lstrip : Text → Text
unfolding is_space
lstrip [] = []
lstrip (c ∷ s) = let rest = lstrip s in if is_space c then rest else c ∷ s

-- `s.rstrip()`: a character stays if it is no space or something after it stays.
rstrip_onto : ℕ → Text → Text
unfolding is_space
rstrip_onto c [] = if is_space c then [] else c ∷ []
rstrip_onto c (d ∷ s) = c ∷ d ∷ s

unfoldable pub rstrip : Text → Text
unfolding rstrip_onto
rstrip [] = []
rstrip (c ∷ s) = rstrip_onto c (rstrip s)

-- `s.strip()`
unfoldable pub strip : Text → Text
unfolding lstrip rstrip
strip s = rstrip (lstrip s)

-- `s.split(c, 1)[0]`, and the head of `s.partition(c)`
unfoldable pub before : ℕ → Text → Text
before c [] = []
before c (d ∷ s) = let rest = before c s in if d == c then [] else d ∷ rest

-- What follows the first `c`: the tail of `s.partition(c)`, with `none` where there is no `c`.
unfoldable pub after : ℕ → Text → Option Text
after c [] = none
after c (d ∷ s) = let rest = after c s in if d == c then some s else rest

-- A word that is being read, `none` between words.
flush : Text → List Text → List Text
flush [] words = words
flush (c ∷ s) words = (c ∷ s) ∷ words

words_from : Text → Text → List Text
unfolding is_space flush
words_from word [] = flush word []
words_from word (c ∷ s) = elim (is_space c) [
  | true ↦ flush word (words_from [] s)
  | false ↦ words_from (word ++ c ∷ []) s
]

-- `s.split()`
unfoldable pub words : Text → List Text
unfolding words_from
words s = words_from [] s

onto_first : ℕ → List Text → List Text
onto_first c [] = (c ∷ []) ∷ []
onto_first c (part ∷ parts) = (c ∷ part) ∷ parts

-- `s.split(c)`
unfoldable pub split : ℕ → Text → List Text
unfolding onto_first
split c [] = [] ∷ []
split c (d ∷ s) = let rest = split c s in if d == c then [] ∷ rest else onto_first d rest

-- `c.join(parts)`
unfoldable pub join : Text → List Text → Text
join sep [] = []
join sep (part ∷ []) = part
join sep (part ∷ next ∷ parts) = part ++ (sep ++ join sep (next ∷ parts))

-- `s.startswith(p)`
unfoldable pub starts_with : Text → Text → Bool
starts_with s [] = true
starts_with [] (d ∷ p) = false
starts_with (c ∷ s) (d ∷ p) = c == d && starts_with s p

-- `s.endswith(p)`
unfoldable pub ends_with : Text → Text → Bool
ends_with [] p = [] == p
ends_with (c ∷ s) p = (c ∷ s) == p || ends_with s p

-- `s.replace("\\", "/")`
unfoldable pub forward_slashes : Text → Text
forward_slashes = map (λ c. if c == 92 then 47 else c)

-- The decimal digits of the number, before `rest`; `fuel` is at least the number.
digits_onto : ℕ → ℕ → Text → Text
digits_onto zero n rest = (48 + n) ∷ rest
digits_onto (suc fuel) n rest =
    if ltb n 10 then (48 + n) ∷ rest else digits_onto fuel (n / 10) ((48 + n % 10) ∷ rest)

-- `str(n)`
unfoldable pub decimal : ℕ → Text
unfolding digits_onto
decimal n = digits_onto n n []

-- `s.rsplit("/", 1)[-1]`: what follows the last slash, and the whole text where there is none.
unfoldable pub base_name : Text → Text
base_name [] = []
base_name (c ∷ s) =
    let rest = base_name s in if contains s b'/' then rest else if c == b'/' then s else c ∷ s

-- `s.rpartition("/")[0]`: what precedes the last slash, and nothing where there is none.
unfoldable pub dir_name : Text → Text
dir_name [] = []
dir_name (c ∷ s) = let rest = dir_name s in if contains s b'/' then c ∷ rest else []
