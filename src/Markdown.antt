-- ===== src/Markdown.antt =====
-- lanorme/markdown.py: the prose lines of a Markdown file, and its inline code spans.
pub mod Fences
use lanorme.Prelude.{
  ℕ, zero, suc, ◌+◌, ◌-◌, ◌*◌, ◌≤◌, ◌<◌, min, String, ◌≡◌, refl, sym, ap, ap₂, ◌∙◌, subst, fun_ext,
  ◌≢◌, ◌↔◌, ◌⊎◌, inl, inr, Bool, true, false, not, ◌&&◌, ◌||◌, false≢true, Option, none, some, List,
  [], ◌∷◌, ◌++◌, map, append-nil, append_assoc, arith, ltb, leb, if◌then◌else◌, tests, Bool-cases,
  Option-cases, Eq, ◌==◌, eq_iff, eq_refl, nat_eq, list_eq, pair_eq, triple_eq, length, keep, any,
  all, count_if, contains, flat_map, length-append, keep-append, keep-keep, count_if-append,
  length-keep-le, length-keep_add, any-append, any-map, length-map, take, drop, get_elem?, Among,
  first, later, any_of_Among, Among-of_any, all_of_Among, contains_of_Among, Among-of_contains,
  Among-append_left, Among-cons, Among-of_keep, Among-of_sort, Among-keep, Among-append_right,
  Among-map, Among-flat_map, Among-of_map, Among-of_append, Among-of_flat_map, reverse,
  Among-reverse, Among-of_reverse, length-reverse, sort, Among-sort, count_if-sort, any-sort,
  sum_by, sum_by-sort, text_leb,
}
use lanorme.Text.{
  Text, codes, is_space, is_upper, is_digit, is_alnum, upper_char, upper, lstrip, rstrip, strip,
  before, after, words, split, join, starts_with, ends_with, forward_slashes, decimal, base_name,
  dir_name,
}

pub record Fence : Type 0 where
  pub char : ℕ
  pub run : ℕ

-- How many of the character the text starts with.
unfoldable pub leading_run : ℕ → Text → ℕ
leading_run c [] = 0
leading_run c (d ∷ s) = let rest = leading_run c s in if d == c then suc rest else 0

-- `_match_fence_opener`: three or more backticks or tildes.
unfoldable pub match_fence_opener : Text → Option Fence
unfolding leading_run
match_fence_opener stripped =
    if leb 3 (leading_run b'`' stripped)
    then some (record { char = b'`'; run = leading_run b'`' stripped })
    else if leb 3 (leading_run b'~' stripped)
    then some (record { char = b'~'; run = leading_run b'~' stripped })
    else none

unfoldable pub is_fence_closer : Fence → Text → Bool
is_fence_closer fence stripped =
    leb fence.run (length (rstrip stripped)) && all (λ c. c == fence.char) (rstrip stripped)

is_close_mark : Text → Bool
is_close_mark line = strip line == codes "---" || strip line == codes "..."

-- The lines up to the closing mark, counted from the second on; 0 where there is none.
front_matter_from : ℕ → List Text → ℕ
unfolding is_close_mark
front_matter_from index [] = 0
front_matter_from index (line ∷ lines) =
    let rest = front_matter_from (suc index) lines in if is_close_mark line then suc index else rest

unfoldable pub measure_front_matter : List Text → ℕ
unfolding front_matter_from
measure_front_matter [] = 0
measure_front_matter (line ∷ lines) =
    if strip line == codes "---" then front_matter_from 1 lines else 0

-- The loop of `iter_prose_lines`: the index of the next line, and the fence that is open.
unfoldable pub prose_from : ℕ → Option Fence → List Text → List (ℕ × Text)
unfolding match_fence_opener is_fence_closer
prose_from index fence [] = []
prose_from index none (raw ∷ lines) = elim (match_fence_opener (lstrip raw)) [
  | none ↦ (suc index, raw) ∷ prose_from (suc index) none lines
  | some fence ↦ prose_from (suc index) (some fence) lines
]
prose_from index (some fence) (raw ∷ lines) = elim (is_fence_closer fence (lstrip raw)) [
  | true ↦ prose_from (suc index) none lines
  | false ↦ prose_from (suc index) (some fence) lines
]

unfoldable pub iter_prose_lines : List Text → List (ℕ × Text)
unfolding measure_front_matter prose_from
iter_prose_lines lines =
    let front = measure_front_matter lines in prose_from front none (drop front lines)

-- The text starts with that many backticks.
starts_with_ticks : ℕ → Text → Bool
starts_with_ticks zero s = true
starts_with_ticks (suc n) [] = false
starts_with_ticks (suc n) (c ∷ s) = c == b'`' && starts_with_ticks n s

-- Where a run of that many backticks ends, at the earliest, in the same line.
span_end : ℕ → Text → Option ℕ
unfolding starts_with_ticks
span_end n [] = none
span_end n (c ∷ s) = elim (starts_with_ticks n (c ∷ s)) [
  | true ↦ some n
  | false ↦ elim (c == b'\n') [
    | true ↦ none
    | false ↦ elim (span_end n s) [ none ↦ none | some k ↦ some (suc k) ]
  ]
]

-- The code span that the text starts with, tried with every run of backticks from the longest.
span_from : ℕ → Text → Option ℕ
unfolding span_end
span_from zero s = none
span_from (suc n) s = elim (span_end (suc n) (drop (suc n) s)) [
  | some k ↦ some (suc n + k)
  | none ↦ span_from n s
]

-- `skip` counts the characters of a span still to blank out.
strip_from : ℕ → Text → Text
unfolding span_from leading_run
strip_from skip [] = []
strip_from (suc skip) (c ∷ s) = b' ' ∷ strip_from skip s
strip_from zero (c ∷ s) = elim (span_from (leading_run b'`' (c ∷ s)) (c ∷ s)) [
  | none ↦ c ∷ strip_from 0 s
  | some k ↦ b' ' ∷ strip_from (k - 1) s
]

unfoldable pub strip_inline_code : Text → Text
unfolding strip_from
strip_inline_code line = strip_from 0 line
