-- ===== src/Paths.antt =====
-- lanorme/paths.py: which files are tests, by their path relative to the scan root. The parts of
-- a path are those of a pure POSIX path; the parts of an absolute one start with the root `/`.
pub mod Laws
use lanorme.Prelude.{
  ℕ, zero, suc, ◌+◌, ◌-◌, ◌*◌, ◌≤◌, ◌<◌, min, String, ◌≡◌, refl, sym, ap, ap₂, ◌∙◌, subst, fun_ext,
  ◌≢◌, ◌↔◌, ◌⊎◌, inl, inr, Bool, true, false, not, ◌&&◌, ◌||◌, false≢true, Option, none, some, List,
  [], ◌∷◌, ◌++◌, map, append-nil, append_assoc, arith, ltb, leb, if◌then◌else◌, tests, Bool-cases,
  Option-cases, Eq, ◌==◌, eq_iff, eq_refl, nat_eq, list_eq, pair_eq, triple_eq, length, keep, any,
  all, count_if, contains, flat_map, length-append, keep-append, keep-keep, count_if-append,
  length-keep-le, length-keep_add, any-append, any-map, length-map, take, drop, get_elem?, Among,
  first, later, any_of_Among, Among-of_any, all_of_Among, contains_of_Among, Among-of_contains,
  Among-append_left, Among-cons, Among-of_keep, Among-of_sort, Among-keep, Among-append_right,
  Among-map, Among-flat_map, Among-of_map, Among-of_append, Among-of_flat_map, reverse,
  Among-reverse, Among-of_reverse, length-reverse, sort, Among-sort, count_if-sort, any-sort,
  sum_by, sum_by-sort, text_leb,
}
use lanorme.Text.{
  Text, codes, is_space, is_upper, is_digit, is_alnum, upper_char, upper, lstrip, rstrip, strip,
  before, after, words, split, join, starts_with, ends_with, forward_slashes, decimal, base_name,
  dir_name,
}
use lanorme.FilePath.{parts_of}

-- `TEST_DIR_NAMES`, `TEST_SUPPORT_NAMES` and `TEST_SUPPORT_FILENAMES`
unfoldable pub test_dir_names : List Text
test_dir_names = codes "tests" ∷ (codes "test" ∷ [])

unfoldable pub test_support_names : List Text
test_support_names = codes "fixtures" ∷ (codes "factories" ∷ [])

unfoldable pub test_support_filenames : List Text
test_support_filenames = codes "conftest.py" ∷ []

-- `_normalise_posix(relative).parts`; the root of an absolute path is left out, as no predicate
-- here asks for it.
unfoldable pub normalise_posix : Text → List Text
unfolding parts_of
normalise_posix relative = parts_of (forward_slashes relative)

-- `parts[-1]` and `parts[:-1]`
unfoldable pub last_part : List Text → Text
last_part [] = []
last_part (p ∷ []) = p
last_part (p ∷ q ∷ parts) = last_part (q ∷ parts)

unfoldable pub dirs_above : List Text → List Text
dirs_above [] = []
dirs_above (p ∷ []) = []
dirs_above (p ∷ q ∷ parts) = p ∷ dirs_above (q ∷ parts)

-- The text before the last `.`, `none` where there is no dot.
before_last_dot : Text → Option Text
before_last_dot [] = none
before_last_dot (c ∷ s) = elim (before_last_dot s) [
  | some stem ↦ some (c ∷ stem)
  | none ↦ if c == b'.' then some [] else none
]

-- `path.stem`: a dot that comes first or last starts no suffix.
stem_or_name : Text → Option Text → Text
stem_or_name name none = name
stem_or_name name (some []) = name
stem_or_name name (some (c ∷ stem)) = if ends_with name (codes ".") then name else c ∷ stem

unfoldable pub stem_of : List Text → Text
unfolding last_part before_last_dot stem_or_name
stem_of parts = stem_or_name (last_part parts) (before_last_dot (last_part parts))

unfoldable pub is_test_module : Text → Bool
unfolding stem_of normalise_posix
is_test_module relative =
    starts_with (stem_of (normalise_posix relative)) (codes "test_")
    || ends_with (stem_of (normalise_posix relative)) (codes "_test")

unfoldable pub is_under_tests_dir : Text → Bool
unfolding dirs_above test_dir_names
is_under_tests_dir relative = any (contains test_dir_names) (dirs_above (normalise_posix relative))

unfoldable pub is_test_support : Text → Bool
unfolding test_support_filenames test_support_names
is_test_support relative =
    let parts = normalise_posix relative in
    if contains test_support_filenames (last_part parts)
    then true
    else if not (is_under_tests_dir relative)
    then false
    else contains test_support_names (stem_of parts)
      || any (contains test_support_names) (dirs_above parts)

unfoldable pub is_test_file : Text → Bool
unfolding is_test_module is_test_support is_under_tests_dir
is_test_file relative =
    is_test_module relative || is_test_support relative || is_under_tests_dir relative
