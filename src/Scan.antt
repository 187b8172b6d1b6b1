-- ===== src/Scan.antt =====
-- lanorme/scan.py: what a run is confined to. Parse outcomes are data of the parser, so the cache
-- stores any type of entry; the context variable is a stack of scans.
pub mod Cache
use lanorme.Prelude.{
  ℕ, zero, suc, ◌+◌, ◌-◌, ◌*◌, ◌≤◌, ◌<◌, min, String, ◌≡◌, refl, sym, ap, ap₂, ◌∙◌, subst, fun_ext,
  ◌≢◌, ◌↔◌, ◌⊎◌, inl, inr, Bool, true, false, not, ◌&&◌, ◌||◌, false≢true, Option, none, some, List,
  [], ◌∷◌, ◌++◌, map, append-nil, append_assoc, arith, ltb, leb, if◌then◌else◌, tests, Bool-cases,
  Option-cases, Eq, ◌==◌, eq_iff, eq_refl, nat_eq, list_eq, pair_eq, triple_eq, length, keep, any,
  all, count_if, contains, flat_map, length-append, keep-append, keep-keep, count_if-append,
  length-keep-le, length-keep_add, any-append, any-map, length-map, take, drop, get_elem?, Among,
  first, later, any_of_Among, Among-of_any, all_of_Among, contains_of_Among, Among-of_contains,
  Among-append_left, Among-cons, Among-of_keep, Among-of_sort, Among-keep, Among-append_right,
  Among-map, Among-flat_map, Among-of_map, Among-of_append, Among-of_flat_map, reverse,
  Among-reverse, Among-of_reverse, length-reverse, sort, Among-sort, count_if-sort, any-sort,
  sum_by, sum_by-sort, text_leb,
}
use lanorme.FilePath.{FilePath}
use lanorme.Text.{
  Text, codes, is_space, is_upper, is_digit, is_alnum, upper_char, upper, lstrip, rstrip, strip,
  before, after, words, split, join, starts_with, ends_with, forward_slashes, decimal, base_name,
  dir_name,
}

pub record Scan : Type 0 where
  pub root : FilePath
  pub scope : Text
  pub excludes : List Text
  pub source_root : Text

-- `s.strip("/")`
strip_slashes_left : Text → Text
strip_slashes_left [] = []
strip_slashes_left (c ∷ s) = let rest = strip_slashes_left s in if c == b'/' then rest else c ∷ s

strip_slash_onto : ℕ → Text → Text
strip_slash_onto c [] = if c == b'/' then [] else c ∷ []
strip_slash_onto c (d ∷ s) = c ∷ d ∷ s

strip_slashes_right : Text → Text
unfolding strip_slash_onto
strip_slashes_right [] = []
strip_slashes_right (c ∷ s) = strip_slash_onto c (strip_slashes_right s)

unfoldable pub strip_slashes : Text → Text
unfolding strip_slashes_left strip_slashes_right
strip_slashes s = strip_slashes_right (strip_slashes_left s)

-- The constructor with `__post_init__`, which `replace` runs again.
unfoldable pub make_scan : FilePath → Text → List Text → Text → Scan
make_scan root scope excludes source_root = record {
  root = root;
  scope = strip_slashes scope;
  excludes = excludes;
  source_root = source_root;
}

-- `Scan.restrict`
unfoldable pub restrict : Scan → Option Text → List Text → Scan
unfolding make_scan
restrict scan none excludes =
    make_scan scan.root scan.scope (scan.excludes ++ excludes) scan.source_root
restrict scan (some scope) excludes =
    make_scan scan.root scope (scan.excludes ++ excludes) scan.source_root
