-- ===== src/MergeTargets/Directories.antt =====
-- lanorme/checks/merge_targets.py: the directories that another rule reads by path.
pub mod Anchors
pub mod Occurrences
pub mod Enclosing
pub mod Found
use lanorme.Prelude.{
  ℕ, zero, suc, ◌+◌, ◌-◌, ◌*◌, ◌≤◌, ◌<◌, min, String, ◌≡◌, refl, sym, ap, ap₂, ◌∙◌, subst, fun_ext,
  ◌≢◌, ◌↔◌, ◌⊎◌, inl, inr, Bool, true, false, not, ◌&&◌, ◌||◌, false≢true, Option, none, some, List,
  [], ◌∷◌, ◌++◌, map, append-nil, append_assoc, arith, ltb, leb, if◌then◌else◌, tests, Bool-cases,
  Option-cases, Eq, ◌==◌, eq_iff, eq_refl, nat_eq, list_eq, pair_eq, triple_eq, length, keep, any,
  all, count_if, contains, flat_map, length-append, keep-append, keep-keep, count_if-append,
  length-keep-le, length-keep_add, any-append, any-map, length-map, take, drop, get_elem?, Among,
  first, later, any_of_Among, Among-of_any, all_of_Among, contains_of_Among, Among-of_contains,
  Among-append_left, Among-cons, Among-of_keep, Among-of_sort, Among-keep, Among-append_right,
  Among-map, Among-flat_map, Among-of_map, Among-of_append, Among-of_flat_map, reverse,
  Among-reverse, Among-of_reverse, length-reverse, sort, Among-sort, count_if-sort, any-sort,
  sum_by, sum_by-sort, text_leb,
}
use lanorme.Text.{
  Text, codes, is_space, is_upper, is_digit, is_alnum, upper_char, upper, lstrip, rstrip, strip,
  before, after, words, split, join, starts_with, ends_with, forward_slashes, decimal, base_name,
  dir_name,
}

pub record DirectoryReadByPath : Type 0 where
  pub path : Text
  pub reader : Text
  pub reason : Text
  pub is_ports_directory : Bool

configured_directory : String → Bool → Text → DirectoryReadByPath
configured_directory reader is_ports path = record {
  path = path;
  reader = codes reader;
  reason = codes reader ++ codes " names it";
  is_ports_directory = is_ports;
}

fixed_directory : String → String → String → DirectoryReadByPath
fixed_directory path reader reason = record {
  path = codes path;
  reader = codes reader;
  reason = codes reason;
  is_ports_directory = false;
}

-- `_FIXED_DIRECTORIES`, with the constants of the checks that it reads.
unfoldable pub fixed_directories : List DirectoryReadByPath
unfolding fixed_directory
fixed_directories =
    fixed_directory "api" "AUTHN-001" "AUTHN-001 checks the endpoints under it"
      ∷ map
          (λ path.
            fixed_directory path "NAMING-001" "NAMING-001 matches repository modules under it")
          ("infrastructure/repositories" ∷ "infrastructure/persistence" ∷ [])
    ++ fixed_directory "application/services" "NAMING-002"
        "NAMING-002 matches service modules under it"
      ∷ fixed_directory "api/v1/endpoints" "NAMING-003"
          "NAMING-003 matches endpoint modules under it"
      ∷ map
          (λ path. fixed_directory path "TESTFILE-001" "TESTFILE-001 pairs its modules with tests")
          ("api/v1/endpoints" ∷ "application/services" ∷ "application/commands"
            ∷ "application/queries" ∷ "infrastructure/repositories" ∷ "infrastructure/signing"
            ∷ "infrastructure/secrets" ∷ [])

unfoldable pub list_directories_read_by_path :
    List Text → Text → List Text → List DirectoryReadByPath
unfolding configured_directory fixed_directories
list_directories_read_by_path layers ports_directory adapter_roots =
    map (configured_directory "[layer_deps] layers" false) layers
    ++ configured_directory "[port_coverage] ports_dir" true ports_directory
      ∷ map (configured_directory "[port_coverage] adapter_roots" false) adapter_roots
    ++ fixed_directories

unfoldable pub is_exact : Text → DirectoryReadByPath → Bool
is_exact place directory =
    not (directory.path == [])
    && (place == directory.path || ends_with place (codes "/" ++ directory.path))

unfoldable pub find_exact_directory : Text → List DirectoryReadByPath → Option DirectoryReadByPath
unfolding is_exact
find_exact_directory place [] = none
find_exact_directory place (directory ∷ directories) =
    let rest = find_exact_directory place directories in
    if is_exact place directory then some directory else rest

-- `s.rfind(needle)`, `none` where the needle is not in the text.
unfoldable pub rfind : Text → Text → Option ℕ
rfind needle [] = if needle == [] then some 0 else none
rfind needle (c ∷ s) = elim (rfind needle s) [
  | some k ↦ some (suc k)
  | none ↦ if starts_with (c ∷ s) needle then some 0 else none
]

-- `f"/{path}/"`
unfoldable pub padded : Text → Text
padded path = b'/' ∷ (path ++ b'/' ∷ [])

-- How far down the directory reaches in the path: `padded[1 : ...]`, where it is on the path.
unfoldable pub anchor_of : Text → DirectoryReadByPath → Option Text
unfolding rfind padded
anchor_of place directory =
    if directory.path == [] then none else elim (rfind (padded directory.path) (padded place)) [
      | none ↦ none
      | some at ↦ some (drop 1 (take (at + length directory.path + 1) (padded place)))
    ]

-- The directories that the package sits under, each with its full path.
unfoldable pub enclosing : Text → List DirectoryReadByPath → List (DirectoryReadByPath × Text)
unfolding anchor_of
enclosing place [] = []
enclosing place (directory ∷ directories) =
    let rest = enclosing place directories in
    elim (anchor_of place directory) [ none ↦ rest | some anchor ↦ (directory, anchor) ∷ rest ]

-- `max(found, key=len of the anchor)`, from a first item on: of equal items the first is kept.
unfoldable pub deepest_from :
    DirectoryReadByPath × Text → List (DirectoryReadByPath × Text) → DirectoryReadByPath × Text
deepest_from best [] = best
deepest_from (directory, anchor) ((next, deeper) ∷ found) =
    deepest_from
      (if ltb (length anchor) (length deeper) then (next, deeper) else (directory, anchor)) found

unfoldable pub deepest : List (DirectoryReadByPath × Text) → Option (DirectoryReadByPath × Text)
unfolding deepest_from
deepest [] = none
deepest (found ∷ more) = some (deepest_from found more)

unfoldable pub find_directory_read_by_path :
    Text → List DirectoryReadByPath → Option (DirectoryReadByPath × Text)
unfolding find_exact_directory enclosing deepest
find_directory_read_by_path place directories = elim (find_exact_directory place directories) [
  | some directory ↦ some (directory, place)
  | none ↦ deepest (enclosing place directories)
]
