-- ===== src/MergeTargets.antt =====
-- lanorme/checks/merge_targets.py: where a merge of a package goes, and the words of the finding.
pub mod Directories
pub mod Fixes
pub mod Choice
pub mod Targets
use lanorme.Prelude.{
  ℕ, zero, suc, ◌+◌, ◌-◌, ◌*◌, ◌≤◌, ◌<◌, min, String, ◌≡◌, refl, sym, ap, ap₂, ◌∙◌, subst, fun_ext,
  ◌≢◌, ◌↔◌, ◌⊎◌, inl, inr, Bool, true, false, not, ◌&&◌, ◌||◌, false≢true, Option, none, some, List,
  [], ◌∷◌, ◌++◌, map, append-nil, append_assoc, arith, ltb, leb, if◌then◌else◌, tests, Bool-cases,
  Option-cases, Eq, ◌==◌, eq_iff, eq_refl, nat_eq, list_eq, pair_eq, triple_eq, length, keep, any,
  all, count_if, contains, flat_map, length-append, keep-append, keep-keep, count_if-append,
  length-keep-le, length-keep_add, any-append, any-map, length-map, take, drop, get_elem?, Among,
  first, later, any_of_Among, Among-of_any, all_of_Among, contains_of_Among, Among-of_contains,
  Among-append_left, Among-cons, Among-of_keep, Among-of_sort, Among-keep, Among-append_right,
  Among-map, Among-flat_map, Among-of_map, Among-of_append, Among-of_flat_map, reverse,
  Among-reverse, Among-of_reverse, length-reverse, sort, Among-sort, count_if-sort, any-sort,
  sum_by, sum_by-sort, text_leb,
}
use lanorme.Text.{
  Text, codes, is_space, is_upper, is_digit, is_alnum, upper_char, upper, lstrip, rstrip, strip,
  before, after, words, split, join, starts_with, ends_with, forward_slashes, decimal, base_name,
  dir_name,
}
use lanorme.MergeTargets.Directories.{DirectoryReadByPath, find_directory_read_by_path}

-- `TINY_CODE_LINES`
unfoldable pub tiny_code_lines : ℕ
tiny_code_lines = 20

-- `MAX_LISTED_MEMBERS`
unfoldable pub max_listed_members : ℕ
max_listed_members = 6

pub record PackageMember : Type 0 where
  pub relative : Text
  pub lines : ℕ
  pub code_lines : ℕ

unfoldable pub file_name : PackageMember → Text
file_name member = base_name member.relative

unfoldable pub is_package_file : PackageMember → Bool
unfolding file_name
is_package_file member = file_name member == codes "__init__.py"

pub data MergeKind : Type 0 where
  fold_inside named_for_contents package_module : MergeKind

pub record MergeTarget : Type 0 where
  pub kind : MergeKind
  pub path : Text
  pub reason : Text

-- `PORT_FILES_WITHOUT_SERVICE_IMPL`
unfoldable pub port_files_without_service : List Text
port_files_without_service =
    codes "repositories.py" ∷ codes "unit_of_work.py" ∷ codes "otel.py" ∷ codes "metrics.py" ∷ []

-- `preferred or pool`
or_else : List PackageMember → List PackageMember → List PackageMember
or_else [] pool = pool
or_else (member ∷ preferred) pool = member ∷ preferred

unfoldable pub own_members : List PackageMember → List PackageMember
unfolding is_package_file
own_members members = keep (λ member. not (is_package_file member)) members

with_adapter : List PackageMember → List PackageMember
unfolding file_name port_files_without_service
with_adapter pool =
    keep (λ member. not (contains port_files_without_service (file_name member))) pool

-- The members that `_choose_largest_member` chooses among.
unfoldable pub member_pool : List PackageMember → Bool → List PackageMember
unfolding own_members with_adapter or_else
member_pool members false = own_members members
member_pool members true = or_else (with_adapter (own_members members)) (own_members members)

-- The first of two by (lines, relative).
is_smaller : PackageMember → PackageMember → Bool
is_smaller member other =
    ltb member.lines other.lines
    || (member.lines == other.lines && not (text_leb other.relative member.relative))

-- Python's `max`, from a first item on: of equal items the first is kept.
largest_from : PackageMember → List PackageMember → PackageMember
unfolding is_smaller
largest_from best [] = best
largest_from best (member ∷ members) =
    largest_from (if is_smaller best member then member else best) members

largest : List PackageMember → Option PackageMember
unfolding largest_from
largest [] = none
largest (member ∷ members) = some (largest_from member members)

-- `_choose_largest_member`; `none` where `max` raises on an empty pool.
unfoldable pub choose_largest_member : List PackageMember → Bool → Option PackageMember
unfolding member_pool largest
choose_largest_member members avoid = largest (member_pool members avoid)

pub record PackagePlacement : Type 0 where
  pub package_path : Text
  pub is_top_level : Bool
  pub has_sibling_module : Bool
  pub staying_files : List Text

-- `JUNK_MODULES`
unfoldable pub junk_modules : List Text
junk_modules =
    codes "util"
    ∷ codes "utils"
    ∷ codes "utilities"
    ∷ codes "helper"
    ∷ codes "helpers"
    ∷ codes "common"
    ∷ codes "misc"
    ∷ codes "stuff"
    ∷ []

-- `", ".join(names[:-1])` and the last name, of two names or more.
all_but_last : Text → List Text → List Text
all_but_last name [] = []
all_but_last name (next ∷ names) = name ∷ all_but_last next names

last_of : Text → List Text → Text
last_of name [] = name
last_of name (next ∷ names) = last_of next names

unfoldable pub join_in_english : List Text → Text
unfolding all_but_last last_of max_listed_members
join_in_english [] = []
join_in_english (name ∷ []) = name
join_in_english (name ∷ next ∷ names) =
    let listed = name ∷ next ∷ names in
    if ltb max_listed_members (length listed)
    then join (codes ", ") (take max_listed_members listed)
      ++ (codes " and " ++ (decimal (length listed - max_listed_members) ++ codes " more"))
    else join (codes ", ") (all_but_last name (next ∷ names))
      ++ (codes " and " ++ last_of name (next ∷ names))

is_junk : Text → Bool
unfolding junk_modules
is_junk path = contains junk_modules (base_name path)

unfoldable pub find_fold_reason : PackagePlacement → Option Text
unfolding join_in_english is_junk
find_fold_reason placement = elim placement.staying_files [
  | file ∷ files ↦ some (
      join_in_english (file ∷ files)
      ++ ((if length (file ∷ files) == 1 then codes " stays" else codes " stay") ++ codes " in it"))
  | [] ↦
      if is_junk placement.package_path
      then none
      else if placement.is_top_level
      then some (codes "it is a top-level package, the name installers and entry points use")
      else if placement.has_sibling_module
      then some (codes "'" ++ (placement.package_path ++ codes ".py' already exists beside it"))
      else none
]

-- A target inside the package, where there is a member to fold into.
fold_into : Option PackageMember → Text → Option MergeTarget
fold_into none reason = none
fold_into (some member) reason =
    some (record { kind = fold_inside; path = member.relative; reason = reason })

-- The branch of a directory that is read by path.
fold_at : Text → List PackageMember → DirectoryReadByPath × Text → Option MergeTarget
unfolding choose_largest_member fold_into
fold_at place members (directory, anchor) =
    fold_into (choose_largest_member members (directory.is_ports_directory && anchor == place)) (
      if anchor == place
      then directory.reason
      else codes "it sits under '"
        ++ (anchor ++ (codes "/', which " ++ (directory.reader ++ codes " reads by path"))))

-- The branches below it.
fold_or_merge : Text → List PackageMember → Option Text → Option MergeTarget
unfolding choose_largest_member fold_into is_junk
fold_or_merge place members (some reason) = fold_into (choose_largest_member members false) reason
fold_or_merge place members none = some (
    if is_junk place
    then record { kind = named_for_contents; path = []; reason = [] }
    else record { kind = package_module; path = place ++ codes ".py"; reason = [] })

-- `choose_merge_target`; `none` where the choice of a member raises.
unfoldable pub choose_merge_target :
    PackagePlacement → List PackageMember → List DirectoryReadByPath → Option MergeTarget
unfolding find_fold_reason fold_at fold_or_merge
choose_merge_target placement members directories =
    let place = placement.package_path in
    elim (find_directory_read_by_path place directories) [
      | some found ↦ fold_at place members found
      | none ↦ fold_or_merge place members (find_fold_reason placement)
    ]

-- `target.kind == FOLD_INSIDE`
abbrev pub is_fold : MergeTarget → Bool
is_fold target = elim target.kind [
  | fold_inside ↦ true
  | named_for_contents ↦ false
  | package_module ↦ false
]
