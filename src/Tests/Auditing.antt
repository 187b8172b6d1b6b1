-- ===== src/Tests/Auditing.antt =====
-- The meta check, the parse cache and the targets of a merge.
use lanorme.Prelude.{
  ℕ, zero, suc, ◌+◌, ◌-◌, ◌*◌, ◌≤◌, ◌<◌, min, String, ◌≡◌, refl, sym, ap, ap₂, ◌∙◌, subst, fun_ext,
  ◌≢◌, ◌↔◌, ◌⊎◌, inl, inr, Bool, true, false, not, ◌&&◌, ◌||◌, false≢true, Option, none, some, List,
  [], ◌∷◌, ◌++◌, map, append-nil, append_assoc, arith, ltb, leb, if◌then◌else◌, tests, Bool-cases,
  Option-cases, Eq, ◌==◌, eq_iff, eq_refl, nat_eq, list_eq, pair_eq, triple_eq, length, keep, any,
  all, count_if, contains, flat_map, length-append, keep-append, keep-keep, count_if-append,
  length-keep-le, length-keep_add, any-append, any-map, length-map, take, drop, get_elem?, Among,
  first, later, any_of_Among, Among-of_any, all_of_Among, contains_of_Among, Among-of_contains,
  Among-append_left, Among-cons, Among-of_keep, Among-of_sort, Among-keep, Among-append_right,
  Among-map, Among-flat_map, Among-of_map, Among-of_append, Among-of_flat_map, reverse,
  Among-reverse, Among-of_reverse, length-reverse, sort, Among-sort, count_if-sort, any-sort,
  sum_by, sum_by-sort, text_leb,
}
use lanorme.Text.{Text, codes, strip, join, starts_with, ends_with, base_name}
use lanorme.Prelude.Dict.{Dict, lookup, insert}
use lanorme.Tests.Fixtures.{plugins, registry, dry_result}
use lanorme.Finding.{CheckResult}
use lanorme.MetaCheck.{audit_checks}
use lanorme.MetaCheck.Clean.{is_nil, is_clean_check, audit_checks-clean}
use lanorme.Scan.Cache.{
  CacheStep, storing, new_cache, cached, after_steps, last_stored, after_steps-bounded,
}
use lanorme.MergeTargets.{
  PackageMember, is_package_file, MergeTarget, fold_inside, PackagePlacement, join_in_english,
  is_fold, choose_merge_target,
}
use lanorme.MergeTargets.Targets.{must_fold, choose_merge_target-total}
use lanorme.MergeTargets.Directories.{
  DirectoryReadByPath, is_exact, list_directories_read_by_path, find_directory_read_by_path,
}
use lanorme.MergeTargets.Directories.Found.{find_directory_read_by_path-deepest, StandsAt}

-- What the check `duplication` returned; `size` returned nothing.
abbrev outcomes : Dict Text CheckResult
outcomes = (codes "duplication", dry_result) ∷ []

audit_checks-clean_example :
    is_nil (audit_checks plugins registry outcomes).violations
    ≡ all (is_clean_check plugins outcomes) registry
audit_checks-clean_example = audit_checks-clean plugins registry outcomes

-- The notice of a crash carries no file.
one_problem : length (audit_checks plugins registry outcomes).violations ≡ 1
unfolding audit_checks sort text_leb lanorme.MetaCheck.meta_name strip lookup
one_problem = refl

abbrev steps : List (CacheStep ℕ)
steps = storing (codes "a.py") 1 ∷ storing (codes "b.py") 2 ∷ storing (codes "a.py") 3 ∷ []

after_steps-bounded_example :
    (length (after_steps steps (new_cache 1)).entries ≤ 1)
    × ((k : Text)
        → (cached k (after_steps steps (new_cache 1)) ≡ none)
          ⊎ (cached k (after_steps steps (new_cache 1)) ≡ last_stored steps (λ j. none) k))
after_steps-bounded_example = after_steps-bounded 1 steps

full_cache :
    (cached (codes "a.py") (after_steps steps (new_cache 1)) ≡ some 3)
    × (cached (codes "b.py") (after_steps steps (new_cache 1)) ≡ none)
unfolding cached lookup after_steps lanorme.Prelude.Dict.has_key new_cache insert
full_cache = (refl, refl)

abbrev rules_by_path : List DirectoryReadByPath
rules_by_path = list_directories_read_by_path (codes "domain" ∷ []) (codes "application/ports") []

abbrev layer : DirectoryReadByPath
layer = record {
  path = codes "domain";
  reader = codes "[layer_deps] layers";
  reason = codes "[layer_deps] layers names it";
  is_ports_directory = false;
}

layer_found :
    find_directory_read_by_path (codes "app/domain/money") rules_by_path
    ≡ some (layer, codes "app/domain")
unfolding find_directory_read_by_path list_directories_read_by_path ends_with starts_with
layer_found = refl

find_directory_read_by_path-deepest_example :
    Among layer rules_by_path
    × ((starts_with (codes "app/domain/money") (codes "app/domain") ≡ true)
        × (ends_with (b'/' ∷ codes "app/domain") (b'/' ∷ codes "domain") ≡ true))
    × (any (is_exact (codes "app/domain/money")) rules_by_path ≡ true
        → codes "app/domain" ≡ codes "app/domain/money")
    × ((other : DirectoryReadByPath) (k : ℕ)
        → Among other rules_by_path
        → StandsAt (codes "app/domain/money") other k
        → k + length other.path ≤ length (codes "app/domain"))
find_directory_read_by_path-deepest_example =
    find_directory_read_by_path-deepest (codes "app/domain/money") rules_by_path layer
      (codes "app/domain") layer_found

abbrev member : String → ℕ → PackageMember
member path lines = record { relative = codes path; lines = lines; code_lines = lines }

abbrev members : List PackageMember
members =
    member "app/domain/money/__init__.py" 40
    ∷ member "app/domain/money/tax.py" 12
    ∷ member "app/domain/money/rate.py" 30
    ∷ []

abbrev placed : PackagePlacement
placed = record {
  package_path = codes "app/domain/money";
  is_top_level = false;
  has_sibling_module = false;
  staying_files = [];
}

some_own : any (λ m. not (is_package_file m)) members ≡ true
unfolding is_package_file base_name
some_own = refl

choose_merge_target-total_example :
    (target : MergeTarget) × (choose_merge_target placed members rules_by_path ≡ some target)
    × (is_fold target ≡ true
        → (m : PackageMember) × Among m members
          × (is_package_file m ≡ false)
          × (target.path ≡ m.relative))
    × (must_fold placed rules_by_path ≡ true → is_fold target ≡ true)
choose_merge_target-total_example = choose_merge_target-total placed members rules_by_path some_own

target_chosen :
    choose_merge_target placed members rules_by_path
    ≡ some (record {
      kind = fold_inside;
      path = codes "app/domain/money/rate.py";
      reason = codes "it sits under 'app/domain/', which [layer_deps] layers reads by path";
    })
unfolding choose_merge_target find_directory_read_by_path list_directories_read_by_path ends_with
    starts_with base_name
target_chosen = refl

listed : join_in_english (codes "a" ∷ codes "b" ∷ codes "c" ∷ []) ≡ codes "a, b and c"
unfolding join_in_english join
listed = refl
