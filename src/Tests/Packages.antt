-- ===== src/Tests/Packages.antt =====
-- A small tree with a package that is split too finely.
use lanorme.Prelude.{
  ℕ, zero, suc, ◌+◌, ◌-◌, ◌*◌, ◌≤◌, ◌<◌, min, String, ◌≡◌, refl, sym, ap, ap₂, ◌∙◌, subst, fun_ext,
  ◌≢◌, ◌↔◌, ◌⊎◌, inl, inr, Bool, true, false, not, ◌&&◌, ◌||◌, false≢true, Option, none, some, List,
  [], ◌∷◌, ◌++◌, map, append-nil, append_assoc, arith, ltb, leb, if◌then◌else◌, tests, Bool-cases,
  Option-cases, Eq, ◌==◌, eq_iff, eq_refl, nat_eq, list_eq, pair_eq, triple_eq, length, keep, any,
  all, count_if, contains, flat_map, length-append, keep-append, keep-keep, count_if-append,
  length-keep-le, length-keep_add, any-append, any-map, length-map, take, drop, get_elem?, later,
  any_of_Among, Among-of_any, all_of_Among, contains_of_Among, Among-of_contains, Among-append_left,
  Among-cons, Among-of_keep, Among-of_sort, Among-keep, Among-append_right, Among-map,
  Among-flat_map, Among-of_map, Among-of_append, Among-of_flat_map, reverse, Among-reverse,
  Among-of_reverse, length-reverse, Among-sort, count_if-sort, any-sort, sum_by, sum_by-sort,
}
use lanorme.Text.{Text, codes, base_name, dir_name}
use lanorme.Finding.{Violation, CheckResult}
use lanorme.ModuleGraph.Build.{Module}
use lanorme.ModuleGraph.Names.{ImportStatement, import_names}
use lanorme.ModuleGraph.Reexport.{Block, no_more, then_next, opaque_statement}
use lanorme.ShallowModules.Members.{SourceModule, ScannedFile, parsed}
use lanorme.ShallowModules.Candidates.{check_shallow}
use lanorme.ShallowModules.Settings.{ShallowSettings, default_settings}
use lanorme.ShallowModules.Candidates.Total.{FilesInitOnce, check_shallow-total}

abbrev source : String → List ImportStatement → Block → ScannedFile
source path imports body = parsed (record {
  imported = record { relative = codes path; statements = imports };
  lines = codes "x = 1" ∷ [];
  docstrings = [];
  body = body;
})

abbrev with_code : Block
with_code = then_next opaque_statement no_more

abbrev files : List ScannedFile
files =
    source "app/__init__.py" [] no_more
    ∷ source "app/main.py"
        (import_names (codes "app.tax.rates" ∷ codes "app.tax.sums" ∷ codes "app.tax.text" ∷ [])
          ∷ [])
        with_code
    ∷ source "app/tax/__init__.py" [] no_more
    ∷ source "app/tax/rates.py" [] with_code
    ∷ source "app/tax/sums.py" [] with_code
    ∷ source "app/tax/text.py" [] with_code
    ∷ []

abbrev any_name : Text → Bool
any_name s = true

abbrev switched_on : ShallowSettings
switched_on = record default_settings { enabled = true }

inits : FilesInitOnce files
unfolding lanorme.ShallowModules.Members.group_modules lanorme.ShallowModules.Members.parsed_modules
    lanorme.Prelude.Dict.lookup lanorme.Prelude.Dict.insert dir_name base_name
inits = refl

check_shallow-total_example :
    (result : CheckResult) × (check_shallow any_name switched_on files ≡ some result)
unfolding default_settings
check_shallow-total_example = check_shallow-total any_name switched_on files (omega arith) inits

abbrev split_too_finely : Violation
split_too_finely = record {
  file = codes "app/tax/__init__.py";
  line = 1;
  rule = codes "SHALLOW-001";
  message =
      codes
        "Package 'app/tax/' holds 3 modules in 3 lines, 3 of them under 20 lines of code (rates.py 1, sums.py 1, text.py 1). Is each of these really its own thing?";
  fix =
      codes
        "If they belong together, consider merging rates.py, sums.py and text.py into one module, 'app/tax.py' (3 lines, under SIZE-001's 300-line warning), deleting 'app/tax/' and importing from 'app.tax' instead of 'app.tax.<module>'. If the split is deliberate, keep it and silence this with a per-file-ignores entry for 'app/tax/__init__.py', or '# noqa: SHALLOW-001' on its line 1 (which counts against a SUPPRESS-001 budget).";
  column = none;
  end_line = none;
  end_column = none;
  promoted = false;
}

abbrev outcome : CheckResult
outcome = record {
  check = codes "shallow_modules";
  violations = [];
  warnings = split_too_finely ∷ [];
}
