-- ===== src/ShallowModules/Members.antt =====
-- lanorme/checks/package_members.py: the tree that is read, and which modules are members.
use lanorme.Prelude.{
  ℕ, ◌+◌, ◌-◌, Bool, false, not, ◌&&◌, ◌||◌, Option, none, some, List, [], ◌∷◌, ◌++◌, map,
  if◌then◌else◌, ◌==◌, nat_eq, list_eq, pair_eq, triple_eq, length, any, contains, take,
}
use lanorme.Text.{Text, codes, is_upper, split, join, starts_with, ends_with, base_name, dir_name}
use lanorme.Prelude.Partial.{keep_when}
use lanorme.Prelude.Dict.{Dict, lookup, insert}
use lanorme.Glob.{fnmatch}
use lanorme.Paths.{is_test_file}
use lanorme.LineCounts.{DocstringSpan, count_code_lines}
use lanorme.ModuleGraph.{ModuleGraph}
use lanorme.ModuleGraph.Build.{Module, build_module_graph}
use lanorme.ModuleGraph.Reexport.{Block, is_reexport_block}

-- A file of the tree as the check reads it: with its imports, its lines, its docstrings and its
-- statements, or one that does not parse or is nested too deeply to classify.
pub record SourceModule : Type 0 where
  pub imported : Module
  pub lines : List Text
  pub docstrings : List DocstringSpan
  pub body : Block

pub data ScannedFile : Type 0 where
  parsed : SourceModule → ScannedFile
  unreadable : Text → ScannedFile

unfoldable pub relative : SourceModule → Text
relative m = m.imported.relative

-- `relative.rsplit("/", 1)[0] if "/" in relative else ""`
unfoldable pub find_directory : Text → Text
find_directory path = dir_name path

-- `s.removesuffix(p)`
remove_suffix : Text → Text → Text
remove_suffix s p = if ends_with s p then take (length s - length p) s else s

unfoldable pub find_stem : Text → Text
unfolding remove_suffix
find_stem path = remove_suffix (base_name path) (codes ".py")

pub record ScannedTree : Type 0 where
  pub graph : ModuleGraph
  pub by_directory : Dict Text (List SourceModule)
  pub broken_directories : List Text
  pub relatives : List Text
  pub reexport_only : Dict Text Bool

unfoldable pub modules_at : Text → Dict Text (List SourceModule) → List SourceModule
modules_at directory table = elim (lookup directory table) [ none ↦ [] | some ms ↦ ms ]

-- `by_directory[find_directory(module.relative)].append(module)`
unfoldable pub group_modules :
    List SourceModule → Dict Text (List SourceModule) → Dict Text (List SourceModule)
unfolding find_directory modules_at relative
group_modules [] table = table
group_modules (m ∷ modules) table =
    let directory = find_directory (relative m) in
    group_modules modules (insert directory (modules_at directory table ++ m ∷ []) table)

unfoldable pub parsed_modules : List ScannedFile → List SourceModule
parsed_modules [] = []
parsed_modules (parsed m ∷ files) = m ∷ parsed_modules files
parsed_modules (unreadable _ ∷ files) = parsed_modules files

unfoldable pub broken_of : List ScannedFile → List Text
unfolding find_directory
broken_of [] = []
broken_of (parsed _ ∷ files) = broken_of files
broken_of (unreadable path ∷ files) = find_directory path ∷ broken_of files

unfoldable pub reexport_table : List SourceModule → Dict Text Bool → Dict Text Bool
unfolding relative
reexport_table [] table = table
reexport_table (m ∷ modules) table =
    reexport_table modules (insert (relative m) (is_reexport_block m.body) table)

unfoldable pub scanned_tree : List ScannedFile → ModuleGraph → ScannedTree
unfolding group_modules parsed_modules broken_of reexport_table relative
scanned_tree files graph = record {
  graph = graph;
  by_directory = group_modules (parsed_modules files) [];
  broken_directories = broken_of files;
  relatives = map relative (parsed_modules files);
  reexport_only = reexport_table (parsed_modules files) [];
}

-- `read_scanned_tree`, of the files that `iter_modules` yields; `none` where it raises.
unfoldable pub read_scanned_tree : List ScannedFile → Option ScannedTree
unfolding scanned_tree
read_scanned_tree files = elim (build_module_graph (map (λ m. m.imported) (parsed_modules files))) [
  | none ↦ none
  | some graph ↦ some (scanned_tree files graph)
]

-- `tree.count_code`; the counts that the tree remembers are left out.
unfoldable pub count_code : SourceModule → ℕ
count_code m = count_code_lines m.docstrings m.lines

-- `EXCLUDED_DIR_PARTS`
excluded_dir_parts : List Text
excluded_dir_parts = codes "alembic" ∷ codes "migrations" ∷ []

unfoldable pub is_skipped_package : Text → ScannedTree → Bool
unfolding excluded_dir_parts
is_skipped_package place tree =
    any (contains excluded_dir_parts) (split b'/' place) || contains tree.broken_directories place

framework_module_stems : List Text
framework_module_stems =
    codes "admin"
    ∷ codes "apps"
    ∷ codes "asgi"
    ∷ codes "settings"
    ∷ codes "tasks"
    ∷ codes "urls"
    ∷ codes "wsgi"
    ∷ []

script_stems : List Text
script_stems = codes "__main__" ∷ codes "manage" ∷ codes "setup" ∷ []

lower_char : ℕ → ℕ
lower_char c = if is_upper c then c + 32 else c

-- `needle in s`
occurs_in : Text → Text → Bool
occurs_in needle [] = needle == []
occurs_in needle (c ∷ s) = starts_with (c ∷ s) needle || occurs_in needle s

unfoldable pub is_exempting_file : SourceModule → Bool
unfolding relative find_stem framework_module_stems lower_char occurs_in
is_exempting_file m =
    let name = base_name (relative m) in
    (name == codes "_version.py"
      || (ends_with name (codes "_pb2.py") || ends_with name (codes "_pb2_grpc.py")))
    || (contains framework_module_stems (find_stem (relative m))
        || occurs_in (codes "do not edit") (map lower_char (join (codes "\n") (take 5 m.lines))))

-- `tree.reexport_only[relative]`; `none` where the key is missing, a `KeyError`.
unfoldable pub only_reexports : ScannedTree → SourceModule → Option Bool
unfolding relative
only_reexports tree m = lookup (relative m) tree.reexport_only

matches_glob : Text → Text → Bool
matches_glob path pattern_ = fnmatch path pattern_ || fnmatch path (codes "*/" ++ pattern_)

-- `str.isidentifier` is a parameter.
module _ (is_identifier : Text → Bool) where
  -- The tests of a module by its name and its path, before the last one.
  unfoldable pub is_left_out : List Text → SourceModule → Bool
  unfolding relative find_stem script_stems matches_glob
  is_left_out composition_globs m =
      let path = relative m in
      let stem = find_stem path in
      not (stem == codes "__init__")
      && ((is_test_file path || (contains script_stems stem || not (is_identifier stem)))
          || any (matches_glob path) composition_globs)

  -- `none` where it raises, as in what follows.
  unfoldable pub is_member : List Text → ScannedTree → SourceModule → Option Bool
  unfolding is_left_out only_reexports
  is_member composition_globs tree m =
      if is_left_out composition_globs m
      then some false
      else elim (only_reexports tree m) [ none ↦ none | some reexports ↦ some (not reexports) ]

  -- `some none` where the package is exempt.
  unfoldable pub collect_package_members :
      List SourceModule → List Text → ScannedTree → Option (Option (List SourceModule))
  unfolding is_exempting_file is_member
  collect_package_members modules composition_globs tree =
      if any is_exempting_file modules
      then some none
      else elim (keep_when (is_member composition_globs tree) modules) [
        | none ↦ none
        | some found ↦ some (some found)
      ]
