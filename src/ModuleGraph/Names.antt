-- ===== src/ModuleGraph/Names.antt =====
-- lanorme/module_graph.py: the dotted names of modules, and what an import names; with the imports
-- of lanorme/source_views.py.
use lanorme.Prelude.{
  ℕ, zero, suc, ◌-◌, Bool, true, false, not, Option, none, some, List, [], ◌∷◌, ◌++◌, map, leb,
  if◌then◌else◌, ◌==◌, nat_eq, list_eq, pair_eq, triple_eq, length, keep, contains, take, drop,
  reverse,
}
use lanorme.Text.{Text, codes, split, join}
use lanorme.Prelude.Dict.{Dict, lookup}
use lanorme.ModuleGraph.{ModuleNode, items_at}

-- An `import` with its names, or a `from` with its module, its level and its names; an alias is
-- read by its name alone.
pub data ImportStatement : Type 0 where
  import_names : List Text → ImportStatement
  from_names : Option Text → ℕ → List Text → ImportStatement

pub record ImportedModule : Type 0 where
  pub is_from : Bool
  pub imported : Text
  pub aliases : List Text
  pub level : ℕ

or_empty : Option Text → Text
or_empty none = []
or_empty (some s) = s

unfoldable pub list_imported_modules : ImportStatement → List ImportedModule
unfolding or_empty
list_imported_modules (import_names names) =
    map (λ name. record { is_from = false; imported = name; aliases = name ∷ []; level = 0 }) names
list_imported_modules (from_names base level names) =
    record { is_from = true; imported = or_empty base; aliases = names; level = level } ∷ []

-- `parts[-1]` and `parts[:-1]`
last_of : List Text → Text
last_of [] = []
last_of (p ∷ []) = p
last_of (p ∷ q ∷ parts) = last_of (q ∷ parts)

unfoldable pub drop_last : List Text → List Text
drop_last [] = []
drop_last (p ∷ []) = []
drop_last (p ∷ q ∷ parts) = p ∷ drop_last (q ∷ parts)

-- `s.removesuffix(suffix)`
remove_suffix : Text → Text → Text
remove_suffix suffix [] = []
remove_suffix suffix (c ∷ s) =
    let rest = remove_suffix suffix s in if (c ∷ s) == suffix then [] else c ∷ rest

-- The loop of `_split_import_name`: how many parts stand before the name.
unfoldable pub name_start : List Text → List Text → ℕ → ℕ
name_start packages parts zero = 0
name_start packages parts (suc start) =
    let less = name_start packages parts start in
    if contains packages (join (codes "/") (take (suc start) parts)) then less else suc start

split_parts : List Text → List Text → Option (Text × Text)
unfolding name_start
split_parts packages [] = none
split_parts packages (p ∷ parts) =
    let start = name_start packages (p ∷ parts) (length parts) in
    some (join (codes "/") (take start (p ∷ parts)), join (codes ".") (drop start (p ∷ parts)))

-- The import root and the dotted name of a file.
unfoldable pub split_import_name : Text → List Text → Option (Text × Text)
unfolding split_parts last_of drop_last remove_suffix
split_import_name relative packages =
    let parts = split b'/' (remove_suffix (codes ".py") relative) in
    split_parts packages (if last_of parts == codes "__init__" then drop_last parts else parts)

-- The prefixes of a list that are not empty, shortest first.
prefixes : List Text → List (List Text)
prefixes [] = []
prefixes (p ∷ parts) = (p ∷ []) ∷ map (◌∷◌ p) (prefixes parts)

unfoldable pub dotted_prefixes : List Text → List Text
unfolding prefixes
dotted_prefixes parts = map (join (codes ".")) (prefixes parts)

-- `target.split(".") if target else []`
target_parts : Text → List Text
target_parts [] = []
target_parts (c ∷ s) = split b'.' (c ∷ s)

under_target : Text → Text → Text
under_target [] name = name
under_target (c ∷ s) name = (c ∷ s) ++ (codes "." ++ name)

unfoldable pub candidate_submodules : Text → ImportedModule → List Text
unfolding under_target
candidate_submodules target imp =
    if imp.is_from
    then map (under_target target) (keep (λ name. not (name == codes "*")) imp.aliases)
    else []

-- The prefixes of the target, longest first.
unfoldable pub candidate_prefixes : Text → List Text
unfolding dotted_prefixes target_parts
candidate_prefixes target = reverse (dotted_prefixes (target_parts target))

-- `found.add(item)` and the union of sets.
abbrev pub add : Text → List Text → List Text
add item found = if contains found item then found else found ++ item ∷ []

abbrev pub union : List Text → List Text → List Text
union found [] = found
union found (item ∷ items) = union (add item found) items

-- `names[name] for name in ... if name in names`
unfoldable pub named : Dict Text Text → List Text → List Text
named names [] = []
named names (n ∷ wanted) =
    let rest = named names wanted in elim (lookup n names) [ none ↦ rest | some file ↦ file ∷ rest ]

-- The first prefix that is a name.
unfoldable pub first_named : Dict Text Text → List Text → List Text
first_named names [] = []
first_named names (n ∷ wanted) =
    let rest = first_named names wanted in
    elim (lookup n names) [ none ↦ rest | some file ↦ file ∷ [] ]

unfoldable pub look_up_in_root : Dict Text Text → List Text → List Text → List Text
unfolding named first_named
look_up_in_root names submodules name_prefixes =
    union (union [] (named names submodules)) (first_named names name_prefixes)

pub record NameTable : Type 0 where
  pub by_root : Dict Text (Dict Text Text)
  pub roots_of : Dict Text (List Text)

-- `table.by_root.get(root, {})`
unfoldable pub names_in : NameTable → Text → Dict Text Text
names_in names root = elim (lookup root names.by_root) [ none ↦ [] | some own ↦ own ]

-- `none` where the import climbs too far.
unfoldable pub resolve_relative_target : ModuleNode → ImportedModule → Option Text
unfolding drop_last
resolve_relative_target node imp =
    let dotted = split b'.' node.dotted in
    let base = if node.is_package then dotted else drop_last dotted in
    let climb = imp.level - 1 in
    if leb (length base) climb
    then none
    else let kept = take (length base - climb) base in
      some (join (codes ".") (if imp.imported == [] then kept else kept ++ imp.imported ∷ []))

-- The other roots that hold one of the names.
unfoldable pub other_roots : NameTable → Text → List Text → List Text → List Text
unfolding items_at
other_roots names own [] found = found
other_roots names own (n ∷ wanted) found =
    other_roots names own wanted
      (union found (keep (λ root. not (root == own)) (items_at names.roots_of n)))

unfoldable pub in_only_root : NameTable → List Text → List Text → List Text → List Text
unfolding look_up_in_root names_in
in_only_root names submodules name_prefixes (root ∷ []) =
    look_up_in_root (names_in names root) submodules name_prefixes
in_only_root names submodules name_prefixes _ = []

unfoldable pub or_elsewhere : List Text → List Text → List Text
or_elsewhere [] elsewhere = elsewhere
or_elsewhere (f ∷ found) elsewhere = f ∷ found

unfoldable pub resolve_relative : NameTable → ModuleNode → ImportedModule → Option Text → List Text
unfolding look_up_in_root candidate_submodules candidate_prefixes names_in
resolve_relative names node imp none = []
resolve_relative names node imp (some target) =
    look_up_in_root (names_in names node.root) (candidate_submodules target imp)
      (candidate_prefixes target)

unfoldable pub resolve_absolute : NameTable → ModuleNode → ImportedModule → List Text
unfolding look_up_in_root candidate_submodules candidate_prefixes or_elsewhere in_only_root
    other_roots names_in
resolve_absolute names node imp =
    let submodules = candidate_submodules imp.imported imp in
    let name_prefixes = candidate_prefixes imp.imported in
    or_elsewhere (look_up_in_root (names_in names node.root) submodules name_prefixes) (
      in_only_root names submodules name_prefixes
        (other_roots names node.root (submodules ++ name_prefixes) []))

-- The files that one import names.
unfoldable pub resolve_import : ModuleNode → ImportedModule → NameTable → List Text
unfolding resolve_relative resolve_relative_target resolve_absolute
resolve_import node imp names =
    if imp.level == 0
    then resolve_absolute names node imp
    else resolve_relative names node imp (resolve_relative_target node imp)

-- The package files that Python runs on the way to the target.
unfoldable pub list_executed_ancestors : ModuleNode → ModuleNode → NameTable → List Text
unfolding named dotted_prefixes drop_last names_in
list_executed_ancestors target importer names =
    let own =
      if importer.root == target.root then dotted_prefixes (split b'.' importer.dotted) else [] in
    named (names_in names target.root)
      (keep (λ p. not (contains own p)) (dotted_prefixes (drop_last (split b'.' target.dotted))))
