-- ===== src/FilePath.antt =====
-- pathlib on POSIX: an absolute path is the list of its parts. Only `resolve` and the tests on
-- files ask the file system; they are a parameter.
use lanorme.Prelude.{
  Bool, true, false, not, ◌&&◌, ◌||◌, Option, none, some, List, [], ◌∷◌, ◌++◌, if◌then◌else◌, ◌==◌,
  nat_eq, list_eq, pair_eq, triple_eq, keep,
}
use lanorme.Text.{Text, codes, split, join, starts_with}

abbrev pub FilePath : Type 0
FilePath = List Text

is_part : Text → Bool
is_part part = not (part == [] || part == codes ".")

-- The parts of a path's text: empty parts and `.` are dropped, `..` stays.
unfoldable pub parts_of : Text → List Text
unfolding is_part
parts_of file = keep is_part (split b'/' file)

-- `root / file`: an absolute `file` replaces the root.
unfoldable pub join_path : FilePath → Text → FilePath
unfolding parts_of
join_path root file = if starts_with file (codes "/") then parts_of file else root ++ parts_of file

-- `path.relative_to(root)`, `none` for its `ValueError`.
unfoldable pub relative_to : FilePath → FilePath → Option (List Text)
relative_to path [] = some path
relative_to [] (r ∷ root) = none
relative_to (p ∷ path) (r ∷ root) = if p == r then relative_to path root else none

-- `as_posix()` of a relative path.
unfoldable pub as_posix : List Text → Text
as_posix [] = codes "."
as_posix (part ∷ parts) = join (codes "/") (part ∷ parts)

-- `ancestor in path.parents`
unfoldable pub is_parent : FilePath → FilePath → Bool
is_parent [] [] = false
is_parent [] (p ∷ path) = true
is_parent (r ∷ root) [] = false
is_parent (r ∷ root) (p ∷ path) = r == p && is_parent root path

-- The file system: `path.resolve()` follows links, and the tests on what a path names.
pub record FileSystem : Type 0 where
  pub resolve : FilePath → FilePath
  pub is_file : FilePath → Bool
  pub is_dir : FilePath → Bool
