-- ===== src/Tests/Fixtures.antt =====
-- Two plugin checks, a file system without links, a file to read and findings in it.
use lanorme.Prelude.{
  ℕ, String, Bool, true, false, Option, none, some, List, [], ◌∷◌, nat_eq, list_eq, pair_eq,
  triple_eq,
}
use lanorme.Prelude.Dict.{Dict}
use lanorme.Text.{Text, codes}
use lanorme.Finding.{Violation, CheckResult}
use lanorme.FilePath.{FileSystem}
use lanorme.Check.{CheckApi, Invocation, returned, raised}

pub record Plugin : Type 0 where
  pub number : ℕ
  pub title : Text
  pub declared : List Text
  pub whole_tree : Bool
  pub outcome : Invocation

abbrev pub plugins : CheckApi
plugins = record {
  Check = Plugin;
  identity = λ p. p.number;
  name = λ p. p.title;
  description = λ p. p.title;
  rules = λ p. p.declared;
  is_tree_scoped = λ p. p.whole_tree;
  advisory_codes = λ p. [];
  enabled = λ p. none;
  invoke = λ p scan. p.outcome;
  audit = λ p. none;
}

abbrev pub finding : String → ℕ → String → Violation
finding file line rule = record {
  file = codes file;
  line = line;
  rule = codes rule;
  message = codes "m";
  fix = codes "f";
  column = none;
  end_line = none;
  end_column = none;
  promoted = false;
}

abbrev pub dry_result : CheckResult
dry_result = record {
  check = codes "duplication";
  violations = finding "a.py" 2 "DRY-001" ∷ finding "a.py" 2 "DRY-001: clone" ∷ [];
  warnings = finding "b.py" 1 "SIZE-001: long" ∷ finding "" 0 "RUN-000: crash" ∷ [];
}

abbrev pub dry_check : Plugin
dry_check = record {
  number = 1;
  title = codes "duplication";
  declared = codes "DRY-001: clone" ∷ [];
  whole_tree = true;
  outcome = returned dry_result;
}

abbrev pub size_check : Plugin
size_check = record {
  number = 2;
  title = codes "size";
  declared = codes "SIZE-001: long" ∷ codes "SIZE-002: deep" ∷ [];
  whole_tree = false;
  outcome = raised (codes "KeyError") (codes "x");
}

abbrev pub registry : Dict Text Plugin
registry = (codes "duplication", dry_check) ∷ (codes "size", size_check) ∷ []

abbrev pub disk : FileSystem
disk = record { resolve = λ p. p; is_file = λ p. true; is_dir = λ p. false }

-- Every file has the same three lines.
abbrev pub reading : Text → Option (List Text)
reading file = some (codes "import os" ∷ codes "x = 1  # noqa: SIZE-001" ∷ codes "" ∷ [])

abbrev pub no_file : Text → Option (List Text)
no_file file = none

abbrev pub digest : Text → Text
digest s = s
