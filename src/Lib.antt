-- ===== src/Lib.antt =====
-- Lanorme, a linter that runs its checks over a tree of Python files under cascading
-- configuration.
--
-- A run goes through the parts in this order. The walk up from the scanned path folds the config
-- files on the way into one (Regions/WalkUp), each with its profiles merged in (Presets). The
-- runner (Runner, Runner/Collect) discovers the regions of the tree (Regions, with Discovery for
-- the walk and Config for the files), runs the checks that compare across files once and the
-- others once for each region, with copies that are configured from the region's config
-- (Checkconfig) and a scan that is confined to what the region governs (Scan), and folds the
-- results. Narrowing then drops what the targets, the selectors, the exclude globs, the per-file
-- ignores and the inline directives take out; Baseline drops recorded debt, and Promotion
-- escalates warnings.
--
-- What models what:
-- - Finding, Check, Registry: src/lanorme/__init__.py, with errors.py. Findings, results and their
--   status; a check is a record of operations (`CheckApi`), since checks are plugins; crash
--   isolation, registration and `run_all`.
-- - Scan: src/lanorme/scan.py, the scan and its restriction.
-- - Selectors, Directives: src/lanorme/selectors.py and src/lanorme/directives.py.
-- - SourceLines: src/lanorme/source_lines.py; the cache is passed on explicitly. Every line that a
--   run asks for comes of one reading of its forward-slashed path, so Narrowing and Baseline, which
--   read through the cache, take as a parameter what it holds under such a path.
-- - Narrowing, Promotion: src/lanorme/filters.py, with `reanchor_results` of regions.py.
-- - Baseline: src/lanorme/baseline.py; the counts that `suppress` spends are passed on explicitly.
-- - Config, Config/Files, Regions, Regions/WalkUp: src/lanorme/regions.py.
-- - Checkconfig: src/lanorme/checkconfig.py. Presets: src/lanorme/presets.py.
-- - Discovery: src/lanorme/discovery.py, over a tree given as data.
-- - Runner, Runner/Collect: src/lanorme/runner.py. Scan/Cache: the parse cache of scan.py.
-- - Paths: src/lanorme/paths.py.
-- - ModuleGraph: src/lanorme/module_graph.py, with the imports of source_views.py; the graph and its
--   searches, the building of it from the modules of a tree, and which statements only re-export.
-- - MetaCheck: src/lanorme/checks/meta.py. Markdown: src/lanorme/markdown.py. LineCounts:
--   src/lanorme/line_counts.py. Reports: src/lanorme/reports.py, as the lines that it prints.
-- - MergeTargets: src/lanorme/checks/merge_targets.py, with the constants of other checks that it
--   reads; Directories, the choice of a target, and the words of the finding.
-- - ShallowModules: src/lanorme/checks/shallow_modules.py and checks/package_members.py, the check
--   that puts the module graph, the line counts and the merge targets together.
-- - CommandLine: src/lanorme/cli.py, from the selectors to the exit code.
-- - Text, Glob, FilePath: what Python's str, fnmatch and pathlib do, as far as the code uses them.
-- - Prelude: lists, dicts, stable sorting and equality. Tests: runs on concrete data.
--
-- Bounds. A text is a list of code points. Case mapping and digits are those of ASCII; whitespace
-- is Python's. Paths are POSIX paths. Line numbers, counts and integers of a config are natural
-- numbers. A TOML float or date is opaque and counts as true. A set is a list, in the order in which
-- it is gone through. Fuel stands in three places. The chain of a region's ancestors has the depth
-- of the region's directory, which is enough, since an ancestor lies less deep. The search in a
-- module graph has one more round than its edges have entries, which is enough, since a module goes
-- on the stack once. The decimal digits of a number have the number itself, which is at least their count.
--
-- Parameters: the checks, `deepcopy` and `configure` of a check, the file system (`resolve` and
-- the file tests), the parsing of a TOML file, the reading of source lines, the digest of an
-- anchor, `str.isidentifier`, the profiles bundled with the package, and the tree below a
-- directory. A check is handed its scan, which stands for the scan that is active in a context
-- variable.
--
-- Not modelled: the wording of usage errors; argparse and the commands of cli.py that print; the rule
-- reference and diagnostics (reference.py, diagnostics.py); json.dumps and the listing of effective
-- settings; reading and writing the baseline's JSON file; the context variable of the active scan;
-- the parsing of sources and what stands on Python's syntax tree (sources.py, lexical_scopes.py,
-- comment_code.py, and most checks under src/lanorme/checks).
pub mod Checkconfig
pub mod Paths
pub mod Runner
pub mod Baseline
pub mod Check
pub mod Config
pub mod Directives
pub mod Discovery
pub mod FilePath
pub mod Finding
pub mod Glob
pub mod Narrowing
pub mod Prelude
pub mod Promotion
pub mod Regions
pub mod Scan
pub mod Selectors
pub mod SourceLines
pub mod Text
pub mod Registry
pub mod Presets
pub mod ModuleGraph
pub mod MetaCheck
pub mod Markdown
pub mod Reports
pub mod LineCounts
pub mod MergeTargets
pub mod ShallowModules
pub mod CommandLine
mod Tests
