-- ===== src/Runner/Scopes.antt =====
-- Where a run starts, and what a subtree scan is confined to.
use lanorme.Prelude.{
  ◌≡◌, refl, sym, ap₂, ◌≢◌, ◌⊎◌, inl, inr, some, List, [], ◌∷◌, ◌++◌, Bool-cases, Option-cases,
  ◌==◌, eq_iff, nat_eq, list_eq, pair_eq, triple_eq,
}
use lanorme.Text.{Text}
use lanorme.FilePath.{FilePath, FileSystem, relative_to, as_posix}
use lanorme.Runner.{resolve_run_root}

relative_to-append :
    (path root parts : FilePath) → relative_to path root ≡ some parts → root ++ parts ≡ path
unfolding relative_to
relative_to-append path [] parts h = cc
relative_to-append [] (r ∷ root) parts h = cc
relative_to-append (p ∷ path) (r ∷ root) parts h = elim (Bool-cases (p == r)) [
  | inr differ ↦ let never = rw differ at h in cc
  | inl same ↦
      ap₂ ◌∷◌ (sym ((eq_iff p r).0 same)) (relative_to-append path root parts (rw same at h))
]

-- A run with no scope starts at the scan root itself. With a scope it starts at the project root,
-- and the scope is the way from there down to the scan root, which is not empty.
pub resolve_run_root-lem :
    (fs : FileSystem) (scan_root project_root : FilePath)
    → (resolve_run_root fs scan_root project_root ≡ (scan_root, []))
      ⊎ ((parts : List Text) × (resolve_run_root fs scan_root project_root
            ≡ (project_root, as_posix parts))
          × (fs.resolve project_root ++ parts ≡ fs.resolve scan_root)
          × (parts ≢ []))
unfolding resolve_run_root
resolve_run_root-lem fs scan_root project_root =
    elim (Option-cases (relative_to (fs.resolve scan_root) (fs.resolve project_root))) [
      | inl outside ↦ inl (rw (resolve_run_root, outside) refl)
      | inr ([], found) ↦ inl (rw (resolve_run_root, found) refl)
      | inr (p ∷ parts, found) ↦ inr (
        p ∷ parts,
        rw (resolve_run_root, found) refl,
        relative_to-append (fs.resolve scan_root) (fs.resolve project_root) (p ∷ parts) found,
        λ never. cc,
      )
    ]
