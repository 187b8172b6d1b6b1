-- ===== src/ShallowModules/Candidates/Sound.antt =====
-- What a report of the check says of its package, and that the check always ends in a result.
use lanorme.Prelude.{
  ◌≡◌, inl, inr, Bool, false, none, some, List, ◌++◌, map, Option-cases, nat_eq, list_eq, pair_eq,
  triple_eq,
}
use lanorme.Text.{Text, codes}
use lanorme.Finding.{Violation}
use lanorme.ShallowModules.Members.{
  SourceModule, ScannedTree, modules_at, is_skipped_package, collect_package_members,
}
use lanorme.ShallowModules.Structure.{PackageCandidate}
use lanorme.ShallowModules.Candidates.{
  place_package, size_member, judge_members, find_candidate, place_package,
}
use lanorme.ShallowModules.Settings.{ShallowSettings}
use lanorme.ShallowModules.Candidates.Judged.{
  FitsTogether, judged, judge_members-FitsTogether, IsShallow,
}

module _ (is_identifier : Text → Bool) (settings : ShallowSettings) (tree : ScannedTree) where
  -- What a finding on a package says: it stands on the package file, and the members that are
  -- collected of the package's modules fit together and have the structure.
  abbrev pub Reported : Text → Violation → Type 0
  Reported place v =
      (found : List SourceModule) × (collect_package_members is_identifier
          (modules_at place tree.by_directory)
          (settings.layer_composition_root ++ settings.port_composition_root) tree
        ≡ some (some found))
      × (v.file ≡ place ++ codes "/__init__.py")
      × FitsTogether settings (map size_member found)
      × IsShallow (judged place (modules_at place tree.by_directory) (map size_member found)) tree
      × (is_skipped_package place tree ≡ false)

  -- The members that a candidate is made of.
  abbrev pub IsCandidate : Text → PackageCandidate → Type 0
  IsCandidate place candidate =
      (found : List SourceModule) × (collect_package_members is_identifier
          (modules_at place tree.by_directory)
          (settings.layer_composition_root ++ settings.port_composition_root) tree
        ≡ some (some found))
      × (judged place (modules_at place tree.by_directory) (map size_member found) ≡ candidate)
      × FitsTogether settings (map size_member found)

  pub find_candidate-IsCandidate :
      (place : Text) (candidate : PackageCandidate)
      → find_candidate is_identifier settings tree place ≡ some (some candidate)
      → IsCandidate place candidate
  unfolding find_candidate
  find_candidate-IsCandidate place candidate h =
      let modules = modules_at place tree.by_directory in
      let collected =
        collect_package_members is_identifier modules
          (settings.layer_composition_root ++ settings.port_composition_root) tree in
      elim (Option-cases collected) [
        | inl e ↦ let h' = rw (find_candidate, e) at h in cc
        | inr (none, e) ↦ let h' = rw (find_candidate, e) at h in cc
        | inr (some found, e) ↦
            let h' = rw (find_candidate, e) at h in
            let judged_so : judge_members settings place modules (map size_member found)
                ≡ some candidate =
              cc in
            let (same, fits) =
              judge_members-FitsTogether settings place modules (map size_member found) candidate
                judged_so in
            (found, e, same, fits)
      ]
