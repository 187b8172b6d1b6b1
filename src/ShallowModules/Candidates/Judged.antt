-- ===== src/ShallowModules/Candidates/Judged.antt =====
-- What a package that is judged to be shallow is like.
use lanorme.Prelude.{
  ℕ, ◌*◌, ◌≤◌, min, ◌≡◌, inl, inr, true, false, not, ◌||◌, none, some, List, map, arith, ltb,
  Bool-cases, Option-cases, nat_eq, list_eq, pair_eq, triple_eq, length, count_if, sum_by,
}
use lanorme.Text.{Text}
use Prim.Native.Nat.{◌/◌}
use lanorme.MergeTargets.{PackageMember, tiny_code_lines}
use lanorme.ShallowModules.Members.{relative, SourceModule, ScannedTree}
use lanorme.ModuleGraph.{find_cycle_through}
use lanorme.ShallowModules.Structure.{
  PackageCandidate, is_structurally_shallow, is_reachable, is_leaf, is_repeated_sibling_layout,
}
use lanorme.ShallowModules.Candidates.{lines_of, lines_of, count_tiny, judge_members}
use lanorme.ShallowModules.Settings.{ShallowSettings, merge_budget}

-- The members are enough, and half of them have fewer than 20 lines of code; together they stay
-- within two thirds of both of the lengths at which a file is reported.
abbrev pub FitsTogether : ShallowSettings → List PackageMember → Type 0
FitsTogether settings members =
    (settings.min_modules ≤ length members)
    × (length members ≤ 2 * count_if (λ member. ltb member.code_lines 20) members)
    × (3 * sum_by (λ member. member.lines) members ≤ 2 * settings.file_warn_lines)
    × (3 * sum_by (λ member. member.lines) members ≤ 2 * settings.file_error_lines)

third_of : (n m : ℕ) → n ≤ m / 3 → 3 * n ≤ m
third_of n m h = omega (arith, h)

abbrev pub judged : Text → List SourceModule → List PackageMember → PackageCandidate
judged place modules members = record {
  package_path = place;
  modules = modules;
  members = members;
  tiny_count = count_tiny members;
}

within_warn :
    (settings : ShallowSettings) (members : List PackageMember)
    → ltb (merge_budget settings) (lines_of members) ≡ false
    → 3 * lines_of members ≤ 2 * settings.file_warn_lines
unfolding merge_budget
within_warn settings members h =
    let budget = 2 * min settings.file_warn_lines settings.file_error_lines in
    let short : lines_of members ≤ budget / 3 = ground (arith, h) in
    omega (arith, third_of (lines_of members) budget short)

within_error :
    (settings : ShallowSettings) (members : List PackageMember)
    → ltb (merge_budget settings) (lines_of members) ≡ false
    → 3 * lines_of members ≤ 2 * settings.file_error_lines
unfolding merge_budget
within_error settings members h =
    let budget = 2 * min settings.file_warn_lines settings.file_error_lines in
    let short : lines_of members ≤ budget / 3 = ground (arith, h) in
    omega (arith, third_of (lines_of members) budget short)

pub judge_members-FitsTogether :
    (settings : ShallowSettings) (place : Text) (modules : List SourceModule)
    (members : List PackageMember) (candidate : PackageCandidate)
    → judge_members settings place modules members ≡ some candidate
    → (judged place modules members ≡ candidate) × FitsTogether settings members
unfolding judge_members lines_of count_tiny tiny_code_lines
judge_members-FitsTogether settings place modules members candidate h =
    elim (Bool-cases (ltb (length members) settings.min_modules)) [
      | inl few ↦ let h' = rw (judge_members, few) at h in cc
      | inr enough ↦ elim (Bool-cases (ltb (merge_budget settings) (lines_of members))) [
        | inl long ↦ let h' = rw (judge_members, enough, long) at h in cc
        | inr short ↦ elim (Bool-cases (ltb (2 * count_tiny members) (length members))) [
          | inl large ↦ let h' = rw (judge_members, enough, short, large) at h in cc
          | inr tiny ↦
              let h' = rw (judge_members, enough, short, tiny) at h in
              let same : judged place modules members ≡ candidate = cc in
              (
                same,
                (
                  ground (arith, enough),
                  ground (arith, tiny),
                  within_warn settings members short,
                  within_error settings members short,
                ),
              )
        ]
      ]
    ]

-- Every member is reached from elsewhere and the package is a leaf. No two siblings repeat its
-- layout, and merging its modules would put no other module on a cycle.
abbrev pub IsShallow : PackageCandidate → ScannedTree → Type 0
IsShallow candidate tree =
    (is_reachable candidate tree ≡ true)
    × (is_leaf candidate tree ≡ true)
    × (is_repeated_sibling_layout candidate tree ≡ false)
    × (find_cycle_through tree.graph (map relative candidate.modules) ≡ none)

pub is_structurally_shallow-IsShallow :
    (candidate : PackageCandidate) (tree : ScannedTree)
    → is_structurally_shallow candidate tree ≡ true
    → IsShallow candidate tree
unfolding is_structurally_shallow
is_structurally_shallow-IsShallow candidate tree h =
    elim (Bool-cases (not (is_reachable candidate tree) || not (is_leaf candidate tree))) [
      | inl aside ↦ let h' = rw (is_structurally_shallow, aside) at h in cc
      | inr inside ↦ elim (Bool-cases (is_repeated_sibling_layout candidate tree)) [
        | inl repeated ↦ let h' = rw (is_structurally_shallow, inside, repeated) at h in cc
        | inr own ↦
            elim (Option-cases (find_cycle_through tree.graph (map relative candidate.modules))) [
              | inr (around, e) ↦ let h' = rw (is_structurally_shallow, inside, own, e) at h in cc
              | inl e ↦ (ground (arith, inside), ground (arith, inside), own, e)
            ]
      ]
    ]
