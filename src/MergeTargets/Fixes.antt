-- ===== src/MergeTargets/Fixes.antt =====
-- lanorme/checks/merge_targets.py: the message and the fix of a finding.
use lanorme.Prelude.{
  ℕ, ◌-◌, Bool, true, not, ◌&&◌, List, [], ◌∷◌, ◌++◌, map, ltb, if◌then◌else◌, ◌==◌, nat_eq,
  list_eq, pair_eq, triple_eq, length, keep, any, take, sort, sum_by, text_leb,
}
use lanorme.Text.{Text, codes, join, decimal, base_name, dir_name}
use lanorme.MergeTargets.{
  PackageMember, file_name, is_package_file, named_for_contents, MergeTarget, max_listed_members,
  tiny_code_lines, join_in_english, is_fold,
}

-- By (not is_package_file, file_name).
member_leb : PackageMember → PackageMember → Bool
member_leb member other =
    if is_package_file member
    then (if is_package_file other then text_leb (file_name member) (file_name other) else true)
    else not (is_package_file other) && text_leb (file_name member) (file_name other)

unfoldable pub order_members : List PackageMember → List PackageMember
unfolding member_leb
order_members members = sort member_leb members

total_lines : List PackageMember → ℕ
total_lines members = sum_by (λ member. member.lines) members

unfoldable pub build_message : Text → List PackageMember → ℕ → Text
unfolding order_members total_lines max_listed_members tiny_code_lines file_name
build_message place members tiny_count =
    let ordered = order_members members in
    let sizes =
      map (λ member. file_name member ++ (codes " " ++ decimal member.lines))
        (take max_listed_members ordered) in
    let listing =
      join (codes ", ") sizes
      ++ (if ltb max_listed_members (length ordered)
          then codes ", and " ++ (decimal (length ordered - max_listed_members) ++ codes " more")
          else []) in
    codes "Package '"
    ++ (place
        ++ (codes "/' holds "
            ++ (decimal (length members)
                ++ (codes " modules in "
                    ++ (decimal (total_lines members)
                        ++ (codes " lines, "
                            ++ (decimal tiny_count
                                ++ (codes " of them under "
                                    ++ (decimal tiny_code_lines
                                        ++ (codes " lines of code ("
                                            ++ (listing
                                                ++ codes
                                                    "). Is each of these really its own thing?")))))))))))

pub record FixContext : Type 0 where
  pub package_path : Text
  pub dotted : Text
  pub members : List PackageMember
  pub warning_lines : ℕ

unfoldable pub build_silence_advice : Text → Text
build_silence_advice place =
    codes "If the split is deliberate, keep it and silence this with a per-file-ignores entry for '"
    ++ (place
        ++ codes
            "/__init__.py', or '# noqa: SHALLOW-001' on its line 1 (which counts against a SUPPRESS-001 budget).")

unfoldable pub build_fold_fix : FixContext → MergeTarget → Text → Text
unfolding order_members
build_fold_fix context target size =
    let ordered = order_members context.members in
    let moved = map file_name (
      keep (λ member. not (member.relative == target.path) && not (is_package_file member))
        ordered) in
    let all_moved =
      moved
      ++ (if any is_package_file ordered then codes "the code in '__init__.py'" ∷ [] else []) in
    codes "If they belong together, consider folding "
    ++ (join_in_english all_moved
        ++ (codes " into '"
            ++ (target.path
                ++ (codes "' ("
                    ++ (size
                        ++ (codes ") and keeping the '"
                            ++ (context.package_path
                                ++ (codes "/' directory, because "
                                    ++ (target.reason ++ codes ".")))))))))

unfoldable pub build_merge_fix : FixContext → MergeTarget → Text → Text
unfolding order_members
build_merge_fix context target size =
    let names = join_in_english (map file_name (order_members context.members)) in
    let place = context.package_path in
    let parent = dir_name place in
    let where_to =
      if parent == [] then codes "the project root" else codes "'" ++ (parent ++ codes "/'") in
    codes "If they belong together, consider merging "
    ++ (names
        ++ (codes " into one module" ++ (elim target.kind [
          | named_for_contents ↦
              codes " in "
              ++ (where_to
                  ++ (codes " named for what it holds rather than '"
                      ++ (base_name place
                          ++ (codes ".py' ("
                              ++ (size ++ (codes ") and deleting '" ++ (place ++ codes "/'.")))))))
          | _ ↦
              codes ", '"
              ++ (target.path
                  ++ (codes "' ("
                      ++ (size
                          ++ (codes "), deleting '"
                              ++ (place
                                  ++ (codes "/' and importing from '"
                                      ++ (context.dotted
                                          ++ (codes "' instead of '"
                                              ++ (context.dotted ++ codes ".<module>'.")))))))))
        ])))

unfoldable pub build_fix : FixContext → MergeTarget → Text
unfolding total_lines build_fold_fix build_merge_fix build_silence_advice
build_fix context target =
    let size =
      decimal (total_lines context.members)
      ++ (codes " lines, under SIZE-001's "
          ++ (decimal context.warning_lines ++ codes "-line warning")) in
    (if is_fold target
      then build_fold_fix context target size
      else build_merge_fix context target size)
    ++ (codes " " ++ build_silence_advice context.package_path)
