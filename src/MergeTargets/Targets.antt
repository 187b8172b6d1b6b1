-- ===== src/MergeTargets/Targets.antt =====
-- Which target is chosen for a package.
use lanorme.Prelude.{
  ◌≡◌, refl, sym, ap, ◌∙◌, inl, inr, Bool, true, false, not, ◌&&◌, ◌||◌, false≢true, Option, none,
  some, List, [], ◌∷◌, Bool-cases, Option-cases, ◌==◌, nat_eq, list_eq, pair_eq, triple_eq, any,
  Among,
}
use lanorme.Text.{Text}
use lanorme.MergeTargets.{
  is_fold, fold_at, fold_or_merge, PackageMember, is_package_file, choose_largest_member,
  fold_inside, is_junk, MergeTarget, PackagePlacement, find_fold_reason, fold_into, is_junk,
  choose_merge_target,
}
use lanorme.MergeTargets.Directories.{DirectoryReadByPath, find_directory_read_by_path}
use lanorme.MergeTargets.Choice.{choose_largest_member_correct}

-- A fold goes into a member that is not the package's own file.
abbrev FoldsInside : List PackageMember → MergeTarget → Type 0
FoldsInside members target =
    is_fold target ≡ true
    → (m : PackageMember) × Among m members
      × (is_package_file m ≡ false)
      × (target.path ≡ m.relative)

-- There is a target, it folds well, and it is a fold where that is asked.
abbrev Chooses : Bool → List PackageMember → Option MergeTarget → Type 0
Chooses must_fold members choice =
    (target : MergeTarget) × (choice ≡ some target)
    × FoldsInside members target
    × (must_fold ≡ true → is_fold target ≡ true)

module _ (members : List PackageMember)
    (own : any (λ member. not (is_package_file member)) members ≡ true) where
  fold_into-Chooses :
      (must_fold avoid : Bool) (reason : Text)
      → Chooses must_fold members (fold_into (choose_largest_member members avoid) reason)
  unfolding fold_into
  fold_into-Chooses must_fold avoid reason =
      let (m, e, at, other, _) = choose_largest_member_correct members avoid own in
      (
        record { kind = fold_inside; path = m.relative; reason = reason },
        ap (λ o. fold_into o reason) e,
        (λ _. (m, at, other, refl)),
        λ _. refl,
      )

  fold_at-Chooses :
      (must_fold : Bool) (place : Text) (found : DirectoryReadByPath × Text)
      → Chooses must_fold members (fold_at place members found)
  unfolding fold_at
  fold_at-Chooses must_fold place (directory, anchor) =
      fold_into-Chooses must_fold (directory.is_ports_directory && anchor == place) _

  fold_or_merge-Chooses :
      (must_fold : Bool) (place : Text) (reason : Option Text)
      → (reason ≡ none → must_fold ≡ false)
      → Chooses must_fold members (fold_or_merge place members reason)
  unfolding fold_or_merge
  fold_or_merge-Chooses must_fold place (some reason) h = fold_into-Chooses must_fold false reason
  fold_or_merge-Chooses must_fold place none h =
      let free : must_fold ≡ true → (b : Bool) → b ≡ true =
        λ k b. absurd (false≢true (sym (h refl) ∙ k)) in
      elim (Bool-cases (is_junk place)) [
        | inl junk ↦ rw (fold_or_merge, junk) (_, refl, (λ k. absurd (false≢true k)), λ k. free k _)
        | inr plain ↦
            rw (fold_or_merge, plain) (_, refl, (λ k. absurd (false≢true k)), λ k. free k _)
      ]

-- The package is a directory that another rule reads by path or sits under one, or files stay in it.
abbrev pub must_fold : PackagePlacement → List DirectoryReadByPath → Bool
must_fold placement directories =
    not (placement.staying_files == [])
    || (elim (find_directory_read_by_path placement.package_path directories) [
      | none ↦ false
      | some _ ↦ true
    ])

-- Without a reason to fold, no files stay.
none_stays :
    (placement : PackagePlacement)
    → find_fold_reason placement ≡ none
    → (placement.staying_files == []) ≡ true
unfolding find_fold_reason
none_stays placement h = from placement.staying_files refl
  where
    from :
        (files : List Text)
        → placement.staying_files ≡ files
        → (placement.staying_files == []) ≡ true
    from [] e = rw e refl
    from (file ∷ files) e = cc

-- Where some member is not the package's own file, there is a target; a fold goes into such a
-- member; and a package that another rule reads by path, or that files stay in, is folded.
pub choose_merge_target-total :
    (placement : PackagePlacement) (members : List PackageMember)
    (directories : List DirectoryReadByPath)
    → any (λ member. not (is_package_file member)) members ≡ true
    → (target : MergeTarget) × (choose_merge_target placement members directories ≡ some target)
      × (is_fold target ≡ true
          → (m : PackageMember) × Among m members
            × (is_package_file m ≡ false)
            × (target.path ≡ m.relative))
      × (must_fold placement directories ≡ true → is_fold target ≡ true)
unfolding choose_merge_target
choose_merge_target-total placement members directories own =
    let place = placement.package_path in
    elim (Option-cases (find_directory_read_by_path place directories)) [
      | inr (found, e) ↦ rw (choose_merge_target, e) (fold_at-Chooses members own _ place found)
      | inl e ↦
          rw (choose_merge_target, e)
            (fold_or_merge-Chooses members own _ place (find_fold_reason placement)
              (λ h. rw (none_stays placement h) refl))
    ]
