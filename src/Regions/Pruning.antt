-- ===== src/Regions/Pruning.antt =====
-- What the exclude globs of a region's nested regions match.
use lanorme.Prelude.{
  ◌≡◌, refl, sym, ap, ap₂, ◌∙◌, inl, inr, Bool, false, not, ◌&&◌, ◌||◌, Option, none, some, List,
  [], ◌∷◌, ◌++◌, append_assoc, arith, Bool-cases, ◌==◌, nat_eq, list_eq, pair_eq, triple_eq, any,
  any-append,
}
use lanorme.Text.{Text, codes}
use lanorme.FilePath.{FilePath, is_parent, relative_to, as_posix}
use lanorme.Glob.{fnmatch}
use lanorme.Glob.Laws.{IsPlain, fnmatch-plain, fnmatch-prefix}
use lanorme.Check.{ok, ◌>>=◌, went_on}
use lanorme.Config.Files.{ConfigFiles}
use lanorme.Discovery.{is_excluded, is_below}
use lanorme.Regions.{Region, child_globs, build_child_exclude_globs}

-- The candidate lies below the region.
abbrev pub is_nested : Region → Region → Bool
is_nested region c = not (c.directory == region.directory) && is_parent region.directory c.directory

-- A region's directory relative to the root, and the paths that it governs or leaves to a region
-- further down.
abbrev pub name_or_empty : Option (List Text) → Text
name_or_empty none = []
name_or_empty (some parts) = as_posix parts

abbrev pub relative_name : FilePath → Region → Text
relative_name root c = name_or_empty (relative_to c.directory root)

abbrev pub holds : FilePath → Region → Text → Bool
holds root c path = path == relative_name root c || is_below (relative_name root c) path

-- No name of a nested region's directory is read as more than itself.
abbrev pub ArePlain : FilePath → List Region → Type 0
ArePlain root [] = Unit
ArePlain root (c ∷ cs) = IsPlain (relative_name root c) × ArePlain root cs

IsPlain-slash : (p : Text) → IsPlain p → IsPlain (p ++ codes "/")
IsPlain-slash [] h = refl
IsPlain-slash (c ∷ p) h = ground (arith, IsPlain-slash p)

fnmatch-below : (p s : Text) → IsPlain p → fnmatch s (p ++ codes "/*") ≡ is_below p s
unfolding is_below
fnmatch-below p s h =
    ap (fnmatch s) (sym (append_assoc p (codes "/") (codes "*")))
    ∙ fnmatch-prefix (p ++ codes "/") s (IsPlain-slash p h)

or_false : (a b : Bool) → (a || (b || false)) ≡ (a || b)
or_false a b = ground arith

globs_same : {a b : List Text} → ok a ≡ ok b → a ≡ b
globs_same h = cc

any-child_globs :
    (relative : Option (List Text)) (globs : List Text) (s : Text)
    → IsPlain (name_or_empty relative)
    → child_globs relative ≡ ok globs
    → is_excluded s globs ≡ (s == name_or_empty relative || is_below (name_or_empty relative) s)
unfolding child_globs is_excluded
any-child_globs none globs s plain h = cc
any-child_globs (some parts) globs s plain h =
    rw
      (
        sym (globs_same h),
        fnmatch-plain (as_posix parts) s plain,
        fnmatch-below (as_posix parts) s plain,
      )
      (or_false (s == as_posix parts) (is_below (as_posix parts) s))

module _ (files : ConfigFiles) where
  open files use {fs}

  -- Where the names of the nested regions hold no glob character, a path below the root matches
  -- one of the globs exactly if it is the directory of a nested region or lies below one.
  pub build_child_exclude_globs-exact :
      (region : Region) (regions : List Region) (scan_root : FilePath) (globs : List Text)
      (path : Text)
      → ArePlain (fs.resolve scan_root) regions
      → build_child_exclude_globs files region regions scan_root ≡ ok globs
      → is_excluded path globs
        ≡ any (λ c. is_nested region c && holds (fs.resolve scan_root) c path) regions
  unfolding build_child_exclude_globs is_excluded
  build_child_exclude_globs-exact region [] scan_root globs path plain h =
      rw (sym (globs_same h)) refl
  build_child_exclude_globs-exact region (c ∷ cs) scan_root globs path (plain, rest) h =
      elim (Bool-cases (is_nested region c)) [
        | inr other ↦
            rw other
              (build_child_exclude_globs-exact region cs scan_root globs path rest (rw other at h))
        | inl nested ↦
            let (own, after_own, e) =
              went_on
                (λ globs.
                  build_child_exclude_globs files region cs scan_root
                  >>= (λ more. ok (globs ++ more)))
                (child_globs (relative_to c.directory (fs.resolve scan_root))) (rw nested at h) in
            let (more, last, k) =
              went_on (λ more. ok (own ++ more))
                (build_child_exclude_globs files region cs scan_root) after_own in
            rw (nested, sym (globs_same last))
              (any-append (λ pattern. fnmatch path pattern) own more
                ∙ ap₂ ◌||◌
                    (any-child_globs (relative_to c.directory (fs.resolve scan_root)) own path plain
                      e)
                    (build_child_exclude_globs-exact region cs scan_root more path rest k))
      ]
