-- ===== src/Paths/Laws.antt =====
-- Which names the predicates tell apart.
use lanorme.Prelude.{
  ℕ, ◌≡◌, refl, ap₂, [], ◌∷◌, arith, if◌then◌else◌, ◌==◌, eq_iff, nat_eq, list_eq, pair_eq,
  triple_eq,
}
use lanorme.Text.{Text, forward_slashes}
use lanorme.Paths.{
  normalise_posix, is_test_module, is_under_tests_dir, is_test_support, is_test_file,
}

slash_once :
    (c : ℕ)
    → (if (if c == 92 then 47 else c) == 92 then 47 else (if c == 92 then 47 else c))
      ≡ (if c == 92 then 47 else c)
slash_once c = ground (arith, eq_iff c 92)

forward_slashes_idem : (s : Text) → forward_slashes (forward_slashes s) ≡ forward_slashes s
unfolding forward_slashes
forward_slashes_idem [] = refl
forward_slashes_idem (c ∷ s) = ap₂ ◌∷◌ (slash_once c) (forward_slashes_idem s)

normalise_posix-slashes : (s : Text) → normalise_posix (forward_slashes s) ≡ normalise_posix s
unfolding normalise_posix
normalise_posix-slashes s = rw (forward_slashes_idem s) refl

-- A path is classified alike with either slash.
pub is_test_file-slashes : (s : Text) → is_test_file (forward_slashes s) ≡ is_test_file s
unfolding is_test_file is_test_module is_test_support is_under_tests_dir
is_test_file-slashes s = rw (normalise_posix-slashes s) refl
