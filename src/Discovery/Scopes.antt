-- ===== src/Discovery/Scopes.antt =====
-- Two scopes together, and the file a walk may list.
use lanorme.Prelude.{
  ◌≡◌, refl, Bool, true, false, ◌&&◌, ◌||◌, false≢true, Option, none, some, [], ◌∷◌, arith, ◌==◌,
  eq_iff, nat_eq, list_eq, pair_eq, triple_eq,
}
use lanorme.Text.{Text, starts_with}
use lanorme.Discovery.{find_narrower_scope, is_below}

-- A path is in a scope that is empty, the path itself, or a directory above it.
abbrev pub in_scope : Text → Text → Bool
in_scope scope path = scope == [] || path == scope || is_below scope path

abbrev pub in_narrower : Option Text → Text → Bool
in_narrower none path = false
in_narrower (some scope) path = in_scope scope path

-- The path is the directory or lies below it.
covers : Text → Text → Bool
unfolding is_below
covers dir path = path == dir || is_below dir path

covers-covers : (a b c : Text) → covers a b ≡ true → covers b c ≡ true → covers a c ≡ true
unfolding covers starts_with
covers-covers [] [] c h k = k
covers-covers [] (x ∷ b) [] h k = refl
covers-covers [] (x ∷ b) (z ∷ c) h k = ground arith
covers-covers (x ∷ a) [] c h k = absurd (false≢true h)
covers-covers (x ∷ a) (y ∷ b) [] h k = absurd (false≢true k)
covers-covers (x ∷ a) (y ∷ b) (z ∷ c) h k =
    ground (arith, eq_iff x y, eq_iff y z, eq_iff y x, eq_iff z y, eq_iff z x, covers-covers a b c)

covers-comparable :
    (a b c : Text) → covers a c ≡ true → covers b c ≡ true → (covers a b || covers b a) ≡ true
unfolding covers starts_with
covers-comparable [] [] c h k = refl
covers-comparable [] (y ∷ b) [] h k = absurd (false≢true k)
covers-comparable [] (y ∷ b) (z ∷ c) h k = ground arith
covers-comparable (x ∷ a) [] [] h k = absurd (false≢true h)
covers-comparable (x ∷ a) [] (z ∷ c) h k = ground arith
covers-comparable (x ∷ a) (y ∷ b) [] h k = absurd (false≢true h)
covers-comparable (x ∷ a) (y ∷ b) (z ∷ c) h k =
    ground
      (arith, eq_iff x y, eq_iff y z, eq_iff y x, eq_iff z y, eq_iff z x, covers-comparable a b c)

-- A path lies in the narrower of two scopes exactly if it lies in both, and where there is none,
-- no path lies in both.
pub in_narrower-find_narrower_scope :
    (outer inner path : Text)
    → in_narrower (find_narrower_scope outer inner) path
      ≡ (in_scope outer path && in_scope inner path)
unfolding find_narrower_scope covers
in_narrower-find_narrower_scope outer inner path = ground (
  arith,
  eq_iff outer inner,
  eq_iff inner outer,
  covers-covers outer inner path,
  covers-covers inner outer path,
  covers-comparable outer inner path,
)
