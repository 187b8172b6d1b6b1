-- ===== src/MergeTargets/Directories/Anchors.antt =====
-- Which directory is found for a package, and how much of the package's path it names.
use lanorme.Prelude.{
  ℕ, zero, suc, ◌+◌, ◌≤◌, ◌≡◌, refl, sym, ap, ap₂, ◌∙◌, subst, inl, inr, true, false≢true, some, [],
  ◌∷◌, ◌++◌, arith, Bool-cases, Option-cases, eq_iff, eq_refl, nat_eq, list_eq, pair_eq, triple_eq,
  length, length-append, take, drop,
}
use lanorme.Text.{Text, starts_with, ends_with}
use lanorme.MergeTargets.Directories.{DirectoryReadByPath, rfind, padded}

starts_with-nil : (s : Text) → starts_with s [] ≡ true
unfolding starts_with
starts_with-nil [] = refl
starts_with-nil (c ∷ s) = refl

pub starts_with-le : (s p : Text) → starts_with s p ≡ true → length p ≤ length s
unfolding starts_with
starts_with-le s [] h = omega arith
starts_with-le [] (d ∷ p) h = absurd (false≢true h)
starts_with-le (c ∷ s) (d ∷ p) h =
    let rest = starts_with-le s p (ground (arith, h)) in omega (arith, rest)

starts_with-append : (s p q : Text) → starts_with s (p ++ q) ≡ true → starts_with s p ≡ true
unfolding starts_with
starts_with-append s [] q h = starts_with-nil s
starts_with-append [] (d ∷ p) q h = h
starts_with-append (c ∷ s) (d ∷ p) q h = ground (arith, h, starts_with-append s p q)

take_of_starts : (s p : Text) → starts_with s p ≡ true → take (length p) s ≡ p
unfolding starts_with
take_of_starts s [] h = refl
take_of_starts [] (d ∷ p) h = absurd (false≢true h)
take_of_starts (c ∷ s) (d ∷ p) h =
    ap₂ ◌∷◌ (ground (arith, h, eq_iff c d)) (take_of_starts s p (ground (arith, h)))

take_add :
    (k : ℕ) (s p : Text) → starts_with (drop k s) p ≡ true → take (k + length p) s ≡ take k s ++ p
unfolding starts_with
take_add zero s p h =
    let e : 0 + length p ≡ length p = omega arith in ap (λ n. take n s) e ∙ take_of_starts s p h
take_add (suc k) [] [] h = let e : suc k + 0 ≡ suc k = omega arith in ap (λ n. take {A = ℕ} n []) e
take_add (suc k) [] (d ∷ p) h = absurd (false≢true h)
take_add (suc k) (c ∷ s) p h =
    let e : suc k + length p ≡ suc (k + length p) = omega arith in
    ap (λ n. take n (c ∷ s)) e ∙ ap (λ t. c ∷ t) (take_add k s p h)

ends_with-append : (s p : Text) → ends_with (s ++ p) p ≡ true
unfolding ends_with
ends_with-append [] [] = refl
ends_with-append [] (c ∷ p) = ground (arith, eq_refl (c ∷ p))
ends_with-append (c ∷ s) p = ground (arith, ends_with-append s p)

starts_with-take : (n : ℕ) (s t : Text) → n ≤ length s → starts_with s (take n (s ++ t)) ≡ true
unfolding starts_with
starts_with-take zero s t h = starts_with-nil s
starts_with-take (suc n) [] t h = ground arith
starts_with-take (suc n) (c ∷ s) t h =
    ground (arith, starts_with-take n s t (omega arith), eq_refl c)

-- Where the needle is found, it stands.
pub rfind-starts :
    (d : ℕ) (needle s : Text) (k : ℕ)
    → rfind (d ∷ needle) s ≡ some k
    → (starts_with (drop k s) (d ∷ needle) ≡ true) × (k + length (d ∷ needle) ≤ length s)
unfolding rfind
rfind-starts d needle [] k h = cc
rfind-starts d needle (c ∷ s) k h = elim (Option-cases (rfind (d ∷ needle) s)) [
  | inr (j, e) ↦
      let at : suc j ≡ k = let h' = rw (rfind, e) at h in cc in
      let (starts, fits) = rfind-starts d needle s j e in
      subst
        (λ n.
          (starts_with (drop n (c ∷ s)) (d ∷ needle) ≡ true)
          × (n + length (d ∷ needle) ≤ length (c ∷ s)))
        at (starts, omega (arith, fits))
  | inl e ↦ elim (Bool-cases (starts_with (c ∷ s) (d ∷ needle))) [
    | inl here ↦
        let at : 0 ≡ k = let h' = rw (rfind, e, here) at h in cc in
        subst
          (λ n.
            (starts_with (drop n (c ∷ s)) (d ∷ needle) ≡ true)
            × (n + length (d ∷ needle) ≤ length (c ∷ s)))
          at (here, let fits = starts_with-le (c ∷ s) (d ∷ needle) here in omega (arith, fits))
    | inr away ↦ let h' = rw (rfind, e, away) at h in cc
  ]
]

-- The path goes down to the anchor, and the anchor ends with the directory.
abbrev pub IsAnchor : Text → DirectoryReadByPath → Text → Type 0
IsAnchor place directory anchor =
    (starts_with place anchor ≡ true) × (ends_with (b'/' ∷ anchor) (b'/' ∷ directory.path) ≡ true)

pub cut-IsAnchor :
    (place : Text) (directory : DirectoryReadByPath) (at : ℕ)
    → rfind (padded directory.path) (padded place) ≡ some at
    → IsAnchor place directory (drop 1 (take (at + length directory.path + 1) (padded place)))
unfolding padded
cut-IsAnchor place directory at h =
    let name = directory.path in
    let slash : Text = b'/' ∷ [] in
    let n = at + length name in
    let (stands, fits) = rfind-starts b'/' (name ++ slash) (padded place) at h in
    let starts = starts_with-append (drop at (padded place)) (b'/' ∷ name) slash stands in
    let whole : take (suc n) (padded place) ≡ take at (padded place) ++ (b'/' ∷ name) =
      (let e : suc n ≡ at + length (b'/' ∷ name) = omega arith in
        ap (λ m. take m (padded place)) e ∙ take_add at (padded place) (b'/' ∷ name) starts) in
    let within : n ≤ length place =
      omega (arith, fits, length-append name slash, length-append place slash) in
    let e : suc n ≡ n + 1 = omega arith in
    subst (λ m. IsAnchor place directory (drop 1 (take m (padded place)))) e
      (
        starts_with-take n place slash within,
        subst (λ t. ends_with t (b'/' ∷ name) ≡ true) (sym whole)
            (ends_with-append (take at (padded place)) (b'/' ∷ name)),
      )
