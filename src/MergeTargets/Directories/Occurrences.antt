-- ===== src/MergeTargets/Directories/Occurrences.antt =====
-- How deep the directories reach that stand on a package's path.
use lanorme.Prelude.{
  ℕ, zero, suc, ◌+◌, ◌≤◌, ◌≡◌, refl, sym, ap, ◌∙◌, inl, inr, true, false, false≢true, none, some,
  [], ◌∷◌, ◌++◌, arith, Bool-cases, Option-cases, ◌==◌, nat_eq, list_eq, pair_eq, triple_eq, length,
  length-append, take, drop,
}
use lanorme.Text.{Text, starts_with}
use lanorme.MergeTargets.Directories.{DirectoryReadByPath, rfind, padded, anchor_of}
use lanorme.MergeTargets.Directories.Anchors.{rfind-starts}

rfind-none :
    (d : ℕ) (needle s : Text) (k : ℕ)
    → rfind (d ∷ needle) s ≡ none
    → starts_with (drop k s) (d ∷ needle) ≡ false
unfolding rfind starts_with
rfind-none d needle [] zero h = refl
rfind-none d needle [] (suc k) h = refl
rfind-none d needle (c ∷ s) k h = elim (Option-cases (rfind (d ∷ needle) s)) [
  | inr (j, e) ↦ let h' = rw (rfind, e) at h in cc
  | inl e ↦ elim (Bool-cases (starts_with (c ∷ s) (d ∷ needle))) [
    | inl here ↦ let h' = rw (rfind, e, here) at h in cc
    | inr away ↦ away_from k away (λ j. rfind-none d needle s j e)
  ]
]
  where
    away_from :
        (k : ℕ)
        → starts_with (c ∷ s) (d ∷ needle) ≡ false
        → ((j : ℕ) → starts_with (drop j s) (d ∷ needle) ≡ false)
        → starts_with (drop k (c ∷ s)) (d ∷ needle) ≡ false
    away_from zero away later_on = away
    away_from (suc k) away later_on = later_on k

-- The needle stands nowhere further on than where it is found.
rfind-last :
    (d : ℕ) (needle s : Text) (k i : ℕ)
    → rfind (d ∷ needle) s ≡ some i
    → starts_with (drop k s) (d ∷ needle) ≡ true
    → k ≤ i
unfolding rfind
rfind-last d needle s zero i h stands = omega arith
rfind-last d needle [] (suc k) i h stands = cc
rfind-last d needle (c ∷ s) (suc k) i h stands = elim (Option-cases (rfind (d ∷ needle) s)) [
  | inr (j, e) ↦
      let at : suc j ≡ i = let h' = rw (rfind, e) at h in cc in
      omega (arith, at, rfind-last d needle s k j e stands)
  | inl e ↦ absurd (false≢true (sym (rfind-none d needle s k e) ∙ stands))
]

length-take : (n : ℕ) (s : Text) → n ≤ length s → length (take n s) ≡ n
length-take zero s h = refl
length-take (suc n) [] h = omega (arith, h)
length-take (suc n) (c ∷ s) h = ap suc (length-take n s (omega (arith, h)))

length-cut :
    (place name : Text) (at : ℕ)
    → at + length (padded name) ≤ length (padded place)
    → length (drop 1 (take (at + length name + 1) (padded place))) ≡ at + length name
unfolding padded
length-cut place name at fits =
    let slash : Text = b'/' ∷ [] in
    let e : at + length name + 1 ≡ suc (at + length name) = omega arith in
    ap (λ n. length (drop 1 (take n (padded place)))) e
    ∙ length-take (at + length name) (place ++ slash)
        (omega (arith, fits, length-append name slash, length-append place slash))

-- A directory that stands on the path is anchored as far down as it stands, or further.
pub anchor_of-reaches :
    (place : Text) (directory : DirectoryReadByPath) (k : ℕ)
    → (directory.path == []) ≡ false
    → starts_with (drop k (padded place)) (padded directory.path) ≡ true
    → (anchor : Text) × (anchor_of place directory ≡ some anchor)
      × (k + length directory.path ≤ length anchor)
unfolding anchor_of padded
anchor_of-reaches place directory k given stands =
    let name = directory.path in
    elim (Option-cases (rfind (padded name) (padded place))) [
      | inl e ↦
          absurd
            (false≢true (sym (rfind-none b'/' (name ++ b'/' ∷ []) (padded place) k e) ∙ stands))
      | inr (at, e) ↦
          let within = rfind-last b'/' (name ++ b'/' ∷ []) (padded place) k at e stands in
          let (_, fits) = rfind-starts b'/' (name ++ b'/' ∷ []) (padded place) at e in
          (
            drop 1 (take (at + length name + 1) (padded place)),
            rw (anchor_of, given, e) refl,
            omega (arith, within, length-cut place name at fits),
          )
    ]
