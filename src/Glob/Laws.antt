-- ===== src/Glob/Laws.antt =====
-- A glob without `*`, `?` and `[` stands for itself, and one that ends in `*` for its prefix.
use lanorme.Prelude.{
  ◌≡◌, refl, sym, ap, ◌∙◌, true, not, ◌||◌, [], ◌∷◌, ◌++◌, map, append-nil, arith, ◌==◌, eq_iff,
  nat_eq, list_eq, pair_eq, triple_eq, all,
}
use lanorme.Text.{Text, codes, starts_with}
use lanorme.Glob.{star, literal, tokens_from, on_some_suffix, matches, fnmatch}

-- No character that a glob reads as more than itself.
abbrev pub IsPlain : Text → Type 0
IsPlain p = all (λ c. not (c == b'*' || c == b'?' || c == b'[')) p ≡ true

tokens_from-plain :
    (p q : Text) → IsPlain p → tokens_from 0 (p ++ q) ≡ map literal p ++ tokens_from 0 q
unfolding tokens_from
tokens_from-plain [] q h = refl
tokens_from-plain (c ∷ p) q h = ground (arith, tokens_from-plain p q)

matches-literal : (p s : Text) → matches (map literal p) s ≡ (s == p)
unfolding matches
matches-literal [] s = refl
matches-literal (d ∷ p) [] = refl
matches-literal (d ∷ p) (c ∷ s) = ground (arith, matches-literal p s, eq_iff c d, eq_iff d c)

some_suffix_empty : (s : Text) → on_some_suffix (λ t. t == []) s ≡ true
unfolding on_some_suffix
some_suffix_empty [] = refl
some_suffix_empty (c ∷ s) = ground (arith, some_suffix_empty s)

matches-prefix : (p s : Text) → matches (map literal p ++ star ∷ []) s ≡ starts_with s p
unfolding matches starts_with
matches-prefix [] s = some_suffix_empty s
matches-prefix (d ∷ p) [] = refl
matches-prefix (d ∷ p) (c ∷ s) = ground (arith, matches-prefix p s, eq_iff c d, eq_iff d c)

pub fnmatch-plain : (p s : Text) → IsPlain p → fnmatch s p ≡ (s == p)
unfolding fnmatch
fnmatch-plain p s h =
    let e : tokens_from 0 p ≡ map literal p =
      ap (tokens_from 0) (sym (append-nil p))
      ∙ (tokens_from-plain p [] h ∙ append-nil (map literal p)) in
    ap (λ ts. matches ts s) e ∙ matches-literal p s

pub fnmatch-prefix : (p s : Text) → IsPlain p → fnmatch s (p ++ codes "*") ≡ starts_with s p
unfolding fnmatch
fnmatch-prefix p s h =
    ap (λ ts. matches ts s) (tokens_from-plain p (codes "*") h) ∙ matches-prefix p s
