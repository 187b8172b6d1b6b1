-- ===== src/Directives/Laws.antt =====
-- What an inline directive silences, for directives written after any code on the line.
use lanorme.Prelude.{
  ℕ, ◌≡◌, refl, Bool, true, not, ◌&&◌, Option, none, some, List, [], ◌∷◌, ◌++◌, map, arith, ◌==◌,
  nat_eq, list_eq, pair_eq, triple_eq, keep, all, contains,
}
use lanorme.Text.{Text, codes, upper_char, lstrip, strip, split}
use lanorme.Directives.{
  Match, coded, in_list_class, list_run, after_list_run, search_hash, noqa_here, ignore_here,
  noqa_search, ignore_search, is_silenced_by_directive, is_silenced_inline, unsuppressable,
}
use lanorme.Finding.{extract_code}
use lanorme.Selectors.{extract_category, is_code_matched}

-- No `#` in the text.
abbrev pub NoHash : Text → Type 0
NoHash s = all (λ c. not (c == b'#')) s ≡ true

abbrev pub InListClass : Text → Type 0
InListClass s = all in_list_class s ≡ true

search_hash-skip :
    (here : Text → Option Match) (s line : Text)
    → NoHash s
    → search_hash here (s ++ line) ≡ search_hash here line
unfolding search_hash
search_hash-skip here [] line h = refl
search_hash-skip here (c ∷ s) line h = ground (arith, search_hash-skip here s line)

search_hash-none : (here : Text → Option Match) (s : Text) → NoHash s → search_hash here s ≡ none
unfolding search_hash
search_hash-none here [] h = refl
search_hash-none here (c ∷ s) h = ground (arith, search_hash-none here s)

NoHash-of_class : (s t : Text) → InListClass s → NoHash t → NoHash (s ++ t)
unfolding in_list_class
NoHash-of_class [] t h k = k
NoHash-of_class (c ∷ s) t h k = ground (arith, NoHash-of_class s t)

list_run-stop : (s t : Text) → InListClass s → list_run (s ++ b']' ∷ t) ≡ s
unfolding list_run in_list_class
list_run-stop [] t h = refl
list_run-stop (c ∷ s) t h = ground (arith, list_run-stop s t)

after_list_run-stop : (s t : Text) → InListClass s → after_list_run (s ++ b']' ∷ t) ≡ b']' ∷ t
unfolding after_list_run in_list_class
after_list_run-stop [] t h = refl
after_list_run-stop (c ∷ s) t h = ground (arith, after_list_run-stop s t)

-- `# lanorme: ignore[...]` with a code list, and what may follow it.
abbrev pub ignore_directive : Text → Text → Text
ignore_directive listed tail = codes "# lanorme: ignore[" ++ (listed ++ b']' ∷ tail)

search_hash-ignore :
    (c : ℕ) (listed tail : Text)
    → InListClass (c ∷ listed)
    → search_hash ignore_here (ignore_directive (c ∷ listed) tail) ≡ some (coded (c ∷ listed))
unfolding search_hash ignore_here lstrip upper_char
search_hash-ignore c listed tail h =
    rw (list_run-stop (c ∷ listed) tail h, after_list_run-stop (c ∷ listed) tail h) refl

search_hash-noqa_none :
    (listed tail : Text)
    → InListClass listed
    → NoHash tail
    → search_hash noqa_here (ignore_directive listed tail) ≡ none
unfolding search_hash noqa_here lstrip upper_char
search_hash-noqa_none listed tail h k =
    search_hash-none noqa_here (listed ++ b']' ∷ tail) (NoHash-of_class listed (b']' ∷ tail) h k)

-- The codes that a directive's list names.
abbrev pub listed_codes : Text → List Text
listed_codes listed = keep (λ c. not (c == [])) (map strip (split b',' listed))

abbrev pub is_unsuppressable : Text → Bool
is_unsuppressable rule = contains unsuppressable (extract_category (extract_code rule))

-- Behind code without `#`, and followed by a text without `#`, `# lanorme: ignore[LIST]` silences
-- exactly the rules that LIST names, and never one of the SUPPRESS family, where LIST is one or more
-- letters, digits, spaces, `_`, `,` and `-`.
pub is_silenced_inline-ignore :
    (before_it : Text) (c : ℕ) (listed tail rule : Text)
    → NoHash before_it
    → InListClass (c ∷ listed)
    → NoHash tail
    → is_silenced_inline (before_it ++ ignore_directive (c ∷ listed) tail) rule ≡ (
        not (is_unsuppressable rule)
        && is_code_matched (extract_code rule) (listed_codes (c ∷ listed)))
unfolding is_silenced_inline is_silenced_by_directive noqa_search ignore_search
is_silenced_inline-ignore before_it c listed tail rule h k t =
    rw
      (
        search_hash-skip noqa_here before_it (ignore_directive (c ∷ listed) tail) h,
        search_hash-skip ignore_here before_it (ignore_directive (c ∷ listed) tail) h,
        search_hash-noqa_none (c ∷ listed) tail k t,
        search_hash-ignore c listed tail k,
      )
      (ground arith)

-- A bare `# noqa` that ends the line silences every rule outside the SUPPRESS family.
pub is_silenced_inline-noqa :
    (before_it rule : Text)
    → NoHash before_it
    → is_silenced_inline (before_it ++ codes "# noqa") rule ≡ not (is_unsuppressable rule)
unfolding is_silenced_inline is_silenced_by_directive noqa_search noqa_here lstrip upper_char
    search_hash
is_silenced_inline-noqa before_it rule h =
    rw (search_hash-skip noqa_here before_it (codes "# noqa") h) (ground arith)
