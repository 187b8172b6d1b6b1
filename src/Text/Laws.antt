-- ===== src/Text/Laws.antt =====
-- Laws of the text operations: case mapping, whitespace and words.
use lanorme.Prelude.{
  ℕ, ◌≡◌, refl, ap, ap₂, ◌∙◌, inl, inr, true, false, not, ◌&&◌, List, [], ◌∷◌, ◌++◌, append-nil,
  append_assoc, arith, Bool-cases, ◌==◌, nat_eq, list_eq, pair_eq, triple_eq, all,
}
use lanorme.Text.{
  Text, is_space, upper_char, upper, before, words, words_from, flush, lstrip, rstrip, rstrip_onto,
  strip,
}

upper_char_idem : (c : ℕ) → upper_char (upper_char c) ≡ upper_char c
unfolding upper_char
upper_char_idem c = ground arith

pub upper-upper : (s : Text) → upper (upper s) ≡ upper s
unfolding upper
upper-upper [] = refl
upper-upper (c ∷ s) = ap₂ ◌∷◌ (upper_char_idem c) (upper-upper s)

is_space-upper_char : (c : ℕ) → is_space (upper_char c) ≡ is_space c
unfolding upper_char is_space
is_space-upper_char c = ground arith

lstrip-upper : (s : Text) → lstrip (upper s) ≡ upper (lstrip s)
unfolding upper lstrip
lstrip-upper [] = refl
lstrip-upper (c ∷ s) = ground (arith, is_space-upper_char c, lstrip-upper s)

rstrip_onto-upper :
    (c : ℕ) (s : Text) → rstrip_onto (upper_char c) (upper s) ≡ upper (rstrip_onto c s)
unfolding upper rstrip_onto
rstrip_onto-upper c [] = ground (arith, is_space-upper_char c)
rstrip_onto-upper c (d ∷ s) = refl

rstrip-upper : (s : Text) → rstrip (upper s) ≡ upper (rstrip s)
unfolding rstrip upper
rstrip-upper [] = refl
rstrip-upper (c ∷ s) =
    ap (rstrip_onto (upper_char c)) (rstrip-upper s) ∙ rstrip_onto-upper c (rstrip s)

pub strip-upper : (s : Text) → strip (upper s) ≡ upper (strip s)
unfolding strip
strip-upper s = ap rstrip (lstrip-upper s) ∙ rstrip-upper (lstrip s)

-- No whitespace and no `c` in the text.
abbrev pub Solid : ℕ → Text → Type 0
Solid c s = all (λ d. not (is_space d) && not (d == c)) s ≡ true

abbrev Lacks : ℕ → Text → Type 0
Lacks c s = all (λ d. not (d == c)) s ≡ true

abbrev pub head_or_empty : List Text → Text
head_or_empty [] = []
head_or_empty (word ∷ _) = word

before-Lacks : (c : ℕ) (s : Text) → Lacks c (before c s)
unfolding before
before-Lacks c [] = refl
before-Lacks c (d ∷ s) = ground (arith, before-Lacks c s)

before_of_Solid : (c : ℕ) (s : Text) → Solid c s → before c s ≡ s
unfolding before
before_of_Solid c [] h = refl
before_of_Solid c (d ∷ s) h = ground (arith, before_of_Solid c s)

Solid-snoc :
    (c d : ℕ) (w : Text) → Solid c w → is_space d ≡ false → (d == c) ≡ false → Solid c (w ++ d ∷ [])
Solid-snoc c d [] h p q = ground arith
Solid-snoc c d (x ∷ w) h p q = ground (arith, Solid-snoc c d w)

flush-Solid :
    (c : ℕ) (w : Text) (rest : List Text)
    → Solid c w
    → Solid c (head_or_empty rest)
    → Solid c (head_or_empty (flush w rest))
unfolding flush
flush-Solid c [] rest h k = k
flush-Solid c (x ∷ w) rest h k = h

-- The first word of a text without `c` is solid.
first_word-Solid :
    (c : ℕ) (w s : Text) → Solid c w → Lacks c s → Solid c (head_or_empty (words_from w s))
unfolding words_from
first_word-Solid c w [] h k = flush-Solid c w [] h refl
first_word-Solid c w (d ∷ s) h k = elim (Bool-cases (is_space d)) [
  | inl space ↦
      rw (space, words_from) (flush-Solid c w _ h (first_word-Solid c [] s refl (ground arith)))
  | inr solid ↦
      rw (solid, words_from)
        (first_word-Solid c (w ++ d ∷ []) s (Solid-snoc c d w h solid (ground arith))
          (ground arith))
]

words_of_Solid : (c : ℕ) (w s : Text) → Solid c s → words_from w s ≡ flush (w ++ s) []
unfolding words_from
words_of_Solid c w [] h = rw append-nil
words_of_Solid c w (d ∷ s) h =
    let solid : is_space d ≡ false = ground arith in
    rw (solid, words_from)
      (words_of_Solid c (w ++ d ∷ []) s (ground arith)
        ∙ ap (λ t. flush t []) (append_assoc w (d ∷ []) s))

-- The head of a rule string up to `c`, read once more, is itself.
pub first_word-before_idem :
    (c : ℕ) (s : Text)
    → let w = head_or_empty (words (before c s)) in head_or_empty (words (before c w)) ≡ w
unfolding words
first_word-before_idem c s =
    let w : Text = head_or_empty (words (before c s)) in
    let solid : Solid c w = first_word-Solid c [] (before c s) refl (before-Lacks c s) in
    rw (before_of_Solid c w solid) (rw (words_of_Solid c [] w solid) (flushed w))
  where
    flushed : (v : Text) → head_or_empty (flush v []) ≡ v
    flushed [] = refl
    flushed (x ∷ v) = refl
