-- ===== src/Markdown/Fences.antt =====
-- What a fenced block hides, and which lines are prose.
use lanorme.Prelude.{
  ℕ, zero, suc, ◌+◌, ◌≡◌, refl, sym, ap, ◌∙◌, inl, inr, true, false, not, Option, none, some, List,
  [], ◌∷◌, ◌++◌, arith, Bool-cases, Option-cases, nat_eq, list_eq, pair_eq, triple_eq, length, all,
  drop, get_elem?, Among, Among-cons,
}
use lanorme.Text.{Text, lstrip}
use lanorme.Markdown.{
  Fence, match_fence_opener, is_fence_closer, prose_from, measure_front_matter, iter_prose_lines,
}

in_fence :
    (index : ℕ) (fence : Fence) (body : List Text) (closer : Text) (rest : List Text)
    → all (λ line. not (is_fence_closer fence (lstrip line))) body ≡ true
    → is_fence_closer fence (lstrip closer) ≡ true
    → prose_from index (some fence) (body ++ closer ∷ rest)
      ≡ prose_from (suc (index + length body)) none rest
unfolding prose_from
in_fence index fence [] closer rest h k =
    rw (prose_from, k) (ap (λ n. prose_from (suc n) none rest) (omega arith))
in_fence index fence (line ∷ body) closer rest h k =
    let open_still : is_fence_closer fence (lstrip line) ≡ false = ground (arith, h) in
    rw (prose_from, open_still)
      (in_fence (suc index) fence body closer rest (ground (arith, h)) k
        ∙ ap (λ n. prose_from (suc n) none rest) (omega arith))

-- A fenced block yields nothing: behind an opening line, lines none of which closes the fence, and
-- a line that closes it, the lines go on as prose, with their numbers.
pub prose_from-fence :
    (index : ℕ) (opener : Text) (fence : Fence) (body : List Text) (closer : Text)
    (rest : List Text)
    → match_fence_opener (lstrip opener) ≡ some fence
    → all (λ line. not (is_fence_closer fence (lstrip line))) body ≡ true
    → is_fence_closer fence (lstrip closer) ≡ true
    → prose_from index none (opener ∷ (body ++ closer ∷ rest))
      ≡ prose_from (index + length body + 2) none rest
unfolding prose_from
prose_from-fence index opener fence body closer rest o h k =
    rw (prose_from, o)
      (in_fence (suc index) fence body closer rest h k
        ∙ ap (λ n. prose_from n none rest) (omega arith))

-- The line stands at the index under which it is numbered.
abbrev IsAt : ℕ → List Text → ℕ × Text → Type 0
IsAt index lines (n, raw) = (k : ℕ) × (n ≡ suc (index + k)) × (get_elem? lines k ≡ some raw)

IsAt-later :
    (index : ℕ) (line : Text) (lines : List Text) (q : ℕ × Text)
    → IsAt (suc index) lines q
    → IsAt index (line ∷ lines) q
IsAt-later index line lines (n, raw) (k, at, found) = (suc k, omega (arith, at), found)

prose_from-IsAt :
    (index : ℕ) (fence : Option Fence) (lines : List Text) (q : ℕ × Text)
    → Among q (prose_from index fence lines)
    → IsAt index lines q
unfolding prose_from
prose_from-IsAt index fence [] q m = elim m [ ]
prose_from-IsAt index none (line ∷ lines) q m =
    elim (Option-cases (match_fence_opener (lstrip line))) [
      | inl e ↦
          Among-cons (IsAt index (line ∷ lines)) (0, omega arith, refl)
            (λ k. IsAt-later index line lines q (prose_from-IsAt (suc index) none lines q k))
            (rw (prose_from, e) at m)
      | inr (f, e) ↦
          IsAt-later index line lines q
            (prose_from-IsAt (suc index) (some f) lines q (rw (prose_from, e) at m))
    ]
prose_from-IsAt index (some fence) (line ∷ lines) q m =
    elim (Bool-cases (is_fence_closer fence (lstrip line))) [
      | inl e ↦
          IsAt-later index line lines q
            (prose_from-IsAt (suc index) none lines q (rw (prose_from, e) at m))
      | inr e ↦
          IsAt-later index line lines q
            (prose_from-IsAt (suc index) (some fence) lines q (rw (prose_from, e) at m))
    ]

get_elem?-drop :
    (lines : List Text) (n k : ℕ) → get_elem? (drop n lines) k ≡ get_elem? lines (n + k)
get_elem?-drop lines zero k = let e : k ≡ 0 + k = omega arith in ap (get_elem? lines) e
get_elem?-drop [] (suc n) k = refl
get_elem?-drop (line ∷ lines) (suc n) k =
    let e : suc (n + k) ≡ suc n + k = omega arith in
    get_elem?-drop lines n k ∙ ap (get_elem? (line ∷ lines)) e

-- Each prose line is a line of the file, under its number counted from 1.
pub iter_prose_lines-IsAt :
    (lines : List Text) (n : ℕ) (raw : Text)
    → Among (n, raw) (iter_prose_lines lines)
    → (i : ℕ) × (n ≡ suc i) × (get_elem? lines i ≡ some raw)
unfolding iter_prose_lines
iter_prose_lines-IsAt lines n raw m =
    let front = measure_front_matter lines in
    let (k, at, found) = prose_from-IsAt front none (drop front lines) (n, raw) m in
    (front + k, at, sym (get_elem?-drop lines front k) ∙ found)
