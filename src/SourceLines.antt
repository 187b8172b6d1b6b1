-- ===== src/SourceLines.antt =====
-- lanorme/source_lines.py: the lines of a project's files, read and decoded once. `read` is the
-- read and the decoding of one file, `none` where either raises.
use lanorme.Prelude.{
  ℕ, ◌-◌, ◌≡◌, refl, ap, ◌∙◌, subst, fun_ext, inl, inr, ◌||◌, Option, none, some, List, [], ◌∷◌,
  map, ltb, leb, if◌then◌else◌, Bool-cases, Option-cases, ◌==◌, eq_iff, eq_refl, nat_eq, list_eq,
  pair_eq, triple_eq, length, get_elem?,
}
use lanorme.Prelude.Dict.{Dict, lookup, insert, lookup-insert}
use lanorme.Text.{Text, forward_slashes}

unfoldable pub lines_or_empty : Option (List Text) → List Text
lines_or_empty none = []
lines_or_empty (some lines) = lines

line_or_empty : Option Text → Text
line_or_empty none = []
line_or_empty (some line) = line

-- The bounds test of `read_line`, over lines that are read.
unfoldable pub pick_line : List Text → ℕ → Text
unfolding line_or_empty
pick_line lines line =
    if lines == [] || leb line 0 || ltb (length lines) line
    then []
    else line_or_empty (get_elem? lines (line - 1))

abbrev pub Cache : Type 0
Cache = Dict Text (List Text)

or_else : List Text → Option (List Text) → List Text
or_else fallback none = fallback
or_else fallback (some lines) = lines

module _ (read : Text → Option (List Text)) where
  -- The line, of what `read` gives for the file.
  unfoldable pub source_line : Text → ℕ → Text
  source_line file line = pick_line (lines_or_empty (read file)) line

  unfoldable pub read_file : Text → Cache → List Text × Cache
  read_file file files =
      let key = forward_slashes file in
      elim (lookup key files) [
        | some lines ↦ (lines, files)
        | none ↦ let lines = lines_or_empty (read file) in (lines, insert key lines files)
      ]

  unfoldable pub read_line : Text → ℕ → Cache → Text × Cache
  unfolding read_file
  read_line file line files =
      let (lines, files') = read_file file files in (pick_line lines line, files')

  -- A run's requests of a line, in their order, over the one cache.
  abbrev pub read_lines : List (Text × ℕ) → Cache → List Text
  read_lines [] files = []
  read_lines ((file, line) ∷ requests) files =
      let (got, files') = read_line file line files in got ∷ read_lines requests files'

  -- What the first of the requests under a forward-slashed path reads.
  abbrev pub first_read : List (Text × ℕ) → Text → List Text
  first_read [] key = []
  first_read ((file, _) ∷ requests) key =
      if forward_slashes file == key then lines_or_empty (read file) else first_read requests key

  -- What the cache holds under a path, and else what the first request reads.
  held : Cache → List (Text × ℕ) → Text → List Text
  unfolding or_else
  held files requests key = or_else (first_read requests key) (lookup key files)

  held-hit :
      (file : Text) (line : ℕ) (lines : List Text) (files : Cache) (requests : List (Text × ℕ))
      → lookup (forward_slashes file) files ≡ some lines
      → (key : Text) → held files requests key ≡ held files ((file, line) ∷ requests) key
  unfolding held
  held-hit file line lines files requests hit key =
      elim (Bool-cases (forward_slashes file == key)) [
        | inl same ↦
            let there : lookup key files ≡ some lines =
              subst (λ k. lookup k files ≡ some lines) ((eq_iff (forward_slashes file) key).0 same)
                hit in
            rw (held, there, or_else) refl
        | inr other ↦ rw (held, other) refl
      ]

  held-miss :
      (file : Text) (line : ℕ) (files : Cache) (requests : List (Text × ℕ))
      → lookup (forward_slashes file) files ≡ none
      → (key : Text)
      → held (insert (forward_slashes file) (lines_or_empty (read file)) files) requests key
        ≡ held files ((file, line) ∷ requests) key
  unfolding held
  held-miss file line files requests miss key =
      let at = lookup-insert (forward_slashes file) key (lines_or_empty (read file)) files in
      elim (Bool-cases (forward_slashes file == key)) [
        | inl same ↦
            let away : lookup key files ≡ none =
              subst (λ k. lookup k files ≡ none) ((eq_iff (forward_slashes file) key).0 same)
                miss in
            rw (held, at, same, away, or_else, same) refl
        | inr other ↦ rw (held, at, other) refl
      ]

  read_lines-held :
      (requests : List (Text × ℕ)) (files : Cache)
      → read_lines requests files
        ≡ map (λ (file, line). pick_line (held files requests (forward_slashes file)) line) requests
  unfolding read_line held
  read_lines-held [] files = refl
  read_lines-held ((file, line) ∷ requests) files =
      let all_held = held files ((file, line) ∷ requests) in
      let picks : (Text → List Text) → List Text =
        λ content. map (λ (f, l). pick_line (content (forward_slashes f)) l) requests in
      elim (Option-cases (lookup (forward_slashes file) files)) [
        | inr (lines, hit) ↦
            let rest : read_lines requests files ≡ picks all_held =
              (read_lines-held requests files
                ∙ ap picks (fun_ext (held-hit file line lines files requests hit))) in
            rw (read_file, hit, held, or_else) (ap (λ ls. pick_line lines line ∷ ls) rest)
        | inl miss ↦
            let lines = lines_or_empty (read file) in
            let files' = insert (forward_slashes file) lines files in
            let rest : read_lines requests files' ≡ picks all_held =
              (read_lines-held requests files'
                ∙ ap picks (fun_ext (held-miss file line files requests miss))) in
            rw (read_file, miss, held, or_else, eq_refl (forward_slashes file))
              (ap (λ ls. pick_line lines line ∷ ls) rest)
      ]

  -- Over a run that starts with an empty cache, every request gets its line of one and the same
  -- reading of its forward-slashed path: that of the first request under the path.
  pub read_lines-first_read :
      (requests : List (Text × ℕ))
      → read_lines requests []
        ≡ map (λ (file, line). pick_line (first_read requests (forward_slashes file)) line) requests
  unfolding held lookup or_else
  read_lines-first_read requests = read_lines-held requests []
