-- ===== src/Reports/Github.antt =====
-- lanorme/reports.py: the workflow commands of GitHub Actions, and their escapes.
use lanorme.Prelude.{
  ℕ, zero, suc, ◌+◌, String, ◌≡◌, refl, sym, ap, ◌∙◌, inl, inr, Bool, false, not, ◌||◌, Option,
  none, some, List, [], ◌∷◌, ◌++◌, map, arith, if◌then◌else◌, Bool-cases, ◌==◌, eq_iff, nat_eq,
  list_eq, pair_eq, triple_eq, any, flat_map, take,
}
use lanorme.Text.{Text, codes, join, decimal}
use lanorme.Finding.{Violation, CheckResult, extract_code}

-- `text.replace(c, new)`
unfoldable pub replace_char : ℕ → Text → Text → Text
replace_char c new [] = []
replace_char c new (d ∷ s) =
    let rest = replace_char c new s in if d == c then new ++ rest else d ∷ rest

unfoldable pub escape_for_github : Text → Text
unfolding replace_char
escape_for_github message =
    replace_char 10 (codes "%0A")
      (replace_char 13 (codes "%0D") (replace_char b'%' (codes "%25") message))

optional_part : String → ℕ → Option ℕ → List Text
optional_part name shift none = []
optional_part name shift (some n) = (codes name ++ decimal (n + shift)) ∷ []

-- `_format_github_location`; columns are printed from 1.
unfoldable pub format_github_location : Violation → Text
unfolding optional_part
format_github_location v = join (codes ",") (
    (codes "file=" ++ v.file)
    ∷ (codes "line=" ++ decimal v.line)
    ∷ (optional_part "endLine=" 0 v.end_line
        ++ (optional_part "col=" 1 v.column ++ optional_part "endColumn=" 1 v.end_column)))

unfoldable pub github_command : Text → Violation → Text
unfolding format_github_location escape_for_github
github_command level v =
    codes "::"
    ++ (level
        ++ (codes " "
            ++ (format_github_location v
                ++ (codes ",title="
                    ++ (extract_code v.rule ++ (codes "::" ++ escape_for_github v.message))))))

unfoldable pub github_lines : List CheckResult → List Text
unfolding github_command
github_lines results =
    flat_map
      (λ r.
        map (github_command (codes "error")) r.violations
        ++ map (github_command (codes "warning")) r.warnings)
      results

-- How the reader of a workflow command decodes its data: `%25`, `%0D` and `%0A`, left to right.
-- `skip` counts the characters of a code still to pass over.
decode_from : ℕ → Text → Text
decode_from skip [] = []
decode_from (suc skip) (c ∷ s) = decode_from skip s
decode_from zero (c ∷ s) =
    let plain = decode_from 0 s in
    let coded = decode_from 2 s in
    if not (c == b'%')
    then c ∷ plain
    else if take 2 s == codes "25"
    then b'%' ∷ coded
    else if take 2 s == codes "0D"
    then 13 ∷ coded
    else if take 2 s == codes "0A"
    then 10 ∷ coded
    else c ∷ plain

unfoldable pub decode_data : Text → Text
unfolding decode_from
decode_data s = decode_from 0 s

-- The three passes as one.
escaped_char : ℕ → Text
escaped_char c =
    if c == b'%'
    then codes "%25"
    else if c == 13
    then codes "%0D"
    else if c == 10
    then codes "%0A"
    else c ∷ []

one_pass : (s : Text) → escape_for_github s ≡ flat_map escaped_char s
unfolding escape_for_github replace_char escaped_char
one_pass [] = refl
one_pass (c ∷ s) = ground (arith, one_pass s)

decode-escaped : (c : ℕ) (s : Text) → decode_from 0 (escaped_char c ++ s) ≡ c ∷ decode_from 0 s
unfolding escaped_char decode_from
decode-escaped c s = elim (Bool-cases (c == b'%')) [
  | inl percent ↦ rw percent (ap (λ d. d ∷ decode_from 0 s) (sym ((eq_iff c b'%').0 percent)))
  | inr other ↦ elim (Bool-cases (c == 13)) [
    | inl carriage ↦
        rw (other, carriage) (ap (λ d. d ∷ decode_from 0 s) (sym ((eq_iff c 13).0 carriage)))
    | inr plain ↦ elim (Bool-cases (c == 10)) [
      | inl newline ↦
          rw (other, plain, newline) (ap (λ d. d ∷ decode_from 0 s) (sym ((eq_iff c 10).0 newline)))
      | inr rest ↦ rw (other, plain, rest, other) refl
    ]
  ]
]

decode-flat_map : (s : Text) → decode_from 0 (flat_map escaped_char s) ≡ s
unfolding decode_from
decode-flat_map [] = refl
decode-flat_map (c ∷ s) =
    decode-escaped c (flat_map escaped_char s) ∙ ap (λ t. c ∷ t) (decode-flat_map s)

abbrev is_line_end : ℕ → Bool
is_line_end c = c == 10 || c == 13

no_line_end : (s : Text) → any is_line_end (flat_map escaped_char s) ≡ false
unfolding escaped_char
no_line_end [] = refl
no_line_end (c ∷ s) = ground (arith, no_line_end s)

-- An escaped message holds no line feed and no carriage return, so the command stays on one line,
-- and the reader's decoding gives the message back.
pub escape_for_github-lossless :
    (message : Text)
    → (decode_data (escape_for_github message) ≡ message)
      × (any (λ c. c == 10 || c == 13) (escape_for_github message) ≡ false)
unfolding decode_data
escape_for_github-lossless message =
    rw (one_pass message) (decode-flat_map message, no_line_end message)
