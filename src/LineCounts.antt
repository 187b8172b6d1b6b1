-- ===== src/LineCounts.antt =====
-- lanorme/line_counts.py: how many lines of a file count.
use lanorme.Prelude.{
  ℕ, zero, suc, ◌≤◌, Bool, not, ◌&&◌, Option, none, some, List, [], ◌∷◌, arith, leb, if◌then◌else◌,
  ◌==◌, nat_eq, list_eq, pair_eq, triple_eq, any, count_if,
}
use lanorme.Text.{Text, codes, strip, starts_with}

-- The span of a docstring's node: `lineno`, and `end_lineno` where the parser gives it.
pub record DocstringSpan : Type 0 where
  pub lineno : ℕ
  pub end_lineno : Option ℕ

unfoldable pub is_effective_line : Text → Bool
is_effective_line line = not (strip line == []) && not (starts_with (strip line) (codes "#"))

-- `count_effective_lines`, of `source.splitlines()`.
unfoldable pub count_effective_lines : List Text → ℕ
unfolding is_effective_line
count_effective_lines lines = count_if is_effective_line lines

-- `node.end_lineno or node.lineno`
last_line : DocstringSpan → ℕ
last_line span = elim span.end_lineno [
  | none ↦ span.lineno
  | some zero ↦ span.lineno
  | some (suc n) ↦ suc n
]

-- The number is in one of the ranges that `docstring_lines` takes in.
unfoldable pub is_docstring_line : List DocstringSpan → ℕ → Bool
unfolding last_line
is_docstring_line docstrings number =
    any (λ span. leb span.lineno number && leb number (last_line span)) docstrings

-- The lines from that number on that count as code.
code_lines_from : List DocstringSpan → ℕ → List Text → ℕ
unfolding is_docstring_line is_effective_line
code_lines_from docstrings number [] = 0
code_lines_from docstrings number (line ∷ lines) =
    let rest = code_lines_from docstrings (suc number) lines in
    if not (is_docstring_line docstrings number) && is_effective_line line then suc rest else rest

-- `count_code_lines`, of a module's docstrings and of its lines.
unfoldable pub count_code_lines : List DocstringSpan → List Text → ℕ
unfolding code_lines_from
count_code_lines docstrings lines = code_lines_from docstrings 1 lines

code_lines-le :
    (docstrings : List DocstringSpan) (number : ℕ) (lines : List Text)
    → code_lines_from docstrings number lines ≤ count_effective_lines lines
unfolding code_lines_from count_effective_lines
code_lines-le docstrings number [] = omega arith
code_lines-le docstrings number (line ∷ lines) =
    ground (arith, code_lines-le docstrings (suc number) lines)

code_lines_mono :
    (docstrings : List DocstringSpan) (extra : DocstringSpan) (number : ℕ) (lines : List Text)
    → code_lines_from (extra ∷ docstrings) number lines ≤ code_lines_from docstrings number lines
unfolding code_lines_from is_docstring_line
code_lines_mono docstrings extra number [] = omega arith
code_lines_mono docstrings extra number (line ∷ lines) =
    ground (arith, code_lines_mono docstrings extra (suc number) lines)

-- The code lines are at most the effective lines, and a further docstring never adds to them.
pub count_code_lines-le :
    (docstrings : List DocstringSpan) (extra : DocstringSpan) (lines : List Text)
    → (count_code_lines docstrings lines ≤ count_effective_lines lines)
      × (count_code_lines (extra ∷ docstrings) lines ≤ count_code_lines docstrings lines)
unfolding count_code_lines
count_code_lines-le docstrings extra lines =
    (code_lines-le docstrings 1 lines, code_lines_mono docstrings extra 1 lines)
