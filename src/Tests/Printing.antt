-- ===== src/Tests/Printing.antt =====
-- Reports, Markdown files and the lines of a file.
use lanorme.Prelude.{
  ℕ, suc, ◌+◌, ◌≡◌, refl, sym, subst, true, false, not, ◌||◌, none, some, List, [], ◌∷◌, ◌++◌, ◌==◌,
  nat_eq, list_eq, pair_eq, triple_eq, length, any, all, count_if, drop, get_elem?, Among, first,
  later, sort, text_leb,
}
use lanorme.Text.{Text, codes, lstrip, rstrip, strip, before, words, join, starts_with, decimal}
use lanorme.Prelude.Dict.{lookup, insert}
use lanorme.Tests.Fixtures.{finding, dry_result}
use lanorme.Finding.{CheckResult, pass, warn, fail, extract_code}
use lanorme.Reports.{count_status, count_errors, count_advisories, format_violation, pluralise}
use lanorme.Reports.Human.{resolve_output_format}
use lanorme.Reports.Counts.{
  count_at, count_by_code, count_by_directory, counted, has_code, is_in, summary_lines,
}
use lanorme.Reports.Counts.Totals.{total, summary-counts}
use lanorme.Reports.Github.{
  escape_for_github, decode_data, escape_for_github-lossless, format_github_location,
}
use lanorme.Markdown.{
  Fence, match_fence_opener, is_fence_closer, prose_from, iter_prose_lines, strip_inline_code,
}
use lanorme.Markdown.Fences.{prose_from-fence, iter_prose_lines-IsAt}
use lanorme.LineCounts.{count_effective_lines, count_code_lines}

escape_for_github-lossless_example :
    (decode_data (escape_for_github (codes "50%\nleft")) ≡ codes "50%\nleft")
    × (any (λ c. c == 10 || c == 13) (escape_for_github (codes "50%\nleft")) ≡ false)
escape_for_github-lossless_example = escape_for_github-lossless (codes "50%\nleft")

escaped : escape_for_github (codes "50%\n%0A") ≡ codes "50%25%0A%250A"
unfolding escape_for_github
escaped = refl

located :
    format_github_location
      (record (finding "a.py" 2 "DRY-001") { column = some 0; end_line = some 13 })
    ≡ codes "file=a.py,line=2,endLine=13,col=1"
unfolding format_github_location join decimal
located = refl

printed_finding :
    format_violation (codes "WARNING") (finding "a.py" 120 "DRY-001")
    ≡ codes "  WARNING: a.py:120 — m\n    Rule: DRY-001\n    Fix: f"
unfolding format_violation decimal
printed_finding = refl

-- The one result of a run that duplicated code and grew long.
abbrev run : List CheckResult
run = dry_result ∷ []

summary-counts_example :
    (length run ≡ count_status pass run + count_status warn run + count_status fail run)
    × (total (count_by_code run) ≡ count_errors run + count_advisories run)
    × (total (count_by_directory run) ≡ count_errors run + count_advisories run)
    × ((rule_code severity : Text)
        → count_at {K = Text × Text} (rule_code, severity) (count_by_code run)
          ≡ count_if (has_code rule_code severity) (counted run))
    × ((directory : Text)
        → count_at directory (count_by_directory run) ≡ count_if (is_in directory) (counted run))
summary-counts_example = summary-counts run

by_code :
    count_by_code run
    ≡ ((codes "DRY-001", codes "error"), 2)
      ∷ ((codes "SIZE-001", codes "warning"), 1)
      ∷ ((codes "RUN-000", codes "warning"), 1)
      ∷ []
unfolding count_by_code insert extract_code words before lookup
by_code = refl

summary_ends :
    drop 6 (summary_lines run) ≡ codes "By directory:" ∷ codes "  ./                       4" ∷ []
unfolding summary_lines lanorme.Reports.totals_lines insert extract_code words before sort lookup
    text_leb decimal
summary_ends = refl

formats :
    (resolve_output_format (some (codes "true")) none false ≡ codes "github")
    × (resolve_output_format (some (codes "true")) (some (codes "full")) false ≡ codes "full")
unfolding resolve_output_format
formats = (refl, refl)

abbrev page : List Text
page =
    codes "---"
    ∷ codes "title: x"
    ∷ codes "---"
    ∷ codes "Prose."
    ∷ codes "````sh"
    ∷ codes "```"
    ∷ codes "run"
    ∷ codes "````"
    ∷ codes "More."
    ∷ []

prose_found : iter_prose_lines page ≡ (4, codes "Prose.") ∷ (9, codes "More.") ∷ []
unfolding iter_prose_lines strip
prose_found = refl

stripped : strip_inline_code (codes "use `x` or ``a`b`` now") ≡ codes "use     or         now"
unfolding strip_inline_code
stripped = refl

abbrev shell : Fence
shell = record { char = b'`'; run = 4 }

opens : match_fence_opener (lstrip (codes "````sh")) ≡ some shell
unfolding match_fence_opener lstrip
opens = refl

stays_open :
    all (λ line. not (is_fence_closer shell (lstrip line))) (codes "```" ∷ codes "run" ∷ []) ≡ true
unfolding is_fence_closer rstrip lstrip
stays_open = refl

closes : is_fence_closer shell (lstrip (codes "````")) ≡ true
unfolding is_fence_closer rstrip lstrip
closes = refl

prose_from-fence_example :
    prose_from 4 none
      (codes "````sh" ∷ ((codes "```" ∷ codes "run" ∷ []) ++ codes "````" ∷ codes "More." ∷ []))
    ≡ prose_from (4 + 2 + 2) none (codes "More." ∷ [])
prose_from-fence_example =
    prose_from-fence 4 (codes "````sh") shell (codes "```" ∷ codes "run" ∷ []) (codes "````")
      (codes "More." ∷ []) opens stays_open closes

more_listed : Among (9, codes "More.") (iter_prose_lines page)
more_listed = subst (λ ps. Among (9, codes "More.") ps) (sym prose_found) (later first)

iter_prose_lines-IsAt_example : (i : ℕ) × (9 ≡ suc i) × (get_elem? page i ≡ some (codes "More."))
iter_prose_lines-IsAt_example = iter_prose_lines-IsAt page 9 (codes "More.") more_listed

-- A docstring on the first line, a comment, a blank line and a statement.
counted_lines :
    let source = codes "\"\"\"d\"\"\"" ∷ codes "# c" ∷ codes " " ∷ codes "x = 1" ∷ [] in
    (count_effective_lines source ≡ 2)
    × (count_code_lines (record { lineno = 1; end_lineno = some 1 } ∷ []) source ≡ 1)
unfolding count_effective_lines strip starts_with count_code_lines
counted_lines = (refl, refl)
