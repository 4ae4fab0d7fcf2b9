-- ===== src/Style/Braces.antt =====
-- CheckBraces of tools/scripts/cpplint.py.
use jp4agent.Prelude.{
  ℕ, ◌+◌, ◌-◌, Bool, true, false, ◌&&◌, ◌||◌, not, Option, none, some, List, [], ◌∷◌, ◌++◌, ◌==◌,
  ltb, if◌then◌else◌, Text, codes, contains, find, length, drop,
}
use jp4agent.Regex.{Regex, star, group, boundary, line_start, line_end, cls, space, one, either}
use jp4agent.Regex.Notation.{lit, any_of, none_of, no_space_nor, opt, spaces, ◌▹◌, ◌∣∣◌}
use jp4agent.Regex.Find.{Found, search_in, matches, searches}
use jp4agent.Lint.Report.{Report, report, report_if}
use jp4agent.Cleanse.Lines.{CleansedLines, line_at}
use jp4agent.Expression.Forward.{Place, close_expression}
use jp4agent.Nesting.Blocks.{get_indent_level}
use jp4agent.Checks.Files.{previous_non_blank_line}
use jp4agent.Style.Texts.{from_place, find_from_pos}
use jp4agent.Style.Width.{Settings, get_line_width}

-- GetPreviousNonBlankLine(clean_lines, linenum)[0]
unfoldable pub previous_code : CleansedLines → ℕ → Text
previous_code clean_lines linenum = elim (previous_non_blank_line clean_lines.elided linenum) [
  | none ↦ []
  | some (line, _) ↦ line
]

-- An opening brace that stands alone may follow such a line.
may_precede_brace : Settings → Text → Bool
may_precede_brace settings prevline =
    searches (any_of ",;:}{(" ▹ spaces ▹ line_end) prevline
    || matches (spaces ▹ lit "#") prevline
    || (ltb settings.line_length (get_line_width settings prevline + 2)
        && contains prevline (codes "[]"))

brace_alone_reports : Settings → Text → CleansedLines → ℕ → Text → List Report
unfolding may_precede_brace
brace_alone_reports settings filename clean_lines linenum line =
    report_if
      (matches (spaces ▹ lit "{" ▹ spaces ▹ line_end) line
        && not (may_precede_brace settings (previous_code clean_lines linenum)))
      (report filename linenum "whitespace/braces" 4
        (codes "{ should almost always be at the end of the previous line"))

-- \s*else\b\s*(?:if\b|\{|$)
abbrev pub else_pattern : Regex
else_pattern =
    spaces ▹ lit "else" ▹ boundary ▹ spaces ▹ (lit "if" ▹ boundary ∣∣ lit "{" ∣∣ line_end)

else_line_reports : Text → CleansedLines → ℕ → Text → List Report
else_line_reports filename clean_lines linenum line =
    report_if
      (matches else_pattern line
        && matches (spaces ▹ lit "}" ▹ spaces ▹ line_end) (previous_code clean_lines linenum))
      (report filename linenum "whitespace/newline" 4
        (codes "An else should appear on the same line as the preceding }"))

one_side : Text → ℕ → Report
one_side filename linenum =
    report filename linenum "readability/braces" 5
      (codes "If an else has a brace on one side, it should have it on both")

-- The position of the bracket behind `else if`
else_if_bracket : Text → Option ℕ
else_if_bracket line = elim (find line (codes "else if")) [
  | none ↦ none
  | some pos ↦ find_from_pos pos line (codes "(")
]

same_side : Bool → Bool → Bool
same_side true b = b
same_side false b = not b

-- else if\s*\(
abbrev else_if_pattern : Regex
else_if_pattern = lit "else if" ▹ spaces ▹ lit "("

one_side_reports : Text → CleansedLines → ℕ → Text → List Report
unfolding one_side same_side else_if_bracket
one_side_reports filename clean_lines linenum line =
    if searches else_if_pattern line
    then (elim (else_if_bracket line) [
      | none ↦ []
      | some pos ↦
          report_if
            (ltb 0 pos
              && not (
                  same_side (searches (lit "}" ▹ spaces ▹ else_if_pattern) line)
                    (contains (from_place (close_expression clean_lines linenum pos)) (codes "{"))))
            (one_side filename linenum)
    ])
    else report_if
        (searches (lit "}" ▹ spaces ▹ lit "else" ▹ star (none_of "{") ▹ line_end) line
          || matches (star (none_of "}") ▹ lit "else" ▹ spaces ▹ lit "{") line)
        (one_side filename linenum)

else_clause_reports : Text → ℕ → Text → List Report
else_clause_reports filename linenum line =
    report_if
      (searches (boundary ▹ lit "else " ▹ no_space_nor "{") line
        && not (searches (boundary ▹ lit "else if" ▹ boundary) line))
      (report filename linenum "whitespace/newline" 4
        (codes "Else clause should never be on same line as else (use 2 lines)"))
    ++ report_if (matches (spaces ▹ lit "do " ▹ no_space_nor "{") line) (
        report filename linenum "whitespace/newline" 4
          (codes "do/while clauses should not be on a single line"))

-- The first line with a semicolon, its number, and what stands from the semicolon on. `rest` is what is
-- left of the line `line` with number n.
find_semicolon : ℕ → Text → Text → List Text → Option (ℕ × Text × Text)
find_semicolon n line rest [] = if contains rest (codes ";") then some (n, line, rest) else none
find_semicolon n line rest (next ∷ more) =
    let later = find_semicolon (n + 1) next next more in
    if contains rest (codes ";") then some (n, line, rest) else later

-- Where the condition of an if ends, or the `else`.
condition_end : CleansedLines → ℕ → Text → Found → Place
condition_end clean_lines linenum line m =
    elim (search_in (boundary ▹ lit "if" ▹ spaces ▹ lit "(") line) [
      | some if_match ↦ close_expression clean_lines linenum (if_match.end - 1)
      | none ↦ record { line = line; linenum = linenum; pos = some m.end }
    ]

-- The body is in braces.
is_braced : CleansedLines → Place → Bool
is_braced clean_lines p =
    matches (spaces ▹ lit "{") (from_place p)
    || (matches (spaces ▹ line_end) (from_place p)
        && ltb p.linenum (length clean_lines.elided - 1)
        && matches (spaces ▹ lit "{") (line_at clean_lines.elided (p.linenum + 1)))

-- ^[^{};]*\[[^\[\]]*\][^{}]*\{[^{}]*\}\s*\)*[;,]\s*$
abbrev lambda_pattern : Regex
lambda_pattern =
    line_start
    ▹ star (none_of "{};")
    ▹ lit "["
    ▹ star (none_of "[]")
    ▹ lit "]"
    ▹ star (none_of "{}")
    ▹ lit "{"
    ▹ star (none_of "{}")
    ▹ lit "}"
    ▹ spaces
    ▹ star (lit ")")
    ▹ any_of ";,"
    ▹ spaces
    ▹ line_end

needs_braces : Text → ℕ → Report
needs_braces filename linenum =
    report filename linenum "readability/braces" 4
      (codes "If/else bodies with multiple statements require braces")

next_line_reports : Text → ℕ → Bool → ℕ → Text → List Report
unfolding needs_braces
next_line_reports filename linenum has_if if_indent next_line =
    let next_indent = get_indent_level next_line in
    if has_if
      && matches (spaces ▹ lit "else" ▹ boundary) next_line
      && not (next_indent == if_indent)
    then report filename linenum "readability/braces" 4 (
        codes
          "Else clause should be indented at the same level as if. Ambiguous nested if/else chains require braces.")
      ∷ []
    else report_if (ltb if_indent next_indent) (needs_braces filename linenum)

-- ;[\s}]*(\\?)$
abbrev end_of_statement_pattern : Regex
end_of_statement_pattern =
    lit ";" ▹ star (cls (either space (one b'}'))) ▹ group 1 (opt (lit "\\")) ▹ line_end

-- A body without braces that ends on line `end`, on which `rest` begins with the first semicolon.
statement_reports : Text → CleansedLines → ℕ → Bool → ℕ → ℕ × Text × Text → List Report
unfolding next_line_reports needs_braces
statement_reports filename clean_lines linenum has_if if_indent (end, endline, rest) =
    if not (matches end_of_statement_pattern rest)
    then report_if (not (matches lambda_pattern endline)) (needs_braces filename linenum)
    else if ltb end (length clean_lines.elided - 1)
    then next_line_reports filename linenum has_if if_indent (line_at clean_lines.elided (end + 1))
    else []

-- `endline[endline.find(';'):]`
from_semicolon : ℕ × Text × Text → ℕ × Text × Text
from_semicolon (n, line, _) = elim (find line (codes ";")) [
  | none ↦ (n, line, drop (length line - 1) line)
  | some k ↦ (n, line, drop k line)
]

unfoldable pub body_reports : Text → CleansedLines → ℕ → Text → List Report
unfolding condition_end is_braced find_semicolon from_semicolon statement_reports
body_reports filename clean_lines linenum line =
    elim (search_in (boundary ▹ (lit "if" ▹ spaces ▹ lit "(" ∣∣ lit "else" ▹ boundary)) line) [
      | none ↦ []
      | some m ↦
          let p = condition_end clean_lines linenum line m in
          if matches (spaces ▹ lit "#") line
            || is_braced clean_lines p
            || not (ltb p.linenum (length clean_lines.elided))
          then []
          else (elim (find_semicolon p.linenum p.line (from_place p)
              (drop (p.linenum + 1) clean_lines.elided)) [
                | none ↦ []
                | some found ↦
                    statement_reports filename clean_lines linenum
                      (searches (boundary ▹ lit "if" ▹ spaces ▹ lit "(") line)
                      (get_indent_level line) (from_semicolon found)
              ])
    ]

-- CheckBraces
unfoldable pub check_braces : Settings → Text → CleansedLines → ℕ → List Report
unfolding brace_alone_reports else_line_reports one_side_reports else_clause_reports body_reports
check_braces settings filename clean_lines linenum =
    let line = line_at clean_lines.elided linenum in
    brace_alone_reports settings filename clean_lines linenum line
    ++ (else_line_reports filename clean_lines linenum line
        ++ (one_side_reports filename clean_lines linenum line
            ++ (else_clause_reports filename linenum line
                ++ body_reports filename clean_lines linenum line)))
