-- ===== src/Style/Bodies.antt =====
-- CheckEmptyBlockBody of tools/scripts/cpplint.py.
use jp4agent.Prelude.{
  ℕ, ◌+◌, ◌-◌, Bool, true, false, ◌&&◌, not, Option, none, some, List, [], ◌∷◌, ◌++◌, ◌==◌, ltb,
  if◌then◌else◌, Text, codes, text_eq, find, take, drop, map,
}
use jp4agent.Regex.{Regex, group, line_start, line_end, not_ahead, ahead}
use jp4agent.Regex.Notation.{lit, spaces, one_of, ◌▹◌}
use jp4agent.Regex.Find.{match, matches, searches, group_or}
use jp4agent.Lint.Report.{Report, report, report_if}
use jp4agent.Cleanse.Lines.{CleansedLines, line_at}
use jp4agent.Cleanse.Comments.{cleanse_comments}
use jp4agent.Expression.Forward.{Place, close_expression}

-- \s*(for|while|if)\s*\(
abbrev condition_pattern : Regex
condition_pattern = spaces ▹ group 1 (one_of ("for" ∷ "while" ∷ "if" ∷ [])) ▹ spaces ▹ lit "("

semicolon_reports : Text → ℕ → Text → List Report
semicolon_reports filename linenum keyword =
    (if text_eq keyword (codes "if")
      then report filename linenum "whitespace/empty_conditional_body" 5
          (codes "Empty conditional bodies should use {}")
      else report filename linenum "whitespace/empty_loop_body" 5
          (codes "Empty loop bodies should use {} or continue"))
    ∷ []

-- The number of the line on which the block opens, and its part from the end of the condition on. Only
-- blank lines may stand between.
find_opening : ℕ → Text → List Text → Option (ℕ × Text)
find_opening n fragment [] =
    if searches (line_start ▹ spaces ▹ lit "{") fragment then some (n, fragment) else none
find_opening n fragment (next ∷ lines) =
    let later = find_opening (n + 1) next lines in
    if searches (line_start ▹ spaces ▹ lit "{") fragment
    then some (n, fragment)
    else if searches (line_start ▹ not_ahead (spaces ▹ line_end)) fragment
    then none
    else later

-- `'\n'.join(...)`
join_lines : List Text → Text
join_lines [] = []
join_lines (line ∷ []) = line
join_lines (line ∷ next ∷ lines) = line ++ 10 ∷ join_lines (next ∷ lines)

-- The text of the block. Over several lines, each character of the first is an item of the list that is
-- joined.
body_text : CleansedLines → ℕ → ℕ → Place → ℕ → Text
unfolding join_lines
body_text clean_lines opening_linenum opening_pos closing closing_pos =
    let opening_line = line_at clean_lines.elided opening_linenum in
    if ltb opening_linenum closing.linenum
    then join_lines (
        map (λ c. c ∷ []) (drop (opening_pos + 1) opening_line)
        ++ (take (closing.linenum - (opening_linenum + 1))
              (drop (opening_linenum + 1) clean_lines.raw_lines)
            ++ take (closing_pos - 1) (line_at clean_lines.elided closing.linenum) ∷ []))
    else drop (opening_pos + 1) (take (closing_pos - 1) opening_line)

-- Is there an else clause behind, with blank lines only between?
has_else : Text → List Text → Bool
has_else fragment [] = searches (line_start ▹ ahead (spaces ▹ lit "else")) fragment
has_else fragment (next ∷ lines) =
    let later = has_else next lines in
    if searches (line_start ▹ ahead (spaces ▹ lit "else")) fragment
    then true
    else if searches (line_start ▹ spaces ▹ line_end) fragment
    then later
    else false

-- The block is empty, has no comment at its brace, and no else follows.
is_empty_if : CleansedLines → ℕ → ℕ → Bool
unfolding body_text has_else
is_empty_if clean_lines opening_linenum opening_pos =
    let closing = close_expression clean_lines opening_linenum opening_pos in
    elim closing.pos [
      | none ↦ false
      | some closing_pos ↦
          text_eq (line_at clean_lines.raw_lines opening_linenum)
            (cleanse_comments (line_at clean_lines.raw_lines opening_linenum))
          && searches (line_start ▹ spaces ▹ line_end)
              (body_text clean_lines opening_linenum opening_pos closing closing_pos)
          && not (
              has_else (drop closing_pos closing.line)
                (drop (closing.linenum + 1) clean_lines.elided))
    ]

-- The position of the brace on its line.
brace_position : ℕ → ℕ → ℕ → Text → ℕ
brace_position end_linenum end_pos opening_linenum fragment = elim (find fragment (codes "{")) [
  | none ↦ 0
  | some k ↦ if opening_linenum == end_linenum then k + end_pos else k
]

empty_if_reports : Text → CleansedLines → Place → ℕ → List Report
unfolding find_opening is_empty_if brace_position
empty_if_reports filename clean_lines end end_pos =
    elim (find_opening end.linenum (drop end_pos end.line)
      (drop (end.linenum + 1) clean_lines.elided)) [
        | none ↦ []
        | some (opening_linenum, fragment) ↦
            report_if
              (is_empty_if clean_lines opening_linenum
                (brace_position end.linenum end_pos opening_linenum fragment))
              (report filename end.linenum "whitespace/empty_if_body" 4
                (codes "If statement had no body and no else clause"))
      ]

unfoldable pub body_reports : Text → CleansedLines → Text → Place → ℕ → List Report
unfolding semicolon_reports empty_if_reports
body_reports filename clean_lines keyword end end_pos =
    (if matches (lit ";") (drop end_pos end.line)
      then semicolon_reports filename end.linenum keyword
      else [])
    ++ (if text_eq keyword (codes "if")
        then empty_if_reports filename clean_lines end end_pos
        else [])

-- CheckEmptyBlockBody
unfoldable pub check_empty_block_body : Text → CleansedLines → ℕ → List Report
unfolding body_reports
check_empty_block_body filename clean_lines linenum =
    let line = line_at clean_lines.elided linenum in
    elim (match condition_pattern line) [
      | none ↦ []
      | some m ↦ elim (find line (codes "(")) [
        | none ↦ []
        | some pos ↦
            let end = close_expression clean_lines linenum pos in
            elim end.pos [
              | none ↦ []
              | some end_pos ↦ body_reports filename clean_lines (group_or 1 m) end end_pos
            ]
      ]
    ]
