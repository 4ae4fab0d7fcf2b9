-- ===== src/Style/Sections.antt =====
-- CheckSectionSpacing of tools/scripts/cpplint.py.
use jp4agent.Prelude.{
  ℕ, ◌+◌, ◌-◌, Bool, ◌&&◌, ◌||◌, not, Option, none, some, List, [], ◌∷◌, ◌++◌, ltb, leb,
  if◌then◌else◌, Text, codes, take, drop,
}
use jp4agent.Regex.{Regex, boundary, line_end}
use jp4agent.Regex.Notation.{lit, spaces, one_of, ◌▹◌}
use jp4agent.Regex.Find.{match, searches, group_or}
use jp4agent.Lint.Report.{Report, report, report_if}
use jp4agent.Cleanse.Lines.{CleansedLines, line_at}
use jp4agent.Nesting.Blocks.{Block, ClassInfo}
use jp4agent.Checks.Files.{is_blank_line}
use jp4agent.Style.Texts.{line_before}
use jp4agent.Style.Spacing.{access_label_pattern}

-- The number of the first line that the pattern is found on, counted from n.
first_found : Regex → ℕ → List Text → Option ℕ
first_found r n [] = none
first_found r n (line ∷ lines) =
    let later = first_found r (n + 1) lines in if searches r line then some n else later

-- `end_class_head`: the line before `linenum` that ends with the opening brace of the class.
end_class_head : List Text → ℕ → ℕ → ℕ
unfolding first_found
end_class_head lines start linenum =
    elim (first_found (lit "{" ▹ spaces ▹ line_end) start
      (take (linenum - start) (drop start lines))) [ none ↦ start | some i ↦ i ]

-- A line before a label that needs no blank line.
may_precede : Text → Bool
may_precede prev_line =
    is_blank_line prev_line
    || searches (boundary ▹ one_of ("class" ∷ "struct" ∷ []) ▹ boundary) prev_line
    || searches (lit "\\" ▹ line_end) prev_line

-- CheckSectionSpacing. The number of a last line that was not found is 0.
unfoldable pub check_section_spacing : Text → CleansedLines → Block × ClassInfo → ℕ → List Report
unfolding end_class_head may_precede
check_section_spacing filename clean_lines (block, info) linenum =
    let start = block.starting_linenum in
    if leb info.last_line (start + 24) || leb linenum start
    then []
    else elim (match access_label_pattern (line_at clean_lines.lines linenum)) [
      | none ↦ []
      | some m ↦
          report_if
            (not (may_precede (line_before clean_lines.lines linenum))
              && ltb (end_class_head clean_lines.lines start linenum) (linenum - 1))
            (report filename linenum "whitespace/blank_line" 3
              (codes "\"" ++ (group_or 1 m ++ codes ":\" should be preceded by a blank line")))
    ]
