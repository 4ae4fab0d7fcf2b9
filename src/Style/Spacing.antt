-- ===== src/Style/Spacing.antt =====
-- CheckSpacing of tools/scripts/cpplint.py.
use jp4agent.Prelude.{
  ℕ, zero, suc, ◌+◌, ◌-◌, Bool, false, ◌&&◌, ◌||◌, not, none, some, List, [], ◌∷◌, ◌++◌, Option,
  ltb, if◌then◌else◌, Text, codes, contains, starts_with, length, lstrip,
}
use jp4agent.Regex.{Regex, group, line_end, cls, word}
use jp4agent.Regex.Notation.{lit, none_of, any, opt, spaces, spaces1, one_of, ◌▹◌, ◌∣∣◌}
use jp4agent.Regex.Find.{match, matches, searches, group_or}
use jp4agent.Lint.Report.{Report, report, report_if}
use jp4agent.Cleanse.Lines.{CleansedLines, line_at}
use jp4agent.Nesting.Blocks.{NestingState}
use jp4agent.Nesting.Queries.{in_namespace_body, in_extern_c}
use jp4agent.Checks.Comments.{check_comment}
use jp4agent.Checks.Files.{is_blank_line}
use jp4agent.Style.Texts.{line_before, from_last}

-- An opening brace without a closing one behind it.
opens_block : Text → Bool
opens_block prev_line = elim (from_last b'{' prev_line) [
  | none ↦ false
  | some t ↦ not (contains t (codes "}"))
]

--  {6}\w
abbrev six_spaces_pattern : Regex
six_spaces_pattern = lit "      " ▹ cls word

--  {4}\w[^\(]*\)\s*(const\s*)?(\{\s*$|:)
abbrev four_spaces_pattern : Regex
four_spaces_pattern =
    lit "    "
    ▹ cls word
    ▹ Regex.star (none_of "(")
    ▹ lit ")"
    ▹ spaces
    ▹ opt (lit "const" ▹ spaces)
    ▹ (lit "{" ▹ spaces ▹ line_end ∣∣ lit ":")

-- The last of the lines before line n that is no further line of an initializer list.
unfoldable pub skip_initializers : List Text → ℕ → Option Text
skip_initializers elided zero = none
skip_initializers elided (suc n) =
    let earlier = skip_initializers elided n in
    if matches six_spaces_pattern (line_at elided n) then earlier else some (line_at elided n)

-- `exception`: the head of a function over several lines.
pub is_initializer_list : List Text → ℕ → Text → Bool
is_initializer_list elided linenum prev_line =
    if matches six_spaces_pattern prev_line
    then (elim (skip_initializers elided (linenum - 1)) [
      | none ↦ false
      | some line ↦ starts_with line (codes "    :")
    ])
    else matches four_spaces_pattern prev_line || matches (lit "    :") prev_line

start_of_block_reports : Text → List Text → ℕ → List Report
unfolding opens_block is_initializer_list
start_of_block_reports filename elided linenum =
    let prev_line = line_before elided linenum in
    report_if (opens_block prev_line && not (is_initializer_list elided linenum prev_line)) (
      report filename linenum "whitespace/blank_line" 2
        (codes "Redundant blank line at the start of a code block should be deleted."))

end_of_block_reports : Text → CleansedLines → ℕ → List Report
end_of_block_reports filename clean_lines linenum =
    let next_line = line_at clean_lines.lines_without_raw_strings (linenum + 1) in
    report_if
      (ltb (linenum + 1) clean_lines.num_lines
        && matches (spaces ▹ lit "}") next_line
        && not (contains next_line (codes "} else ")))
      (report filename linenum "whitespace/blank_line" 3
        (codes "Redundant blank line at the end of a code block should be deleted."))

-- \s*(public|protected|private):
abbrev pub access_label_pattern : Regex
access_label_pattern = spaces ▹ group 1 (one_of ("public" ∷ "protected" ∷ "private" ∷ [])) ▹ lit ":"

after_label_reports : Text → ℕ → Text → List Report
after_label_reports filename linenum prev_line = elim (match access_label_pattern prev_line) [
  | none ↦ []
  | some m ↦
      report filename linenum "whitespace/blank_line" 3
        (codes "Do not leave a blank line after \"" ++ (group_or 1 m ++ codes ":\""))
      ∷ []
]

-- What is said of a blank line that stands in no namespace and no extern block.
blank_line_reports : Text → CleansedLines → ℕ → NestingState → List Report
unfolding start_of_block_reports end_of_block_reports after_label_reports
blank_line_reports filename clean_lines linenum nesting_state =
    if is_blank_line (line_at clean_lines.lines_without_raw_strings linenum)
      && not (in_namespace_body nesting_state)
      && not (in_extern_c nesting_state)
    then start_of_block_reports filename clean_lines.elided linenum
      ++ (end_of_block_reports filename clean_lines linenum
          ++ after_label_reports filename linenum (line_before clean_lines.elided linenum))
    else []

pub next_line_start : CleansedLines → ℕ → ℕ
next_line_start clean_lines linenum =
    let next_line = line_at clean_lines.lines_without_raw_strings (linenum + 1) in
    if ltb (linenum + 1) clean_lines.num_lines
    then length next_line - length (lstrip next_line)
    else 0

-- for *\(.*[^:]:[^: ] and for *\(.*[^: ]:[^:]
abbrev for_pattern : Regex → Regex → Regex
for_pattern left right = lit "for" ▹ Regex.star (lit " ") ▹ lit "(" ▹ any ▹ left ▹ lit ":" ▹ right

bracket_and_colon_reports : Text → ℕ → Text → List Report
bracket_and_colon_reports filename linenum line =
    report_if
      (searches (cls word ▹ spaces1 ▹ lit "[") line
        && not (searches (one_of ("delete" ∷ "return" ∷ []) ▹ spaces1 ▹ lit "[") line))
      (report filename linenum "whitespace/braces" 5 (codes "Extra space before ["))
    ++ report_if
        (searches (for_pattern (none_of ":") (none_of ": ")) line
          || searches (for_pattern (none_of ": ") (none_of ":")) line)
        (report filename linenum "whitespace/forcolon" 2
          (codes "Missing space around colon in range-based for loop"))

-- CheckSpacing
unfoldable pub check_spacing : Text → CleansedLines → ℕ → NestingState → List Report
unfolding blank_line_reports next_line_start bracket_and_colon_reports
check_spacing filename clean_lines linenum nesting_state =
    blank_line_reports filename clean_lines linenum nesting_state
    ++ (check_comment (line_at clean_lines.lines_without_raw_strings linenum) filename linenum
          (next_line_start clean_lines linenum)
        ++ bracket_and_colon_reports filename linenum (line_at clean_lines.elided linenum))
