-- ===== src/Style/Parens.antt =====
-- CheckParenthesisSpacing, CheckSpacingForFunctionCall and CheckCommaSpacing of tools/scripts/cpplint.py.
use jp4agent.Prelude.{
  ℕ, ◌+◌, Bool, ◌&&◌, ◌||◌, not, none, some, List, [], ◌∷◌, ◌++◌, ◌==◌, ltb, if◌then◌else◌, String,
  Text, codes, text_eq, length,
}
use jp4agent.Regex.{
  Regex, star, group, boundary, line_start, line_end, not_ahead, cls, dot, space, word,
}
use jp4agent.Regex.Notation.{
  lit, any_of, none_of, no_space_nor, any, plus, spaces, spaces1, words1, up_to_two, one_of, ◌▹◌,
  ◌∣∣◌,
}
use jp4agent.Regex.Find.{Found, search_in, searches, group_or, replace_matches}
use jp4agent.Lint.Report.{Report, report, report_if}
use jp4agent.Cleanse.Lines.{CleansedLines, line_at}

--  (if\(|for\(|while\(|switch\()
abbrev no_space_pattern : Regex
no_space_pattern = lit " " ▹ group 1 (one_of ("if(" ∷ "for(" ∷ "while(" ∷ "switch(" ∷ []))

-- \b(if|for|while|switch)\s*\(([ ]*)(.).*[^ ]+([ ]*)\)\s*{\s*$
abbrev in_parens_pattern : Regex
in_parens_pattern =
    boundary
    ▹ group 1 (one_of ("if" ∷ "for" ∷ "while" ∷ "switch" ∷ []))
    ▹ spaces
    ▹ lit "("
    ▹ group 2 (star (lit " "))
    ▹ group 3 (cls dot)
    ▹ any
    ▹ plus (none_of " ")
    ▹ group 4 (star (lit " "))
    ▹ lit ")"
    ▹ spaces
    ▹ lit "{"
    ▹ spaces
    ▹ line_end

-- Spaces that differ, but not as in `for (foo; bar; )`.
is_mismatch : Text → Found → Bool
is_mismatch line m =
    not (length (group_or 2 m) == length (group_or 4 m))
    && not (
        (text_eq (group_or 3 m) (codes ";") && length (group_or 2 m) == 1 + length (group_or 4 m))
        || (length (group_or 2 m) == 0
            && searches (boundary ▹ lit "for" ▹ spaces ▹ lit "(" ▹ any ▹ lit "; )") line))

in_parens_reports : Text → ℕ → Text → List Report
unfolding is_mismatch
in_parens_reports filename linenum line = elim (search_in in_parens_pattern line) [
  | none ↦ []
  | some m ↦
      report_if (is_mismatch line m) (
        report filename linenum "whitespace/parens" 5
          (codes "Mismatching spaces inside () in " ++ group_or 1 m))
      ++ report_if (ltb 1 (length (group_or 2 m))) (
          report filename linenum "whitespace/parens" 5
            (codes "Should have zero or one spaces inside ( and ) in " ++ group_or 1 m))
]

-- CheckParenthesisSpacing
unfoldable pub check_parenthesis_spacing : Text → CleansedLines → ℕ → List Report
unfolding in_parens_reports
check_parenthesis_spacing filename clean_lines linenum =
    let line = line_at clean_lines.elided linenum in
    (elim (search_in no_space_pattern line) [
      | none ↦ []
      | some m ↦
          report filename linenum "whitespace/parens" 5
            (codes "Missing space before ( in " ++ group_or 1 m)
          ∷ []
    ])
    ++ in_parens_reports filename linenum line

-- \bif\s*\((.*)\)\s*{ and its like
abbrev control_pattern : String → Regex → Regex
control_pattern keyword close =
    boundary ▹ lit keyword ▹ spaces ▹ lit "(" ▹ group 1 any ▹ lit ")" ▹ spaces ▹ close

abbrev control_patterns : List Regex
control_patterns =
    control_pattern "if" (lit "{")
    ∷ control_pattern "for" (lit "{")
    ∷ control_pattern "while" (any_of "{;")
    ∷ control_pattern "switch" (lit "{")
    ∷ []

-- What stands between the brackets of a control structure, or else the whole line.
function_call : List Regex → Text → Text
function_call [] line = line
function_call (pattern ∷ patterns) line = elim (search_in pattern line) [
  | some m ↦ group_or 1 m
  | none ↦ function_call patterns line
]

-- \b(if|for|while|switch|return|new|delete|catch|sizeof)\b
abbrev control_word_pattern : Regex
control_word_pattern =
    boundary
    ▹ one_of
        ("if" ∷ "for" ∷ "while" ∷ "switch" ∷ "return" ∷ "new" ∷ "delete" ∷ "catch" ∷ "sizeof" ∷ [])
    ▹ boundary

--  \([^)]+\)\([^)]*(\)|,$) and  \([^)]+\)\[[^\]]+\]
abbrev to_function_pattern : Regex
to_function_pattern =
    lit " (" ▹ plus (none_of ")") ▹ lit ")(" ▹ star (none_of ")") ▹ (lit ")" ∣∣ lit "," ▹ line_end)

abbrev to_array_pattern : Regex
to_array_pattern = lit " (" ▹ plus (none_of ")") ▹ lit ")[" ▹ plus (none_of "]") ▹ lit "]"

after_open_reports : Text → ℕ → Text → List Report
after_open_reports filename linenum fncall =
    if searches (cls word ▹ spaces ▹ lit "(" ▹ cls space ▹ not_ahead (spaces ▹ lit "\\" ▹ line_end))
      fncall
    then report filename linenum "whitespace/parens" 4
        (codes "Extra space after ( in function call")
      ∷ []
    else report_if
        (searches (lit "(" ▹ spaces1 ▹ not_ahead (group 1 (spaces ▹ lit "\\") ∣∣ lit "(")) fncall)
        (report filename linenum "whitespace/parens" 2 (codes "Extra space after ("))

-- _{0,2}asm_{0,2}\s+_{0,2}volatile_{0,2}\s+\(
abbrev asm_volatile_pattern : Regex
asm_volatile_pattern =
    let lines : Regex = up_to_two (lit "_") in
    lines ▹ lit "asm" ▹ lines ▹ spaces1 ▹ lines ▹ lit "volatile" ▹ lines ▹ spaces1 ▹ lit "("

-- \w\s+\((\w+::)*\*\w+\)\(
abbrev member_pointer_pattern : Regex
member_pointer_pattern =
    cls word ▹ spaces1 ▹ lit "(" ▹ star (words1 ▹ lit "::") ▹ lit "*" ▹ words1 ▹ lit ")("

is_spaced_call : Text → Bool
is_spaced_call fncall =
    searches (cls word ▹ spaces1 ▹ lit "(") fncall
    && not (searches asm_volatile_pattern fncall)
    && not (
        searches
          (lit "#" ▹ spaces ▹ lit "define"
            ∣∣ lit "typedef"
            ∣∣ lit "using" ▹ spaces1 ▹ words1 ▹ spaces ▹ lit "=")
          fncall)
    && not (searches member_pointer_pattern fncall)
    && not (searches (boundary ▹ lit "case" ▹ spaces1 ▹ lit "(") fncall)

before_open_reports : Text → ℕ → Text → Text → List Report
unfolding is_spaced_call
before_open_reports filename linenum line fncall = report_if (is_spaced_call fncall) (
    report filename linenum "whitespace/parens"
      (if searches (boundary ▹ lit "operator" ▹ star (lit "_") ▹ boundary) line then 0 else 4)
      (codes "Extra space before ( in function call"))

before_close_reports : Text → ℕ → Text → List Report
before_close_reports filename linenum fncall =
    report_if (searches (none_of ")" ▹ spaces1 ▹ lit ")" ▹ spaces ▹ no_space_nor "{") fncall) (
      report filename linenum "whitespace/parens" 2 (
        if searches (line_start ▹ spaces1 ▹ lit ")") fncall
        then codes "Closing ) should be moved to the previous line"
        else codes "Extra space before )"))

-- CheckSpacingForFunctionCall
unfoldable pub check_spacing_for_function_call : Text → CleansedLines → ℕ → List Report
unfolding function_call after_open_reports before_open_reports before_close_reports
check_spacing_for_function_call filename clean_lines linenum =
    let line = line_at clean_lines.elided linenum in
    let fncall = function_call control_patterns line in
    if searches control_word_pattern fncall
      || searches to_function_pattern fncall
      || searches to_array_pattern fncall
    then []
    else after_open_reports filename linenum fncall
      ++ (before_open_reports filename linenum line fncall
          ++ before_close_reports filename linenum fncall)

-- CheckCommaSpacing
unfoldable pub check_comma_spacing : Text → CleansedLines → ℕ → List Report
check_comma_spacing filename clean_lines linenum =
    let line = line_at clean_lines.elided linenum in
    report_if
      (searches (lit "," ▹ no_space_nor ",") (
          replace_matches (boundary ▹ lit "operator" ▹ spaces ▹ lit "," ▹ spaces ▹ lit "(")
            (codes "F(") line)
        && searches (lit "," ▹ no_space_nor ",")
            (line_at clean_lines.lines_without_raw_strings linenum))
      (report filename linenum "whitespace/comma" 3 (codes "Missing space after ,"))
    ++ report_if (searches (lit ";" ▹ no_space_nor "};\\)/") line)
        (report filename linenum "whitespace/semicolon" 3 (codes "Missing space after ;"))
