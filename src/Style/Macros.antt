-- ===== src/Style/Macros.antt =====
-- FindCheckMacro and CheckCheck of tools/scripts/cpplint.py.
pub mod Fuel
use jp4agent.Prelude.{
  ℕ, zero, suc, ◌+◌, ◌-◌, Bool, ◌&&◌, ◌||◌, not, Option, none, some, List, [], ◌∷◌, ◌++◌, ◌==◌,
  if◌then◌else◌, Text, codes, text_eq, contains, strip, mem_text, length, take, drop,
}
use jp4agent.Regex.{Regex, group, boundary, line_start, line_end, cls, digit, range, either}
use jp4agent.Regex.Notation.{
  lit, lit_codes, any_of, none_of, nonspace, any, opt, plus, spaces, up_to_three, one_of, ◌▹◌, ◌∣∣◌,
}
use jp4agent.Regex.Find.{match, matches, group_or}
use jp4agent.Lint.Report.{Report, report, report_if}
use jp4agent.Cleanse.Lines.{CleansedLines, line_at}
use jp4agent.Expression.Forward.{Place, found, close_expression, find_end_of_expression_in_line}
use jp4agent.Style.Texts.{concat}

-- _CHECK_MACROS
abbrev check_macros : List Text
check_macros =
    codes "DCHECK"
    ∷ codes "CHECK"
    ∷ codes "EXPECT_TRUE"
    ∷ codes "ASSERT_TRUE"
    ∷ codes "EXPECT_FALSE"
    ∷ codes "ASSERT_FALSE"
    ∷ []

-- The two loops that fill _CHECK_REPLACEMENT: the ends of the macros for each operator.
abbrev operator_ends : List (Text × Text × Text)
operator_ends =
    (codes "==", codes "EQ", codes "NE")
    ∷ (codes "!=", codes "NE", codes "EQ")
    ∷ (codes ">=", codes "GE", codes "LT")
    ∷ (codes ">", codes "GT", codes "LE")
    ∷ (codes "<=", codes "LE", codes "GT")
    ∷ (codes "<", codes "LT", codes "GE")
    ∷ []

ends_of : Text → List (Text × Text × Text) → Text × Text
ends_of operator [] = ([], [])
ends_of operator ((op, straight, inverse) ∷ rest) =
    if text_eq op operator then (straight, inverse) else ends_of operator rest

-- _CHECK_REPLACEMENT[macro][operator]
unfoldable pub check_replacement : Text → Text → Text
unfolding ends_of
check_replacement macro operator =
    let (straight, inverse) = ends_of operator operator_ends in
    if text_eq macro (codes "DCHECK")
    then codes "DCHECK_" ++ straight
    else if text_eq macro (codes "CHECK")
    then codes "CHECK_" ++ straight
    else if text_eq macro (codes "EXPECT_TRUE")
    then codes "EXPECT_" ++ straight
    else if text_eq macro (codes "ASSERT_TRUE")
    then codes "ASSERT_" ++ straight
    else if text_eq macro (codes "EXPECT_FALSE")
    then codes "EXPECT_" ++ inverse
    else codes "ASSERT_" ++ inverse

-- FindCheckMacro: the macro, and where its bracket is. `line.find(macro)` is true wherever the pattern
-- matches, and so is left out of the test.
find_check_macro : List Text → Text → Option (Text × ℕ)
find_check_macro [] line = none
find_check_macro (macro ∷ macros) line =
    elim (match (line_start ▹ group 1 (any ▹ boundary ▹ lit_codes macro ▹ spaces) ▹ lit "(") line) [
      | some m ↦ some (macro, length (group_or 1 m))
      | none ↦ find_check_macro macros line
    ]

-- The text between the brackets.
inner_expression : CleansedLines → ℕ → ℕ → Place → ℕ → Text
inner_expression clean_lines linenum start_pos closed end_pos =
    let line = line_at clean_lines.elided linenum in
    if linenum == closed.linenum
    then drop (start_pos + 1) (take (end_pos - 1) line)
    else drop (start_pos + 1) line
      ++ (concat (take (closed.linenum - (linenum + 1)) (drop (linenum + 1) clean_lines.elided))
          ++ take (end_pos - 1) closed.line)

-- ^\s*(<<|<<=|>>|>>=|->\*|->|&&|\|\||==|!=|>=|>|<=|<|\()(.*)$
abbrev pub token_pattern : Regex
token_pattern =
    line_start
    ▹ spaces
    ▹ group 1 (
        one_of (
          "<<" ∷ "<<=" ∷ ">>" ∷ ">>=" ∷ "->*" ∷ "->" ∷ "&&" ∷ "||" ∷ "==" ∷ "!=" ∷ ">=" ∷ ">" ∷ "<="
          ∷ "<" ∷ "(" ∷ []))
    ▹ group 2 any
    ▹ line_end

-- ^([^-=!<>()&|]+)(.*)$ and ^(\s*\S)(.*)$
abbrev operand_pattern : Regex
operand_pattern = line_start ▹ group 1 (plus (none_of "-=!<>()&|")) ▹ group 2 any ▹ line_end

abbrev one_character_pattern : Regex
one_character_pattern = line_start ▹ group 1 (spaces ▹ nonspace) ▹ group 2 any ▹ line_end

abbrev non_relational : List Text
non_relational = codes "<<" ∷ codes "<<=" ∷ codes ">>" ∷ codes ">>=" ∷ codes "->*" ∷ codes "->" ∷ []

-- A round of the loop: leave the function, leave the loop with what was found, or read on.
pub data Round : Type 0 where
  give_up : Round
  stop : Text → Option (Text × Text) → Round
  more : Text → Text → Round

after_bracket : Text → Text → Round
after_bracket lhs expression = elim (find_end_of_expression_in_line expression 0 (b'(' ∷ [])) [
  | found end ↦ more (lhs ++ b'(' ∷ take end expression) (drop end expression)
  | _ ↦ give_up
]

after_token : Text → Text → Text → Round
unfolding after_bracket
after_token lhs token rest =
    if text_eq token (codes "(")
    then after_bracket lhs rest
    else if text_eq token (codes "&&") || text_eq token (codes "||")
    then give_up
    else if mem_text token non_relational
    then more (lhs ++ token) rest
    else stop lhs (some (token, rest))

read_operand : Text → Text → Round
read_operand lhs expression = elim (match operand_pattern expression) [
  | some m ↦ more (lhs ++ group_or 1 m) (group_or 2 m)
  | none ↦ elim (match one_character_pattern expression) [
    | some m ↦ more (lhs ++ group_or 1 m) (group_or 2 m)
    | none ↦ stop lhs none
  ]
]

pub read_round : Text → Text → Round
unfolding after_token read_operand
read_round lhs expression = elim (match token_pattern expression) [
  | some m ↦ after_token lhs (group_or 1 m) (group_or 2 m)
  | none ↦ read_operand lhs expression
]

-- The loop, with the left operand, the operator and the right operand. Every round that reads on takes a
-- character off the expression, so that its length is enough fuel.
pub split_comparison : ℕ → Text → Text → Option (Text × Text × Text)
unfolding read_round
split_comparison fuel lhs [] = none
split_comparison zero lhs (c ∷ expression) = none
split_comparison (suc fuel) lhs (c ∷ expression) = elim (read_round lhs (c ∷ expression)) [
  | give_up ↦ none
  | stop lhs' none ↦ none
  | stop lhs' (some (operator, rhs)) ↦ some (lhs', operator, rhs)
  | more lhs' rest ↦ split_comparison fuel lhs' rest
]

-- ^([-+]?(\d+|0[xX][0-9a-fA-F]+)[lLuU]{0,3}|".*"|\'.*\')$
abbrev constant_pattern : Regex
constant_pattern =
    line_start
    ▹ group 1 (
        opt (any_of "-+")
          ▹ group 2 (
              plus (cls digit)
              ∣∣ lit "0"
                ▹ any_of "xX"
                ▹ plus
                    (cls (either (range b'0' b'9') (either (range b'a' b'f') (range b'A' b'F')))))
          ▹ up_to_three (any_of "lLuU")
        ∣∣ lit "\"" ▹ any ▹ lit "\""
        ∣∣ lit "'" ▹ any ▹ lit "'")
    ▹ line_end

is_empty : Text → Bool
is_empty s = length s == 0

is_replaceable : Text → Text → Bool
unfolding is_empty
is_replaceable lhs rhs =
    not (is_empty lhs)
    && not (is_empty rhs)
    && not (contains rhs (codes "&&") || contains rhs (codes "||"))
    && (matches constant_pattern (strip lhs) || matches constant_pattern (strip rhs))

unfoldable pub comparison_reports : Text → ℕ → Text → Text → List Report
unfolding split_comparison is_replaceable
comparison_reports filename linenum macro expression =
    elim (split_comparison (length expression) [] expression) [
      | none ↦ []
      | some (lhs, operator, rhs) ↦ report_if (is_replaceable lhs rhs) (
          report filename linenum "readability/check" 2 (
            codes "Consider using "
            ++ (check_replacement macro operator
                ++ (codes " instead of "
                    ++ (macro ++ (codes "(a " ++ (operator ++ codes " b)")))))))
    ]

-- CheckCheck
unfoldable pub check_check : Text → CleansedLines → ℕ → List Report
unfolding find_check_macro inner_expression comparison_reports
check_check filename clean_lines linenum =
    elim (find_check_macro check_macros (line_at clean_lines.elided linenum)) [
      | none ↦ []
      | some (macro, start_pos) ↦
          let closed = close_expression clean_lines linenum start_pos in
          elim closed.pos [
            | none ↦ []
            | some end_pos ↦
                if matches (spaces ▹ lit ";") (drop end_pos closed.line)
                then comparison_reports filename linenum macro
                    (inner_expression clean_lines linenum start_pos closed end_pos)
                else []
          ]
    ]
