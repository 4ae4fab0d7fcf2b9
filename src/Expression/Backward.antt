-- ===== src/Expression/Backward.antt =====
-- FindStartOfExpressionInLine and ReverseCloseExpression of tools/scripts/cpplint.py.
use jp4agent.Prelude.{
  ℕ, ◌+◌, ◌-◌, Bool, true, false, ◌&&◌, ◌||◌, not, none, some, List, [], ◌∷◌, ◌==◌, if◌then◌else◌,
  Text, length, take, drop, reverse,
}
use jp4agent.Regex.{Regex, cls, space}
use jp4agent.Regex.Notation.{lit, ◌▹◌}
use jp4agent.Regex.Find.{matches, searches}
use jp4agent.Cleanse.Lines.{CleansedLines, line_at}
use jp4agent.Expression.Forward.{
  Scan, found, broken, open_at_end, Step, stop, next, Place, operator_pattern, is_opening,
  is_closing, is_pair, pop_all, pop_or, follows, end_statement,
}

-- \s>=\s
abbrev ge_pattern : Regex
ge_pattern = cls space ▹ lit ">=" ▹ cls space

-- An opening bracket at position i, when no > is on top of the stack.
open_bracket : ℕ → ℕ → Text → Step
open_bracket i char [] = stop broken
open_bracket i char (x ∷ stack) =
    if is_pair char x then pop_or (found i) (x ∷ stack) else stop broken

-- Is a > behind `left` and before `right` no bracket? It is not in ->, >= and operator>.
is_operator : Text → Text → Bool
is_operator [] right = false
is_operator (c ∷ left) right =
    c == b'-'
    || matches ge_pattern (c ∷ b'>' ∷ right)
    || searches operator_pattern (reverse (c ∷ left))

-- Does the source pass over the character before, too?
unfoldable pub start_skips : ℕ → Text → Text → Bool
unfolding is_operator follows
start_skips char left right =
    (char == b'>' && is_operator left right) || (char == b'<' && follows b'<' left)

-- The body of the loop for the character at position i, where `start_skips` is false.
unfoldable pub start_step : ℕ → ℕ → Text → Step
unfolding is_opening is_closing is_pair pop_all follows pop_or open_bracket end_statement
start_step i char stack =
    if is_closing char
    then next (char ∷ stack)
    else if char == b'>'
    then next (b'>' ∷ stack)
    else if char == b'<'
    then (if follows b'>' stack then pop_or (found i) stack else next stack)
    else if is_opening char
    then open_bracket i char (pop_all b'>' stack)
    else if char == b';'
    then end_statement (pop_all b'>' stack)
    else next stack

-- The scan goes from right to left: the list begins with the character at position i and goes on with
-- those before it, `right` is what was passed. The flag says that the first character is passed over.
unfoldable pub scan_start : Bool → Text → Text → Text → Scan
scan_start skip [] right stack = open_at_end stack
scan_start true (char ∷ left) right stack = scan_start false left (char ∷ right) stack
scan_start false (char ∷ left) right stack = elim (start_skips char left right) [
  | true ↦ scan_start true left (char ∷ right) stack
  | false ↦ elim (start_step (length left) char stack) [
    | stop result ↦ result
    | next stack' ↦ scan_start false left (char ∷ right) stack'
  ]
]

-- FindStartOfExpressionInLine, from the position `endpos - 1` of the source
unfoldable pub find_start_of_expression_in_line : Text → ℕ → Text → Scan
find_start_of_expression_in_line line endpos stack =
    scan_start false (reverse (take endpos line)) (drop endpos line) stack

not_opened : Text → Place
not_opened line = record { line = line; linenum = 0; pos = none }

-- The loop over the lines before, nearest first; `linenum` is the number of the last line looked at.
unfoldable pub open_in : Text → ℕ → List Text → Text → Place
unfolding not_opened
open_in last linenum lines [] = not_opened last
open_in last linenum [] (c ∷ stack) = not_opened last
open_in last linenum (line ∷ lines) (c ∷ stack) =
    elim (find_start_of_expression_in_line line (length line) (c ∷ stack)) [
      | found start_pos ↦ record { line = line; linenum = linenum - 1; pos = some start_pos }
      | broken ↦ not_opened line
      | open_at_end stack' ↦ open_in line (linenum - 1) lines stack'
    ]

-- `line[pos] in ')}]>'`; the callers give a position on the line.
ends_expression : Text → Bool
ends_expression [] = false
ends_expression (c ∷ _) = c == b')' || c == b'}' || c == b']' || c == b'>'

-- ReverseCloseExpression
unfoldable pub reverse_close_expression : CleansedLines → ℕ → ℕ → Place
unfolding ends_expression not_opened
reverse_close_expression clean_lines linenum pos =
    let line = line_at clean_lines.elided linenum in
    if not (ends_expression (drop pos line))
    then not_opened line
    else elim (find_start_of_expression_in_line line (pos + 1) []) [
      | found start_pos ↦ record { line = line; linenum = linenum; pos = some start_pos }
      | broken ↦ not_opened line
      | open_at_end stack ↦ open_in line linenum (reverse (take linenum clean_lines.elided)) stack
    ]
