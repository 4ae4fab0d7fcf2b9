-- ===== src/Expression/Forward.antt =====
-- FindEndOfExpressionInLine and CloseExpression of tools/scripts/cpplint.py.
pub mod Balanced
pub mod Bounds
use jp4agent.Prelude.{
  ℕ, ◌+◌, Bool, false, ◌&&◌, ◌||◌, not, Option, none, some, List, [], ◌∷◌, ◌==◌, if◌then◌else◌, ltb,
  Text, length, take, drop, reverse,
}
use jp4agent.Regex.{Regex, boundary, line_end}
use jp4agent.Regex.Notation.{lit, any_of, spaces, ◌▹◌}
use jp4agent.Regex.Find.{matches, searches}
use jp4agent.Cleanse.Lines.{CleansedLines, line_at}

-- \boperator\s*$
abbrev pub operator_pattern : Regex
operator_pattern = boundary ▹ lit "operator" ▹ spaces ▹ line_end

-- What a scan of a line returns: (pos, None), (-1, None) or (-1, stack). The top of a stack is its head.
pub data Scan : Type 0 where
  found : ℕ → Scan
  broken : Scan
  open_at_end : Text → Scan

unfoldable pub is_opening : ℕ → Bool
is_opening c = c == b'(' || c == b'[' || c == b'{'

unfoldable pub is_closing : ℕ → Bool
is_closing c = c == b')' || c == b']' || c == b'}'

unfoldable pub is_pair : ℕ → ℕ → Bool
is_pair opener closer =
    (opener == b'(' && closer == b')')
    || (opener == b'[' && closer == b']')
    || (opener == b'{' && closer == b'}')

-- `while stack and stack[-1] == c: stack.pop()`
unfoldable pub pop_all : ℕ → Text → Text
pop_all c [] = []
pop_all c (x ∷ stack) = if x == c then pop_all c stack else x ∷ stack

-- What one character does: leave the loop, or go on with a stack.
pub data Step : Type 0 where
  stop : Scan → Step
  next : Text → Step

-- Is the character before the place this one?
unfoldable pub follows : ℕ → Text → Bool
follows c [] = false
follows c (x ∷ _) = x == c

-- `stack.pop()`, and what is returned if that empties the stack
unfoldable pub pop_or : Scan → Text → Step
pop_or empty [] = next []
pop_or empty (x ∷ []) = stop empty
pop_or empty (x ∷ y ∷ stack) = next (y ∷ stack)

-- A closing bracket at position i, when no < is on top of the stack.
pub close_bracket : ℕ → ℕ → Text → Step
close_bracket i char [] = stop broken
close_bracket i char (x ∷ stack) =
    if is_pair x char then pop_or (found (i + 1)) (x ∷ stack) else stop broken

unfoldable pub end_statement : Text → Step
end_statement [] = stop broken
end_statement (x ∷ stack) = next (x ∷ stack)

-- The body of the loop, for the character `char` behind the text `before` (last character first).
pub end_step : Text → ℕ → Text → Step
unfolding is_opening is_closing is_pair pop_all follows pop_or close_bracket end_statement
end_step before char stack =
    if is_opening char
    then next (char ∷ stack)
    else if char == b'<'
    then (if follows b'<' before
        then (if follows b'<' stack then pop_or broken stack else next stack)
        else if not (length before == 0) && searches operator_pattern (reverse before)
        then next stack
        else next (b'<' ∷ stack))
    else if is_closing char
    then close_bracket (length before) char (pop_all b'<' stack)
    else if char == b'>'
    then (if not (length before == 0)
          && (follows b'-' before || searches operator_pattern (reverse (drop 1 before)))
        then next stack
        else if follows b'<' stack
        then pop_or (found (length before + 1)) stack
        else next stack)
    else if char == b';'
    then end_statement (pop_all b'<' stack)
    else next stack

pub scan_end : Text → Text → Text → Scan
scan_end before [] stack = open_at_end stack
scan_end before (char ∷ line) stack = elim (end_step before char stack) [
  | stop result ↦ result
  | next stack' ↦ scan_end (char ∷ before) line stack'
]

-- FindEndOfExpressionInLine
pub find_end_of_expression_in_line : Text → ℕ → Text → Scan
find_end_of_expression_in_line line startpos stack =
    scan_end (reverse (take startpos line)) (drop startpos line) stack

-- The triple that CloseExpression returns, with `none` for -1.
pub record Place : Type 0 where
  pub line : Text
  pub linenum : ℕ
  pub pos : Option ℕ

unfoldable pub not_closed : CleansedLines → Text → Place
not_closed clean_lines line = record { line = line; linenum = clean_lines.num_lines; pos = none }

-- The loop over the following lines, with the last line looked at.
unfoldable pub close_in : CleansedLines → Text → ℕ → List Text → Text → Place
unfolding not_closed
close_in clean_lines last linenum lines [] = not_closed clean_lines last
close_in clean_lines last linenum [] (c ∷ stack) = not_closed clean_lines last
close_in clean_lines last linenum (line ∷ lines) (c ∷ stack) =
    elim (find_end_of_expression_in_line line 0 (c ∷ stack)) [
      | found end_pos ↦ record { line = line; linenum = linenum; pos = some end_pos }
      | broken ↦ not_closed clean_lines line
      | open_at_end stack' ↦ close_in clean_lines line (linenum + 1) lines stack'
    ]

-- <[<=]
abbrev pub shift_or_le_pattern : Regex
shift_or_le_pattern = lit "<" ▹ any_of "<="

-- `line[pos] in '({[<'`, for a position on the line.
pub starts_expression : Text → Bool
starts_expression [] = false
starts_expression (c ∷ _) = c == b'(' || c == b'{' || c == b'[' || c == b'<'

-- CloseExpression, from a position on the line.
unfoldable pub close_expression : CleansedLines → ℕ → ℕ → Place
unfolding starts_expression not_closed
close_expression clean_lines linenum pos =
    let line = line_at clean_lines.elided linenum in
    if not (starts_expression (drop pos line)) || matches shift_or_le_pattern (drop pos line)
    then not_closed clean_lines line
    else elim (find_end_of_expression_in_line line pos []) [
      | found end_pos ↦ record { line = line; linenum = linenum; pos = some end_pos }
      | broken ↦ not_closed clean_lines line
      | open_at_end stack ↦
          close_in clean_lines line (linenum + 1) (drop (linenum + 1) clean_lines.elided) stack
    ]

-- CloseExpression, from any position: behind the end of the line `line[pos]` is an IndexError, here none.
unfoldable pub close_expression_at : CleansedLines → ℕ → ℕ → Option Place
close_expression_at clean_lines linenum pos =
    if ltb pos (length (line_at clean_lines.elided linenum))
    then some (close_expression clean_lines linenum pos)
    else none
