-- ===== src/Checks/Lengths.antt =====
-- CheckForFunctionLengths of tools/scripts/cpplint.py.
pub mod Counted
use jp4agent.Prelude.{
  ℕ, Bool, false, not, none, some, List, [], ◌∷◌, ◌++◌, if◌then◌else◌, Text, codes, drop, lstrip,
}
use jp4agent.Regex.{Regex, cls, star, group, line_start, line_end, word}
use jp4agent.Regex.Notation.{lit, any, spaces, ◌▹◌, ◌∣∣◌}
use jp4agent.Regex.Find.{match, matches, search_in, searches, group_or}
use jp4agent.Lint.Report.{Report}
use jp4agent.Cleanse.Lines.{CleansedLines, line_at}
use jp4agent.Function.{FunctionState, begin, count_line, end, check}
use jp4agent.Function.Arguments.{is_function_name}
use jp4agent.Naming.Names.{declarator_pattern, last_word}

-- What the lines from the first of a function on show: a declaration or a body on one line, the begin of
-- a body with the lines up to it joined, or neither.
pub data Body : Type 0 where
  trivial : Body
  begins : Text → Body
  missing : Body

find_body : Text → List Text → Body
find_body joined_line [] = missing
find_body joined_line (start_line ∷ lines) =
    let joined = joined_line ++ (codes " " ++ lstrip start_line) in
    let later = find_body joined lines in
    if searches (group 1 (lit ";" ∣∣ lit "}")) start_line
    then trivial
    else if searches (lit "{") start_line
    then begins joined
    else later

-- ((\w|:)*)\(
abbrev pub function_pattern : Regex
function_pattern = group 1 (star (group 2 (cls word ∣∣ lit ":"))) ▹ lit "("

-- The name under which the lines are counted: with its arguments for a test.
counted_name : Text → Text → Text
counted_name line joined_line = elim (search_in function_pattern line) [
  | none ↦ []
  | some f ↦
      if matches (lit "TEST") (group_or 1 f)
      then group_or 1 f ++ elim (search_in (group 1 (lit "(" ▹ any ▹ lit ")")) joined_line) [
        | none ↦ []
        | some parameters ↦ group_or 1 parameters
      ]
      else group_or 1 f ++ codes "()"
]

no_body_report : Text → ℕ → Report
no_body_report filename linenum = record {
  filename = filename;
  linenum = linenum;
  category = codes "readability/fn_size";
  confidence = 5;
  message = codes "Lint failed to find start of function body.";
}

-- Does a function begin on the line?
unfoldable pub starts_function : Text → Bool
starts_function line = elim (match (declarator_pattern ▹ lit "(") line) [
  | none ↦ false
  | some m ↦ is_function_name (last_word (group_or 1 m))
]

start_function : Text → ℕ → Text → Body → FunctionState → FunctionState × List Report
unfolding no_body_report counted_name
start_function filename linenum line trivial s = (s, [])
start_function filename linenum line (begins joined_line) s =
    (begin (counted_name line joined_line) s, [])
start_function filename linenum line missing s = (s, no_body_report filename linenum ∷ [])

-- ^\}\s*$ and ^\s*$
abbrev pub function_end_pattern : Regex
function_end_pattern = line_start ▹ lit "}" ▹ spaces ▹ line_end

abbrev pub blank_line_pattern : Regex
blank_line_pattern = line_start ▹ spaces ▹ line_end

-- CheckForFunctionLengths
pub check_for_function_lengths :
    Text → CleansedLines → ℕ → ℕ → FunctionState → FunctionState × List Report
unfolding starts_function start_function find_body
check_for_function_lengths filename clean_lines linenum verbose_level s =
    let line = line_at clean_lines.lines linenum in
    if starts_function line
    then start_function filename linenum line (find_body [] (drop linenum clean_lines.lines)) s
    else if matches function_end_pattern line
    then (end s, check s verbose_level filename linenum)
    else if not (matches blank_line_pattern line)
    then (count_line s, [])
    else (s, [])
