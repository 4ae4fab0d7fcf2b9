-- ===== src/Naming/Functions.antt =====
-- JuniperIsConstructor and JuniperCheckMemberFunctionName of tools/scripts/cpplint.py.
use jp4agent.Prelude.{
  ℕ, ◌-◌, Bool, true, false, ◌&&◌, ◌||◌, not, none, some, List, [], ◌∷◌, ◌++◌, ◌==◌, if◌then◌else◌,
  is_some, Text, codes, mem_text, lstrip_char, length, reverse,
}
use jp4agent.Regex.{
  Regex, cls, star, group, line_start, line_end, boundary, range, either, other, dot,
}
use jp4agent.Regex.Notation.{lit, lit_codes, none_of, opt, plus, spaces, spaces1, ◌▹◌, ◌∣∣◌}
use jp4agent.Regex.Find.{match, matches, searches, group_or}
use jp4agent.Lint.Report.{Report}
use jp4agent.Cleanse.Lines.{CleansedLines, line_at}
use jp4agent.Nesting.Blocks.{NestingState}
use jp4agent.Nesting.Queries.{innermost_class}
use jp4agent.Naming.Names.{
  keywords, excluded_functions, macro_class, declarator_pattern, identifier_report,
  underscore_reports, last_word,
}

-- \s+(inline\s+)?(?:explicit\s+)?(inline\s+)?NAME\s*\(((?:[^()]|\([^()]*\))*)\)?
abbrev pub constructor_pattern : Text → Regex
constructor_pattern name =
    spaces1
    ▹ opt (group 1 (lit "inline" ▹ spaces1))
    ▹ opt (lit "explicit" ▹ spaces1)
    ▹ opt (group 2 (lit "inline" ▹ spaces1))
    ▹ lit_codes name
    ▹ spaces
    ▹ lit "("
    ▹ group 3 (star (none_of "()" ∣∣ lit "(" ▹ star (none_of "()") ▹ lit ")"))
    ▹ opt (lit ")")

-- name.split('::')[-1]
name_from : Text → Text → Text
name_from part [] = reverse part
name_from part (c ∷ []) = reverse (c ∷ part)
name_from part (c ∷ d ∷ name) = elim (c == b':' && d == b':') [
  | true ↦ name_from [] name
  | false ↦ name_from (c ∷ part) (d ∷ name)
]

inner_class_name : Text → Text
unfolding name_from
inner_class_name name = name_from [] name

constructs_one_of : List Text → Text → Bool
constructs_one_of [] line = false
constructs_one_of (parent ∷ rest) line =
    matches (constructor_pattern parent) line || constructs_one_of rest line

-- A line by its number, where -1 is the last line, as in Python.
unfoldable pub line_before : List Text → ℕ → Text
line_before lines linenum =
    if linenum == 0 then line_at lines (length lines - 1) else line_at lines (linenum - 1)

-- JuniperIsConstructor, for the text of a line of `elided`
unfoldable pub is_constructor : NestingState → Text → Bool
unfolding constructs_one_of inner_class_name
is_constructor s line = elim (innermost_class s.stack) [
  | none ↦ false
  | some (b, c) ↦
      b.seen_open_brace
      && (matches (constructor_pattern (inner_class_name c.name)) line
          || constructs_one_of c.parent_classes line)
]

-- .+{\s*$
abbrev head_end_pattern : Regex
head_end_pattern = plus (cls dot) ▹ lit "{" ▹ spaces ▹ line_end

-- Is the innermost scope the class, or a block in it whose head ends on this line?
unfoldable pub in_class_scope : NestingState → Text → Bool
in_class_scope s line =
    length s.stack == 1 || (length s.stack == 2 && matches head_end_pattern line)

-- \s*operator\s*.+\( and \s*(\w(\w|::|\*|\&|\s)*)?\s*operator\b\s*[^a-zA-Z0-9]+\s*\(
abbrev conversion_pattern : Regex
conversion_pattern = spaces ▹ lit "operator" ▹ spaces ▹ plus (cls dot) ▹ lit "("

abbrev pub overload_end : Regex
overload_end =
    spaces
    ▹ lit "operator"
    ▹ boundary
    ▹ spaces
    ▹ plus (cls (other (either (range b'a' b'z') (either (range b'A' b'Z') (range b'0' b'9')))))
    ▹ spaces
    ▹ lit "("

-- The functions whose names are not looked at, by the name and by the line.
unfoldable pub is_exempt : Text → Text → Bool
is_exempt name line =
    mem_text name excluded_functions
    || matches conversion_pattern line
    || matches (spaces ▹ opt declarator_pattern ▹ overload_end) line
    || matches (plus macro_class ▹ line_end) name
    || mem_text name keywords

-- ^_?[a-z]
abbrev pub method_pattern : Regex
method_pattern = line_start ▹ opt (lit "_") ▹ cls (range b'a' b'z')

unfoldable pub method_name_reports : Text → ℕ → Text → List Report
unfolding identifier_report underscore_reports
method_name_reports filename linenum name =
    (if not (matches method_pattern name)
      then identifier_report filename linenum 3 (codes "Method '") name
          (codes "' must begin with an optional _ followed by a lower case letter.")
        ∷ []
      else [])
    ++ underscore_reports filename linenum 3 name

-- Does the line before begin the initializers of a constructor?
unfoldable pub follows_constructor : NestingState → CleansedLines → ℕ → Bool
unfolding line_before is_constructor
follows_constructor s clean_lines linenum =
    is_constructor s (line_before clean_lines.elided linenum)
    && searches (lit ":" ▹ spaces ▹ line_end) (line_before clean_lines.lines linenum)

-- JuniperCheckMemberFunctionName
unfoldable pub check_member_function_name : Text → CleansedLines → ℕ → NestingState → List Report
unfolding in_class_scope is_constructor is_exempt method_name_reports follows_constructor last_word
check_member_function_name filename clean_lines linenum s =
    let line = line_at clean_lines.lines linenum in
    if not (is_some (innermost_class s.stack))
      || not (in_class_scope s line)
      || is_constructor s (line_at clean_lines.elided linenum)
    then []
    else elim (match (spaces ▹ declarator_pattern ▹ lit "(") line) [
      | none ↦ []
      | some m ↦
          let name = lstrip_char b'*' (last_word (group_or 1 m)) in
          if is_exempt name line || follows_constructor s clean_lines linenum
          then []
          else method_name_reports filename linenum name
    ]
