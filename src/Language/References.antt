-- ===== src/Language/References.antt =====
-- CheckForNonConstReference of tools/scripts/cpplint.py, with IsDerivedFunction,
-- IsOutOfLineMethodDefinition and IsInitializerList.
use jp4agent.Prelude.{
  ℕ, zero, suc, ◌+◌, ◌-◌, Bool, true, false, ◌&&◌, ◌||◌, not, Option, none, some, List, [], ◌∷◌,
  ◌++◌, ltb, if◌then◌else◌, is_some, Text, codes, contains, lstrip, strip, length, take, drop, map,
}
use jp4agent.Regex.{Regex, star, group, boundary, line_start, line_end, cls, space, word, either}
use jp4agent.Regex.Notation.{
  lit, any_of, none_of, nonspace, any, opt, plus, spaces, spaces1, words1, one_of, class_of,
  letter_or_line, ◌▹◌, ◌∣∣◌,
}
use jp4agent.Regex.Find.{
  Found, match, matches, search_in, searches, find_all, replace_matches, group_or,
}
use jp4agent.Lint.Report.{Report, report}
use jp4agent.Cleanse.Lines.{CleansedLines, line_at}
use jp4agent.Expression.Forward.{Place, close_expression}
use jp4agent.Expression.Backward.{reverse_close_expression}
use jp4agent.Nesting.Blocks.{Block, NestingState, is_class, is_namespace}
use jp4agent.Style.Texts.{concat, from_last}

-- ^([^()]*\w+)\(
abbrev pub call_pattern : Regex
call_pattern = line_start ▹ group 1 (star (none_of "()") ▹ words1) ▹ lit "("

-- The nearest of the last k lines up to line n with a call, and its match.
find_call : List Text → ℕ → ℕ → Option (ℕ × Found)
find_call elided zero n = none
find_call elided (suc k) zero = elim (match call_pattern (line_at elided 0)) [
  | none ↦ none
  | some m ↦ some (0, m)
]
find_call elided (suc k) (suc n) =
    let earlier = find_call elided k n in
    elim (match call_pattern (line_at elided (suc n))) [ none ↦ earlier | some m ↦ some (suc n, m) ]

overrides_behind : Place → Bool
overrides_behind p = elim p.pos [
  | none ↦ false
  | some closing_paren ↦ searches (boundary ▹ lit "override" ▹ boundary) (drop closing_paren p.line)
]

-- IsDerivedFunction
unfoldable pub is_derived_function : CleansedLines → ℕ → Bool
unfolding find_call overrides_behind
is_derived_function clean_lines linenum = elim (find_call clean_lines.elided 10 linenum) [
  | none ↦ false
  | some (i, m) ↦ overrides_behind (close_expression clean_lines i (length (group_or 1 m)))
]

-- IsOutOfLineMethodDefinition
unfoldable pub is_out_of_line_method_definition : CleansedLines → ℕ → Bool
unfolding find_call
is_out_of_line_method_definition clean_lines linenum =
    elim (find_call clean_lines.elided 10 linenum) [
      | none ↦ false
      | some (i, m) ↦
          matches (line_start ▹ star (none_of "()") ▹ words1 ▹ lit "::" ▹ words1 ▹ lit "(")
            (line_at clean_lines.elided i)
    ]

-- ^(.*)\{\s*$
without_body : Text → Text
without_body line = elim (match (line_start ▹ group 1 any ▹ lit "{" ▹ spaces ▹ line_end) line) [
  | none ↦ line
  | some m ↦ group_or 1 m
]

-- The loop of IsInitializerList, for a line and the lines above it, down to line 2.
in_initializer_list : List Text → ℕ → Text → Bool
in_initializer_list elided zero line = false
in_initializer_list elided (suc zero) line = false
in_initializer_list elided (suc (suc n)) line =
    let earlier = in_initializer_list elided (suc n) (line_at elided (suc n)) in
    if searches (cls space ▹ lit ":" ▹ spaces ▹ words1 ▹ any_of "({") line
    then true
    else if searches (lit "}" ▹ spaces ▹ lit "," ▹ spaces ▹ line_end) line
    then true
    else if searches (any_of "{};" ▹ spaces ▹ line_end) line
    then false
    else earlier

-- IsInitializerList
unfoldable pub is_initializer_list : CleansedLines → ℕ → Bool
unfolding without_body in_initializer_list
is_initializer_list clean_lines linenum =
    in_initializer_list clean_lines.elided linenum
      (without_body (line_at clean_lines.elided linenum))

-- [\w<>]|::
abbrev name_part : Regex
name_part = cls (either word (class_of (codes "<>"))) ∣∣ lit "::"

-- The start of a type on the line before, for a line that goes on with it.
previous_type : List Text → ℕ → Text → Option Found
previous_type elided linenum line =
    let before = line_at elided (linenum - 1) in
    if matches (spaces ▹ lit "::" ▹ plus name_part ▹ spaces ▹ lit "&" ▹ spaces ▹ nonspace) line
    then search_in
        (boundary
          ▹ group 1 (
              opt (lit "const" ▹ spaces)
              ▹ plus name_part
              ▹ cls (either word (class_of (codes "<>"))))
          ▹ spaces
          ▹ line_end)
        before
    else if matches
        (spaces ▹ cls letter_or_line ▹ plus name_part ▹ spaces ▹ lit "&" ▹ spaces ▹ nonspace) line
    then search_in
        (boundary
          ▹ group 1 (opt (lit "const" ▹ spaces) ▹ plus name_part ▹ lit "::")
          ▹ spaces
          ▹ line_end)
        before
    else none

-- The lines from the one with the opening < of a template on.
template_lines : CleansedLines → ℕ → Text → Text
template_lines clean_lines linenum line = elim (from_last b'>' line) [
  | none ↦ line
  | some t ↦
      let opened = reverse_close_expression clean_lines linenum (length line - length t) in
      if is_some opened.pos && ltb opened.linenum linenum
      then concat
          (map strip (take (linenum + 1 - opened.linenum) (drop opened.linenum clean_lines.elided)))
      else line
]

pub declaration : CleansedLines → ℕ → Text
unfolding previous_type template_lines
declaration clean_lines linenum =
    let line = line_at clean_lines.elided linenum in
    if ltb 1 linenum
    then (elim (previous_type clean_lines.elided linenum line) [
      | some previous ↦ group_or 1 previous ++ lstrip line
      | none ↦ template_lines clean_lines linenum line
    ])
    else line

-- The block that was on top is neither a class nor a namespace.
in_function_body : Option Block → Bool
in_function_body none = false
in_function_body (some b) = not (is_class b.kind || is_namespace b.kind)

-- One of the k lines from line n up is the start of an initializer list, with lines between that end
-- with ), ] or a comma.
follows_initializer : List Text → ℕ → ℕ → Bool
follows_initializer elided zero n = false
follows_initializer elided (suc k) n =
    let previous_line = line_at elided n in
    let earlier = follows_initializer elided k (n - 1) in
    if not (searches (any_of "),]" ▹ spaces ▹ line_end) previous_line)
    then false
    else if matches (line_start ▹ spaces ▹ lit ":" ▹ spaces1 ▹ nonspace) previous_line
    then true
    else earlier

-- (?:[sS]wap(?:<\w:+>)?|operator\s*[<>][<>]|static_assert|COMPILE_ASSERT)\s*\(
abbrev whitelisted_functions : Regex
whitelisted_functions =
    (any_of "sS" ▹ lit "wap" ▹ opt (lit "<" ▹ cls word ▹ plus (lit ":") ▹ lit ">")
      ∣∣ lit "operator" ▹ spaces ▹ any_of "<>" ▹ any_of "<>"
      ∣∣ lit "static_assert"
      ∣∣ lit "COMPILE_ASSERT")
    ▹ spaces
    ▹ lit "("

-- A whitelisted function on the line, or on one of the two before if no call begins on it.
is_whitelisted : List Text → ℕ → Text → Bool
is_whitelisted elided linenum line =
    searches whitelisted_functions line
    || (not (searches (plus nonspace ▹ lit "(" ▹ star (none_of ")") ▹ line_end) line)
        && ((ltb 0 linenum && searches whitelisted_functions (line_at elided (linenum - 1)))
            || (ltb 1 linenum && searches whitelisted_functions (line_at elided (linenum - 2)))))

-- _RE_PATTERN_IDENT and _RE_PATTERN_TYPE
abbrev ident_pattern : Regex
ident_pattern = cls letter_or_line ▹ star (cls word)

abbrev type_pattern : Regex
type_pattern =
    let open_angle : Regex = none_of "<>" in
    let inner : Regex = lit "<" ▹ star open_angle ▹ lit ">" in
    let middle : Regex = lit "<" ▹ star (inner ∣∣ open_angle) ▹ lit ">" in
    opt (lit "const" ▹ spaces1)
    ▹ opt (one_of ("typename" ∷ "class" ∷ "struct" ∷ "union" ∷ "enum" ∷ []) ▹ spaces1)
    ▹ plus (cls word ∣∣ spaces ▹ lit "<" ▹ star (middle ∣∣ open_angle) ▹ lit ">" ∣∣ lit "::")

-- _RE_PATTERN_REF_PARAM
abbrev ref_param_pattern : Regex
ref_param_pattern =
    group 1 (
      type_pattern
      ▹ star (spaces ▹ (boundary ▹ lit "const" ▹ boundary ∣∣ lit "*"))
      ▹ spaces
      ▹ lit "&"
      ▹ spaces
      ▹ ident_pattern)
    ▹ spaces
    ▹ opt (lit "=" ▹ plus (none_of ",()"))
    ▹ any_of ",)"

-- _RE_PATTERN_CONST_REF_PARAM and _RE_PATTERN_REF_STREAM_PARAM
abbrev const_ref_param_pattern : Regex
const_ref_param_pattern =
    any ▹ spaces ▹ boundary ▹ lit "const" ▹ spaces ▹ lit "&" ▹ spaces ▹ ident_pattern
    ∣∣ lit "const" ▹ spaces1 ▹ type_pattern ▹ spaces ▹ lit "&" ▹ spaces ▹ ident_pattern

abbrev ref_stream_param_pattern : Regex
ref_stream_param_pattern = any ▹ lit "stream" ▹ spaces ▹ lit "&" ▹ spaces ▹ ident_pattern

reference_reports : Text → ℕ → List Found → List Report
reference_reports filename linenum [] = []
reference_reports filename linenum (m ∷ ms) =
    let parameter = group_or 1 m in
    let later = reference_reports filename linenum ms in
    if matches const_ref_param_pattern parameter || matches ref_stream_param_pattern parameter
    then later
    else report filename linenum "runtime/references" 2 (
        codes "Is this a non-const reference? If so, make const or use a pointer: "
        ++ replace_matches (star (lit " ") ▹ lit "<") (codes "<") parameter)
      ∷ later

-- A reference that may stand there: the early returns of the check.
is_permitted : CleansedLines → ℕ → NestingState → Text → Bool
unfolding in_function_body follows_initializer is_whitelisted
is_permitted clean_lines linenum nesting_state line =
    in_function_body nesting_state.previous_stack_top
    || follows_initializer clean_lines.elided (linenum - 1 - (linenum - 10)) (linenum - 1)
    || searches (lit "\\" ▹ spaces ▹ line_end) line
    || is_initializer_list clean_lines linenum
    || is_whitelisted clean_lines.elided linenum line

-- CheckForNonConstReference
unfoldable pub check_for_non_const_reference : Text → CleansedLines → ℕ → NestingState → List Report
unfolding declaration is_permitted reference_reports
check_for_non_const_reference filename clean_lines linenum nesting_state =
    let line = declaration clean_lines linenum in
    if not (contains (line_at clean_lines.elided linenum) (codes "&"))
      || is_derived_function clean_lines linenum
      || is_out_of_line_method_definition clean_lines linenum
      || is_permitted clean_lines linenum nesting_state line
    then []
    else reference_reports filename linenum (
        find_all ref_param_pattern
          (replace_matches (lit "{" ▹ star (none_of "}") ▹ lit "}") (codes " ") line))
