-- ===== src/Style/Initializers.antt =====
-- CheckBracesSpacing and _IsType of tools/scripts/cpplint.py.
use jp4agent.Prelude.{
  ℕ, zero, suc, ◌+◌, ◌-◌, Bool, false, ◌&&◌, ◌||◌, not, Option, none, some, List, [], ◌∷◌, ◌++◌,
  leb, if◌then◌else◌, Text, codes, contains, length, take, drop,
}
use Prim.Native.Nat.{min}
use jp4agent.Regex.{Regex, star, group, boundary, line_start, line_end, cls, space, either, one}
use jp4agent.Regex.Notation.{
  lit, lit_codes, any_of, none_of, nonspace, any, opt, plus, spaces, spaces1, one_of, ◌▹◌, ◌∣∣◌,
}
use jp4agent.Regex.Find.{match, matches, searches, group_or}
use jp4agent.Lint.Report.{Report, report, report_if}
use jp4agent.Cleanse.Lines.{CleansedLines, line_at}
use jp4agent.Expression.Forward.{Place, close_expression}
use jp4agent.Nesting.Blocks.{Block, NestingState, is_namespace}
use jp4agent.Style.Texts.{concat, any_searches}

-- _TYPES. Its last alternative is empty.
abbrev types_pattern : Regex
types_pattern =
    line_start
    ▹ (lit "char" ▹ opt (one_of ("16_t" ∷ "32_t" ∷ []))
        ∣∣ lit "wchar_t"
        ∣∣ one_of
            ("bool" ∷ "short" ∷ "int" ∷ "long" ∷ "signed" ∷ "unsigned" ∷ "float" ∷ "double" ∷ [])
        ∣∣ one_of ("ptrdiff_t" ∷ "size_t" ∷ "max_align_t" ∷ "nullptr_t" ∷ [])
        ∣∣ opt (lit "u")
          ▹ lit "int"
          ▹ opt (one_of ("_fast" ∷ "_least" ∷ []))
          ▹ one_of ("8" ∷ "16" ∷ "32" ∷ "64" ∷ [])
          ▹ lit "_t"
        ∣∣ opt (lit "u") ▹ lit "int" ▹ one_of ("max" ∷ "ptr" ∷ []) ▹ lit "_t"
        ∣∣ Regex.eps)
    ▹ line_end

-- The last token: ^.*(\b\S+)$
last_token : Text → Text
last_token expr =
    elim (match (line_start ▹ any ▹ group 1 (boundary ▹ plus nonspace) ▹ line_end) expr) [
      | some m ↦ group_or 1 m
      | none ↦ expr
    ]

-- The last line with `template` in it, from the line before n back to line `first`.
template_line : List Text → ℕ → ℕ → Option ℕ
template_line elided first zero = none
template_line elided first (suc n) =
    let earlier = template_line elided first n in
    if leb first n
    then (if contains (line_at elided n) (codes "template") then some n else earlier)
    else none

-- \b(?:typename|class|struct)\s+token\b
typename_pattern : Text → Regex
typename_pattern token =
    boundary ▹ one_of ("typename" ∷ "class" ∷ "struct" ∷ []) ▹ spaces1 ▹ lit_codes token ▹ boundary

-- `next_block_start`
start_below : List Block → ℕ
start_below [] = 0
start_below (b ∷ _) = b.starting_linenum

-- Does the head of the block name the token as a parameter of its template?
declares_typename : List Text → Text → Block → List Block → Bool
unfolding template_line typename_pattern start_below
declares_typename elided token b below =
    elim (template_line elided (start_below below) (suc b.starting_linenum)) [
      | none ↦ false
      | some first ↦
          any_searches (typename_pattern token)
            (take (suc b.starting_linenum - first) (drop first elided))
    ]

-- The walk up the nesting stack.
unfoldable pub is_template_parameter : List Text → Text → List Block → Bool
unfolding declares_typename
is_template_parameter elided token [] = false
is_template_parameter elided token (b ∷ below) =
    if is_namespace b.kind
    then false
    else declares_typename elided token b below || is_template_parameter elided token below

-- _IsType
unfoldable pub is_type : CleansedLines → NestingState → Text → Bool
unfolding last_token
is_type clean_lines nesting_state expr =
    let token = last_token expr in
    matches types_pattern token
    || is_template_parameter clean_lines.elided token nesting_state.stack

-- What follows the closing brace, with the next two lines.
trailing_text : CleansedLines → Place → Text
trailing_text clean_lines closed =
    (elim closed.pos [ none ↦ [] | some endpos ↦ drop endpos closed.line ])
    ++ concat (
        take (min (closed.linenum + 3) (clean_lines.num_lines - 1) - (closed.linenum + 1))
          (drop (closed.linenum + 1) clean_lines.elided))

-- ^[\s}]*[{.;,)<>\]:]
abbrev after_initializer_pattern : Regex
after_initializer_pattern = line_start ▹ star (cls (either space (one b'}'))) ▹ any_of "{.;,)<>]:"

-- ^(.*[^ ({>]){
open_brace_reports : Text → CleansedLines → ℕ → NestingState → Text → List Report
unfolding trailing_text
open_brace_reports filename clean_lines linenum nesting_state line =
    elim (match (line_start ▹ group 1 (any ▹ none_of " ({>") ▹ lit "{") line) [
      | none ↦ []
      | some m ↦
          report_if
            (not (
                matches after_initializer_pattern (
                  trailing_text clean_lines
                    (close_expression clean_lines linenum (length (group_or 1 m)))))
              && not (is_type clean_lines nesting_state (group_or 1 m)))
            (report filename linenum "whitespace/braces" 5 (codes "Missing space before {"))
    ]

empty_statement_reports : Text → ℕ → Text → List Report
empty_statement_reports filename linenum line =
    if searches (lit ":" ▹ spaces ▹ lit ";" ▹ spaces ▹ line_end) line
    then report filename linenum "whitespace/semicolon" 5
        (codes "Semicolon defining empty statement. Use {} instead.")
      ∷ []
    else if searches (line_start ▹ spaces ▹ lit ";" ▹ spaces ▹ line_end) line
    then report filename linenum "whitespace/semicolon" 5 (
        codes "Line contains only semicolon. If this should be an empty statement, use {} instead.")
      ∷ []
    else report_if
        (searches (spaces1 ▹ lit ";" ▹ spaces ▹ line_end) line
          && not (searches (boundary ▹ lit "for" ▹ boundary) line))
        (report filename linenum "whitespace/semicolon" 5 (
          codes
            "Extra space before last semicolon. If this should be an empty statement, use {} instead."))

-- CheckBracesSpacing
unfoldable pub check_braces_spacing : Text → CleansedLines → ℕ → NestingState → List Report
unfolding open_brace_reports empty_statement_reports
check_braces_spacing filename clean_lines linenum nesting_state =
    let line = line_at clean_lines.elided linenum in
    open_brace_reports filename clean_lines linenum nesting_state line
    ++ (report_if (searches (lit "}else") line)
          (report filename linenum "whitespace/braces" 5 (codes "Missing space before else"))
        ++ empty_statement_reports filename linenum line)
