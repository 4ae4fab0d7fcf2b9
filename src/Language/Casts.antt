-- ===== src/Language/Casts.antt =====
-- CheckCasts, CheckCStyleCast and ExpectingFunctionArgs of tools/scripts/cpplint.py.
pub mod Raised
use jp4agent.Prelude.{
  ℕ, zero, suc, ◌+◌, ◌-◌, Bool, true, false, ◌&&◌, ◌||◌, not, Option, none, some, List, [], ◌∷◌,
  ◌++◌, ◌==◌, ltb, leb, if◌then◌else◌, is_some, String, Text, codes, text_eq, ends_with,
  starts_with, get_elem?, length, take, drop,
}
use jp4agent.Regex.{
  Regex, star, group, boundary, line_start, line_end, cls, digit, range, word, one, other, either,
  dot, space,
}
use jp4agent.Regex.Notation.{
  lit, lit_codes, any_of, none_of, nonspace, no_space_nor, any, opt, plus, spaces, spaces1, words1,
  one_of, class_of, ◌▹◌, ◌∣∣◌,
}
use jp4agent.Regex.Find.{
  Found, match, matches, search_in, searches, group_of, group_or, group_start,
}
use jp4agent.Lint.Report.{Report, report, report_if}
use jp4agent.Lint.Effects.{Effect, say, raise, say_all}
use jp4agent.Cleanse.Lines.{CleansedLines, line_at}
use jp4agent.Expression.Forward.{Place, close_expression}
use jp4agent.Style.Texts.{concat, line_before}

-- ^\s*MOCK_(CONST_)?METHOD\d+(_T)?\(
abbrev mock_pattern : Regex
mock_pattern =
    line_start
    ▹ spaces
    ▹ lit "MOCK_"
    ▹ opt (lit "CONST_")
    ▹ lit "METHOD"
    ▹ plus (cls digit)
    ▹ opt (lit "_T")
    ▹ lit "("

-- ExpectingFunctionArgs
pub expecting_function_args : CleansedLines → ℕ → Bool
expecting_function_args clean_lines linenum =
    let elided = clean_lines.elided in
    matches mock_pattern (line_at elided linenum)
    || (leb 2 linenum
        && (matches (mock_pattern ▹ opt (plus nonspace ▹ lit ",") ▹ spaces ▹ line_end)
              (line_at elided (linenum - 1))
            || matches (mock_pattern ▹ spaces ▹ line_end) (line_at elided (linenum - 2))
            || searches
                (boundary
                  ▹ lit "std::"
                  ▹ opt (lit "m")
                  ▹ lit "function"
                  ▹ spaces
                  ▹ lit "<"
                  ▹ spaces
                  ▹ line_end)
                (line_at elided (linenum - 1))))

-- [_A-Z][_A-Z0-9]*
abbrev macro_name : Regex
macro_name =
    cls (either (one b'_') (range b'A' b'Z'))
    ▹ star (cls (either (one b'_') (either (range b'A' b'Z') digit)))

-- .*\b(?:sizeof|alignof|alignas|[_A-Z][_A-Z0-9]*)\s*$
abbrev operator_context_pattern : Regex
operator_context_pattern =
    any
    ▹ boundary
    ▹ (one_of ("sizeof" ∷ "alignof" ∷ "alignas" ∷ []) ∣∣ macro_name)
    ▹ spaces
    ▹ line_end

-- .*\b[_A-Z][_A-Z0-9]*\s*\((?:\([^()]*\)|[^()])*$
abbrev macro_context_pattern : Regex
macro_context_pattern =
    any
    ▹ boundary
    ▹ macro_name
    ▹ spaces
    ▹ lit "("
    ▹ star (lit "(" ▹ star (none_of "()") ▹ lit ")" ∣∣ none_of "()")
    ▹ line_end

-- ^\s*(?:;|const\b|throw\b|final\b|override\b|[=>{),]|->)
abbrev declaration_end_pattern : Regex
declaration_end_pattern =
    line_start
    ▹ spaces
    ▹ (lit ";"
        ∣∣ one_of ("const" ∷ "throw" ∷ "final" ∷ "override" ∷ []) ▹ boundary
        ∣∣ any_of "=>{),"
        ∣∣ lit "->")

-- The lines before, at most four of them and not the first of the file.
lines_before : CleansedLines → ℕ → Text
lines_before clean_lines linenum =
    let first = (linenum - 5) + 1 in concat (take (linenum - first) (drop first clean_lines.elided))

-- What looks like a cast is one.
is_cast : CleansedLines → ℕ → Text → Found → Bool
unfolding lines_before
is_cast clean_lines linenum line m =
    let before = take (group_start 1 m - 1) line in
    let context = lines_before clean_lines linenum ++ before in
    not (matches operator_context_pattern before)
    && not (matches macro_context_pattern context)
    && not (ends_with context (codes " operator++") || ends_with context (codes " operator--"))
    && not (matches declaration_end_pattern m.rest)

-- CheckCStyleCast, for the patterns below, whose first group stands behind a bracket. It is true if it
-- reports.
unfoldable pub check_c_style_cast : Text → CleansedLines → ℕ → String → Regex → List Report
unfolding is_cast
check_c_style_cast filename clean_lines linenum cast_type pattern =
    let line = line_at clean_lines.elided linenum in
    elim (search_in pattern line) [
      | none ↦ []
      | some m ↦ report_if (is_cast clean_lines linenum line m) (
          report filename linenum "readability/casting" 4 (
            codes "Using C-style cast.  Use "
            ++ (codes cast_type ++ (codes "<" ++ (group_or 1 m ++ codes ">(...) instead")))))
    ]

-- \((int|float|double|bool|char|u?int(16|32|64))\)
abbrev static_cast_pattern : Regex
static_cast_pattern =
    lit "("
    ▹ group 1 (
        one_of ("int" ∷ "float" ∷ "double" ∷ "bool" ∷ "char" ∷ [])
        ∣∣ opt (lit "u") ▹ lit "int" ▹ one_of ("16" ∷ "32" ∷ "64" ∷ []))
    ▹ lit ")"

-- \((char\s?\*+\s?)\)\s*" and \((\w+\s?\*+\s?)\)
abbrev pointer_to : Regex → Regex
pointer_to name =
    lit "(" ▹ group 1 (name ▹ opt (cls space) ▹ plus (lit "*") ▹ opt (cls space)) ▹ lit ")"

abbrev const_cast_pattern : Regex
const_cast_pattern = pointer_to (lit "char") ▹ spaces ▹ lit "\""

abbrev reinterpret_cast_pattern : Regex
reinterpret_cast_pattern = pointer_to words1

-- reinterpret_cast is asked for only where const_cast is not reported.
pointer_cast_reports : Text → CleansedLines → ℕ → List Report
pointer_cast_reports filename clean_lines linenum =
    elim (check_c_style_cast filename clean_lines linenum "const_cast" const_cast_pattern) [
      | [] ↦
          check_c_style_cast filename clean_lines linenum "reinterpret_cast"
            reinterpret_cast_pattern
      | r ∷ rs ↦ r ∷ rs
    ]

-- (\bnew\s+(?:const\s+)?|\S<\s*(?:const\s+)?)?\b
-- (int|float|double|bool|char|int32|uint32|int64|uint64)(\([^)].*)
abbrev pub deprecated_cast_pattern : Regex
deprecated_cast_pattern =
    opt (
      group 1 (
        boundary ▹ lit "new" ▹ spaces1 ▹ opt (lit "const" ▹ spaces1)
        ∣∣ nonspace ▹ lit "<" ▹ spaces ▹ opt (lit "const" ▹ spaces1)))
    ▹ boundary
    ▹ group 2 (
        one_of (
          "int" ∷ "float" ∷ "double" ∷ "bool" ∷ "char" ∷ "int32" ∷ "uint32" ∷ "int64" ∷ "uint64"
          ∷ []))
    ▹ group 3 (lit "(" ▹ none_of ")" ▹ any)

-- \((?:[^() ]+::\s*\*\s*)?[^() ]+\)\s*\(
abbrev function_pointer_pattern : Regex
function_pointer_pattern =
    let name : Regex = plus (none_of "() ") in
    lit "(" ▹ opt (name ▹ lit "::" ▹ spaces ▹ lit "*" ▹ spaces) ▹ name ▹ lit ")" ▹ spaces ▹ lit "("

is_deprecated_cast : Text → Found → Bool
is_deprecated_cast line m =
    not (is_some (group_of 1 m))
    && not (
        matches function_pointer_pattern (group_or 3 m) || starts_with (group_or 3 m) (codes "(*)"))
    && not (
        matches
          (spaces
            ▹ lit "using"
            ▹ spaces1
            ▹ plus nonspace
            ▹ spaces
            ▹ lit "="
            ▹ spaces
            ▹ lit_codes (group_or 2 m))
          line)
    && not
        (searches (lit "new(" ▹ plus nonspace ▹ lit ")" ▹ spaces ▹ lit_codes (group_or 2 m)) line)

deprecated_cast_reports : Text → ℕ → Text → Found → List Report
unfolding is_deprecated_cast
deprecated_cast_reports filename linenum line m = report_if (is_deprecated_cast line m) (
    report filename linenum "readability/casting" 4 (
      codes "Using deprecated casting style.  Use static_cast<"
      ++ (group_or 2 m ++ codes ">(...) instead")))

abbrev cast_kind : Regex
cast_kind = one_of ("static" ∷ "dynamic" ∷ "down" ∷ "reinterpret" ∷ []) ▹ lit "_cast" ▹ boundary

-- (?:[^\w]&\(([^)*][^)]*)\)[\w(])|(?:[^\w]&(static|dynamic|down|reinterpret)_cast\b)
abbrev pub address_pattern : Regex
address_pattern =
    let before : Regex = cls (other word) in
    before ▹ lit "&(" ▹ none_of ")*" ▹ star (none_of ")") ▹ lit ")" ▹ cls (either word (one b'('))
    ∣∣ before ▹ lit "&" ▹ cast_kind

-- ^(.*&(?:static|dynamic|down|reinterpret)_cast\b)<
abbrev pub address_of_cast_pattern : Regex
address_of_cast_pattern = line_start ▹ group 1 (any ▹ lit "&" ▹ cast_kind) ▹ lit "<"

-- `parenthesis_error`, or the exception of an index behind the end of the line.
pub data Dereference : Type 0 where
  index_error : Dereference
  answer : Bool → Dereference

-- What follows the call: -> or [
is_dereferenced : CleansedLines → Place → Bool
is_dereferenced clean_lines called = elim called.pos [
  | none ↦ false
  | some x2 ↦ matches (spaces ▹ (lit "->" ∣∣ lit "[")) (
      drop x2 (line_at clean_lines.elided called.linenum)
      ++ (if ltb called.linenum (clean_lines.num_lines - 1)
          then line_at clean_lines.elided (called.linenum + 1)
          else []))
]

pub after_template : CleansedLines → Place → Dereference
unfolding is_dereferenced
after_template clean_lines closed = elim closed.pos [
  | none ↦ answer false
  | some x1 ↦ elim (get_elem? (line_at clean_lines.elided closed.linenum) x1) [
    | none ↦ index_error
    | some c ↦
        answer (
          c == b'(' && is_dereferenced clean_lines (close_expression clean_lines closed.linenum x1))
  ]
]

pub parenthesis_error : CleansedLines → ℕ → Text → Dereference
unfolding after_template
parenthesis_error clean_lines linenum line = elim (match address_of_cast_pattern line) [
  | none ↦ answer false
  | some m ↦
      after_template clean_lines (close_expression clean_lines linenum (length (group_or 1 m)))
]

unfoldable pub address_effects : Text → CleansedLines → ℕ → Text → List Effect
unfolding parenthesis_error
address_effects filename clean_lines linenum line =
    if searches address_pattern line
    then (elim (parenthesis_error clean_lines linenum line) [
      | index_error ↦ raise ∷ []
      | answer b ↦
          say (
            if b
            then report filename linenum "readability/casting" 4 (
                codes
                  "Are you taking an address of something dereferenced from a cast?  Wrapping the dereferenced expression in parentheses will make the binding more obvious")
            else report filename linenum "runtime/casting" 4 (
                codes
                  "Are you taking an address of a cast?  This is dangerous: could be a temp var.  Take the address before doing the cast, rather than after"))
          ∷ []
    ])
    else []

-- What comes behind the first check of CheckCasts.
unfoldable pub other_cast_effects : Text → CleansedLines → ℕ → Bool → List Effect
unfolding pointer_cast_reports address_effects
other_cast_effects filename clean_lines linenum expecting_function =
    say_all (
      (if expecting_function
        then []
        else check_c_style_cast filename clean_lines linenum "static_cast" static_cast_pattern)
      ++ pointer_cast_reports filename clean_lines linenum)
    ++ address_effects filename clean_lines linenum (line_at clean_lines.elided linenum)

-- CheckCasts. A cast that is an array of function pointers ends the check.
unfoldable pub check_casts : Text → CleansedLines → ℕ → List Effect
unfolding expecting_function_args deprecated_cast_reports other_cast_effects
check_casts filename clean_lines linenum =
    let line = line_at clean_lines.elided linenum in
    let expecting_function = expecting_function_args clean_lines linenum in
    let rest = other_cast_effects filename clean_lines linenum expecting_function in
    elim (search_in deprecated_cast_pattern line) [
      | none ↦ rest
      | some m ↦
          if expecting_function
          then rest
          else if matches (lit "(" ▹ plus (none_of "()") ▹ lit ")" ▹ spaces ▹ lit "[")
              (group_or 3 m)
          then []
          else say_all (deprecated_cast_reports filename linenum line m) ++ rest
    ]
