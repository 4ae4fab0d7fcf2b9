-- ===== src/Language/Constructs.antt =====
-- CheckForNonStandardConstructs of tools/scripts/cpplint.py.
use jp4agent.Prelude.{
  ℕ, zero, suc, ◌+◌, Bool, true, false, ◌&&◌, ◌||◌, not, Option, none, some, List, [], ◌∷◌, ◌++◌,
  ◌==◌, ltb, leb, if◌then◌else◌, is_some, Text, codes, text_eq, contains, count, split_on,
  starts_with, strip, length,
}
use jp4agent.Regex.{Regex, star, group, boundary, line_start, cls, digit}
use jp4agent.Regex.Notation.{
  lit, lit_codes, any_of, none_of, no_space_nor, any, opt, plus, spaces, spaces1, words1, one_of,
  ◌▹◌, ◌∣∣◌,
}
use jp4agent.Regex.Find.{match, matches, searches, group_of, group_or}
use jp4agent.Lint.Report.{Report, report, report_if}
use jp4agent.Lint.Effects.{Effect, raise, say_all}
use jp4agent.Cleanse.Lines.{CleansedLines, line_at}
use jp4agent.Nesting.Blocks.{Block, ClassInfo, NestingState}
use jp4agent.Nesting.Queries.{innermost_class}
use jp4agent.Checks.Lines.{without_escaped_backslashes}

-- printf\s*\(.*".*%
abbrev printf_format : Regex
printf_format = lit "printf" ▹ spaces ▹ lit "(" ▹ any ▹ lit "\"" ▹ any ▹ lit "%"

format_reports : Text → ℕ → Text → List Report
format_reports filename linenum line =
    report_if (searches (printf_format ▹ opt (any_of "-+ ") ▹ star (cls digit) ▹ lit "q") line) (
      report filename linenum "runtime/printf_format" 3
        (codes "%q in format strings is deprecated.  Use %ll instead."))
    ++ (report_if (searches (printf_format ▹ plus (cls digit) ▹ lit "$") line) (
          report filename linenum "runtime/printf_format" 2
            (codes "%N$ formats are unconventional.  Try rewriting to avoid them."))
        ++ report_if
            (searches (any_of "\"'" ▹ any ▹ lit "\\" ▹ any_of "%[({")
              (without_escaped_backslashes line))
            (report filename linenum "build/printf_format" 3
              (codes "%, [, (, and { are undefined character escapes.  Unescape them.")))

-- \b(const|volatile|...)\s+(register|static|extern|typedef)\b
abbrev storage_class_pattern : Regex
storage_class_pattern =
    boundary
    ▹ (one_of (
          "const" ∷ "volatile" ∷ "void" ∷ "char" ∷ "short" ∷ "int" ∷ "long" ∷ "float" ∷ "double"
          ∷ "signed" ∷ "unsigned" ∷ "schar" ∷ [])
        ∣∣ opt (lit "u") ▹ lit "int" ▹ one_of ("8" ∷ "16" ∷ "32" ∷ "64" ∷ []))
    ▹ spaces1
    ▹ one_of ("register" ∷ "static" ∷ "extern" ∷ "typedef" ∷ [])
    ▹ boundary

-- (\w+|[+-]?\d+(\.\d*)?)\s*(<|>)\?=?\s*(\w+|[+-]?\d+)(\.\d*)?
abbrev min_max_pattern : Regex
min_max_pattern =
    let number : Regex = opt (any_of "+-") ▹ plus (cls digit) in
    let decimals : Regex = opt (lit "." ▹ star (cls digit)) in
    (words1 ∣∣ number ▹ decimals)
    ▹ spaces
    ▹ any_of "<>"
    ▹ lit "?"
    ▹ opt (lit "=")
    ▹ spaces
    ▹ (words1 ∣∣ number)
    ▹ decimals

declaration_reports : Text → ℕ → Text → List Report
declaration_reports filename linenum line =
    report_if (searches storage_class_pattern line) (
      report filename linenum "build/storage_class" 5 (
        codes
          "Storage-class specifier (static, extern, typedef, etc) should be at the beginning of the declaration."))
    ++ (report_if
          (matches (spaces ▹ lit "#" ▹ spaces ▹ lit "endif" ▹ spaces ▹ plus (no_space_nor "/"))
            line)
          (report filename linenum "build/endif_comment" 5
            (codes "Uncommented text after #endif is non-standard.  Use a comment."))
        ++ (report_if
              (matches
                (spaces
                  ▹ lit "class"
                  ▹ spaces1
                  ▹ plus (words1 ▹ spaces ▹ lit "::" ▹ spaces)
                  ▹ words1
                  ▹ spaces
                  ▹ lit ";")
                line)
              (report filename linenum "build/forward_decl" 5
                (codes "Inner-style forward declarations are invalid.  Remove this line."))
            ++ (report_if (searches min_max_pattern line) (
                  report filename linenum "build/deprecated" 3
                    (codes ">? and <? (max and min) operators are non-standard and deprecated."))
                ++ report_if
                    (searches
                      (line_start
                        ▹ spaces
                        ▹ lit "const"
                        ▹ spaces
                        ▹ lit "string"
                        ▹ spaces
                        ▹ lit "&"
                        ▹ spaces
                        ▹ words1
                        ▹ spaces
                        ▹ lit ";")
                      line)
                    (report filename linenum "runtime/member_string_references" 2 (
                      codes
                        "const string& members are dangerous. It is much better to use alternatives, such as pointers or simple constants.")))))

-- name.split('::')[-1]; `part` is what was read of the current part.
last_part : ℕ → Text → Text → Text
last_part skip part [] = part
last_part (suc skip) part (c ∷ s) = last_part skip part s
last_part zero part (c ∷ s) =
    let colons = starts_with (c ∷ s) (codes "::") in
    last_part (if colons then 1 else 0) (if colons then [] else part ++ c ∷ []) s

-- \s+(?:(?:inline|constexpr)\s+)*(explicit\s+)?(?:(?:inline|constexpr)\s+)*NAME\s*
-- \(((?:[^()]|\([^()]*\))*)\)
abbrev pub constructor_pattern : Text → Regex
constructor_pattern name =
    let specifiers : Regex = star (one_of ("inline" ∷ "constexpr" ∷ []) ▹ spaces1) in
    spaces1
    ▹ specifiers
    ▹ opt (group 1 (lit "explicit" ▹ spaces1))
    ▹ specifiers
    ▹ lit_codes name
    ▹ spaces
    ▹ lit "("
    ▹ group 2 (star (none_of "()" ∣∣ lit "(" ▹ star (none_of "()") ▹ lit ")"))
    ▹ lit ")"

-- An argument that a comma inside brackets has cut.
is_cut : Text → Bool
is_cut arg =
    ltb (count arg (codes ">")) (count arg (codes "<"))
    || ltb (count arg (codes ")")) (count arg (codes "("))

prepend : Text → Option (List Text) → Option (List Text)
prepend arg none = none
prepend arg (some args) = some (arg ∷ args)

-- The loop that joins the arguments; `none` is the IndexError of an argument that is cut and has no other
-- behind it.
join_args : Text → List Text → Option (List Text)
unfolding is_cut prepend
join_args arg [] = if is_cut arg then none else some (arg ∷ [])
join_args arg (next ∷ args) =
    let rest = join_args (if is_cut arg then arg ++ b',' ∷ next else next) args in
    if is_cut arg then rest else prepend arg rest

-- constructor_args
pub constructor_args : Text → Option (List Text)
unfolding join_args
constructor_args [] = some []
constructor_args (c ∷ s) = elim (split_on (c ∷ s) b',') [
  | [] ↦ some []
  | arg ∷ args ↦ join_args arg args
]

-- len(defaulted_args)
count_defaulted : List Text → ℕ
count_defaulted [] = 0
count_defaulted (arg ∷ args) = (if contains arg (codes "=") then 1 else 0) + count_defaulted args

is_noarg : List Text → Bool
is_noarg [] = true
is_noarg (arg ∷ []) = text_eq (strip arg) (codes "void")
is_noarg (arg ∷ next ∷ args) = false

is_onearg : List Text → Bool
unfolding count_defaulted is_noarg
is_onearg args =
    not (is_noarg args) && (length args == 1 || leb (length args) (count_defaulted args + 1))

-- \bstd\s*::\s*initializer_list\b, and (const\s+)?NAME(\s*<[^>]*>)?(\s+const)?\s*(?:<\w+>\s*)?&
may_convert : Text → List Text → Bool
may_convert name [] = false
may_convert name (arg ∷ args) =
    searches (boundary ▹ lit "std" ▹ spaces ▹ lit "::" ▹ spaces ▹ lit "initializer_list" ▹ boundary)
      arg
    || matches
        (opt (lit "const" ▹ spaces1)
          ▹ lit_codes name
          ▹ opt (spaces ▹ lit "<" ▹ star (none_of ">") ▹ lit ">")
          ▹ opt (spaces1 ▹ lit "const")
          ▹ spaces
          ▹ opt (lit "<" ▹ words1 ▹ lit ">" ▹ spaces)
          ▹ lit "&")
        (strip arg)

explicit_reports : Text → ℕ → Text → Bool → List Text → List Report
unfolding is_onearg may_convert
explicit_reports filename linenum name is_marked_explicit args =
    if not is_marked_explicit
    then report_if (is_onearg args && not (may_convert name args)) (
        report filename linenum "runtime/explicit" 5 (
          if count_defaulted args == 0
          then codes "Single-parameter constructors should be marked explicit."
          else codes "Constructors callable with one argument should be marked explicit."))
    else report_if (not (is_onearg args) && is_noarg args) (
        report filename linenum "runtime/explicit" 5
          (codes "Zero-parameter constructors should not be marked explicit."))

unfoldable pub constructor_effects : Text → ℕ → Text → Text → List Effect
unfolding constructor_args explicit_reports
constructor_effects filename linenum name line = elim (match (constructor_pattern name) line) [
  | none ↦ []
  | some m ↦ elim (constructor_args (group_or 2 m)) [
    | none ↦ raise ∷ []
    | some args ↦ say_all (explicit_reports filename linenum name (is_some (group_of 1 m)) args)
  ]
]

unfoldable pub class_effects : Text → ℕ → Text → Option (Block × ClassInfo) → List Effect
unfolding last_part constructor_effects
class_effects filename linenum line none = []
class_effects filename linenum line (some (block, info)) =
    if block.seen_open_brace
    then constructor_effects filename linenum (last_part 0 [] info.name) line
    else []

-- CheckForNonStandardConstructs
unfoldable pub check_for_non_standard_constructs :
    Text → CleansedLines → ℕ → NestingState → List Effect
unfolding format_reports declaration_reports class_effects
check_for_non_standard_constructs filename clean_lines linenum nesting_state =
    let line = line_at clean_lines.elided linenum in
    say_all (
      format_reports filename linenum (line_at clean_lines.lines linenum)
      ++ declaration_reports filename linenum line)
    ++ class_effects filename linenum line (innermost_class nesting_state.stack)
