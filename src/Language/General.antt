-- ===== src/Language/General.antt =====
-- CheckLanguage of tools/scripts/cpplint.py.
use jp4agent.Prelude.{
  ℕ, Bool, ◌&&◌, not, none, some, List, [], ◌∷◌, ◌++◌, ◌==◌, if◌then◌else◌, Text, codes, length,
  ends_with,
}
use jp4agent.Regex.{Regex, group, boundary, line_start, not_ahead}
use jp4agent.Regex.Notation.{lit, plus, spaces, one_of, ◌▹◌, ◌∣∣◌}
use jp4agent.Regex.Find.{match, search_in, searches, group_or}
use jp4agent.Lint.Report.{Report, report, report_if}
use jp4agent.Lint.Effects.{Effect, say_all}
use jp4agent.Cleanse.Lines.{CleansedLines, line_at}
use jp4agent.Include.{IncludeState, reset_section}
use jp4agent.Headers.Info.{FileSystem, is_header_extension}
use jp4agent.Headers.Lines.{include_pattern, check_include_line}
use jp4agent.Language.Strings.{check_global_static}
use jp4agent.Language.Printf.{check_printf, format_string_reports, memset_reports}
use jp4agent.Language.Arrays.{array_reports}
use jp4agent.Language.Casts.{check_casts}

-- \b(short|long(?! +double)|long long)\b
abbrev c_type_pattern : Regex
c_type_pattern =
    boundary
    ▹ group 1
        (lit "short" ∣∣ lit "long" ▹ not_ahead (plus (lit " ") ▹ lit "double") ∣∣ lit "long long")
    ▹ boundary

c_type_reports : Text → ℕ → Text → List Report
c_type_reports filename linenum line =
    if searches (boundary ▹ lit "short port" ▹ boundary) line
    then report_if (not (searches (boundary ▹ lit "unsigned short port" ▹ boundary) line)) (
        report filename linenum "runtime/int" 4
          (codes "Use \"unsigned short\" for ports, not \"short\""))
    else elim (search_in c_type_pattern line) [
      | none ↦ []
      | some m ↦
          report filename linenum "runtime/int" 4
            (codes "Use int16/int64/etc, rather than the C type " ++ group_or 1 m)
          ∷ []
    ]

operator_reports : Text → ℕ → Text → List Report
operator_reports filename linenum line =
    report_if
      (searches (boundary ▹ lit "operator" ▹ spaces ▹ lit "&" ▹ spaces ▹ lit "(" ▹ spaces ▹ lit ")")
        line)
      (report filename linenum "runtime/operator" 4
        (codes "Unary operator& is dangerous.  Do not use it."))
    ++ report_if (searches (lit "}" ▹ spaces ▹ lit "if" ▹ spaces ▹ lit "(") line) (
        report filename linenum "readability/braces" 4
          (codes "Did you mean \"else if\"? If not, start a new line for \"if\"."))

using_reports : Text → ℕ → Text → List Report
using_reports filename linenum line =
    report_if (searches (boundary ▹ lit "using namespace" ▹ boundary) line) (
      report filename linenum "build/namespaces" 5
        (codes "Do not use namespace using-directives.  Use using-declarations instead."))

unnamed_namespace_reports : Text → ℕ → Bool → Text → List Report
unnamed_namespace_reports filename linenum is_header line =
    report_if
      (is_header
        && searches (boundary ▹ lit "namespace" ▹ spaces ▹ lit "{") line
        && not (ends_with line (codes "\\")))
      (report filename linenum "build/namespaces" 4 (
        codes
          "Do not use unnamed namespaces in header files.  See https://google-styleguide.googlecode.com/svn/trunk/cppguide.xml#Namespaces for more information."))

-- ^\s*#\s*(if|ifdef|ifndef|elif|else|endif)\b
abbrev conditional_pattern : Regex
conditional_pattern =
    line_start
    ▹ spaces
    ▹ lit "#"
    ▹ spaces
    ▹ group 1 (one_of ("if" ∷ "ifdef" ∷ "ifndef" ∷ "elif" ∷ "else" ∷ "endif" ∷ []))
    ▹ boundary

-- The state after a line that is no #include.
reset_at : Text → IncludeState → IncludeState
reset_at line s = elim (match conditional_pattern line) [
  | none ↦ s
  | some m ↦ reset_section (group_or 1 m) s
]

-- The checks of a line that is no #include.
unfoldable pub language_effects : Text → CleansedLines → ℕ → Bool → Text → List Effect
unfolding c_type_reports operator_reports using_reports unnamed_namespace_reports
language_effects filename clean_lines linenum is_header line =
    check_casts filename clean_lines linenum
    ++ say_all (
        check_global_static filename clean_lines linenum
        ++ (check_printf filename clean_lines linenum
            ++ (c_type_reports filename linenum line
                ++ (operator_reports filename linenum line
                    ++ (format_string_reports filename linenum line
                        ++ (memset_reports filename linenum line
                            ++ (using_reports filename linenum line
                                ++ (array_reports filename linenum line
                                    ++ unnamed_namespace_reports filename linenum is_header
                                        line))))))))

-- CheckLanguage
unfoldable pub check_language :
    FileSystem
    → List Text
    → Text
    → CleansedLines
    → ℕ
    → Text
    → IncludeState
    → IncludeState × List Effect
unfolding reset_at language_effects
check_language fs hpp_headers filename clean_lines linenum file_extension s =
    let line = line_at clean_lines.elided linenum in
    if length line == 0 then (s, []) else elim (search_in include_pattern line) [
      | some _ ↦
          let (s', reports) = check_include_line fs filename clean_lines linenum s in
          (s', say_all reports)
      | none ↦ (
        reset_at line s,
        language_effects filename clean_lines linenum
            (is_header_extension hpp_headers file_extension) line,
      )
    ]
