-- ===== src/Language/Strings.antt =====
-- CheckGlobalStatic of tools/scripts/cpplint.py.
use jp4agent.Prelude.{
  ℕ, ◌+◌, Bool, false, ◌&&◌, ◌||◌, not, none, some, List, [], ◌∷◌, ◌++◌, ltb, if◌then◌else◌, Text,
  codes, starts_with, strip,
}
use jp4agent.Regex.{Regex, star, group, boundary, line_end, cls, word, one, other, either, eps}
use jp4agent.Regex.Notation.{
  lit, lit_codes, any_of, none_of, any, opt, plus, spaces, spaces1, identifier_char, ◌▹◌, ◌∣∣◌,
}
use jp4agent.Regex.Find.{Found, match, matches, searches, find_all, group_or}
use jp4agent.Lint.Report.{Report, report, report_if}
use jp4agent.Cleanse.Lines.{CleansedLines, line_at}

-- ((?:|static +)(?:|const +))(?::*std::)?string( +const)? +([a-zA-Z0-9_:]+)\b(.*)
abbrev string_declaration_pattern : Regex
string_declaration_pattern =
    let blanks : Regex = plus (lit " ") in
    group 1 ((eps ∣∣ lit "static" ▹ blanks) ▹ (eps ∣∣ lit "const" ▹ blanks))
    ▹ opt (star (lit ":") ▹ lit "std::")
    ▹ lit "string"
    ▹ opt (group 2 (blanks ▹ lit "const"))
    ▹ blanks
    ▹ group 3 (plus (cls (either identifier_char (one b':'))))
    ▹ boundary
    ▹ group 4 any

-- \bstring\b(\s+const)?\s*[\*\&]\s*(const\s+)?\w
abbrev string_pointer_pattern : Regex
string_pointer_pattern =
    boundary
    ▹ lit "string"
    ▹ boundary
    ▹ opt (spaces1 ▹ lit "const")
    ▹ spaces
    ▹ any_of "*&"
    ▹ spaces
    ▹ opt (lit "const" ▹ spaces1)
    ▹ cls word

-- \s*(<.*>)?(::[a-zA-Z0-9_]+)*\s*\(([^"]|$)
abbrev pub function_pattern : Regex
function_pattern =
    spaces
    ▹ opt (lit "<" ▹ any ▹ lit ">")
    ▹ star (lit "::" ▹ plus (cls identifier_char))
    ▹ spaces
    ▹ lit "("
    ▹ (none_of "\"" ∣∣ line_end)

string_report : Text → ℕ → Text → Found → Report
string_report filename linenum line m = report filename linenum "runtime/string" 4 (
    if searches (boundary ▹ lit "const" ▹ boundary) line
    then codes "For a static/global string constant, use a C style string instead: \""
      ++ (group_or 1 m
          ++ (codes "char" ++ (group_or 2 m ++ (codes " " ++ (group_or 3 m ++ codes "[]\".")))))
    else codes "Static/global string variables are not permitted.")

string_reports : Text → ℕ → Text → List Report
unfolding string_report
string_reports filename linenum line = elim (match string_declaration_pattern line) [
  | none ↦ []
  | some m ↦
      report_if
        (not (searches string_pointer_pattern line)
          && not (searches (boundary ▹ lit "operator" ▹ cls (other word)) line)
          && not (matches function_pattern (group_or 4 m)))
        (string_report filename linenum line m)
]

-- A match, behind which its first group comes again. A name that ends with _ stands before each bracket at
-- one place only, so that the matches are all there are.
any_repeats : Text → List Found → Bool
any_repeats close [] = false
any_repeats close (m ∷ ms) = starts_with m.rest (group_or 1 m ++ close) || any_repeats close ms

-- \b([A-Za-z0-9_]*_)\(
abbrev member_call_pattern : Text → Regex
member_call_pattern behind =
    boundary ▹ group 1 (star (cls identifier_char) ▹ lit "_") ▹ lit_codes behind

-- \b([A-Za-z0-9_]*_)\(\1\) and \b([A-Za-z0-9_]*_)\(CHECK_NOTNULL\(\1\)\)
is_self_initialized : Text → Bool
unfolding any_repeats
is_self_initialized line =
    any_repeats (codes ")") (find_all (member_call_pattern (codes "(")) line)
    || any_repeats (codes "))") (find_all (member_call_pattern (codes "(CHECK_NOTNULL(")) line)

-- The line, with the next one if it has no end of a statement.
declaration_text : CleansedLines → ℕ → Text
declaration_text clean_lines linenum =
    let line = line_at clean_lines.elided linenum in
    if ltb (linenum + 1) clean_lines.num_lines && not (searches (any_of ";({") line)
    then line ++ strip (line_at clean_lines.elided (linenum + 1))
    else line

-- CheckGlobalStatic
unfoldable pub check_global_static : Text → CleansedLines → ℕ → List Report
unfolding string_reports is_self_initialized declaration_text
check_global_static filename clean_lines linenum =
    let line = declaration_text clean_lines linenum in
    string_reports filename linenum line
    ++ report_if (is_self_initialized line) (
        report filename linenum "runtime/init" 4
          (codes "You seem to be initializing a member variable with itself."))
