-- ===== src/Language/Printf.antt =====
-- CheckPrintf of tools/scripts/cpplint.py, and what CheckLanguage says of printf and memset.
use jp4agent.Prelude.{ℕ, not, none, some, List, [], ◌∷◌, ◌++◌, Text, codes, text_eq}
use jp4agent.Regex.{
  Regex, star, group, boundary, line_start, line_end, cls, digit, range, word, either,
}
use jp4agent.Regex.Notation.{
  lit, lit_any_case, none_of, opt, plus, spaces, one_of, class_of, ◌▹◌, ◌∣∣◌,
}
use jp4agent.Regex.Find.{match, matches, search_in, searches, group_or}
use jp4agent.Lint.Report.{Report, report, report_if}
use jp4agent.Cleanse.Lines.{CleansedLines, line_at}
use jp4agent.Expression.Inside.{get_text_inside}

-- snprintf\s*\(([^,]*),\s*([0-9]*)\s*,
abbrev snprintf_pattern : Regex
snprintf_pattern =
    lit "snprintf"
    ▹ spaces
    ▹ lit "("
    ▹ group 1 (star (none_of ","))
    ▹ lit ","
    ▹ spaces
    ▹ group 2 (star (cls digit))
    ▹ spaces
    ▹ lit ","

snprintf_reports : Text → ℕ → Text → List Report
snprintf_reports filename linenum line = elim (search_in snprintf_pattern line) [
  | none ↦ []
  | some m ↦ report_if (not (text_eq (group_or 2 m) (codes "0"))) (
      report filename linenum "runtime/printf" 3 (
        codes "If you can, use sizeof("
        ++ (group_or 1 m
            ++ (codes ") instead of " ++ (group_or 2 m ++ codes " as the 2nd arg to snprintf.")))))
]

copy_reports : Text → ℕ → Text → List Report
copy_reports filename linenum line =
    elim (search_in (boundary ▹ group 1 (one_of ("strcpy" ∷ "strcat" ∷ [])) ▹ spaces ▹ lit "(")
      line) [
        | none ↦ []
        | some m ↦
            report filename linenum "runtime/printf" 4
              (codes "Almost always, snprintf is better than " ++ group_or 1 m)
            ∷ []
      ]

-- CheckPrintf
unfoldable pub check_printf : Text → CleansedLines → ℕ → List Report
unfolding snprintf_reports copy_reports
check_printf filename clean_lines linenum =
    let line = line_at clean_lines.elided linenum in
    snprintf_reports filename linenum line
    ++ (report_if (searches (boundary ▹ lit "sprintf" ▹ spaces ▹ lit "(") line) (
          report filename linenum "runtime/printf" 5
            (codes "Never use sprintf. Use snprintf instead."))
        ++ copy_reports filename linenum line)

-- (?i)\b((?:string)?printf)\s*\(
abbrev any_printf_pattern : Regex
any_printf_pattern =
    boundary
    ▹ group 1 (opt (lit_any_case (codes "string")) ▹ lit_any_case (codes "printf"))
    ▹ spaces
    ▹ lit "("

printf_name : Text → Text
printf_name line = elim (search_in any_printf_pattern line) [ none ↦ [] | some m ↦ group_or 1 m ]

-- ([\w.\->()]+)$
abbrev one_argument_pattern : Regex
one_argument_pattern = group 1 (plus (cls (either word (class_of (codes ".->()"))))) ▹ line_end

-- A call of printf with one argument. No argument is no match, as an empty text is none.
unfoldable pub format_string_reports : Text → ℕ → Text → List Report
unfolding printf_name
format_string_reports filename linenum line = elim (get_text_inside line any_printf_pattern) [
  | none ↦ []
  | some printf_args ↦ elim (match one_argument_pattern printf_args) [
    | none ↦ []
    | some m ↦ report_if (not (text_eq (group_or 1 m) (codes "__VA_ARGS__"))) (
        report filename linenum "runtime/printf" 4 (
          codes "Potential format string bug. Do "
          ++ (printf_name line ++ (codes "(\"%s\", " ++ (group_or 1 m ++ codes ") instead.")))))
  ]
]

-- memset\s*\(([^,]*),\s*([^,]*),\s*0\s*\)
abbrev memset_pattern : Regex
memset_pattern =
    lit "memset"
    ▹ spaces
    ▹ lit "("
    ▹ group 1 (star (none_of ","))
    ▹ lit ","
    ▹ spaces
    ▹ group 2 (star (none_of ","))
    ▹ lit ","
    ▹ spaces
    ▹ lit "0"
    ▹ spaces
    ▹ lit ")"

-- ^''|-?[0-9]+|0x[0-9A-Fa-f]$
abbrev literal_pattern : Regex
literal_pattern =
    line_start ▹ lit "''"
    ∣∣ opt (lit "-") ▹ plus (cls digit)
    ∣∣ lit "0x" ▹ cls (either digit (either (range b'A' b'F') (range b'a' b'f'))) ▹ line_end

unfoldable pub memset_reports : Text → ℕ → Text → List Report
memset_reports filename linenum line = elim (search_in memset_pattern line) [
  | none ↦ []
  | some m ↦ report_if (not (matches literal_pattern (group_or 2 m))) (
      report filename linenum "runtime/memset" 4 (
        codes "Did you mean \"memset("
        ++ (group_or 1 m ++ (codes ", 0, " ++ (group_or 2 m ++ codes ")\"?")))))
]
