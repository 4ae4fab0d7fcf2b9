-- ===== src/Headers/Lines.antt =====
-- CheckIncludeLine of tools/scripts/cpplint.py.
use jp4agent.Prelude.{
  ℕ, Bool, ◌&&◌, not, none, some, List, [], ◌∷◌, ◌++◌, ◌==◌, if◌then◌else◌, Text, codes, text_eq,
  ends_with, decimal, length,
}
use jp4agent.Regex.{Regex, star, group, line_start, line_end, cls, range}
use jp4agent.Regex.Notation.{lit, any_of, none_of, any, plus, spaces, one_of, ◌▹◌, ◌∣∣◌}
use jp4agent.Regex.Find.{match, matches, search_in, group_or}
use jp4agent.Lint.Report.{Report, report, report_if}
use jp4agent.Cleanse.Lines.{CleansedLines, line_at}
use jp4agent.Include.{
  IncludeState, find_header, append_last, set_last_header, canonicalize_alphabetical_order,
  is_in_alphabetical_order, check_next_include_order,
}
use jp4agent.Headers.Paths.{dirname}
use jp4agent.Headers.Info.{FileSystem, repository_name, base_name}
use jp4agent.Headers.Classify.{classify_include}
use jp4agent.Style.Texts.{line_before}

-- _RE_PATTERN_INCLUDE: ^\s*#\s*include\s*([<"])([^>"]*)[>"].*$
abbrev pub include_pattern : Regex
include_pattern =
    line_start
    ▹ spaces
    ▹ lit "#"
    ▹ spaces
    ▹ lit "include"
    ▹ spaces
    ▹ group 1 (any_of "<\"")
    ▹ group 2 (star (none_of ">\""))
    ▹ any_of ">\""
    ▹ any
    ▹ line_end

-- _THIRD_PARTY_HEADERS_PATTERN: ^(?:[^/]*[A-Z][^/]*\.h|lua\.h|lauxlib\.h|lualib\.h)$
abbrev third_party_headers_pattern : Regex
third_party_headers_pattern =
    line_start
    ▹ (star (none_of "/") ▹ cls (range b'A' b'Z') ▹ star (none_of "/") ▹ lit ".h"
        ∣∣ one_of ("lua.h" ∷ "lauxlib.h" ∷ "lualib.h" ∷ []))
    ▹ line_end

-- #include\s*"([^/]+\.h)"
abbrev no_directory_pattern : Regex
no_directory_pattern =
    lit "#include" ▹ spaces ▹ lit "\"" ▹ group 1 (plus (none_of "/") ▹ lit ".h") ▹ lit "\""

no_directory_reports : Text → ℕ → Text → List Report
no_directory_reports filename linenum line = elim (match no_directory_pattern line) [
  | none ↦ []
  | some m ↦ report_if (not (matches third_party_headers_pattern (group_or 1 m))) (
      report filename linenum "build/include" 4
        (codes "Include the directory when naming .h files"))
]

duplicate_report : Text → ℕ → Text → ℕ → Report
duplicate_report filename linenum include duplicate_line =
    report filename linenum "build/include" 4 (
      codes "\""
      ++ (include
          ++ (codes "\" already included at "
              ++ (filename ++ (codes ":" ++ decimal duplicate_line)))))

order_reports : Text → ℕ → Text → Text → List Report
order_reports filename linenum base error_message = report_if (not (length error_message == 0)) (
    report filename linenum "build/include_order" 4 (
      error_message
      ++ (codes ". Should be: " ++ (base ++ codes ".h, c system, c++ system, other."))))

alpha_reports : Text → ℕ → Text → Bool → List Report
alpha_reports filename linenum include in_order = report_if (not in_order) (
    report filename linenum "build/include_alpha" 4
      (codes "Include \"" ++ (include ++ codes "\" not in alphabetical order")))

-- A header that is neither there yet nor one of another package: it is listed, and its order is checked.
add_header :
    FileSystem → Text → CleansedLines → ℕ → Text → Bool → IncludeState → IncludeState × List Report
unfolding order_reports alpha_reports
add_header fs filename clean_lines linenum include is_system s =
    let listed = record s { include_list = append_last (include, linenum) s.include_list } in
    let (ordered, error_message) =
      check_next_include_order (classify_include (repository_name fs filename) include is_system)
        listed in
    let canonical_include = canonicalize_alphabetical_order include in
    (
      set_last_header canonical_include ordered,
      order_reports filename linenum (base_name fs filename) error_message
          ++ alpha_reports filename linenum include (
              is_in_alphabetical_order ordered (line_before clean_lines.elided linenum)
                canonical_include),
    )

-- A line with the header `include`.
check_include :
    FileSystem → Text → CleansedLines → ℕ → Text → Bool → IncludeState → IncludeState × List Report
unfolding duplicate_report add_header
check_include fs filename clean_lines linenum include is_system s =
    elim (find_header include s.include_list) [
      | some duplicate_line ↦ (s, duplicate_report filename linenum include duplicate_line ∷ [])
      | none ↦
          if ends_with include (codes ".cc")
            && not (text_eq (dirname (repository_name fs filename)) (dirname include))
          then (
            s,
            report filename linenum "build/include" 4
                  (codes "Do not include .cc files from other packages")
                ∷ [],
          )
          else if matches third_party_headers_pattern include
          then (s, [])
          else add_header fs filename clean_lines linenum include is_system s
    ]

-- CheckIncludeLine
unfoldable pub check_include_line :
    FileSystem → Text → CleansedLines → ℕ → IncludeState → IncludeState × List Report
unfolding no_directory_reports check_include
check_include_line fs filename clean_lines linenum s =
    let line = line_at clean_lines.lines linenum in
    elim (search_in include_pattern line) [
      | none ↦ (s, no_directory_reports filename linenum line)
      | some m ↦
          let (s', reports) =
            check_include fs filename clean_lines linenum (group_or 2 m)
              (text_eq (group_or 1 m) (codes "<")) s in
          (s', no_directory_reports filename linenum line ++ reports)
    ]
