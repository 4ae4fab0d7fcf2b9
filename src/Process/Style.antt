-- ===== src/Process/Style.antt =====
-- CheckStyle of tools/scripts/cpplint.py, and what a run of the program is given from outside.
use jp4agent.Prelude.{
  ℕ, zero, suc, Bool, false, ◌&&◌, ◌||◌, not, Option, none, some, List, [], ◌∷◌, ◌++◌, ◌==◌, ltb,
  if◌then◌else◌, Text, codes, text_eq, contains, count, decimal, starts_with, is_blank_char, last?,
}
use jp4agent.Regex.{Regex, star, group, line_start, line_end, cls, digit}
use jp4agent.Regex.Notation.{lit, any_of, nonspace, any, opt, plus, spaces, words1, ◌▹◌}
use jp4agent.Regex.Find.{matches, searches}
use jp4agent.Lint.Report.{Report, report, report_if}
use jp4agent.Lint.Effects.{Effect, say_all}
use jp4agent.Cleanse.Lines.{CleansedLines, line_at}
use jp4agent.Nesting.Blocks.{Block, ClassInfo, NestingState}
use jp4agent.Nesting.Queries.{innermost_class}
use jp4agent.Headers.Info.{FileSystem, is_header_extension, empty_file_system}
use jp4agent.Headers.Guards.{get_header_guard_cpp_variable}
use jp4agent.Checks.Features.{check_alt_tokens}
use jp4agent.Style.Width.{Settings, get_line_width, ascii_settings}
use jp4agent.Style.Spacing.{check_spacing}
use jp4agent.Style.Operators.{check_operator_spacing}
use jp4agent.Style.Parens.{
  check_parenthesis_spacing, check_comma_spacing, check_spacing_for_function_call,
}
use jp4agent.Style.Initializers.{check_braces_spacing}
use jp4agent.Style.Sections.{check_section_spacing}
use jp4agent.Style.Braces.{check_braces, previous_code}
use jp4agent.Style.Semicolons.{check_trailing_semicolon}
use jp4agent.Style.Bodies.{check_empty_block_body}
use jp4agent.Style.Macros.{check_check}

-- The settings of a line, the file system, the extensions of headers and the value of --root.
pub record Environment : Type 0 where
  pub settings : Settings
  pub file_system : FileSystem
  pub hpp_headers : List Text
  pub root : Text

abbrev pub default_environment : Environment
default_environment = record {
  settings = ascii_settings;
  file_system = empty_file_system;
  hpp_headers = codes "h" ∷ [];
  root = [];
}

-- The number of spaces at the start.
unfoldable pub initial_spaces : Text → ℕ
initial_spaces [] = 0
initial_spaces (c ∷ line) = let n = initial_spaces line in if c == b' ' then suc n else 0

-- [",=><] *$
abbrev continuation_pattern : Regex
continuation_pattern = any_of "\",=><" ▹ star (lit " ") ▹ line_end

-- \s*\w+\s*:\s*\\?$
abbrev scope_or_label_pattern : Regex
scope_or_label_pattern = spaces ▹ words1 ▹ spaces ▹ lit ":" ▹ spaces ▹ opt (lit "\\") ▹ line_end

-- `raw_lines[linenum - 1] if linenum > 0 else ''`
line_above : List Text → ℕ → Text
line_above lines zero = []
line_above lines (suc n) = line_at lines n

is_oddly_indented : CleansedLines → ℕ → Text → Bool
unfolding line_above
is_oddly_indented clean_lines linenum line =
    not (searches continuation_pattern (line_above clean_lines.lines_without_raw_strings linenum))
    && (initial_spaces line == 1 || initial_spaces line == 3)
    && not (matches scope_or_label_pattern (line_at clean_lines.elided linenum))
    && not (
        not (text_eq (line_at clean_lines.raw_lines linenum) line)
        && matches (line_start ▹ spaces ▹ lit "\"\"") line)

ends_with_space : Text → Bool
ends_with_space line = elim (last? line) [ none ↦ false | some c ↦ is_blank_char c ]

whitespace_reports : Text → CleansedLines → ℕ → Text → List Report
unfolding is_oddly_indented ends_with_space
whitespace_reports filename clean_lines linenum line =
    report_if (contains line (codes "\t"))
      (report filename linenum "whitespace/tab" 1 (codes "Tab found; better to use spaces"))
    ++ (report_if (is_oddly_indented clean_lines linenum line) (
          report filename linenum "whitespace/indent" 3
            (codes "Weird number of spaces at line-start.  Are you using a 2-space indent?"))
        ++ report_if (ends_with_space line) (
            report filename linenum "whitespace/end_of_line" 4
              (codes "Line ends in whitespace.  Consider deleting these extra spaces.")))

-- A line of the header guard, in a file with the extension of a header.
is_header_guard : Environment → Text → Text → Text → Bool
is_header_guard env filename file_extension line =
    let cppvar = get_header_guard_cpp_variable env.file_system env.root filename in
    is_header_extension env.hpp_headers file_extension
    && (starts_with line (codes "#ifndef " ++ cppvar)
        || starts_with line (codes "#define " ++ cppvar)
        || starts_with line (codes "#endif  // " ++ cppvar))

-- Lines that may be long: #include, the header guard, comments that are a URL or one word, and $Id$.
may_be_long : Environment → Text → Text → Text → Bool
unfolding is_header_guard
may_be_long env filename file_extension line =
    starts_with line (codes "#include")
    || is_header_guard env filename file_extension line
    || matches
        (line_start
          ▹ spaces
          ▹ lit "//"
          ▹ any
          ▹ lit "http"
          ▹ group 1 (opt (lit "s"))
          ▹ lit "://"
          ▹ star nonspace
          ▹ line_end)
        line
    || matches (line_start ▹ spaces ▹ lit "//" ▹ spaces ▹ star nonspace ▹ line_end) line
    || matches (line_start ▹ lit "// $Id:" ▹ any ▹ lit "#" ▹ plus (cls digit) ▹ lit " $" ▹ line_end)
        line

length_reports : Environment → Text → ℕ → Text → Text → List Report
unfolding may_be_long
length_reports env filename linenum file_extension line =
    report_if
      (not (may_be_long env filename file_extension line)
        && ltb env.settings.line_length (get_line_width env.settings line))
      (report filename linenum "whitespace/line_length" 2 (
        codes "Lines should be <= "
        ++ (decimal env.settings.line_length ++ codes " characters long")))

-- More than one command, in no head of a for loop and in no case of a switch.
has_more_commands : Text → Text → Bool
has_more_commands cleansed_line previous =
    ltb 1 (count cleansed_line (codes ";"))
    && not (contains cleansed_line (codes "for"))
    && (not (contains previous (codes "for")) || contains previous (codes ";"))
    && not (
        (contains cleansed_line (codes "case ") || contains cleansed_line (codes "default:"))
        && contains cleansed_line (codes "break;"))

command_reports : Text → CleansedLines → ℕ → List Report
unfolding has_more_commands
command_reports filename clean_lines linenum =
    report_if
      (has_more_commands (line_at clean_lines.elided linenum) (previous_code clean_lines linenum))
      (report filename linenum "whitespace/newline" 0
        (codes "More than one command on the same line"))

section_reports : Text → CleansedLines → ℕ → Option (Block × ClassInfo) → List Report
section_reports filename clean_lines linenum none = []
section_reports filename clean_lines linenum (some classinfo) =
    check_section_spacing filename clean_lines classinfo linenum

-- CheckStyle
unfoldable pub check_style :
    Environment → Text → CleansedLines → ℕ → Text → NestingState → List Effect
unfolding whitespace_reports length_reports command_reports section_reports
check_style env filename clean_lines linenum file_extension nesting_state =
    let line = line_at clean_lines.lines_without_raw_strings linenum in
    say_all (
      whitespace_reports filename clean_lines linenum line
      ++ (length_reports env filename linenum file_extension line
          ++ (command_reports filename clean_lines linenum
              ++ check_braces env.settings filename clean_lines linenum)))
    ++ (check_trailing_semicolon filename clean_lines linenum
        ++ say_all (
            check_empty_block_body filename clean_lines linenum
            ++ (check_spacing filename clean_lines linenum nesting_state
                ++ (check_operator_spacing filename clean_lines linenum
                    ++ (check_parenthesis_spacing filename clean_lines linenum
                        ++ (check_comma_spacing filename clean_lines linenum
                            ++ (check_braces_spacing filename clean_lines linenum nesting_state
                                ++ (check_spacing_for_function_call filename clean_lines linenum
                                    ++ (check_check filename clean_lines linenum
                                        ++ (check_alt_tokens filename clean_lines linenum
                                            ++ section_reports filename clean_lines linenum
                                                (innermost_class nesting_state.stack)))))))))))
