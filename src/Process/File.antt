-- ===== src/Process/File.antt =====
-- ProcessFileData of tools/scripts/cpplint.py.
use jp4agent.Prelude.{ℕ, zero, suc, ◌+◌, List, [], ◌∷◌, ◌++◌, if◌then◌else◌, Text, codes}
use jp4agent.Lint.Report.{Report}
use jp4agent.Lint.Handler.{World, report_all}
use jp4agent.Lint.Suppress.{no_suppressions, process_global_suppressions}
use jp4agent.Lint.Effects.{Effect, Outcome, done, ◌>>=◌, run_effects}
use jp4agent.Cleanse.Lines.{CleansedLines, cleanse}
use jp4agent.Cleanse.Multiline.{remove_multi_line_comments}
use jp4agent.Function.Arguments.{FunctionArguments}
use jp4agent.Nesting.Ends.{check_completed_blocks}
use jp4agent.Checks.Files.{check_for_copyright, check_for_bad_characters, check_for_newline_at_eof}
use jp4agent.Checks.Features.{flag_cxx11_features}
use jp4agent.Headers.Info.{is_header_extension, is_source_extension}
use jp4agent.Headers.Guards.{check_for_header_guard}
use jp4agent.Headers.Modules.{check_header_file_included}
use jp4agent.Headers.Required.{check_for_include_what_you_use}
use jp4agent.Process.Style.{Environment}
use jp4agent.Process.Line.{FileState, initial_file_state, process_line}

-- The lines between two markers, so that numbers and indices both start at 1.
unfoldable pub with_markers : List Text → List Text
with_markers lines =
    codes "// marker so line numbers and indices both start at 1" ∷ lines
    ++ codes "// marker so line numbers end in a known way" ∷ []

-- The loop over k lines from line n on.
unfoldable pub process_lines :
    Environment
    → Text
    → Text
    → CleansedLines
    → ℕ
    → ℕ
    → FileState
    → World
    → Outcome (FileState × World)
process_lines env filename file_extension clean_lines zero n s w = done (s, w)
process_lines env filename file_extension clean_lines (suc k) n s w =
    process_line env filename file_extension clean_lines n s w >>= λ p.
    process_lines env filename file_extension clean_lines k (n + 1) p.0
      (report_all (flag_cxx11_features filename clean_lines n) p.1)

-- What is done to the globals before the lines are cleansed.
unfoldable pub begin_file : Text → List Text → List Report → World → World
begin_file filename lines comment_reports w =
    let w' =
      report_all (check_for_copyright filename lines)
        (record w { suppressions = no_suppressions }) in
    report_all comment_reports
      (record w' { suppressions = process_global_suppressions lines w'.suppressions })

unfoldable pub guard_effects : Environment → Text → Text → CleansedLines → List Effect
guard_effects env filename file_extension clean_lines =
    if is_header_extension env.hpp_headers file_extension
    then check_for_header_guard env.file_system env.root filename clean_lines
    else []

-- What is reported behind the last line.
pub end_reports : Environment → Text → Text → List Text → CleansedLines → FileState → List Report
end_reports env filename file_extension lines clean_lines s =
    check_completed_blocks s.nesting.stack filename
    ++ (check_for_include_what_you_use env.file_system filename clean_lines s.includes
        ++ ((if is_source_extension file_extension
              then check_header_file_included env.file_system filename s.includes
              else [])
            ++ (check_for_bad_characters filename lines
                ++ check_for_newline_at_eof filename lines)))

-- ProcessFileData
unfoldable pub process_file_data :
    Environment → Text → Text → List Text → FunctionArguments → World → Outcome (FileState × World)
unfolding with_markers process_lines begin_file guard_effects end_reports
process_file_data env filename file_extension lines arguments w =
    let marked = with_markers lines in
    let (plain, comment_reports) = remove_multi_line_comments filename marked in
    let clean_lines = cleanse plain in
    run_effects filename (guard_effects env filename file_extension clean_lines)
      (begin_file filename marked comment_reports w)
    >>= λ guarded.
        process_lines env filename file_extension clean_lines clean_lines.num_lines 0
          (initial_file_state arguments) guarded
        >>= λ p.
            done
              (p.0, report_all (end_reports env filename file_extension plain clean_lines p.0) p.1)
