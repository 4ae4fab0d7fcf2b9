-- ===== src/Process/Reported.antt =====
-- What ProcessFileData of tools/scripts/cpplint.py reports of a file without NOLINT comments.
use jp4agent.Prelude.{ℕ, zero, suc, ◌+◌, List, [], ◌++◌, Text, All}
use jp4agent.Lint.Report.{Report}
use jp4agent.Lint.Effects.Quiet.{IsPlain, says}
use jp4agent.Cleanse.Lines.{CleansedLines, cleanse}
use jp4agent.Cleanse.Multiline.{remove_multi_line_comments}
use jp4agent.Checks.Features.{flag_cxx11_features}
use jp4agent.Function.Arguments.{FunctionArguments}
use jp4agent.Process.Style.{Environment}
use jp4agent.Process.Line.{FileState, initial_file_state, line_effects}
use jp4agent.Process.File.{with_markers, guard_effects, end_reports}
use jp4agent.Process.Ends.{IsHarmless, IsInPlace}

-- The reports of k lines from line n on, at a verbosity, and the states behind them.
lines_reports :
    Environment → Text → Text → CleansedLines → ℕ → ℕ → ℕ → FileState → FileState × List Report
lines_reports env f ext cl verbosity zero n s = (s, [])
lines_reports env f ext cl verbosity (suc k) n s =
    let (s', effects) = line_effects env f ext cl verbosity n s in
    let (end, later) = lines_reports env f ext cl verbosity k (n + 1) s' in
    (end, says effects ++ (flag_cxx11_features f cl n ++ later))

-- No line of the file has a NOLINT comment, and none may raise an exception.
pub record IsPlainFile (cl : CleansedLines) : Type 0 where
  pub raw : All IsPlain cl.raw_lines
  pub without_raw_strings : All IsPlain cl.lines_without_raw_strings
  pub harmless : All IsHarmless cl.elided
  pub in_place : (n : ℕ) → IsInPlace cl n

-- What is reported of a file behind the check of its copyright, in the order of the reports, and the
-- states at its end.
pub file_reports :
    Environment → Text → Text → List Text → FunctionArguments → ℕ → FileState × List Report
file_reports env f ext lines arguments verbosity =
    let (plain, comment_reports) = remove_multi_line_comments f (with_markers lines) in
    let cl = cleanse plain in
    let (end, reports) =
      lines_reports env f ext cl verbosity cl.num_lines 0 (initial_file_state arguments) in
    (end, says (guard_effects env f ext cl) ++ (reports ++ end_reports env f ext plain cl end))
