-- ===== src/Process/Ends/Whole.antt =====
-- ProcessFileData of tools/scripts/cpplint.py on a file of which no line raises an exception.
use jp4agent.Prelude.{ℕ, zero, suc, ◌+◌, ◌≡◌, refl, List, [], Text, All}
use jp4agent.Regex.Find.{match, searches}
use jp4agent.Lint.Handler.{World, report_all}
use jp4agent.Lint.Effects.{done}
use jp4agent.Lint.Effects.Quiet.{run_effects-AllQuiet}
use jp4agent.Cleanse.Lines.{CleansedLines, cleanse}
use jp4agent.Cleanse.Multiline.{remove_multi_line_comments}
use jp4agent.Checks.Features.{flag_cxx11_features}
use jp4agent.Function.Arguments.{FunctionArguments}
use jp4agent.Process.Style.{Environment}
use jp4agent.Process.Line.{FileState, initial_file_state}
use jp4agent.Process.File.{
  with_markers, process_lines, begin_file, guard_effects, end_reports, process_file_data,
}
use jp4agent.Process.Ends.Guards.{guard-AllQuiet}
use jp4agent.Process.Ends.{IsHarmless, IsInPlace, line_at-All, process_line_ends}

pub empty-IsHarmless : IsHarmless []
unfolding searches match
empty-IsHarmless = (refl, λ name m e. absurd (cc e))

-- Of a raw line nothing is asked.
abbrev Any : Text → Type 0
Any raw = Unit {0}

process_lines_end :
    (env : Environment) (f ext : Text) (cl : CleansedLines)
    → All IsHarmless cl.elided
    → ((n : ℕ) → IsInPlace cl n)
    → (k n : ℕ) (s : FileState) (w : World)
    → (p : FileState × World) × (process_lines env f ext cl k n s w ≡ done p)
unfolding process_lines
process_lines_end env f ext cl h place zero n s w = ((s, w), refl)
process_lines_end env f ext cl h place (suc k) n s w =
    let (p, e) =
      process_line_ends Any f cl (λ k. tt) (λ k. tt) n
        (line_at-All IsHarmless cl.elided h empty-IsHarmless n) (place n) env ext s w in
    let (q, e') =
      process_lines_end env f ext cl h place k (n + 1) p.0
        (report_all (flag_cxx11_features f cl n) p.1) in
    (q, rw e e')

-- ProcessFileData comes to its end for every file of which no cleansed line takes the address of what may be a
-- cast, nor has the arguments of a constructor end inside brackets, nor, where a declarator stands before its
-- first bracket, has that bracket in the line without comments at a place that is behind the end of the line
-- without strings. The file system of the environment has a directory without .svn above every file.
pub process_file_data_ends :
    (env : Environment) (f ext : Text) (lines : List Text)
    → All IsHarmless (cleanse (remove_multi_line_comments f (with_markers lines)).0).elided
    → ((n : ℕ) → IsInPlace (cleanse (remove_multi_line_comments f (with_markers lines)).0) n)
    → (arguments : FunctionArguments) (w : World)
    → (p : FileState × World) × (process_file_data env f ext lines arguments w ≡ done p)
unfolding process_file_data
process_file_data_ends env f ext lines h place arguments w =
    let marked = with_markers lines in
    let (plain, comment_reports) = remove_multi_line_comments f marked in
    let cl = cleanse plain in
    let (guarded, e) =
      run_effects-AllQuiet Any f (guard_effects env f ext cl)
        (begin_file f marked comment_reports w) (guard-AllQuiet Any cl (λ k. tt) env f ext) in
    let (p, e') =
      process_lines_end env f ext cl h place cl.num_lines 0 (initial_file_state arguments)
        guarded in
    ((p.0, report_all (end_reports env f ext plain cl p.0) p.1), rw e (rw e' refl))
