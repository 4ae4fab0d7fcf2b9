-- ===== src/Process/Counted.antt =====
-- ProcessFileData of tools/scripts/cpplint.py and the globals of the module.
use jp4agent.Prelude.{ℕ, zero, suc, ◌+◌, refl, List, Text}
use jp4agent.Lint.Report.{Report}
use jp4agent.Lint.Suppress.{no_suppressions, process_global_suppressions}
use jp4agent.Lint.Handler.{World, report_all}
use jp4agent.Lint.Effects.{done, run_effects}
use jp4agent.Lint.Effects.Grew.{
  Grew, Always, Always-Grew, from_same, Grew-refl, Grew-trans, report_all-Grew, bind-Grew,
  run_effects-Grew,
}
use jp4agent.Cleanse.Lines.{CleansedLines, cleanse}
use jp4agent.Cleanse.Multiline.{remove_multi_line_comments}
use jp4agent.Checks.Files.{check_for_copyright}
use jp4agent.Checks.Features.{flag_cxx11_features}
use jp4agent.Function.Arguments.{FunctionArguments}
use jp4agent.Process.Style.{Environment}
use jp4agent.Process.Line.{FileState, initial_file_state, line_effects, process_line}
use jp4agent.Process.File.{
  with_markers, process_lines, begin_file, guard_effects, end_reports, process_file_data,
}

-- The world at the end of a run.
abbrev world : FileState × World → World
world p = p.1

process_line-Grew :
    (env : Environment) (f ext : Text) (cl : CleansedLines) (n : ℕ) (s : FileState) (w : World)
    → Always (λ p. Grew w p.1) (Grew w) (process_line env f ext cl n s w)
unfolding process_line
process_line-Grew env f ext cl n s w =
    let (s', effects) = line_effects env f ext cl w.state.verbose_level n s in
    bind-Grew (λ v. v) world w (run_effects f effects w) (λ w'. done (s', w'))
      (run_effects-Grew f effects w) (λ v. Grew-refl v)

process_lines-Grew :
    (env : Environment) (f ext : Text) (cl : CleansedLines) (k n : ℕ) (s : FileState) (w : World)
    → Always (λ p. Grew w p.1) (Grew w) (process_lines env f ext cl k n s w)
unfolding process_lines
process_lines-Grew env f ext cl zero n s w = Grew-refl w
process_lines-Grew env f ext cl (suc k) n s w =
    bind-Grew world world w (process_line env f ext cl n s w)
      (λ p. process_lines env f ext cl k (n + 1) p.0 (report_all (flag_cxx11_features f cl n) p.1))
      (process_line-Grew env f ext cl n s w)
      (λ p.
        let v = report_all (flag_cxx11_features f cl n) p.1 in
        Always-Grew world p.1 v (process_lines env f ext cl k (n + 1) p.0 v)
          (report_all-Grew (flag_cxx11_features f cl n) p.1)
          (process_lines-Grew env f ext cl k (n + 1) p.0 v))

pub begin_file-Grew :
    (f : Text) (lines : List Text) (rs : List Report) (w : World) → Grew w (begin_file f lines rs w)
unfolding begin_file
begin_file-Grew f lines rs w =
    let u = record w { suppressions = no_suppressions } in
    let v = report_all (check_for_copyright f lines) u in
    let v' = record v { suppressions = process_global_suppressions lines v.suppressions } in
    Grew-trans w v (report_all rs v')
      (from_same w u (refl, refl) v (report_all-Grew (check_for_copyright f lines) u))
      (from_same v v' (refl, refl) (report_all rs v') (report_all-Grew rs v'))

-- Whatever ProcessFileData finds in a file, and also where an exception ends it, it has written as many
-- lines as it has counted errors, in front of those that were there, and the filters, the verbosity and
-- the format of the output are as they were.
pub process_file_data-Grew :
    (env : Environment) (f ext : Text) (lines : List Text) (arguments : FunctionArguments)
    (w : World)
    → Always (λ p. Grew w p.1) (Grew w) (process_file_data env f ext lines arguments w)
unfolding process_file_data
process_file_data-Grew env f ext lines arguments w =
    let marked = with_markers lines in
    let (plain, comment_reports) = remove_multi_line_comments f marked in
    let cl = cleanse plain in
    let begun = begin_file f marked comment_reports w in
    bind-Grew (λ v. v) world w (run_effects f (guard_effects env f ext cl) begun) _
      (Always-Grew (λ v. v) w begun (run_effects f (guard_effects env f ext cl) begun)
        (begin_file-Grew f marked comment_reports w)
        (run_effects-Grew f (guard_effects env f ext cl) begun))
      (λ guarded.
        bind-Grew world world guarded
          (process_lines env f ext cl cl.num_lines 0 (initial_file_state arguments) guarded) _
          (process_lines-Grew env f ext cl cl.num_lines 0 (initial_file_state arguments) guarded)
          (λ p. report_all-Grew (end_reports env f ext plain cl p.0) p.1))
