-- ===== src/Lint/Handler.antt =====
-- `_ShouldPrintError` and `Error` of tools/scripts/cpplint.py, and what a run of the program has written.
pub mod Verdict
pub mod Output
use jp4agent.Prelude.{
  ℕ, Bool, true, false, ◌&&◌, not, List, [], ◌∷◌, ◌++◌, ltb, if◌then◌else◌, Text, codes, text_eq,
  starts_with, drop, decimal,
}
use jp4agent.Lint.Report.{Report}
use jp4agent.Lint.Suppress.{Suppressions, is_error_suppressed_by_nolint}
use jp4agent.Lint.State.{LintState, increment_error_count}

-- The globals of the module that the error handler reads and writes. `stderr` has the newest line first.
pub record World : Type 0 where
  pub state : LintState
  pub suppressions : Suppressions
  pub stderr : List Text

-- The loop over the filters. A filter with neither sign fails `assert False` in the source, and is passed
-- over here: SetFilters and AddFilters raise a ValueError for one, which ends the program, so that none is in
-- the list when an error is reported (State.Filters).
pub filter_from : Bool → List Text → Text → Bool
filter_from is_filtered [] category = is_filtered
filter_from is_filtered (one_filter ∷ rest) category =
    filter_from
      (if starts_with one_filter (codes "-")
        then (if starts_with category (drop 1 one_filter) then true else is_filtered)
        else if starts_with one_filter (codes "+")
        then (if starts_with category (drop 1 one_filter) then false else is_filtered)
        else is_filtered)
      rest category

-- _ShouldPrintError
pub should_print_error : World → Text → ℕ → ℕ → Bool
should_print_error w category confidence linenum =
    if is_error_suppressed_by_nolint w.suppressions category linenum
    then false
    else if ltb confidence w.state.verbose_level
    then false
    else not (filter_from false w.state.filters category)

-- The line that is written, by the output format.
unfoldable pub format_report : Text → Report → Text
format_report output_format r =
    if text_eq output_format (codes "vs7")
    then r.filename
      ++ (codes "("
          ++ (decimal r.linenum
              ++ (codes "): error cpplint: ["
                  ++ (r.category
                      ++ (codes "] "
                          ++ (r.message
                              ++ (codes " [" ++ (decimal r.confidence ++ codes "]\n"))))))))
    else if text_eq output_format (codes "eclipse")
    then r.filename
      ++ (codes ":"
          ++ (decimal r.linenum
              ++ (codes ": warning: "
                  ++ (r.message
                      ++ (codes "  ["
                          ++ (r.category
                              ++ (codes "] [" ++ (decimal r.confidence ++ codes "]\n"))))))))
    else r.filename
      ++ (codes ":"
          ++ (decimal r.linenum
              ++ (codes ":  "
                  ++ (r.message
                      ++ (codes "  ["
                          ++ (r.category
                              ++ (codes "] [" ++ (decimal r.confidence ++ codes "]\n"))))))))

-- Error
unfoldable pub error : Report → World → World
error r w =
    if should_print_error w r.category r.confidence r.linenum
    then record w {
      state = increment_error_count r.category w.state;
      stderr = format_report w.state.output_format r ∷ w.stderr;
    }
    else w

-- The reports of a check, in the order in which it makes them.
unfoldable pub report_all : List Report → World → World
report_all [] w = w
report_all (r ∷ rs) w = report_all rs (error r w)
