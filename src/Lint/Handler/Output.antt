-- ===== src/Lint/Handler/Output.antt =====
-- What the error handler writes and counts for a list of reports.
use jp4agent.Prelude.{
  ℕ, ◌+◌, ◌≡◌, refl, List, [], ◌∷◌, arith, if◌then◌else◌, Text, length, ◌∙◌, Bool-cases, inl, inr,
}
use jp4agent.Lint.Report.{Report}
use jp4agent.Lint.State.{increment_error_count}
use jp4agent.Lint.State.Counts.{IsCounted, increment-IsCounted}
use jp4agent.Lint.Handler.{World, should_print_error, format_report, error, report_all}

-- The reports that pass the verdict in this world.
pub printed : World → List Report → List Report
printed w [] = []
printed w (r ∷ rs) =
    let rest = printed w rs in
    if should_print_error w r.category r.confidence r.linenum then r ∷ rest else rest

-- Their lines, the last first, before what was there.
pub write_lines : Text → List Report → List Text → List Text
write_lines format [] out = out
write_lines format (r ∷ rs) out = write_lines format rs (format_report format r ∷ out)

should_print-error :
    (r : Report) (w : World) (c : Text) (k n : ℕ)
    → should_print_error (error r w) c k n ≡ should_print_error w c k n
unfolding error increment_error_count should_print_error
should_print-error r w c k n = ground arith

printed-error : (r : Report) (w : World) (rs : List Report) → printed (error r w) rs ≡ printed w rs
unfolding printed
printed-error r w [] = refl
printed-error r w (x ∷ rs) =
    ground (arith, printed-error r w rs, should_print-error r w x.category x.confidence x.linenum)

-- What printing has done to a world.
pub record HasPrinted (w : World) (rs : List Report) (w' : World) : Type 0 where
  pub counted : w'.state.error_count ≡ w.state.error_count + length (printed w rs)
  pub written : w'.stderr ≡ write_lines w.state.output_format (printed w rs) w.stderr
  pub suppressions : w'.suppressions ≡ w.suppressions
  pub filters : w'.state.filters ≡ w.state.filters
  pub verbosity : w'.state.verbose_level ≡ w.state.verbose_level

error-settings :
    (r : Report) (w : World)
    → ((error r w).suppressions ≡ w.suppressions)
      × ((error r w).state.filters ≡ w.state.filters)
      × ((error r w).state.verbose_level ≡ w.state.verbose_level)
      × ((error r w).state.output_format ≡ w.state.output_format)
unfolding error increment_error_count
error-settings r w = ground arith

count_one :
    (r : Report) (w : World) (rs : List Report)
    → (error r w).state.error_count + length (printed (error r w) rs)
      ≡ w.state.error_count + length (printed w (r ∷ rs))
unfolding printed error increment_error_count
count_one r w rs = ground (arith, printed-error r w rs)

write_one :
    (r : Report) (w : World) (rs : List Report)
    → write_lines (error r w).state.output_format (printed (error r w) rs) (error r w).stderr
      ≡ write_lines w.state.output_format (printed w (r ∷ rs)) w.stderr
unfolding printed error write_lines increment_error_count
write_one r w rs = rw (printed-error r w rs) (ground arith)

-- Reporting a list of errors counts one error and writes one line for each that passes the verdict, in
-- their order, and changes no NOLINT comment, no filter and no verbosity.
pub report_all-HasPrinted : (rs : List Report) (w : World) → HasPrinted w rs (report_all rs w)
unfolding report_all printed write_lines
report_all-HasPrinted [] w = record {
  counted = omega arith;
  written = refl;
  suppressions = refl;
  filters = refl;
  verbosity = refl;
}
report_all-HasPrinted (r ∷ rs) w =
    let later = report_all-HasPrinted rs (error r w) in
    let same = printed-error r w rs in
    let (suppressions, filters, verbosity, format) = error-settings r w in
    record {
      counted = later.counted ∙ count_one r w rs;
      written = later.written ∙ write_one r w rs;
      suppressions = later.suppressions ∙ suppressions;
      filters = later.filters ∙ filters;
      verbosity = later.verbosity ∙ verbosity;
    }

error-IsCounted : (r : Report) (w : World) → IsCounted w.state → IsCounted (error r w).state
unfolding error
error-IsCounted r w h = elim (Bool-cases (should_print_error w r.category r.confidence r.linenum)) [
  | inl e ↦ rw (e, error) (increment-IsCounted r.category w.state h)
  | inr e ↦ rw (e, error) h
]

-- Both counts of errors agree after any reports, where they agreed before.
pub report_all-IsCounted :
    (rs : List Report) (w : World) → IsCounted w.state → IsCounted (report_all rs w).state
unfolding report_all
report_all-IsCounted [] w h = h
report_all-IsCounted (r ∷ rs) w h = report_all-IsCounted rs (error r w) (error-IsCounted r w h)
