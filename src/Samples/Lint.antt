-- ===== src/Samples/Lint.antt =====
-- The error handler, the NOLINT comments, the filters and the function sizes at concrete inputs.
use jp4agent.Prelude.{◌≤◌, ◌≡◌, refl, ◌↔◌, true, false, none, [], ◌∷◌, arith, Text, codes, All}
use jp4agent.Lint.Report.{Report}
use jp4agent.Lint.Suppress.{is_error_suppressed_by_nolint}
use jp4agent.Lint.State.{initial_state}
use jp4agent.Lint.State.Counts.{IsCounted, total}
use jp4agent.Lint.Handler.{World, should_print_error, report_all}
use jp4agent.Lint.Handler.Verdict.{DroppedLast, should_print_iff}
use jp4agent.Lint.Handler.Output.{HasPrinted, report_all-HasPrinted, report_all-IsCounted}
use jp4agent.Function.{FunctionState, check}
use jp4agent.Function.Size.{check-confidence}

abbrev nolint_text : Text
nolint_text = codes "int x;  // NOLINT(whitespace/tab)"

-- NOLINT on line 3 only; tabs are dropped by a filter, and errors below 2 are not wanted.
abbrev sample_world : World
sample_world = record {
  state = record initial_state {
    verbose_level = 2;
    filters = codes "-whitespace" ∷ codes "+whitespace/todo" ∷ [];
    counting = codes "detailed";
  };
  suppressions = record { lines = (none, 3) ∷ []; everywhere = [] };
  stderr = [];
}

abbrev tab_report : Report
tab_report = record {
  filename = codes "a.cc";
  linenum = 5;
  category = codes "whitespace/tab";
  confidence = 3;
  message = codes "Tab found; better to use spaces";
}

abbrev todo_report : Report
todo_report = record {
  filename = codes "a.cc";
  linenum = 6;
  category = codes "whitespace/todo";
  confidence = 2;
  message = codes "Too many spaces before TODO";
}

should_print_iff_example :
    (should_print_error sample_world (codes "whitespace/todo") 2 6 ≡ true) ↔ (
      (is_error_suppressed_by_nolint sample_world.suppressions (codes "whitespace/todo") 6 ≡ false)
      × (sample_world.state.verbose_level ≤ 2)
      × ¬ DroppedLast (codes "whitespace/todo") sample_world.state.filters)
should_print_iff_example = should_print_iff sample_world (codes "whitespace/todo") 2 6

report_all-HasPrinted_example :
    HasPrinted sample_world
      (tab_report ∷ todo_report ∷ [])
      (report_all (tab_report ∷ todo_report ∷ []) sample_world)
report_all-HasPrinted_example = report_all-HasPrinted (tab_report ∷ todo_report ∷ []) sample_world

sample_world-IsCounted : IsCounted sample_world.state
unfolding total
sample_world-IsCounted = record { sums = λ h. refl }

report_all-IsCounted_example :
    IsCounted (report_all (tab_report ∷ todo_report ∷ []) sample_world).state
report_all-IsCounted_example =
    report_all-IsCounted (tab_report ∷ todo_report ∷ []) sample_world sample_world-IsCounted

abbrev long_test : FunctionState
long_test = record {
  in_a_function = true;
  lines_in_function = 1700;
  current_function = codes "TestQueue";
}

check-confidence_example :
    All (λ r. (2 ≤ r.confidence) × (r.confidence ≤ 5)) (check long_test 2 (codes "a.cc") 90)
check-confidence_example = check-confidence long_test 2 (codes "a.cc") 90 (omega arith)
