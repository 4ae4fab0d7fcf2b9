-- ===== src/Samples/Loops.antt =====
-- The loops over a line at concrete inputs, a file without bad characters, and a call between two comments
-- with an apostrophe.
use jp4agent.Style.Macros.{split_comparison}
use jp4agent.Style.Macros.Fuel.{Runs as Splits, split_comparison-Runs}
use jp4agent.Prelude.{◌≡◌, ◌↔◌, All, none, ◌∷◌, [], arith, Text, codes}
use jp4agent.Checks.Files.{check_for_bad_characters}
use jp4agent.Checks.Files.Clean.{IsClean, check_for_bad_characters_iff}
use jp4agent.Function.Arguments.{FunctionArguments, update_arguments}
use jp4agent.Function.Arguments.Raised.{BeginsList, IsBehind, update_arguments_raised_iff}
use jp4agent.Cleanse.RawStrings.{cut_raw_strings}
use jp4agent.Cleanse.RawStrings.Fuel.{Runs, cut_raw_strings-Runs}
use jp4agent.Cleanse.Lines.{CleansedLines}

abbrev body_line : Text
body_line = codes "f() { g(); }"

abbrev body : CleansedLines
body = record {
  elided = body_line ∷ [];
  lines = body_line ∷ [];
  raw_lines = body_line ∷ [];
  num_lines = 1;
  lines_without_raw_strings = body_line ∷ [];
}

abbrev raw_line : Text
raw_line = codes "a = R\"x(b)x\";"

cut_raw_strings-Runs_example : Runs raw_line (cut_raw_strings 14 raw_line)
cut_raw_strings-Runs_example = cut_raw_strings-Runs 14 raw_line (omega arith)

check_for_bad_characters_iff_example :
    (check_for_bad_characters (codes "a.cc") (raw_line ∷ body_line ∷ []) ≡ [])
    ↔ All IsClean (raw_line ∷ body_line ∷ [])
check_for_bad_characters_iff_example =
    check_for_bad_characters_iff (codes "a.cc") (raw_line ∷ body_line ∷ [])

abbrev quoted_call : CleansedLines
quoted_call = record {
  elided = [] ∷ [];
  lines = codes "foo(x);" ∷ [];
  raw_lines = codes "/* don't */ foo(x);  /* it's */" ∷ [];
  num_lines = 1;
  lines_without_raw_strings = codes "/* don't */ foo(x);  /* it's */" ∷ [];
}

abbrev before_call : FunctionArguments
before_call = record {
  start_linenum = 5;
  end_linenum = 5;
  start_pos = 0;
  end_pos = 0;
  function_name = none;
}

update_arguments_raised_iff_example :
    (update_arguments quoted_call 0 before_call ≡ none)
    ↔ (BeginsList quoted_call 0 before_call × IsBehind quoted_call 0)
update_arguments_raised_iff_example = update_arguments_raised_iff quoted_call 0 before_call

split_comparison-Runs_example :
    Splits [] (codes "f(a) == 3") (split_comparison 10 [] (codes "f(a) == 3"))
split_comparison-Runs_example = split_comparison-Runs 10 [] (codes "f(a) == 3") (omega arith)
