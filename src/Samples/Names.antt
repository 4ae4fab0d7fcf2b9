-- ===== src/Samples/Names.antt =====
-- The checks on names, functions and blank lines at concrete inputs.
use jp4agent.Prelude.{
  ◌≢◌, ◌≤◌, some, none, is_some, ◌*◌, ◌^◌, ◌<◌, ◌≡◌, ◌≢◌, refl, ◌↔◌, true, false, List, [], ◌∷◌,
  ◌&&◌, ◌||◌, arith, Text, codes,
}
use jp4agent.Lint.Report.{Report}
use jp4agent.Regex.Notation.{lit, spaces, ◌▹◌}
use jp4agent.Nesting.Blocks.{NestingState, class_block, new_block}
use jp4agent.Nesting.Queries.{innermost_class}
use jp4agent.Naming.Names.{declarator_pattern}
use jp4agent.Regex.Find.{Found, match, matches}
use jp4agent.Cleanse.Lines.{CleansedLines}
use jp4agent.Function.{begin, initial_function_state}
use jp4agent.Expression.Forward.{close_expression}
use jp4agent.Expression.Forward.Bounds.{IsOnLine, close_expression-IsOnLine}
use jp4agent.Checks.Files.{previous_non_blank_line}
use jp4agent.Checks.Files.Nearest.{IsNearest, previous_non_blank_line-IsNearest}
use jp4agent.Checks.Lengths.{starts_function, function_end_pattern}
use jp4agent.Checks.Lengths.Counted.{
  check_lines, count_code, limit, InBody, IsSizeReport, reported_iff,
}
use jp4agent.Naming.Types.{enum_pattern}

abbrev method_text : Text
method_text = codes "  void add_table(int x);"

abbrev class_lines : CleansedLines
class_lines = record {
  elided = codes "class Tables {" ∷ method_text ∷ codes "};" ∷ [];
  lines = codes "class Tables {" ∷ method_text ∷ codes "};" ∷ [];
  raw_lines = codes "class Tables {" ∷ method_text ∷ codes "};" ∷ [];
  num_lines = 3;
  lines_without_raw_strings = codes "class Tables {" ∷ method_text ∷ codes "};" ∷ [];
}

abbrev in_tables : NestingState
in_tables = record {
  stack =
      new_block 0
        (class_block (record {
          name = codes "Tables";
          is_derived = false;
          access = codes "private";
          is_struct = false;
          parent_classes = [];
          class_indent = 0;
          last_line = 2;
        }))
        0 true
      ∷ [];
  previous_stack_top = none;
  pp_stack = [];
  fresh = 1;
}

abbrev method_match :
    (m : Found) × (match (spaces ▹ declarator_pattern ▹ lit "(") method_text ≡ some m)
unfolding match
method_match = (_, refl)

in_class : is_some (innermost_class in_tables.stack) ≡ true
unfolding innermost_class new_block
in_class = refl

abbrev enum_text : Text
enum_text = codes "enum OpCode {"

abbrev enum_lines : CleansedLines
enum_lines = record {
  elided = enum_text ∷ codes "};" ∷ [];
  lines = enum_text ∷ codes "};" ∷ [];
  raw_lines = enum_text ∷ codes "};" ∷ [];
  num_lines = 2;
  lines_without_raw_strings = enum_text ∷ codes "};" ∷ [];
}

abbrev enum_match : (m : Found) × (match enum_pattern enum_text ≡ some m)
unfolding match
enum_match = (_, refl)

abbrev small_function : List Text
small_function = codes "int f() {" ∷ codes "  x++;" ∷ codes "" ∷ codes "}" ∷ codes "" ∷ []

abbrev small : CleansedLines
small = record {
  elided = small_function;
  lines = small_function;
  raw_lines = small_function;
  num_lines = 5;
  lines_without_raw_strings = small_function;
}

first-InBody : InBody (codes "  x++;")
unfolding starts_function matches
first-InBody = (refl, refl)

second-InBody : InBody []
unfolding starts_function matches
second-InBody = (refl, refl)

close_starts_none : starts_function (codes "}") ≡ false
unfolding starts_function match
close_starts_none = refl

close_ends : matches function_end_pattern (codes "}") ≡ true
unfolding matches
close_ends = refl

abbrev small_reports : List Report
small_reports =
    (check_lines (codes "a.cc") small 0 3 1 (begin (codes "f()") initial_function_state)).1

reported_iff_example :
    (((r : Report) × (small_reports ≡ r ∷ []) × IsSizeReport (codes "a.cc") 3 r)
      ↔ (limit (codes "f()") * 2 ^ 0 < count_code (codes "  x++;" ∷ codes "" ∷ [])))
    × ((small_reports ≡ [])
        ↔ (count_code (codes "  x++;" ∷ codes "" ∷ []) ≤ limit (codes "f()") * 2 ^ 0))
reported_iff_example =
    reported_iff (codes "a.cc") small 0 1 (codes "f()") (codes "  x++;" ∷ codes "" ∷ [])
      (codes "" ∷ []) (codes "}") refl (first-InBody, (second-InBody, tt)) close_starts_none
      close_ends initial_function_state

previous_non_blank_line-IsNearest_example :
    IsNearest small_function 3 (previous_non_blank_line small_function 3)
previous_non_blank_line-IsNearest_example = previous_non_blank_line-IsNearest small_function 3

close_expression-IsOnLine_example : IsOnLine small (close_expression small 0 8)
close_expression-IsOnLine_example = close_expression-IsOnLine small 0 8 (omega arith) (omega arith)
