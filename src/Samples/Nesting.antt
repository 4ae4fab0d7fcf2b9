-- ===== src/Samples/Nesting.antt =====
-- Conditionals and brackets at concrete inputs.
use jp4agent.Prelude.{ℕ, ◌+◌, ◌≡◌, refl, some, [], ◌∷◌, List, Text, codes, length}
use jp4agent.Regex.Find.{matches}
use jp4agent.Cleanse.Lines.{CleansedLines, line_at}
use jp4agent.Expression.Forward.{close_expression, is_opening, is_closing, is_pair}
use jp4agent.Expression.Forward.Balanced.{
  Nested, empty, plain, bracket, is_plain, close_expression-balanced,
}
use jp4agent.Nesting.Blocks.{NestingState, initial_nesting_state}
use jp4agent.Nesting.Preprocessor.{update_preprocessor}
use jp4agent.Nesting.Preprocessor.Conditional.{
  IsIf, IsElse, IsEndif, IsOther, blocks, conditional-blocks,
}
use jp4agent.Nesting.Update.{update, top}
use jp4agent.Nesting.Update.Frame.{update-pp_stack}
use jp4agent.Nesting.Update.Regions.{
  Region, stop, other, conditional, endif, else_branch, Region-pp_stack,
}

abbrev swig_lines : List Text
swig_lines =
    codes "#ifdef SWIG"
    ∷ codes "struct Point {"
    ∷ codes "#else"
    ∷ codes "struct Point : public Extension {"
    ∷ codes "#endif"
    ∷ codes "};"
    ∷ []

abbrev swig : CleansedLines
swig = record {
  elided = swig_lines;
  lines = swig_lines;
  raw_lines = swig_lines;
  num_lines = 6;
  lines_without_raw_strings = swig_lines;
}

is_if : IsIf (line_at swig_lines 0)
unfolding matches
is_if = refl

is_else : IsElse (line_at swig_lines 2)
unfolding matches
is_else = (refl, refl)

is_endif : IsEndif (line_at swig_lines 4)
unfolding matches
is_endif = (refl, refl, refl)

first-IsOther : IsOther (line_at swig_lines 1)
unfolding matches
first-IsOther = (refl, refl, refl)

second-IsOther : IsOther (line_at swig_lines 3)
unfolding matches
second-IsOther = (refl, refl, refl)

abbrev after : ℕ → NestingState → NestingState
after n s = (update (codes "point.h") swig n s).0

abbrev swig_end : NestingState
swig_end = after 4 (after 3 (after 2 (after 1 (after 0 initial_nesting_state))))

swig-Region : Region initial_nesting_state swig_end
swig-Region =
    conditional (codes "point.h") swig 0 is_if
      (else_branch (codes "point.h") swig 2 (other (codes "point.h") swig 1 first-IsOther stop)
        is_else
        (endif (codes "point.h") swig 4 (other (codes "point.h") swig 3 second-IsOther stop)
          is_endif))
      stop

Region-pp_stack_example : swig_end.pp_stack ≡ initial_nesting_state.pp_stack
Region-pp_stack_example = Region-pp_stack swig-Region

update-pp_stack_example :
    (update (codes "point.h") swig 1 initial_nesting_state).0.pp_stack
    ≡ (update_preprocessor (line_at swig.elided 1) (record initial_nesting_state {
      previous_stack_top = top initial_nesting_state.stack;
    })).pp_stack
update-pp_stack_example = update-pp_stack (codes "point.h") swig 1 initial_nesting_state

abbrev at_if : NestingState
at_if = update_preprocessor (line_at swig_lines 0) initial_nesting_state

abbrev at_else : NestingState
at_else = update_preprocessor (line_at swig_lines 2) at_if

conditional-blocks_example :
    (blocks at_else.stack ≡ blocks initial_nesting_state.stack)
    × (blocks (update_preprocessor (line_at swig_lines 4) at_else).stack ≡ blocks at_if.stack)
    × ((update_preprocessor (line_at swig_lines 4) at_else).pp_stack
        ≡ initial_nesting_state.pp_stack)
conditional-blocks_example =
    conditional-blocks (line_at swig_lines 0) (line_at swig_lines 2) (line_at swig_lines 4)
      initial_nesting_state at_if at_else is_if is_else is_endif refl refl

abbrev call : CleansedLines
call = record {
  elided = codes "f(a[1]);" ∷ [];
  lines = codes "f(a[1]);" ∷ [];
  raw_lines = codes "f(a[1]);" ∷ [];
  num_lines = 1;
  lines_without_raw_strings = codes "f(a[1]);" ∷ [];
}

call-Nested : Nested (codes "a[1]")
unfolding is_plain is_opening is_closing is_pair
call-Nested = plain b'a' refl (bracket b'[' b']' refl (plain b'1' refl empty) empty)

close_expression-balanced_example : close_expression call 0 1 ≡ record {
  line = line_at call.elided 0;
  linenum = 0;
  pos = some (1 + length (codes "a[1]") + 2);
}
unfolding is_pair
close_expression-balanced_example =
    close_expression-balanced call 0 1 b'(' b')' (codes ";") refl refl call-Nested
