-- ===== src/Process/Line.antt =====
-- ProcessLine of tools/scripts/cpplint.py, without check functions from outside.
use jp4agent.Prelude.{ℕ, Option, none, some, List, [], ◌∷◌, ◌++◌, if◌then◌else◌, Text}
use jp4agent.Lint.Report.{Report}
use jp4agent.Lint.Handler.{World}
use jp4agent.Lint.Effects.{Effect, nolint, raise, say_all, Outcome, done, ◌>>=◌, run_effects}
use jp4agent.Cleanse.Lines.{CleansedLines, line_at}
use jp4agent.Include.{IncludeState, initial_include_state}
use jp4agent.Function.{FunctionState, initial_function_state}
use jp4agent.Function.Arguments.{FunctionArguments, update_arguments}
use jp4agent.Nesting.Blocks.{NestingState, initial_nesting_state}
use jp4agent.Nesting.Update.{update}
use jp4agent.Nesting.Queries.{in_asm_block, check_for_namespace_indentation}
use jp4agent.Checks.Lengths.{check_for_function_lengths}
use jp4agent.Checks.Lines.{
  check_for_multiline_comments_and_strings, check_posix_threading, check_vlog_arguments,
  check_invalid_increment, check_make_pair_uses_deduction,
}
use jp4agent.Language.General.{check_language}
use jp4agent.Language.References.{check_for_non_const_reference}
use jp4agent.Language.Constructs.{check_for_non_standard_constructs}
use jp4agent.Language.Overrides.{check_redundant_virtual, check_redundant_override_or_final}
use jp4agent.Naming.Types.{
  check_identifier_type_name, check_enum_identifier_type_name, check_typedef,
}
use jp4agent.Naming.Functions.{check_member_function_name}
use jp4agent.Naming.Variables.{check_data_members, check_variable_name}
use jp4agent.Process.Style.{Environment, check_style}

-- What is followed from line to line. `arguments` is the global function_arg_state, which no file resets.
pub record FileState : Type 0 where
  pub includes : IncludeState
  pub function : FunctionState
  pub nesting : NestingState
  pub arguments : FunctionArguments

unfoldable pub initial_file_state : FunctionArguments → FileState
initial_file_state arguments = record {
  includes = initial_include_state;
  function = initial_function_state;
  nesting = initial_nesting_state;
  arguments = arguments;
}

-- The checks of the project.
juniper_reports : Text → CleansedLines → ℕ → FileState → List Report
juniper_reports filename clean_lines line s =
    check_identifier_type_name filename line s.nesting
    ++ (check_enum_identifier_type_name filename clean_lines line
        ++ (check_member_function_name filename clean_lines line s.nesting
            ++ (check_data_members filename clean_lines line s.nesting s.function s.arguments
                ++ (check_variable_name filename clean_lines line s.nesting
                    ++ check_typedef filename clean_lines line))))

-- The checks behind CheckLanguage, up to those of the project.
unfoldable pub other_effects : Text → CleansedLines → ℕ → FileState → List Effect
other_effects filename clean_lines line s =
    say_all (check_for_non_const_reference filename clean_lines line s.nesting)
    ++ (check_for_non_standard_constructs filename clean_lines line s.nesting
        ++ say_all (
            check_vlog_arguments filename clean_lines line
            ++ (check_posix_threading filename clean_lines line
                ++ (check_invalid_increment filename clean_lines line
                    ++ (check_make_pair_uses_deduction filename clean_lines line
                        ++ (check_redundant_virtual filename clean_lines line
                            ++ check_redundant_override_or_final filename clean_lines line))))))

-- The checks of a line outside assembly blocks, for a verbosity.
unfoldable pub check_line :
    Environment → Text → Text → CleansedLines → ℕ → ℕ → FileState → FileState × List Effect
unfolding juniper_reports other_effects
check_line env filename file_extension clean_lines verbose_level line s =
    let (function, lengths) =
      check_for_function_lengths filename clean_lines line verbose_level s.function in
    let (includes, language) =
      check_language env.file_system env.hpp_headers filename clean_lines line file_extension
        s.includes in
    let s' = record s { function = function; includes = includes } in
    (
      s',
      say_all (lengths ++ check_for_multiline_comments_and_strings filename clean_lines line)
          ++ (check_style env filename clean_lines line file_extension s.nesting
              ++ (language
                  ++ (other_effects filename clean_lines line s'
                      ++ say_all (juniper_reports filename clean_lines line s')))),
    )

-- The updates of the state before the checks, with what they report, or none where that of the argument
-- lines fails.
unfoldable pub follow_line : Text → CleansedLines → ℕ → FileState → Option FileState × List Report
follow_line filename clean_lines line s =
    let (nesting, reports) = update filename clean_lines line s.nesting in
    elim (update_arguments clean_lines line s.arguments) [
      | none ↦ (none, reports)
      | some arguments ↦ (
        some (record s { nesting = nesting; arguments = arguments }),
        reports ++ check_for_namespace_indentation filename nesting clean_lines.elided line,
      )
    ]

-- What is done to the state and the globals behind the updates: nothing in a block of assembly.
unfoldable pub checked_line :
    Environment
    → Text
    → Text
    → CleansedLines
    → ℕ
    → ℕ
    → List Effect
    → FileState
    → FileState × List Effect
unfolding check_line
checked_line env filename file_extension clean_lines verbose_level line before s =
    let (checked, effects) =
      check_line env filename file_extension clean_lines verbose_level line s in
    if in_asm_block s.nesting then (s, before) else (checked, before ++ effects)

-- All that ProcessLine does to a state, and what it does to the globals.
unfoldable pub line_effects :
    Environment → Text → Text → CleansedLines → ℕ → ℕ → FileState → FileState × List Effect
unfolding follow_line checked_line
line_effects env filename file_extension clean_lines verbose_level line s =
    let (followed, reports) = follow_line filename clean_lines line s in
    let before = nolint (line_at clean_lines.raw_lines line) line ∷ say_all reports in
    elim followed [
      | none ↦ (s, before ++ raise ∷ [])
      | some s' ↦ checked_line env filename file_extension clean_lines verbose_level line before s'
    ]

-- ProcessLine
unfoldable pub process_line :
    Environment → Text → Text → CleansedLines → ℕ → FileState → World → Outcome (FileState × World)
unfolding line_effects
process_line env filename file_extension clean_lines line s w =
    let (s', effects) =
      line_effects env filename file_extension clean_lines w.state.verbose_level line s in
    run_effects filename effects w >>= λ w'. done (s', w')
