-- ===== src/Function/Arguments.antt =====
-- `_FunctionArguments` of tools/scripts/cpplint.py: the lines of the last argument list of a function.
pub mod Raised
use jp4agent.Prelude.{
  ℕ, Bool, ◌&&◌, ◌||◌, not, Option, none, some, leb, if◌then◌else◌, Text, codes, text_eq, find,
}
use jp4agent.Regex.{line_end}
use jp4agent.Regex.Notation.{lit, plus, spaces, ◌▹◌}
use jp4agent.Regex.Find.{match, matches, group_or}
use jp4agent.Cleanse.Lines.{CleansedLines, line_at}
use jp4agent.Expression.Forward.{Place, close_expression_at}
use jp4agent.Naming.Names.{declarator_pattern, macro_class, last_word}

pub record FunctionArguments : Type 0 where
  pub start_linenum : ℕ
  pub end_linenum : ℕ
  pub start_pos : ℕ
  pub end_pos : ℕ
  pub function_name : Option Text

-- __init__
abbrev pub initial_function_arguments : FunctionArguments
initial_function_arguments = record {
  start_linenum = 0;
  end_linenum = 0;
  start_pos = 0;
  end_pos = 0;
  function_name = none;
}

-- in_a_functin_arg
pub in_a_function_arg : FunctionArguments → ℕ → Bool
in_a_function_arg s linenum = leb s.start_linenum linenum && leb linenum s.end_linenum

-- A name that is no macro, or TEST or TEST_F.
pub is_function_name : Text → Bool
is_function_name name =
    text_eq name (codes "TEST")
    || text_eq name (codes "TEST_F")
    || not (matches (plus macro_class ▹ line_end) name)

-- What is kept of the place where the argument list ends.
pub span : Text → ℕ → ℕ → Place → FunctionArguments → FunctionArguments
span name linenum startpos p s = elim p.pos [
  | none ↦ s
  | some endpos ↦ record {
    start_linenum = linenum;
    end_linenum = p.linenum;
    start_pos = startpos;
    end_pos = endpos;
    function_name = some name;
  }
]

-- Update, with none for the IndexError of CloseExpression: the position is one on the line without comments,
-- and CloseExpression reads the line without strings, which may be shorter.
pub update_arguments : CleansedLines → ℕ → FunctionArguments → Option FunctionArguments
unfolding is_function_name span in_a_function_arg last_word
update_arguments clean_lines linenum s =
    let line = line_at clean_lines.lines linenum in
    elim (match (spaces ▹ declarator_pattern ▹ lit "(") line) [
      | none ↦ some s
      | some m ↦
          let name = last_word (group_or 1 m) in
          if in_a_function_arg s linenum || not (is_function_name name)
          then some s
          else elim (find line (codes "(")) [
            | none ↦ some s
            | some startpos ↦ elim (close_expression_at clean_lines linenum startpos) [
              | none ↦ none
              | some p ↦ some (span name linenum startpos p s)
            ]
          ]
    ]
