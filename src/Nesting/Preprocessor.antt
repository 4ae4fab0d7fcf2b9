-- ===== src/Nesting/Preprocessor.antt =====
-- NestingState.UpdatePreprocessor of tools/scripts/cpplint.py.
pub mod Conditional
use jp4agent.Prelude.{◌+◌, true, false, not, List, [], ◌∷◌, if◌then◌else◌, Text, length}
use jp4agent.Regex.{Regex, group, line_start, boundary}
use jp4agent.Regex.Notation.{lit, spaces, ◌▹◌, ◌∣∣◌}
use jp4agent.Regex.Find.{matches}
use jp4agent.Nesting.Blocks.{PreprocessorInfo, NestingState, copy_stack}

-- ^\s*#\s*(if|ifdef|ifndef)\b
abbrev pub if_pattern : Regex
if_pattern =
    line_start
    ▹ spaces
    ▹ lit "#"
    ▹ spaces
    ▹ group 1 (lit "if" ∣∣ lit "ifdef" ∣∣ lit "ifndef")
    ▹ boundary

-- ^\s*#\s*(else|elif)\b
abbrev pub else_pattern : Regex
else_pattern =
    line_start ▹ spaces ▹ lit "#" ▹ spaces ▹ group 1 (lit "else" ∣∣ lit "elif") ▹ boundary

-- ^\s*#\s*endif\b
abbrev pub endif_pattern : Regex
endif_pattern = line_start ▹ spaces ▹ lit "#" ▹ spaces ▹ lit "endif" ▹ boundary

-- #if: the stack is saved
pub begin_if : NestingState → NestingState
begin_if s = record s {
  pp_stack =
      (record {
        stack_before_if = copy_stack s.fresh s.stack;
        stack_before_else = [];
        seen_else = false;
      })
      ∷ s.pp_stack;
  fresh = s.fresh + length s.stack;
}

-- #else: the first one saves the stack; every one goes back to the stack before #if
pub begin_else : List PreprocessorInfo → NestingState → NestingState
begin_else [] s = s
begin_else (p ∷ rest) s =
    let first = record p { seen_else = true; stack_before_else = copy_stack s.fresh s.stack } in
    let used = if not p.seen_else then s.fresh + length s.stack else s.fresh in
    record s {
      pp_stack = (if not p.seen_else then first else p) ∷ rest;
      stack = copy_stack used p.stack_before_if;
      fresh = used + length p.stack_before_if;
    }

-- #endif: after an #else, the stack before that is the stack again
pub end_if : List PreprocessorInfo → NestingState → NestingState
end_if [] s = s
end_if (p ∷ rest) s = record s {
  pp_stack = rest;
  stack = if p.seen_else then p.stack_before_else else s.stack;
}

-- UpdatePreprocessor
pub update_preprocessor : Text → NestingState → NestingState
unfolding begin_if begin_else end_if copy_stack
update_preprocessor line s =
    if matches if_pattern line
    then begin_if s
    else if matches else_pattern line
    then begin_else s.pp_stack s
    else if matches endif_pattern line
    then end_if s.pp_stack s
    else s
