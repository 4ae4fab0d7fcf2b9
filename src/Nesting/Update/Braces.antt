-- ===== src/Nesting/Update/Braces.antt =====
-- The braces, semicolons and closing parentheses on what is left of a line.
use jp4agent.Prelude.{
  ℕ, zero, suc, ◌+◌, true, not, none, some, List, [], ◌∷◌, ◌++◌, if◌then◌else◌, Text, codes,
  text_eq, length,
}
use jp4agent.Regex.{Regex, star, group, line_start, line_end}
use jp4agent.Regex.Notation.{lit, any_of, none_of, any, spaces, ◌▹◌}
use jp4agent.Regex.Find.{match, matches, group_or}
use jp4agent.Lint.Report.{Report}
use jp4agent.Cleanse.Lines.{CleansedLines}
use jp4agent.Nesting.Blocks.{no_asm, block_asm, plain, extern_c, Block, NestingState, new_block}
use jp4agent.Nesting.Ends.{check_end}
use jp4agent.Nesting.Update.Parens.{asm_pattern}

-- ^[^{;)}]*([{;)}])(.*)$
abbrev pub token_pattern : Regex
token_pattern =
    line_start ▹ star (none_of "{;)}") ▹ group 1 (any_of "{;)}") ▹ group 2 any ▹ line_end

-- ^extern\s*"[^"]*"\s*\{
abbrev extern_pattern : Regex
extern_pattern =
    line_start
    ▹ lit "extern"
    ▹ spaces
    ▹ lit "\""
    ▹ star (none_of "\"")
    ▹ lit "\""
    ▹ spaces
    ▹ lit "{"

-- The block that { begins on this line, when the innermost block has its brace.
unfoldable pub opened_block : ℕ → ℕ → Text → Block
unfolding new_block
opened_block ident linenum line =
    if matches extern_pattern line
    then new_block ident extern_c linenum true
    else record (new_block ident plain linenum true) {
      inline_asm = if matches asm_pattern line then block_asm else no_asm;
    }

unfoldable pub open_brace : ℕ → Text → NestingState → List Block → NestingState
open_brace linenum line s [] = record s {
  stack = opened_block s.fresh linenum line ∷ [];
  fresh = s.fresh + 1;
}
open_brace linenum line s (b ∷ below) =
    if not b.seen_open_brace
    then record s { stack = record b { seen_open_brace = true } ∷ below }
    else record s { stack = opened_block s.fresh linenum line ∷ b ∷ below; fresh = s.fresh + 1 }

drop_unopened : List Block → List Block
drop_unopened [] = []
drop_unopened (b ∷ below) = if not b.seen_open_brace then below else b ∷ below

unfoldable pub close_brace :
    Text → CleansedLines → ℕ → NestingState → List Block → NestingState × List Report
close_brace filename clean_lines linenum s [] = (s, [])
close_brace filename clean_lines linenum s (b ∷ below) =
    (record s { stack = below }, check_end b filename clean_lines linenum)

-- What one token does.
unfoldable pub token_step :
    Text → CleansedLines → ℕ → Text → Text → NestingState → NestingState × List Report
unfolding open_brace drop_unopened close_brace
token_step filename clean_lines linenum line token s =
    if text_eq token (codes "{")
    then (open_brace linenum line s s.stack, [])
    else if text_eq token (codes "}")
    then close_brace filename clean_lines linenum s s.stack
    else (record s { stack = drop_unopened s.stack }, [])

-- The loop. Every round drops its token at least from the line, so that its length is enough fuel.
unfoldable pub braces_from :
    ℕ → Text → CleansedLines → ℕ → Text → NestingState → NestingState × List Report
braces_from zero filename clean_lines linenum line s = (s, [])
braces_from (suc f) filename clean_lines linenum line s = elim (match token_pattern line) [
  | none ↦ (s, [])
  | some m ↦
      let (s', reports) = token_step filename clean_lines linenum line (group_or 1 m) s in
      let (s'', more) = braces_from f filename clean_lines linenum (group_or 2 m) s' in
      (s'', reports ++ more)
]

unfoldable pub consume_braces :
    Text → CleansedLines → ℕ → Text → NestingState → NestingState × List Report
unfolding braces_from token_step
consume_braces filename clean_lines linenum line s =
    braces_from (length line + 1) filename clean_lines linenum line s
