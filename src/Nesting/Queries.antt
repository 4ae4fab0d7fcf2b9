-- ===== src/Nesting/Queries.antt =====
-- The questions that the checks ask a NestingState of tools/scripts/cpplint.py.
use jp4agent.Prelude.{
  ℕ, Bool, true, false, ◌&&◌, ◌||◌, not, Option, none, some, List, [], ◌∷◌, ◌==◌, ltb,
  if◌then◌else◌, Text,
}
use jp4agent.Regex.{Regex, cls, star, group, line_start, line_end, boundary, word}
use jp4agent.Regex.Notation.{lit, any, spaces, spaces1, plus, ◌▹◌}
use jp4agent.Regex.Find.{matches, searches}
use jp4agent.Lint.Report.{Report}
use jp4agent.Prelude.{codes, ◌-◌}
use jp4agent.Cleanse.Lines.{line_at}
use jp4agent.Nesting.Blocks.{
  Asm, no_asm, ClassInfo, Kind, class_block, is_class, is_namespace, is_extern_c, Block,
  NestingState,
}

unfoldable pub top_is : (Kind → Bool) → List Block → Bool
top_is test [] = false
top_is test (b ∷ _) = test b.kind

-- InNamespaceBody, InExternC, InClassDeclaration
unfoldable pub in_namespace_body : NestingState → Bool
in_namespace_body s = top_is is_namespace s.stack

unfoldable pub in_extern_c : NestingState → Bool
in_extern_c s = top_is is_extern_c s.stack

unfoldable in_class_declaration : NestingState → Bool
in_class_declaration s = top_is is_class s.stack

is_asm : Asm → Bool
is_asm no_asm = false
is_asm _ = true

-- InAsmBlock
asm_on_top : List Block → Bool
unfolding is_asm
asm_on_top [] = false
asm_on_top (b ∷ _) = is_asm b.inline_asm

unfoldable pub in_asm_block : NestingState → Bool
unfolding asm_on_top
in_asm_block s = asm_on_top s.stack

-- InnermostClass: the block, with what it holds as a class
unfoldable pub innermost_class : List Block → Option (Block × ClassInfo)
innermost_class [] = none
innermost_class (b ∷ below) =
    let later = innermost_class below in elim b.kind [ class_block c ↦ some (b, c) | _ ↦ later ]

-- ^\s*(\btemplate\b)*.*class\s+\w+;\s*$
abbrev forward_class_pattern : Regex
forward_class_pattern =
    line_start
    ▹ spaces
    ▹ star (group 1 (boundary ▹ lit "template" ▹ boundary))
    ▹ any
    ▹ lit "class"
    ▹ spaces1
    ▹ plus (cls word)
    ▹ lit ";"
    ▹ spaces
    ▹ line_end

-- IsForwardClassDeclaration
unfoldable pub is_forward_class_declaration : List Text → ℕ → Bool
is_forward_class_declaration lines linenum = matches forward_class_pattern (line_at lines linenum)

-- IsMacroDefinition, by ^#define and \\$
unfoldable pub is_macro_definition : List Text → ℕ → Bool
is_macro_definition lines linenum =
    if searches (line_start ▹ lit "#define") (line_at lines linenum)
    then true
    else ltb 0 linenum && searches (lit "\\" ▹ line_end) (line_at lines (linenum - 1))

-- IsBlockInNameSpace
is_block_in_namespace : List Block → Bool → Bool
is_block_in_namespace [] forward = false
is_block_in_namespace (b ∷ []) forward = forward && is_namespace b.kind
is_block_in_namespace (b ∷ c ∷ _) forward =
    if forward then is_namespace b.kind else b.check_namespace_indentation && is_namespace c.kind

-- ShouldCheckNamespaceIndentation
should_check_namespace_indentation : List Block → Bool → List Text → ℕ → Bool
unfolding is_block_in_namespace
should_check_namespace_indentation stack is_namespace_indent_item lines linenum =
    let forward = is_forward_class_declaration lines linenum in
    if not (is_namespace_indent_item || forward)
    then false
    else if is_macro_definition lines linenum
    then false
    else is_block_in_namespace stack forward

-- Is the block below the top the one that was on top before the line, and a namespace?
is_namespace_indent_item : List Block → Option Block → Bool
is_namespace_indent_item (b ∷ c ∷ _) (some previous) =
    b.check_namespace_indentation && (is_namespace previous.kind && previous.ident == c.ident)
is_namespace_indent_item _ _ = false

-- CheckForNamespaceIndentation with CheckItemIndentationInNamespace
unfoldable pub check_for_namespace_indentation : Text → NestingState → List Text → ℕ → List Report
unfolding is_namespace_indent_item should_check_namespace_indentation
check_for_namespace_indentation filename s elided line =
    if should_check_namespace_indentation s.stack
      (is_namespace_indent_item s.stack s.previous_stack_top) elided line
    then (if matches (line_start ▹ spaces1) (line_at elided line)
        then record {
          filename = filename;
          linenum = line;
          category = codes "runtime/indentation_namespace";
          confidence = 4;
          message = codes "Do not indent within a namespace";
        }
          ∷ []
        else [])
    else []
