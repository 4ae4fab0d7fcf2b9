-- ===== src/Nesting/Blocks.antt =====
-- `_BlockInfo` and the classes derived from it, as one record with a kind, and the fields of NestingState.
use jp4agent.Prelude.{
  ℕ, ◌+◌, Bool, true, false, Option, none, some, List, [], ◌∷◌, if◌then◌else◌, Text, codes, text_eq,
  count, drop, length,
}
use jp4agent.Prelude.Int.{ℤ, pos, sub_ℕ, ◌+ℤ◌, equals_ℕ}
use jp4agent.Regex.{Regex, cls, group, line_start, space, other}
use jp4agent.Regex.Notation.{lit, ◌▹◌}
use jp4agent.Regex.{star}
use jp4agent.Regex.Find.{match, group_or}
use jp4agent.Cleanse.Lines.{CleansedLines, line_at}

-- _NO_ASM, _INSIDE_ASM, _END_ASM, _BLOCK_ASM
pub data Asm : Type 0 where
  no_asm inside_asm end_asm block_asm : Asm

-- The fields that `_ClassInfo` adds. `parent_classes` holds the keys of the dictionary.
pub record ClassInfo : Type 0 where
  pub name : Text
  pub is_derived : Bool
  pub access : Text
  pub is_struct : Bool
  pub parent_classes : List Text
  pub class_indent : ℕ
  pub last_line : ℕ

pub data Kind : Type 0 where
  plain : Kind
  extern_c : Kind
  class_block : ClassInfo → Kind
  namespace_block : Text → Kind

-- `ident` stands for the identity of the object, by which the source compares blocks: a copy gets another.
pub record Block : Type 0 where
  pub ident : ℕ
  pub kind : Kind
  pub starting_linenum : ℕ
  pub seen_open_brace : Bool
  pub open_parentheses : ℤ
  pub inline_asm : Asm
  pub check_namespace_indentation : Bool

-- _PreprocessorInfo
pub record PreprocessorInfo : Type 0 where
  pub stack_before_if : List Block
  pub stack_before_else : List Block
  pub seen_else : Bool

-- NestingState. The top of a stack is its head; `fresh` is the next identity.
pub record NestingState : Type 0 where
  pub stack : List Block
  pub previous_stack_top : Option Block
  pub pp_stack : List PreprocessorInfo
  pub fresh : ℕ

-- __init__
abbrev pub initial_nesting_state : NestingState
initial_nesting_state = record { stack = []; previous_stack_top = none; pp_stack = []; fresh = 0 }

abbrev pub is_class : Kind → Bool
is_class (class_block _) = true
is_class _ = false

abbrev pub is_namespace : Kind → Bool
is_namespace (namespace_block _) = true
is_namespace _ = false

abbrev pub is_extern_c : Kind → Bool
is_extern_c extern_c = true
is_extern_c _ = false

-- _BlockInfo.__init__
unfoldable pub new_block : ℕ → Kind → ℕ → Bool → Block
new_block ident kind linenum seen_open_brace = record {
  ident = ident;
  kind = kind;
  starting_linenum = linenum;
  seen_open_brace = seen_open_brace;
  open_parentheses = pos 0;
  inline_asm = no_asm;
  check_namespace_indentation = false;
}

-- ^( *)\S
abbrev indent_pattern : Regex
indent_pattern = line_start ▹ group 1 (star (lit " ")) ▹ cls (other space)

-- GetIndentLevel
pub get_indent_level : Text → ℕ
get_indent_level line = elim (match indent_pattern line) [
  | none ↦ 0
  | some indent ↦ length (group_or 1 indent)
]

-- The line on which the depth of braces is 0 again, 0 if none: the loop of `_ClassInfo.__init__`.
find_last_line : ℕ → ℤ → List Text → ℕ
find_last_line i depth [] = 0
find_last_line i depth (line ∷ lines) =
    let deeper = depth +ℤ sub_ℕ (count line (codes "{")) (count line (codes "}")) in
    let later = find_last_line (i + 1) deeper lines in if equals_ℕ deeper 0 then i else later

-- _ClassInfo.__init__
unfoldable pub class_info : Text → Text → CleansedLines → ℕ → ClassInfo
unfolding get_indent_level find_last_line
class_info name class_or_struct clean_lines linenum = record {
  name = name;
  is_derived = false;
  access = if text_eq class_or_struct (codes "struct") then codes "public" else codes "private";
  is_struct = text_eq class_or_struct (codes "struct");
  parent_classes = [];
  class_indent = get_indent_level (line_at clean_lines.raw_lines linenum);
  last_line = find_last_line linenum (pos 0) (drop linenum clean_lines.elided);
}

unfoldable pub new_class : ℕ → Text → Text → CleansedLines → ℕ → Block
unfolding new_block
new_class ident name class_or_struct clean_lines linenum =
    record (new_block ident (class_block (class_info name class_or_struct clean_lines linenum))
      linenum false) { check_namespace_indentation = true }

-- _NamespaceInfo.__init__
unfoldable pub new_namespace : ℕ → Text → ℕ → Block
unfolding new_block
new_namespace ident name linenum = record (new_block ident (namespace_block name) linenum false) {
  check_namespace_indentation = true;
}

-- copy.deepcopy of a stack: the same blocks, with identities from `ident` on.
unfoldable pub copy_stack : ℕ → List Block → List Block
copy_stack ident [] = []
copy_stack ident (b ∷ stack) = record b { ident = ident } ∷ copy_stack (ident + 1) stack

-- SeenOpenBrace
unfoldable pub seen_open_brace : List Block → Bool
seen_open_brace [] = true
seen_open_brace (b ∷ _) = b.seen_open_brace
