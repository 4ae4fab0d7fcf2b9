-- ===== src/Naming/Variables.antt =====
-- JuniperCheckDataMembers and JuniperCheckVariableName of tools/scripts/cpplint.py.
use jp4agent.Prelude.{
  ℕ, Bool, false, ◌&&◌, ◌||◌, not, none, some, List, [], ◌∷◌, ◌++◌, ◌==◌, if◌then◌else◌, is_some,
  Text, codes, mem_text, text_eq, length,
}
use jp4agent.Prelude.Int.{equals_ℕ}
use jp4agent.Regex.{Regex, cls, group, line_start, range, word}
use jp4agent.Regex.Notation.{lit, any_of, opt, plus, spaces, spaces1, ◌▹◌, ◌∣∣◌}
use jp4agent.Regex.Find.{Found, match, matches, group_or}
use jp4agent.Lint.Report.{Report}
use jp4agent.Cleanse.Lines.{CleansedLines, line_at}
use jp4agent.Function.{FunctionState}
use jp4agent.Function.Arguments.{FunctionArguments, in_a_function_arg}
use jp4agent.Nesting.Blocks.{Block, class_block, is_class, NestingState}
use jp4agent.Nesting.Queries.{innermost_class}
use jp4agent.Naming.Names.{declarator_pattern, identifier_report, underscore_reports}
use jp4agent.Naming.Functions.{overload_end}

-- \s*(?:const|volatile)?\s*(\w+)(?:\s*\*\s*|\s+)(\w+)\s*[,;=\[]
abbrev declaration_end : Regex
declaration_end =
    spaces
    ▹ opt (lit "const" ∣∣ lit "volatile")
    ▹ spaces
    ▹ group 1 (plus (cls word))
    ▹ (spaces ▹ lit "*" ▹ spaces ∣∣ spaces1)
    ▹ group 2 (plus (cls word))
    ▹ spaces
    ▹ any_of ",;=["

-- ^\s*(?:static|register)?...
abbrev member_pattern : Regex
member_pattern = line_start ▹ spaces ▹ opt (lit "static" ∣∣ lit "register") ▹ declaration_end

-- ^\s*(?:extern|static|register)?...
abbrev variable_pattern : Regex
variable_pattern =
    line_start ▹ spaces ▹ opt (lit "extern" ∣∣ lit "static" ∣∣ lit "register") ▹ declaration_end

-- The words that begin no declaration of a variable, and more of them for a data member.
abbrev not_types : List Text
not_types =
    codes "class"
    ∷ codes "typename"
    ∷ codes "return"
    ∷ codes "using"
    ∷ codes "struct"
    ∷ codes "override"
    ∷ codes "namespace"
    ∷ []

abbrev not_member_types : List Text
not_member_types = codes "friend" ∷ codes "public" ∷ codes "private" ∷ codes "protected" ∷ not_types

-- Does an argument of an operator() stand on the line, or the head of the class?
in_class_head : FunctionArguments → List Block → Bool
in_class_head arguments [] = false
in_class_head arguments (b ∷ _) =
    is_class b.kind
    && ((elim arguments.function_name [ some name ↦ text_eq name (codes "operator") | none ↦ false ]
          && equals_ℕ b.open_parentheses 1)
        || not b.seen_open_brace)

unfoldable pub member_name_reports : Text → ℕ → Text → List Report
unfolding identifier_report underscore_reports
member_name_reports filename linenum name =
    (if not (matches (lit "_" ▹ cls (range b'a' b'z')) name)
      then identifier_report filename linenum 3 (codes "Data member '") name
          (codes "' must begin with a _ followed by lower case letter.")
        ∷ []
      else [])
    ++ underscore_reports filename linenum 3 name

member_reports : Text → ℕ → Text → Found → List Report
unfolding member_name_reports
member_reports filename linenum line m =
    if mem_text (group_or 1 m) not_member_types
      || matches (spaces ▹ declarator_pattern ▹ overload_end) line
    then []
    else member_name_reports filename linenum (group_or 2 m)

-- JuniperCheckDataMembers
unfoldable pub check_data_members :
    Text → CleansedLines → ℕ → NestingState → FunctionState → FunctionArguments → List Report
unfolding in_class_head member_reports
check_data_members filename clean_lines linenum s function arguments =
    if function.in_a_function
      || not (is_some (innermost_class s.stack))
      || not (length s.stack == 1)
      || in_a_function_arg arguments linenum
      || in_class_head arguments s.stack
    then []
    else elim (match member_pattern (line_at clean_lines.elided linenum)) [
      | none ↦ []
      | some m ↦ member_reports filename linenum (line_at clean_lines.elided linenum) m
    ]

-- A class that is not a struct: its data members have a check of their own.
is_class_not_struct : List Block → Bool
is_class_not_struct [] = false
is_class_not_struct (b ∷ _) = elim b.kind [ class_block c ↦ not c.is_struct | _ ↦ false ]

unfoldable pub variable_name_reports : Text → ℕ → Text → List Report
unfolding identifier_report underscore_reports
variable_name_reports filename linenum name =
    (if matches (line_start ▹ cls (range b'A' b'Z')) name
      then identifier_report filename linenum 4 (codes "Variable name '") name
          (codes "' must begin with a lower case letter.")
        ∷ []
      else [])
    ++ underscore_reports filename linenum 4 name

-- JuniperCheckVariableName
unfoldable pub check_variable_name : Text → CleansedLines → ℕ → NestingState → List Report
unfolding is_class_not_struct variable_name_reports
check_variable_name filename clean_lines linenum s =
    if is_class_not_struct s.stack
    then []
    else elim (match variable_pattern (line_at clean_lines.elided linenum)) [
      | none ↦ []
      | some m ↦
          if mem_text (group_or 1 m) not_types
          then []
          else variable_name_reports filename linenum (group_or 2 m)
    ]
