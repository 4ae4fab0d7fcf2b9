-- ===== src/Naming/Types.antt =====
-- JuniperCheckIdentifierTypeName, JuniperCheckEnumIdentifierTypeName and JuniperCheckTypedef of
-- tools/scripts/cpplint.py.
use jp4agent.Prelude.{
  ℕ, not, none, some, List, [], ◌∷◌, ◌++◌, ◌==◌, if◌then◌else◌, Text, codes, mem_text,
}
use jp4agent.Regex.{Regex, cls, group, line_start, boundary, word}
use jp4agent.Regex.Notation.{lit, opt, plus, spaces, ◌▹◌, ◌∣∣◌}
use jp4agent.Regex.Find.{match, matches, group_or}
use jp4agent.Lint.Report.{Report}
use jp4agent.Cleanse.Lines.{CleansedLines, line_at}
use jp4agent.Nesting.Blocks.{ClassInfo, class_block, NestingState}
use jp4agent.Naming.Names.{keywords, not_upper_pattern, identifier_report, underscore_reports}

upper_report : Text → ℕ → ClassInfo → Report
unfolding identifier_report
upper_report filename linenum c =
    identifier_report filename linenum 4
      (if not c.is_struct then codes "Class type name '" else codes "Struct type name '") c.name
      (codes "' must begin with an upper case letter.")

-- What is reported for the name of a class. A keyword that does not begin with an upper case letter ends
-- the check.
class_name_reports : Text → ℕ → ClassInfo → List Report
unfolding underscore_reports upper_report
class_name_reports filename linenum c =
    if matches not_upper_pattern c.name
    then (if mem_text c.name keywords
        then []
        else upper_report filename linenum c ∷ underscore_reports filename linenum 4 c.name)
    else underscore_reports filename linenum 4 c.name

-- JuniperCheckIdentifierTypeName: the class that begins on this line
unfoldable pub check_identifier_type_name : Text → ℕ → NestingState → List Report
unfolding class_name_reports
check_identifier_type_name filename linenum s = elim s.stack [
  | [] ↦ []
  | b ∷ _ ↦ elim b.kind [
    | class_block c ↦
        if b.starting_linenum == linenum then class_name_reports filename linenum c else []
    | _ ↦ []
  ]
]

-- ^\s*enum\b\s*(?:struct|class)?\s*(\w+)\b
abbrev pub enum_pattern : Regex
enum_pattern =
    line_start
    ▹ spaces
    ▹ lit "enum"
    ▹ boundary
    ▹ spaces
    ▹ opt (lit "struct" ∣∣ lit "class")
    ▹ spaces
    ▹ group 1 (plus (cls word))
    ▹ boundary

unfoldable pub enum_name_reports : Text → ℕ → Text → List Report
unfolding identifier_report underscore_reports
enum_name_reports filename linenum name =
    (if matches not_upper_pattern name
      then identifier_report filename linenum 4 (codes "Enum type name '") name
          (codes "' must begin with an upper case letter.")
        ∷ []
      else [])
    ++ underscore_reports filename linenum 4 name

-- JuniperCheckEnumIdentifierTypeName
unfoldable pub check_enum_identifier_type_name : Text → CleansedLines → ℕ → List Report
unfolding enum_name_reports
check_enum_identifier_type_name filename clean_lines linenum =
    elim (match enum_pattern (line_at clean_lines.elided linenum)) [
      | none ↦ []
      | some m ↦ enum_name_reports filename linenum (group_or 1 m)
    ]

-- \s*\b(typedef)
abbrev typedef_pattern : Regex
typedef_pattern = spaces ▹ boundary ▹ group 1 (lit "typedef")

typedef_report : Text → ℕ → Report
typedef_report filename linenum = record {
  filename = filename;
  linenum = linenum;
  category = codes "Juniper/Keywords";
  confidence = 5;
  message = codes "Typedef is not allowed.";
}

-- JuniperCheckTypedef
unfoldable pub check_typedef : Text → CleansedLines → ℕ → List Report
unfolding typedef_report
check_typedef filename clean_lines linenum =
    if matches typedef_pattern (line_at clean_lines.elided linenum)
    then typedef_report filename linenum ∷ []
    else []
