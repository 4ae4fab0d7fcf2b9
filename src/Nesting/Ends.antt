-- ===== src/Nesting/Ends.antt =====
-- CheckBegin and CheckEnd of the classes of blocks of tools/scripts/cpplint.py, and CheckCompletedBlocks.
use jp4agent.Prelude.{
  ℕ, zero, suc, ◌-◌, Bool, true, false, ◌&&◌, ◌||◌, not, none, some, List, [], ◌∷◌, ◌++◌, map, ltb,
  ◌==◌, if◌then◌else◌, Text, codes, mem_text, length,
}
use jp4agent.Regex.{Regex, cls, star, group, line_start, line_end, boundary, word, either, space}
use jp4agent.Regex.Notation.{
  lit, lit_codes, none_of, any, spaces, spaces1, plus, class_of, ◌▹◌, ◌∣∣◌,
}
use jp4agent.Regex.Find.{match, matches, search_in, searches, group_or, find_all}
use jp4agent.Lint.Report.{Report}
use jp4agent.Cleanse.Lines.{CleansedLines, line_at}
use jp4agent.Nesting.Blocks.{ClassInfo, Kind, plain, extern_c, class_block, namespace_block, Block}

-- (^|[^:]):($|[^:])
abbrev bare_colon_pattern : Regex
bare_colon_pattern =
    group 1 (line_start ∣∣ none_of ":") ▹ lit ":" ▹ group 2 (line_end ∣∣ none_of ":")

-- (?:private|public|protected)\s*(\w+)\b
abbrev parent_pattern : Regex
parent_pattern =
    (lit "private" ∣∣ lit "public" ∣∣ lit "protected")
    ▹ spaces
    ▹ group 1 (plus (cls word))
    ▹ boundary

-- The keys of a dictionary after new ones were set.
add_names : List Text → List Text → List Text
add_names names [] = names
add_names names (n ∷ more) = add_names (if mem_text n names then names else names ++ n ∷ []) more

check_class_begin : ClassInfo → Text → ClassInfo
unfolding add_names
check_class_begin c line =
    let is_derived = c.is_derived || searches bare_colon_pattern line in
    record c {
      is_derived = is_derived;
      parent_classes =
          if is_derived
          then add_names c.parent_classes (map (group_or 1) (find_all parent_pattern line))
          else c.parent_classes;
    }

-- CheckBegin, for the line with this number
check_kind_begin : Kind → Text → Kind
unfolding check_class_begin
check_kind_begin (class_block c) line = class_block (check_class_begin c line)
check_kind_begin kind line = kind

unfoldable pub check_begin : Block → Text → Block
unfolding check_kind_begin
check_begin b line = record b { kind = check_kind_begin b.kind line }

-- \b(DISALLOW_COPY_AND_ASSIGN|DISALLOW_IMPLICIT_CONSTRUCTORS)\(NAME\)
abbrev disallow_pattern : Text → Regex
disallow_pattern name =
    boundary
    ▹ group 1 (lit "DISALLOW_COPY_AND_ASSIGN" ∣∣ lit "DISALLOW_IMPLICIT_CONSTRUCTORS")
    ▹ lit "("
    ▹ lit_codes name
    ▹ lit ")"

-- ^\s*$
abbrev pub blank_pattern : Regex
blank_pattern = line_start ▹ spaces ▹ line_end

-- ^( *)\}
abbrev closing_brace_pattern : Regex
closing_brace_pattern = line_start ▹ group 1 (star (lit " ")) ▹ lit "}"

-- The loop over the lines before the end of a class, from the number `i` down, for `n` lines.
last_thing : ClassInfo → Text → CleansedLines → ℕ → ℕ → Bool → List Report
last_thing c filename clean_lines zero i seen = []
last_thing c filename clean_lines (suc n) i seen =
    let line = line_at clean_lines.elided i in
    let before =
      last_thing c filename clean_lines n (i - 1)
        (if matches blank_pattern line then seen else true) in
    elim (search_in (disallow_pattern c.name) line) [
      | none ↦ before
      | some m ↦
          if seen
          then record {
            filename = filename;
            linenum = i;
            category = codes "readability/constructors";
            confidence = 3;
            message = group_or 1 m ++ codes " should be the last thing in the class";
          }
            ∷ []
          else []
    ]

-- 'struct NAME' or 'class NAME'
pub parent_name : ClassInfo → Text
parent_name c = if c.is_struct then codes "struct " ++ c.name else codes "class " ++ c.name

brace_alignment : ClassInfo → Text → ℕ → Text → List Report
unfolding parent_name
brace_alignment c filename linenum line = elim (match closing_brace_pattern line) [
  | none ↦ []
  | some indent ↦
      if not (length (group_or 1 indent) == c.class_indent)
      then record {
        filename = filename;
        linenum = linenum;
        category = codes "whitespace/indent";
        confidence = 3;
        message = codes "Closing brace should be aligned with beginning of " ++ parent_name c;
      }
        ∷ []
      else []
]

-- [\*/\.\\\s]*$
abbrev comment_end : Regex
comment_end = star (cls (either (class_of (codes "*/.\\")) space)) ▹ line_end

-- ^\s*};*\s*(//|/\*).*\bnamespace
abbrev namespace_comment : Regex
namespace_comment =
    line_start
    ▹ spaces
    ▹ lit "}"
    ▹ star (lit ";")
    ▹ spaces
    ▹ group 1 (lit "//" ∣∣ lit "/*")
    ▹ any
    ▹ boundary
    ▹ lit "namespace"

-- ^\s*}.*\b(namespace anonymous|anonymous namespace)\b
abbrev anonymous_pattern : Regex
anonymous_pattern =
    line_start
    ▹ spaces
    ▹ lit "}"
    ▹ any
    ▹ boundary
    ▹ group 1 (lit "namespace anonymous" ∣∣ lit "anonymous namespace")
    ▹ boundary

namespace_report : Text → ℕ → Text → List Report
namespace_report filename linenum message =
    record {
      filename = filename;
      linenum = linenum;
      category = codes "readability/namespace";
      confidence = 5;
      message = message;
    }
    ∷ []

-- _NamespaceInfo.CheckEnd
check_namespace_end : Text → ℕ → Text → Text → ℕ → List Report
unfolding namespace_report
check_namespace_end name starting_linenum line filename linenum =
    if ltb (linenum - starting_linenum) 10 && not (matches (namespace_comment ▹ boundary) line)
    then []
    else elim name [
      | n ∷ ame ↦
          if not (matches (namespace_comment ▹ spaces1 ▹ lit_codes (n ∷ ame) ▹ comment_end) line)
          then namespace_report filename linenum (
              codes "Namespace should be terminated with \"// namespace "
              ++ ((n ∷ ame) ++ codes "\""))
          else []
      | [] ↦
          if not (matches (namespace_comment ▹ comment_end) line)
          then (if matches anonymous_pattern line
              then namespace_report filename linenum (
                  codes
                    "Anonymous namespace should be terminated with \"// namespace\" or \"// anonymous namespace\"")
              else namespace_report filename linenum
                  (codes "Anonymous namespace should be terminated with \"// namespace\""))
          else []
    ]

-- CheckEnd
check_kind_end : Kind → ℕ → Text → CleansedLines → ℕ → List Report
unfolding last_thing brace_alignment check_namespace_end
check_kind_end plain start filename clean_lines linenum = []
check_kind_end extern_c start filename clean_lines linenum = []
check_kind_end (class_block c) start filename clean_lines linenum =
    last_thing c filename clean_lines (linenum - 1 - start) (linenum - 1) false
    ++ brace_alignment c filename linenum (line_at clean_lines.elided linenum)
check_kind_end (namespace_block name) start filename clean_lines linenum =
    check_namespace_end name start (line_at clean_lines.raw_lines linenum) filename linenum

unfoldable pub check_end : Block → Text → CleansedLines → ℕ → List Report
unfolding check_kind_end
check_end b filename clean_lines linenum =
    check_kind_end b.kind b.starting_linenum filename clean_lines linenum

incomplete : Text → ℕ → Text → Text → List Report
incomplete filename linenum category message =
    record {
      filename = filename;
      linenum = linenum;
      category = category;
      confidence = 5;
      message = message;
    }
    ∷ []

check_completed : Kind → ℕ → Text → List Report
unfolding incomplete
check_completed plain start filename = []
check_completed extern_c start filename = []
check_completed (class_block c) start filename =
    incomplete filename start (codes "build/class")
      (codes "Failed to find complete declaration of class " ++ c.name)
check_completed (namespace_block name) start filename =
    incomplete filename start (codes "build/namespaces")
      (codes "Failed to find complete declaration of namespace " ++ name)

-- CheckCompletedBlocks. The loop goes from the bottom of the stack to the top.
unfoldable pub check_completed_blocks : List Block → Text → List Report
unfolding check_completed
check_completed_blocks [] filename = []
check_completed_blocks (b ∷ below) filename =
    check_completed_blocks below filename ++ check_completed b.kind b.starting_linenum filename
