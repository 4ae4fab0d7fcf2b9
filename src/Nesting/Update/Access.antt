-- ===== src/Nesting/Update/Access.antt =====
-- The access keywords of a class.
use jp4agent.Prelude.{
  ℕ, ◌+◌, ◌&&◌, not, none, some, List, [], ◌∷◌, ◌++◌, ◌==◌, if◌then◌else◌, Text, codes, length,
}
use jp4agent.Regex.{Regex, group, line_start, line_end, boundary}
use jp4agent.Regex.Notation.{lit, none_of, any, spaces, spaces1, opt, ◌▹◌, ◌∣∣◌}
use jp4agent.Regex.Find.{Found, match, matches, group_or}
use jp4agent.Lint.Report.{Report}
use jp4agent.Nesting.Blocks.{ClassInfo, Kind, class_block, Block}
use jp4agent.Nesting.Ends.{blank_pattern, parent_name}

-- ^(.*)\b(public|private|protected|signals)(\s+(?:slots\s*)?)?:(?:[^:]|$)
abbrev access_pattern : Regex
access_pattern =
    line_start
    ▹ group 1 any
    ▹ boundary
    ▹ group 2 (lit "public" ∣∣ lit "private" ∣∣ lit "protected" ∣∣ lit "signals")
    ▹ opt (group 3 (spaces1 ▹ opt (lit "slots" ▹ spaces)))
    ▹ lit ":"
    ▹ (none_of ":" ∣∣ line_end)

access_report : ClassInfo → Found → Text → ℕ → List Report
access_report c m filename linenum =
    let indent = group_or 1 m in
    if not (length indent == c.class_indent + 1) && matches blank_pattern indent
    then record {
      filename = filename;
      linenum = linenum;
      category = codes "whitespace/indent";
      confidence = 3;
      message =
          group_or 2 m
          ++ (group_or 3 m ++ (codes ": should be indented +1 space inside " ++ parent_name c));
    }
      ∷ []
    else []

-- The class with the new access, and the report.
access_of_class : ClassInfo → Text → Text → ℕ → ClassInfo × List Report
unfolding access_report
access_of_class c line filename linenum = elim (match access_pattern line) [
  | none ↦ (c, [])
  | some m ↦ (record c { access = group_or 2 m }, access_report c m filename linenum)
]

access_of_kind : Kind → Text → Text → ℕ → Kind × List Report
unfolding access_of_class
access_of_kind (class_block c) line filename linenum =
    let (c', reports) = access_of_class c line filename linenum in (class_block c', reports)
access_of_kind kind line filename linenum = (kind, [])

unfoldable pub update_access : Text → ℕ → Text → List Block → List Block × List Report
unfolding access_of_kind
update_access filename linenum line [] = ([], [])
update_access filename linenum line (b ∷ below) =
    let (kind, reports) = access_of_kind b.kind line filename linenum in
    (record b { kind = kind } ∷ below, reports)
