-- ===== src/Language/Overrides.antt =====
-- CheckRedundantVirtual and CheckRedundantOverrideOrFinal of tools/scripts/cpplint.py.
use Prim.Native.Nat.{min}
use jp4agent.Prelude.{
  ℕ, zero, suc, ◌+◌, ◌-◌, Bool, ◌&&◌, ◌||◌, Option, none, some, List, [], ◌∷◌, ◌++◌, ltb,
  if◌then◌else◌, Text, codes, contains, length, drop,
}
use jp4agent.Regex.{Regex, star, group, boundary, line_start, line_end, cls, word, other}
use jp4agent.Regex.Notation.{lit, none_of, any, spaces, spaces1, one_of, ◌▹◌}
use jp4agent.Regex.Find.{Found, match, matches, search_in, searches, group_or}
use jp4agent.Lint.Report.{Report, report, report_if}
use jp4agent.Cleanse.Lines.{CleansedLines, line_at}
use jp4agent.Expression.Forward.{Place, close_expression}
use jp4agent.Style.Texts.{from_last}

-- ^(.*)(\bvirtual\b)(.*)$
abbrev virtual_pattern : Regex
virtual_pattern =
    line_start
    ▹ group 1 any
    ▹ group 2 (boundary ▹ lit "virtual" ▹ boundary)
    ▹ group 3 any
    ▹ line_end

abbrev access : Regex
access = one_of ("public" ∷ "protected" ∷ "private" ∷ [])

-- `virtual` of a base class, or a line with a list of them.
is_virtual_base : Text → Found → Bool
is_virtual_base line m =
    searches (boundary ▹ access ▹ spaces1 ▹ line_end) (group_or 1 m)
    || matches (line_start ▹ spaces1 ▹ access ▹ boundary) (group_or 3 m)
    || matches (line_start ▹ any ▹ none_of ":" ▹ lit ":" ▹ none_of ":" ▹ any ▹ line_end) line

-- The end of the first parameter list on the next k lines from line n, column `col`, on.
parameters_end : CleansedLines → ℕ → ℕ → ℕ → Option Place
parameters_end clean_lines zero n col = none
parameters_end clean_lines (suc k) n col =
    let later = parameters_end clean_lines k (n + 1) 0 in
    elim (match (line_start ▹ group 1 (star (none_of "(")) ▹ lit "(")
      (drop col (line_at clean_lines.elided n))) [
        | none ↦ later
        | some m ↦ some (close_expression clean_lines n (col + length (group_or 1 m)))
      ]

specifier_reports : Text → ℕ → Text → List Report
specifier_reports filename linenum line =
    elim (search_in (boundary ▹ group 1 (one_of ("override" ∷ "final" ∷ [])) ▹ boundary) line) [
      | none ↦ []
      | some m ↦
          report filename linenum "readability/inheritance" 4 (
            codes "\"virtual\" is redundant since function is already declared as \""
            ++ (group_or 1 m ++ codes "\""))
          ∷ []
    ]

-- The next k lines from line n, column `col`, on, up to one that ends with no letter, digit or _.
reports_behind : Text → CleansedLines → ℕ → ℕ → ℕ → ℕ → List Report
unfolding specifier_reports
reports_behind filename clean_lines linenum zero n col = []
reports_behind filename clean_lines linenum (suc k) n col =
    let line = drop col (line_at clean_lines.elided n) in
    let later = reports_behind filename clean_lines linenum k (n + 1) 0 in
    specifier_reports filename linenum line
    ++ (if searches (cls (other word) ▹ spaces ▹ line_end) line then [] else later)

reports_at : Text → CleansedLines → ℕ → Option Place → List Report
unfolding reports_behind
reports_at filename clean_lines linenum none = []
reports_at filename clean_lines linenum (some p) = elim p.pos [
  | none ↦ []
  | some end_col ↦
      reports_behind filename clean_lines linenum
        (min (p.linenum + 3) clean_lines.num_lines - p.linenum) p.linenum end_col
]

-- CheckRedundantVirtual
unfoldable pub check_redundant_virtual : Text → CleansedLines → ℕ → List Report
unfolding is_virtual_base parameters_end reports_at
check_redundant_virtual filename clean_lines linenum =
    let line = line_at clean_lines.elided linenum in
    elim (match virtual_pattern line) [
      | none ↦ []
      | some m ↦
          if is_virtual_base line m
          then []
          else reports_at filename clean_lines linenum (
              parameters_end clean_lines (min (linenum + 3) clean_lines.num_lines - linenum) linenum
                (length (group_or 2 m)))
    ]

-- Where the declarator ends, on this line or the one before.
declarator_end : CleansedLines → ℕ → Option Text
declarator_end clean_lines linenum =
    let line = line_at clean_lines.elided linenum in
    elim (from_last b')' line) [
      | some fragment ↦ some fragment
      | none ↦
          if ltb 1 linenum && contains (line_at clean_lines.elided (linenum - 1)) (codes ")")
          then some line
          else none
    ]

-- CheckRedundantOverrideOrFinal
unfoldable pub check_redundant_override_or_final : Text → CleansedLines → ℕ → List Report
unfolding declarator_end
check_redundant_override_or_final filename clean_lines linenum =
    elim (declarator_end clean_lines linenum) [
      | none ↦ []
      | some fragment ↦
          report_if
            (searches (boundary ▹ lit "override" ▹ boundary) fragment
              && searches (boundary ▹ lit "final" ▹ boundary) fragment)
            (report filename linenum "readability/inheritance" 4
              (codes "\"override\" is redundant since function is already declared as \"final\""))
    ]
