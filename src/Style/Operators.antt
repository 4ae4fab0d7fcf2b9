-- ===== src/Style/Operators.antt =====
-- CheckOperatorSpacing of tools/scripts/cpplint.py.
use jp4agent.Prelude.{
  ℕ, zero, suc, Bool, true, false, ◌&&◌, ◌||◌, not, Option, none, some, List, [], ◌∷◌, ◌++◌,
  if◌then◌else◌, String, Text, codes, text_eq, length,
}
use jp4agent.Regex.{Regex, group, boundary, line_start, line_end, cls, space, word, one, either}
use jp4agent.Regex.Notation.{
  lit, nonspace, no_space_nor, any, opt, plus, spaces, letter_or_line, one_of, ◌▹◌, ◌∣∣◌,
}
use jp4agent.Regex.Find.{Found, match, search_in, matches, searches, group_or}
use jp4agent.Lint.Report.{Report, report, report_if}
use jp4agent.Cleanse.Lines.{CleansedLines, line_at}
use jp4agent.Expression.Forward.{Place, close_expression}
use jp4agent.Expression.Backward.{reverse_close_expression}
use jp4agent.Style.Texts.{all_digits, underscores}

-- ^(.*\boperator\b)(\S+)(\s*\(.*)$
abbrev operator_method_pattern : Regex
operator_method_pattern =
    line_start
    ▹ group 1 (any ▹ boundary ▹ lit "operator" ▹ boundary)
    ▹ group 2 (plus nonspace)
    ▹ group 3 (spaces ▹ lit "(" ▹ any)
    ▹ line_end

-- The names of operator methods as underscores. A round leaves one fewer `operator` that no letter, digit
-- or underscore follows, so that the length of the line is enough fuel.
hide_operators : ℕ → Text → Text
hide_operators zero line = line
hide_operators (suc f) line = elim (match operator_method_pattern line) [
  | none ↦ line
  | some m ↦
      hide_operators f (group_or 1 m ++ (underscores (length (group_or 2 m)) ++ group_or 3 m))
]

-- [\w.]
abbrev word_or_dot : Regex
word_or_dot = cls (either word (one b'.'))

assignment_reports : Text → ℕ → Text → List Report
assignment_reports filename linenum line =
    report_if
      ((searches (word_or_dot ▹ lit "=") line || searches (lit "=" ▹ word_or_dot) line)
        && not (searches (boundary ▹ one_of ("if" ∷ "while" ∷ "for" ∷ []) ▹ lit " ") line)
        && not (
            searches
              (one_of
                (">=" ∷ "<=" ∷ "==" ∷ "!=" ∷ "&=" ∷ "^=" ∷ "|=" ∷ "+=" ∷ "*=" ∷ "/=" ∷ "%=" ∷ []))
              line)
        && not (searches (lit "operator=") line))
      (report filename linenum "whitespace/operators" 4 (codes "Missing spaces around ="))

-- [^<>=!\s](==|!=|<=|>=|\|\|)[^<>=!\s,;\)]
abbrev comparison_pattern : Regex
comparison_pattern =
    no_space_nor "<>=!"
    ▹ group 1 (one_of ("==" ∷ "!=" ∷ "<=" ∷ ">=" ∷ "||" ∷ []))
    ▹ no_space_nor "<>=!,;)"

is_missing : Option ℕ → Bool
is_missing none = true
is_missing (some _) = false

-- `match` with a bracket behind its first group that has no partner.
alone_reports : Text → ℕ → String → (ℕ → Place) → Option Found → List Report
unfolding is_missing
alone_reports filename linenum sign partner m = elim m [
  | none ↦ []
  | some m ↦ report_if (is_missing (partner (length (group_or 1 m))).pos) (
      report filename linenum "whitespace/operators" 3
        (codes "Missing spaces around " ++ codes sign))
]

unfoldable pub comparison_reports : Text → CleansedLines → ℕ → Text → List Report
unfolding alone_reports
comparison_reports filename clean_lines linenum line = elim (search_in comparison_pattern line) [
  | some m ↦
      report filename linenum "whitespace/operators" 3
        (codes "Missing spaces around " ++ group_or 1 m)
      ∷ []
  | none ↦
      if matches (lit "#" ▹ any ▹ lit "include") line
      then []
      else alone_reports filename linenum "<" (close_expression clean_lines linenum) (
          match (line_start ▹ group 1 (any ▹ no_space_nor "<") ▹ lit "<" ▹ no_space_nor "=<,") line)
        ++ alone_reports filename linenum ">" (reverse_close_expression clean_lines linenum) (
            match (line_start ▹ group 1 (any ▹ no_space_nor "->") ▹ lit ">" ▹ no_space_nor "=>,")
              line)
]

-- (operator|[^\s(<])(?:L|UL|LL|ULL|l|ul|ll|ull)?<<([^\s,=<])
abbrev shift_pattern : Regex
shift_pattern =
    group 1 (lit "operator" ∣∣ no_space_nor "(<")
    ▹ opt (one_of ("L" ∷ "UL" ∷ "LL" ∷ "ULL" ∷ "l" ∷ "ul" ∷ "ll" ∷ "ull" ∷ []))
    ▹ lit "<<"
    ▹ group 2 (no_space_nor ",=<")

shift_reports : Text → ℕ → Text → List Report
shift_reports filename linenum line = elim (search_in shift_pattern line) [
  | none ↦ []
  | some m ↦
      report_if
        (not (all_digits (group_or 1 m) && all_digits (group_or 2 m))
          && not (text_eq (group_or 1 m) (codes "operator") && text_eq (group_or 2 m) (codes ";")))
        (report filename linenum "whitespace/operators" 3 (codes "Missing spaces around <<"))
]

-- (!\s|~\s|[\s]--[\s;]|[\s]\+\+[\s;])
abbrev unary_pattern : Regex
unary_pattern =
    let blank : Regex = cls space in
    let blank_or_semicolon : Regex = cls (either space (one b';')) in
    group 1 (
      lit "!" ▹ blank
      ∣∣ lit "~" ▹ blank
      ∣∣ blank ▹ lit "--" ▹ blank_or_semicolon
      ∣∣ blank ▹ lit "++" ▹ blank_or_semicolon)

unary_reports : Text → ℕ → Text → List Report
unary_reports filename linenum line = elim (search_in unary_pattern line) [
  | none ↦ []
  | some m ↦
      report filename linenum "whitespace/operators" 4
        (codes "Extra space for operator " ++ group_or 1 m)
      ∷ []
]

-- CheckOperatorSpacing
unfoldable pub check_operator_spacing : Text → CleansedLines → ℕ → List Report
unfolding hide_operators assignment_reports comparison_reports shift_reports unary_reports
check_operator_spacing filename clean_lines linenum =
    let elided = line_at clean_lines.elided linenum in
    let line = hide_operators (length elided) elided in
    assignment_reports filename linenum line
    ++ (comparison_reports filename clean_lines linenum line
        ++ (shift_reports filename linenum line
            ++ (report_if (searches (lit ">>" ▹ cls letter_or_line) line) (
                  report filename linenum "whitespace/operators" 3
                    (codes "Missing spaces around >>"))
                ++ unary_reports filename linenum line)))
