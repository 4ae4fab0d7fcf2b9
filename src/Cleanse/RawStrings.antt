-- ===== src/Cleanse/RawStrings.antt =====
-- CleanseRawStrings of tools/scripts/cpplint.py.
pub mod Fuel
use jp4agent.Prelude.{
  ℕ, zero, suc, ◌+◌, not, Option, none, some, List, [], ◌∷◌, ◌++◌, if◌then◌else◌, Text, codes, find,
  drop, length,
}
use jp4agent.Regex.{
  Regex, cls, star, star_lazy, group, line_start, line_end, boundary, dot, space, other, either,
}
use jp4agent.Regex.Notation.{lit, none_of, any, spaces, class_of, ◌▹◌, ◌∣∣◌}
use jp4agent.Regex.Find.{Found, match, matches, group_or}

-- ^(\s*)\S
abbrev leading_space_pattern : Regex
leading_space_pattern = line_start ▹ group 1 spaces ▹ cls (other space)

-- ^(.*?)\b(?:R|u8R|uR|UR|LR)"([^\s\\()]*)\((.*)$
abbrev pub raw_string_pattern : Regex
raw_string_pattern =
    line_start
    ▹ group 1 (star_lazy (cls dot))
    ▹ boundary
    ▹ (lit "R" ∣∣ lit "u8R" ∣∣ lit "uR" ∣∣ lit "UR" ∣∣ lit "LR")
    ▹ lit "\""
    ▹ group 2 (star (cls (other (either space (class_of (codes "\\()"))))))
    ▹ lit "("
    ▹ group 3 any
    ▹ line_end

-- ^([^\'"]|\'(\\.|[^\'])*\'|"(\\.|[^"])*")*//
abbrev pub comment_before_pattern : Regex
comment_before_pattern =
    line_start
    ▹ star (
        group 1 (
          none_of "'\""
          ∣∣ lit "'" ▹ star (group 2 (lit "\\" ▹ cls dot ∣∣ none_of "'")) ▹ lit "'"
          ∣∣ lit "\"" ▹ star (group 3 (lit "\\" ▹ cls dot ∣∣ none_of "\"")) ▹ lit "\""))
    ▹ lit "//"

-- What is left of a line, and the delimiter of the raw string that goes on in the next.
pub record Cut : Type 0 where
  pub line : Text
  pub delimiter : Option Text

-- The line up to the raw string, "" and what stands behind its end.
pub resume_after : Text → Text → Text → ℕ → Text
resume_after before line delimiter end =
    before ++ (codes "\"\"" ++ drop (end + length delimiter) line)

-- What the loop does next with a line outside a raw string.
pub data Scan : Type 0 where
  no_raw_string : Scan
  ended : Text → Scan
  goes_on : Text → Text → Scan

raw_string_at : Found → Scan
unfolding resume_after
raw_string_at matched =
    let before = group_or 1 matched in
    let delimiter = codes ")" ++ (group_or 2 matched ++ codes "\"") in
    elim (find (group_or 3 matched) delimiter) [
      | some end ↦ ended (resume_after before (group_or 3 matched) delimiter end)
      | none ↦ goes_on (before ++ codes "\"\"") delimiter
    ]

unfoldable pub scan_line : Text → Scan
unfolding raw_string_at
scan_line line = elim (match raw_string_pattern line) [
  | none ↦ no_raw_string
  | some matched ↦
      if not (matches comment_before_pattern (group_or 1 matched))
      then raw_string_at matched
      else no_raw_string
]

-- The loop over the raw strings that begin on a line. A raw string that ends on the line is replaced by a
-- shorter text, so that the length of the line is enough fuel.
pub cut_raw_strings : ℕ → Text → Cut
cut_raw_strings zero line = record { line = line; delimiter = none }
cut_raw_strings (suc f) line = elim (scan_line line) [
  | no_raw_string ↦ record { line = line; delimiter = none }
  | ended rest ↦ cut_raw_strings f rest
  | goes_on rest delimiter ↦ record { line = rest; delimiter = some delimiter }
]

-- leading_space.group(1); the line holds the delimiter, so that the pattern matches.
leading_space : Text → Text
leading_space line = elim (match leading_space_pattern line) [ none ↦ [] | some m ↦ group_or 1 m ]

-- One line, with the delimiter of a raw string that has begun before.
pub cleanse_line : Option Text → Text → Cut
unfolding cut_raw_strings leading_space resume_after
cleanse_line none line = cut_raw_strings (length line + 1) line
cleanse_line (some delimiter) line = elim (find line delimiter) [
  | none ↦ record { line = codes "\"\""; delimiter = some delimiter }
  | some end ↦
      let rest = resume_after (leading_space line) line delimiter end in
      cut_raw_strings (length rest + 1) rest
]

unfoldable pub cleanse_from : Option Text → List Text → List Text
cleanse_from delimiter [] = []
cleanse_from delimiter (line ∷ lines) =
    let cut = cleanse_line delimiter line in cut.line ∷ cleanse_from cut.delimiter lines

-- CleanseRawStrings
unfoldable pub cleanse_raw_strings : List Text → List Text
unfolding cleanse_from cleanse_line
cleanse_raw_strings raw_lines = cleanse_from none raw_lines
