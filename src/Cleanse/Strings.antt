-- ===== src/Cleanse/Strings.antt =====
-- `_CollapseStrings` of the class CleansedLines of tools/scripts/cpplint.py.
pub mod Fuel
use jp4agent.Prelude.{
  ℕ, zero, suc, ◌+◌, none, some, [], ◌++◌, if◌then◌else◌, Text, codes, text_eq, find, replace_all,
  drop, length,
}
use jp4agent.Regex.{
  Regex, cls, star, group, line_start, line_end, boundary, digit, range, either, one,
}
use jp4agent.Regex.Notation.{lit, any_of, none_of, any, spaces, opt, plus, ◌▹◌, ◌∣∣◌}
use jp4agent.Regex.Find.{match, matches, searches, group_or, erase_all}

-- ^\s*#\s*include\s*([<"])([^>"]*)[>"].*$
abbrev pub include_pattern : Regex
include_pattern =
    line_start
    ▹ spaces
    ▹ lit "#"
    ▹ spaces
    ▹ lit "include"
    ▹ spaces
    ▹ group 1 (any_of "<\"")
    ▹ group 2 (star (none_of ">\""))
    ▹ any_of ">\""
    ▹ any
    ▹ line_end

-- \\([abfnrtv?"\\\']|\d+|x[0-9a-fA-F]+)
abbrev escapes_pattern : Regex
escapes_pattern =
    lit "\\"
    ▹ group 1 (
        any_of "abfnrtv?\"\\'"
        ∣∣ plus (cls digit)
        ∣∣ lit "x"
          ▹ plus (cls (either (range b'0' b'9') (either (range b'a' b'f') (range b'A' b'F')))))

-- ^([^\'"]*)([\'"])(.*)$
abbrev pub quote_pattern : Regex
quote_pattern =
    line_start ▹ group 1 (star (none_of "'\"")) ▹ group 2 (any_of "'\"") ▹ group 3 any ▹ line_end

-- \b(?:0[bBxX]?|[1-9])[0-9a-fA-F]*$
abbrev pub number_end_pattern : Regex
number_end_pattern =
    boundary
    ▹ (lit "0" ▹ opt (any_of "bBxX") ∣∣ cls (range b'1' b'9'))
    ▹ star (cls (either (range b'0' b'9') (either (range b'a' b'f') (range b'A' b'F'))))
    ▹ line_end

-- ^((?:\'?[0-9a-zA-Z_])*)(.*)$
abbrev pub separated_digits_pattern : Regex
separated_digits_pattern =
    line_start
    ▹ group 1 (
        star (
          opt (lit "'")
          ▹ cls (
              either (range b'0' b'9')
                (either (range b'a' b'z') (either (range b'A' b'Z') (one b'_'))))))
    ▹ group 2 any
    ▹ line_end

-- One round of the loop: the text to add, and what is left to look at, if anything is.
pub data Round : Type 0 where
  finished : Text → Round
  again : Text → Text → Round

-- A double quoted string: up to the next double quote.
double_quoted : Text → Text → Text → Round
double_quoted elided head tail = elim (find tail (codes "\"")) [
  | none ↦ finished elided
  | some second_quote ↦ again (head ++ codes "\"\"") (drop (second_quote + 1) tail)
]

without_quotes : Text → Text
without_quotes s = replace_all s (codes "'") []

-- A digit separator: the digits and letters behind it are kept.
digits_behind : Text → Text → Round
unfolding without_quotes
digits_behind head tail = elim (match separated_digits_pattern (codes "'" ++ tail)) [
  | none ↦ finished head
  | some m ↦ again (head ++ without_quotes (group_or 1 m)) (group_or 2 m)
]

single_quoted : Text → Text → Text → Round
unfolding digits_behind
single_quoted elided head tail =
    if searches number_end_pattern head
    then digits_behind head tail
    else elim (find tail (codes "'")) [
      | none ↦ finished elided
      | some second_quote ↦ again (head ++ codes "''") (drop (second_quote + 1) tail)
    ]

pub collapse_round : Text → Round
unfolding double_quoted single_quoted
collapse_round elided = elim (match quote_pattern elided) [
  | none ↦ finished elided
  | some m ↦
      if text_eq (group_or 2 m) (codes "\"")
      then double_quoted elided (group_or 1 m) (group_or 3 m)
      else single_quoted elided (group_or 1 m) (group_or 3 m)
]

-- The loop. Every round but the last takes a quote at least from `elided`, so that its length is enough
-- fuel.
pub collapse : ℕ → Text → Text → Text
collapse zero collapsed elided = collapsed ++ elided
collapse (suc f) collapsed elided = elim (collapse_round elided) [
  | finished more ↦ collapsed ++ more
  | again more rest ↦ collapse f (collapsed ++ more) rest
]

-- _CollapseStrings
unfoldable pub collapse_strings : Text → Text
unfolding collapse collapse_round
collapse_strings line =
    if matches include_pattern line
    then line
    else (let elided = erase_all escapes_pattern line in collapse (length elided + 1) [] elided)
