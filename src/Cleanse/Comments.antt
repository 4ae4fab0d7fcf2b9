-- ===== src/Cleanse/Comments.antt =====
-- IsCppString and CleanseComments of tools/scripts/cpplint.py.
use jp4agent.Prelude.{
  ◌+◌, ◌%◌, Bool, not, none, some, ◌==◌, if◌then◌else◌, Text, codes, find, count, replace_all,
  rstrip, take,
}
use jp4agent.Regex.{Regex, cls, star, group, line_end, ahead, not_ahead, word, other}
use jp4agent.Regex.Notation.{lit, none_of, spaces, spaces1, ◌▹◌, ◌∣∣◌}
use jp4agent.Regex.Find.{erase_all}

-- IsCppString. The source tests whether the first count less the two others is odd; it is exactly if the
-- sum of the three is.
is_cpp_string : Text → Bool
is_cpp_string line =
    let plain = replace_all line (codes "\\\\") (codes "XX") in
    (count plain (codes "\"") + count plain (codes "\\\"") + count plain (codes "'\"'")) % 2 == 1

-- /\*(?:[^*]|\*(?!/))*\*/
abbrev c_comment : Regex
c_comment = lit "/*" ▹ star (none_of "*" ∣∣ lit "*" ▹ not_ahead (lit "/")) ▹ lit "*/"

-- (\s*C\s*$|C\s+|\s+C(?=\W)|C) for C the comment above
abbrev cleanse_c_comments_pattern : Regex
cleanse_c_comments_pattern = group 1 (
    spaces ▹ c_comment ▹ spaces ▹ line_end
    ∣∣ c_comment ▹ spaces1
    ∣∣ spaces1 ▹ c_comment ▹ ahead (cls (other word))
    ∣∣ c_comment)

-- The line up to a // comment, without the spaces before it.
drop_line_comment : Text → Text
unfolding is_cpp_string
drop_line_comment line = elim (find line (codes "//")) [
  | none ↦ line
  | some commentpos ↦
      if not (is_cpp_string (take commentpos line)) then rstrip (take commentpos line) else line
]

-- CleanseComments
unfoldable pub cleanse_comments : Text → Text
unfolding drop_line_comment
cleanse_comments line = erase_all cleanse_c_comments_pattern (drop_line_comment line)
