-- ===== src/Checks/Comments.antt =====
-- CheckComment of tools/scripts/cpplint.py.
use jp4agent.Prelude.{
  ℕ, ◌-◌, ◌%◌, Bool, false, ◌&&◌, ◌||◌, not, Option, none, some, List, [], ◌∷◌, ◌++◌, ◌==◌, ltb,
  leb, if◌then◌else◌, is_some, Text, codes, count, find, take, drop, length, get_or, is_space_char,
  text_eq,
}
use jp4agent.Regex.{Regex, cls, star, star_lazy, group, line_start, line_end, dot, space, word}
use jp4agent.Regex.Notation.{lit, none_of, opt, any, spaces, spaces1, ◌▹◌, ◌∣∣◌}
use jp4agent.Regex.Find.{Found, match, matches, group_of, group_or, erase_all}
use jp4agent.Lint.Report.{Report}

-- ^//(\s*)TODO(\(.+?\))?:?(\s|$)?
abbrev todo_pattern : Regex
todo_pattern =
    line_start
    ▹ lit "//"
    ▹ group 1 spaces
    ▹ lit "TODO"
    ▹ opt (group 2 (lit "(" ▹ cls dot ▹ star_lazy (cls dot) ▹ lit ")"))
    ▹ opt (lit ":")
    ▹ opt (group 3 (cls space ∣∣ line_end))

-- Has the text in front of a comment an even number of quotes, escaped characters apart?
is_outside_quotes : Text → Bool
is_outside_quotes before = count (erase_all (lit "\\" ▹ cls dot) before) (codes "\"") % 2 == 0

-- Is the character at this position no whitespace?
is_code_at : Text → ℕ → Bool
is_code_at line i = not (is_space_char (get_or line i b' '))

-- Are there fewer than two spaces in front of the comment? One is enough where a scope begins.
is_too_near : Text → ℕ → ℕ → Bool
unfolding is_code_at
is_too_near line commentpos next_line_start =
    not (
      matches (line_start ▹ any ▹ lit "{" ▹ star (lit " ") ▹ lit "//") line
      && next_line_start == commentpos)
    && ((leb 1 commentpos && is_code_at line (commentpos - 1))
        || (leb 2 commentpos && is_code_at line (commentpos - 2)))

comment_report : Text → ℕ → Text → ℕ → Text → Report
comment_report filename linenum category confidence message = record {
  filename = filename;
  linenum = linenum;
  category = category;
  confidence = confidence;
  message = message;
}

near_report : Text → ℕ → Report
unfolding comment_report
near_report filename linenum =
    comment_report filename linenum (codes "whitespace/comments") 2
      (codes "At least two spaces is best between code and comments")

no_space_report : Text → ℕ → Report
unfolding comment_report
no_space_report filename linenum =
    comment_report filename linenum (codes "whitespace/comments") 4
      (codes "Should have a space between // and comment")

-- Is what stands behind TODO one space, or the end? A group that took no part is neither.
is_one_space : Option Text → Bool
is_one_space none = false
is_one_space (some t) = text_eq t (codes " ") || text_eq t []

-- The three reports on a TODO.
todo_reports : Text → ℕ → Found → List Report
unfolding comment_report is_one_space
todo_reports filename linenum m =
    (if ltb 1 (length (group_or 1 m))
      then comment_report filename linenum (codes "whitespace/todo") 2
          (codes "Too many spaces before TODO")
        ∷ []
      else [])
    ++ ((if not (is_some (group_of 2 m))
          then comment_report filename linenum (codes "readability/todo") 2 (
              codes
                "Missing username in TODO; it should look like \"// TODO(my_username): Stuff.\"")
            ∷ []
          else [])
        ++ (if not (is_one_space (group_of 3 m))
            then comment_report filename linenum (codes "whitespace/todo") 2
                (codes "TODO(my_username) should be followed by a space")
              ∷ []
            else []))

-- Does the comment begin without a space, and is none of the forms /// and //! ?
lacks_space : Text → Bool
lacks_space comment =
    matches (lit "//" ▹ star (none_of " ") ▹ cls word) comment
    && not (matches (group 1 (lit "///" ∣∣ lit "//!") ▹ group 2 (spaces1 ∣∣ line_end)) comment)

-- CheckComment
unfoldable pub check_comment : Text → Text → ℕ → ℕ → List Report
unfolding is_outside_quotes is_too_near near_report no_space_report todo_reports lacks_space
check_comment line filename linenum next_line_start = elim (find line (codes "//")) [
  | none ↦ []
  | some commentpos ↦
      if is_outside_quotes (take commentpos line)
      then (if is_too_near line commentpos next_line_start
          then near_report filename linenum ∷ []
          else [])
        ++ (elim (match todo_pattern (drop commentpos line)) [
          | none ↦ []
          | some m ↦ todo_reports filename linenum m
        ]
            ++ (if lacks_space (drop commentpos line)
                then no_space_report filename linenum ∷ []
                else []))
      else []
]
