-- ===== src/Cleanse/Multiline.antt =====
-- RemoveMultiLineComments of tools/scripts/cpplint.py and its helpers. The list of lines, which the source
-- changes in place, is the result.
pub mod Sweep
pub mod Range
pub mod Rounds
pub mod OnePass
use jp4agent.Prelude.{
  ℕ, zero, suc, ◌+◌, Bool, ◌&&◌, not, List, [], ◌∷◌, ltb, leb, if◌then◌else◌, is_some, Text, codes,
  starts_with, ends_with, find, strip, drop, length,
}
use jp4agent.Lint.Report.{Report}

-- Does a comment begin on the line and go on behind it?
unfoldable pub opens_comment : Text → Bool
opens_comment line =
    starts_with (strip line) (codes "/*") && not (is_some (find (drop 2 (strip line)) (codes "*/")))

unfoldable pub closes_comment : Text → Bool
closes_comment line = ends_with (strip line) (codes "*/")

-- The number of the first of these lines that passes the test, where the first line has the number i; the
-- number behind the last if none does.
unfoldable pub first_line : (Text → Bool) → List Text → ℕ → ℕ
first_line test [] i = i
first_line test (line ∷ lines) i =
    let later = first_line test lines (suc i) in if test line then i else later

-- FindNextMultiLineCommentStart, FindNextMultiLineCommentEnd
unfoldable pub find_next_comment_start : List Text → ℕ → ℕ
find_next_comment_start lines lineix = first_line opens_comment (drop lineix lines) lineix

pub find_next_comment_end : List Text → ℕ → ℕ
find_next_comment_end lines lineix = first_line closes_comment (drop lineix lines) lineix

clear_from : ℕ → List Text → ℕ → ℕ → List Text
clear_from i [] begin end = []
clear_from i (line ∷ lines) begin end =
    (if leb begin i && ltb i end then codes "/**/" else line) ∷ clear_from (suc i) lines begin end

-- RemoveMultiLineCommentsFromRange
pub remove_comments_from_range : List Text → ℕ → ℕ → List Text
unfolding clear_from
remove_comments_from_range lines begin end = clear_from 0 lines begin end

pub unclosed_comment : Text → ℕ → Report
unclosed_comment filename line = record {
  filename = filename;
  linenum = line + 1;
  category = codes "readability/multiline_comment";
  confidence = 5;
  message = codes "Could not find end of multi-line comment";
}

-- The loop. Every round but the last moves `lineix` on, so that the number of lines is enough fuel.
pub remove_from : ℕ → Text → List Text → ℕ → List Text × List Report
unfolding unclosed_comment
remove_from zero filename lines lineix = (lines, [])
remove_from (suc f) filename lines lineix =
    let begin = find_next_comment_start lines lineix in
    let end = find_next_comment_end lines begin in
    let rest =
      remove_from f filename (remove_comments_from_range lines begin (end + 1)) (end + 1) in
    if ltb lineix (length lines)
    then (if leb (length lines) begin
        then (lines, [])
        else if leb (length lines) end
        then (lines, unclosed_comment filename begin ∷ [])
        else rest)
    else (lines, [])

-- RemoveMultiLineComments
unfoldable pub remove_multi_line_comments : Text → List Text → List Text × List Report
unfolding remove_from
remove_multi_line_comments filename lines = remove_from (length lines + 1) filename lines 0
