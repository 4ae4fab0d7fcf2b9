-- ===== src/Checks/Files.antt =====
-- CheckForCopyright, CheckForBadCharacters and CheckForNewlineAtEOF of tools/scripts/cpplint.py, and
-- GetPreviousNonBlankLine.
pub mod Clean
pub mod Nearest
use jp4agent.Prelude.{
  ℕ, zero, suc, ◌+◌, ◌-◌, Bool, false, ◌||◌, not, Option, none, some, List, [], ◌∷◌, ◌++◌, ◌==◌,
  ltb, if◌then◌else◌, Text, codes, contains, lower, take, drop, length, is_space, get_or,
}
use jp4agent.Lint.Report.{Report}
use jp4agent.Cleanse.Lines.{line_at}

-- Does a line have the text, in any case of its letters?
any_has_copyright : List Text → Bool
any_has_copyright [] = false
any_has_copyright (line ∷ lines) =
    contains (lower line) (codes "copyright") || any_has_copyright lines

no_copyright : Text → Report
no_copyright filename = record {
  filename = filename;
  linenum = 0;
  category = codes "legal/copyright";
  confidence = 5;
  message =
      codes
        "No copyright message found.  You should have a line: \"Copyright [year] <Copyright Owner>\"";
}

-- CheckForCopyright: lines 1 to 10
unfoldable pub check_for_copyright : Text → List Text → List Report
unfolding any_has_copyright no_copyright
check_for_copyright filename lines =
    if any_has_copyright (take 10 (drop 1 lines)) then [] else no_copyright filename ∷ []

-- `c in line`
pub has_char : ℕ → Text → Bool
has_char c [] = false
has_char c (d ∷ line) = d == c || has_char c line

bad_utf8 : Text → ℕ → Report
bad_utf8 filename linenum = record {
  filename = filename;
  linenum = linenum;
  category = codes "readability/utf8";
  confidence = 5;
  message = codes "Line contains invalid UTF-8 (or Unicode replacement character).";
}

nul_byte : Text → ℕ → Report
nul_byte filename linenum = record {
  filename = filename;
  linenum = linenum;
  category = codes "readability/nul";
  confidence = 5;
  message = codes "Line contains NUL byte.";
}

-- U+FFFD and NUL
pub bad_characters_from : Text → ℕ → List Text → List Report
unfolding has_char bad_utf8 nul_byte
bad_characters_from filename linenum [] = []
bad_characters_from filename linenum (line ∷ lines) =
    (if has_char 65533 line then bad_utf8 filename linenum ∷ [] else [])
    ++ ((if has_char 0 line then nul_byte filename linenum ∷ [] else [])
        ++ bad_characters_from filename (linenum + 1) lines)

-- CheckForBadCharacters
pub check_for_bad_characters : Text → List Text → List Report
check_for_bad_characters filename lines = bad_characters_from filename 0 lines

no_newline : Text → ℕ → Report
no_newline filename linenum = record {
  filename = filename;
  linenum = linenum;
  category = codes "whitespace/ending_newline";
  confidence = 5;
  message = codes "Could not find a newline character at the end of the file.";
}

-- CheckForNewlineAtEOF. The lines are those of a file between two markers: there are two or more, so that
-- the line number is no negative one.
unfoldable pub check_for_newline_at_eof : Text → List Text → List Report
unfolding no_newline
check_for_newline_at_eof filename lines =
    if ltb (length lines) 3 || not (length (get_or lines (length lines - 2) []) == 0)
    then no_newline filename (length lines - 2) ∷ []
    else []

-- IsBlankLine
pub is_blank_line : Text → Bool
is_blank_line line = length line == 0 || is_space line

-- GetPreviousNonBlankLine, with `none` for ('', -1). The lines before linenum are looked at from the last.
pub previous_non_blank_line : List Text → ℕ → Option (Text × ℕ)
unfolding is_blank_line
previous_non_blank_line lines zero = none
previous_non_blank_line lines (suc linenum) =
    let earlier = previous_non_blank_line lines linenum in
    if not (is_blank_line (line_at lines linenum))
    then some (line_at lines linenum, linenum)
    else earlier
