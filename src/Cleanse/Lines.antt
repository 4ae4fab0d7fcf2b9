-- ===== src/Cleanse/Lines.antt =====
-- The class CleansedLines of tools/scripts/cpplint.py.
use jp4agent.Prelude.{ℕ, List, [], Text, map, length, get_or}
use jp4agent.Cleanse.RawStrings.{cleanse_raw_strings}
use jp4agent.Cleanse.Comments.{cleanse_comments}
use jp4agent.Cleanse.Strings.{collapse_strings}

pub record CleansedLines : Type 0 where
  pub elided : List Text
  pub lines : List Text
  pub raw_lines : List Text
  pub num_lines : ℕ
  pub lines_without_raw_strings : List Text

pub elide : Text → Text
elide line = cleanse_comments (collapse_strings line)

-- __init__
unfoldable pub cleanse : List Text → CleansedLines
unfolding elide
cleanse lines =
    let plain = cleanse_raw_strings lines in
    record {
      elided = map elide plain;
      lines = map cleanse_comments plain;
      raw_lines = lines;
      num_lines = length lines;
      lines_without_raw_strings = plain;
    }

-- A line by its number. The source reads lines of the file only; elsewhere the text is empty here.
abbrev pub line_at : List Text → ℕ → Text
line_at lines linenum = get_or lines linenum []
