-- ===== src/Checks/Features.antt =====
-- CheckAltTokens, FlagCxx11Features and FlagCxx14Features of tools/scripts/cpplint.py.
use jp4agent.Prelude.{
  ℕ, ◌&&◌, ◌||◌, not, none, some, List, [], ◌∷◌, ◌++◌, if◌then◌else◌, Text, codes, contains,
  mem_text, starts_with, text_eq,
}
use jp4agent.Regex.{Regex, group, line_start, line_end, boundary, ahead}
use jp4agent.Regex.Notation.{lit, lit_codes, any_of, none_of, plus, spaces, spaces1, ◌▹◌, ◌∣∣◌}
use jp4agent.Regex.Find.{Found, match, matches, searches, find_all, group_or}
use jp4agent.Lint.Report.{Report}
use jp4agent.Cleanse.Lines.{CleansedLines, line_at}

-- _ALT_TOKEN_REPLACEMENT
abbrev alt_token_replacement : List (Text × Text)
alt_token_replacement =
    (codes "and", codes "&&")
    ∷ (codes "bitor", codes "|")
    ∷ (codes "or", codes "||")
    ∷ (codes "xor", codes "^")
    ∷ (codes "compl", codes "~")
    ∷ (codes "bitand", codes "&")
    ∷ (codes "and_eq", codes "&=")
    ∷ (codes "or_eq", codes "|=")
    ∷ (codes "xor_eq", codes "^=")
    ∷ (codes "not", codes "!")
    ∷ (codes "not_eq", codes "!=")
    ∷ []

unfoldable pub replacement : Text → List (Text × Text) → Text
replacement token [] = []
replacement token ((alt, op) ∷ rest) = if text_eq alt token then op else replacement token rest

-- The alternatives of the tokens. What stands behind one decides which alternative is taken, so that
-- their order, which is that of the keys of a dictionary, has no effect.
abbrev one_of_tokens : List (Text × Text) → Regex
one_of_tokens [] = any_of ""
one_of_tokens ((alt, _) ∷ rest) = lit_codes alt ∣∣ one_of_tokens rest

-- [ =()](and|...)(?=[ (]|$)
abbrev alt_token_pattern : Regex
alt_token_pattern =
    any_of " =()" ▹ group 1 (one_of_tokens alt_token_replacement) ▹ ahead (any_of " (" ∣∣ line_end)

alt_token_report : Text → ℕ → Text → Report
alt_token_report filename linenum token = record {
  filename = filename;
  linenum = linenum;
  category = codes "readability/alt_tokens";
  confidence = 2;
  message =
      codes "Use operator "
      ++ (replacement token alt_token_replacement ++ (codes " instead of " ++ token));
}

alt_token_reports : Text → ℕ → List Found → List Report
unfolding alt_token_report
alt_token_reports filename linenum [] = []
alt_token_reports filename linenum (m ∷ ms) =
    alt_token_report filename linenum (group_or 1 m) ∷ alt_token_reports filename linenum ms

-- CheckAltTokens
unfoldable pub check_alt_tokens : Text → CleansedLines → ℕ → List Report
unfolding alt_token_reports
check_alt_tokens filename clean_lines linenum =
    let line = line_at clean_lines.elided linenum in
    if matches (line_start ▹ spaces ▹ lit "#") line
      || contains line (codes "/*")
      || contains line (codes "*/")
    then []
    else alt_token_reports filename linenum (find_all alt_token_pattern line)

-- \s*#\s*include\s+[<"]([^<"]+)[">]
abbrev any_include_pattern : Regex
any_include_pattern =
    spaces
    ▹ lit "#"
    ▹ spaces
    ▹ lit "include"
    ▹ spaces1
    ▹ any_of "<\""
    ▹ group 1 (plus (none_of "<\""))
    ▹ any_of "\">"

abbrev unapproved_headers : List Text
unapproved_headers =
    codes "cfenv"
    ∷ codes "condition_variable"
    ∷ codes "fenv.h"
    ∷ codes "future"
    ∷ codes "mutex"
    ∷ codes "thread"
    ∷ codes "chrono"
    ∷ codes "ratio"
    ∷ codes "regex"
    ∷ codes "system_error"
    ∷ []

feature_report : Text → ℕ → Text → Text → Report
feature_report filename linenum category message = record {
  filename = filename;
  linenum = linenum;
  category = category;
  confidence = 5;
  message = message;
}

header_reports : Text → ℕ → Text → List Report
unfolding feature_report
header_reports filename linenum header =
    (if starts_with header (codes "tr1/")
      then feature_report filename linenum (codes "build/c++tr1")
          (codes "C++ TR1 headers such as <" ++ (header ++ codes "> are unapproved."))
        ∷ []
      else [])
    ++ (if mem_text header unapproved_headers
        then feature_report filename linenum (codes "build/c++11")
            (codes "<" ++ (header ++ codes "> is an unapproved C++11 header."))
          ∷ []
        else [])

name_reports : Text → ℕ → Text → List Text → List Report
unfolding feature_report
name_reports filename linenum line [] = []
name_reports filename linenum line (top_name ∷ rest) =
    (if searches (boundary ▹ lit "std::" ▹ lit_codes top_name ▹ boundary) line
      then feature_report filename linenum (codes "build/c++11") (
          codes "std::"
          ++ (top_name
              ++ codes
                  " is an unapproved C++11 class or function.  Send c-style an example of where it would make your code more readable, and they may let you use it."))
        ∷ []
      else [])
    ++ name_reports filename linenum line rest

-- FlagCxx11Features. A directive that is no definition is looked at for its header only.
unfoldable pub flag_cxx11_features : Text → CleansedLines → ℕ → List Report
unfolding header_reports name_reports
flag_cxx11_features filename clean_lines linenum =
    let line = line_at clean_lines.elided linenum in
    elim (match any_include_pattern line) [
      | none ↦ []
      | some m ↦ header_reports filename linenum (group_or 1 m)
    ]
    ++ (if matches (spaces ▹ lit "#") line
          && not (matches (spaces ▹ lit "#" ▹ spaces ▹ lit "define" ▹ boundary) line)
        then []
        else name_reports filename linenum line (codes "alignment_of" ∷ codes "aligned_union" ∷ []))

-- FlagCxx14Features
unfoldable flag_cxx14_features : Text → CleansedLines → ℕ → List Report
unfolding feature_report
flag_cxx14_features filename clean_lines linenum =
    elim (match any_include_pattern (line_at clean_lines.elided linenum)) [
      | none ↦ []
      | some m ↦
          if mem_text (group_or 1 m) (codes "scoped_allocator" ∷ codes "shared_mutex" ∷ [])
          then feature_report filename linenum (codes "build/c++14")
              (codes "<" ++ (group_or 1 m ++ codes "> is an unapproved C++14 header."))
            ∷ []
          else []
    ]
