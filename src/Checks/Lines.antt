-- ===== src/Checks/Lines.antt =====
-- CheckForMultilineCommentsAndStrings, CheckPosixThreading, CheckVlogArguments, CheckInvalidIncrement and
-- CheckMakePairUsesDeduction of tools/scripts/cpplint.py.
use jp4agent.Prelude.{
  ℕ, ◌-◌, ◌%◌, List, [], ◌∷◌, ◌++◌, ◌==◌, ltb, if◌then◌else◌, Text, codes, count, replace_all,
}
use jp4agent.Regex.{Regex, cls, group, line_start, boundary, word}
use jp4agent.Regex.Notation.{lit, lit_codes, any_of, none_of, plus, spaces, spaces1, ◌▹◌, ◌∣∣◌}
use jp4agent.Regex.Find.{matches, searches}
use jp4agent.Lint.Report.{Report}
use jp4agent.Cleanse.Lines.{CleansedLines, line_at}

-- line.replace('\\\\', ''): escaped backslashes
pub without_escaped_backslashes : Text → Text
without_escaped_backslashes line = replace_all line (codes "\\\\") []

multiline_comment : Text → ℕ → Report
multiline_comment filename linenum = record {
  filename = filename;
  linenum = linenum;
  category = codes "readability/multiline_comment";
  confidence = 5;
  message =
      codes
        "Complex multi-line /*...*/-style comment found. Lint may give bogus warnings.  Consider replacing these with //-style comments, with #if 0...#endif, or with more clearly structured multi-line comments.";
}

multiline_string : Text → ℕ → Report
multiline_string filename linenum = record {
  filename = filename;
  linenum = linenum;
  category = codes "readability/multiline_string";
  confidence = 5;
  message =
      codes
        "Multi-line string (\"...\") found.  This lint script doesn't do well with such strings, and may give bogus warnings.  Use C++11 raw strings or concatenation instead.";
}

-- CheckForMultilineCommentsAndStrings. A quote with a backslash is a quote, so that the difference of
-- the two counts is no negative number.
unfoldable pub check_for_multiline_comments_and_strings : Text → CleansedLines → ℕ → List Report
unfolding without_escaped_backslashes multiline_comment multiline_string
check_for_multiline_comments_and_strings filename clean_lines linenum =
    let line = without_escaped_backslashes (line_at clean_lines.elided linenum) in
    (if ltb (count line (codes "*/")) (count line (codes "/*"))
      then multiline_comment filename linenum ∷ []
      else [])
    ++ (if (count line (codes "\"") - count line (codes "\\\"")) % 2 == 0
        then []
        else multiline_string filename linenum ∷ [])

-- The names of _THREADING_LIST, with what its patterns ask between the brackets.
pub data Arguments : Type 0 where
  some_arguments no_arguments : Arguments

abbrev threading_list : List (Text × Arguments)
threading_list =
    (codes "asctime", some_arguments)
    ∷ (codes "ctime", some_arguments)
    ∷ (codes "getgrgid", some_arguments)
    ∷ (codes "getgrnam", some_arguments)
    ∷ (codes "getlogin", no_arguments)
    ∷ (codes "getpwnam", some_arguments)
    ∷ (codes "getpwuid", some_arguments)
    ∷ (codes "gmtime", some_arguments)
    ∷ (codes "localtime", some_arguments)
    ∷ (codes "rand", no_arguments)
    ∷ (codes "strtok", some_arguments)
    ∷ (codes "ttyname", some_arguments)
    ∷ []

-- (?:[-+*/=%^&|(<]\s*|>\s+)
abbrev unsafe_func_prefix : Regex
unsafe_func_prefix = any_of "-+*/=%^&|(<" ▹ spaces ∣∣ lit ">" ▹ spaces1

arguments_pattern : Arguments → Regex
arguments_pattern some_arguments = lit "(" ▹ plus (none_of ")") ▹ lit ")"
arguments_pattern no_arguments = lit "()"

-- The pattern of an entry
unsafe_pattern : Text → Arguments → Regex
unfolding arguments_pattern
unsafe_pattern name arguments = unsafe_func_prefix ▹ lit_codes name ▹ arguments_pattern arguments

thread_unsafe : Text → ℕ → Text → Report
thread_unsafe filename linenum name = record {
  filename = filename;
  linenum = linenum;
  category = codes "runtime/threadsafe_fn";
  confidence = 2;
  message =
      codes "Consider using "
      ++ (name
          ++ (codes "_r(...) instead of " ++ (name ++ codes "(...) for improved thread safety.")));
}

threading_reports : Text → ℕ → Text → List (Text × Arguments) → List Report
unfolding unsafe_pattern thread_unsafe
threading_reports filename linenum line [] = []
threading_reports filename linenum line ((name, arguments) ∷ rest) =
    (if searches (unsafe_pattern name arguments) line
      then thread_unsafe filename linenum name ∷ []
      else [])
    ++ threading_reports filename linenum line rest

-- CheckPosixThreading
unfoldable pub check_posix_threading : Text → CleansedLines → ℕ → List Report
unfolding threading_reports
check_posix_threading filename clean_lines linenum =
    threading_reports filename linenum (line_at clean_lines.elided linenum) threading_list

-- \bVLOG\((INFO|ERROR|WARNING|DFATAL|FATAL)\)
abbrev vlog_pattern : Regex
vlog_pattern =
    boundary
    ▹ lit "VLOG("
    ▹ group 1 (lit "INFO" ∣∣ lit "ERROR" ∣∣ lit "WARNING" ∣∣ lit "DFATAL" ∣∣ lit "FATAL")
    ▹ lit ")"

vlog_report : Text → ℕ → Report
vlog_report filename linenum = record {
  filename = filename;
  linenum = linenum;
  category = codes "runtime/vlog";
  confidence = 5;
  message =
      codes
        "VLOG() should be used with numeric verbosity level.  Use LOG() if you want symbolic severity levels.";
}

-- CheckVlogArguments
unfoldable pub check_vlog_arguments : Text → CleansedLines → ℕ → List Report
unfolding vlog_report
check_vlog_arguments filename clean_lines linenum =
    if searches vlog_pattern (line_at clean_lines.elided linenum)
    then vlog_report filename linenum ∷ []
    else []

-- ^\s*\*\w+(\+\+|--);
abbrev invalid_increment_pattern : Regex
invalid_increment_pattern =
    line_start ▹ spaces ▹ lit "*" ▹ plus (cls word) ▹ group 1 (lit "++" ∣∣ lit "--") ▹ lit ";"

increment_report : Text → ℕ → Report
increment_report filename linenum = record {
  filename = filename;
  linenum = linenum;
  category = codes "runtime/invalid_increment";
  confidence = 5;
  message = codes "Changing pointer instead of value (or unused value of operator*).";
}

-- CheckInvalidIncrement
unfoldable pub check_invalid_increment : Text → CleansedLines → ℕ → List Report
unfolding increment_report
check_invalid_increment filename clean_lines linenum =
    if matches invalid_increment_pattern (line_at clean_lines.elided linenum)
    then increment_report filename linenum ∷ []
    else []

make_pair_report : Text → ℕ → Report
make_pair_report filename linenum = record {
  filename = filename;
  linenum = linenum;
  category = codes "build/explicit_make_pair";
  confidence = 4;
  message =
      codes
        "For C++11-compatibility, omit template arguments from make_pair OR use pair directly OR if appropriate, construct a pair directly";
}

-- CheckMakePairUsesDeduction, by \bmake_pair\s*<
unfoldable pub check_make_pair_uses_deduction : Text → CleansedLines → ℕ → List Report
unfolding make_pair_report
check_make_pair_uses_deduction filename clean_lines linenum =
    if searches (boundary ▹ lit "make_pair" ▹ spaces ▹ lit "<") (line_at clean_lines.elided linenum)
    then make_pair_report filename linenum ∷ []
    else []
