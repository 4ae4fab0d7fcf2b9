-- ===== src/Headers/Guards.antt =====
-- GetHeaderGuardCPPVariable and CheckForHeaderGuard of tools/scripts/cpplint.py.
pub mod Macro
pub mod Seen
use jp4agent.Prelude.{
  ℕ, zero, suc, ◌+◌, ◌-◌, Bool, true, false, ◌&&◌, ◌||◌, not, Option, none, some, List, [], ◌∷◌,
  ◌++◌, ◌==◌, ltb, leb, if◌then◌else◌, String, Text, codes, text_eq, replace_all, to_upper, words,
  starts_with, length, take, drop, map,
}
use jp4agent.Regex.{Regex, star, group, boundary, line_start, line_end, cls, dot}
use jp4agent.Regex.Notation.{lit, lit_codes, none_of, opt, spaces, ◌▹◌, ◌∣∣◌}
use jp4agent.Regex.Find.{Found, match, matches, searches, search_in, group_or, group_of}
use jp4agent.Lint.Report.{Report, report}
use jp4agent.Lint.Effects.{Effect, nolint, say}
use jp4agent.Cleanse.Lines.{CleansedLines, line_at}
use jp4agent.Headers.Paths.{path_split_to_list, join_all, strip_list_prefix}
use jp4agent.Headers.Info.{FileSystem, full_name, repository_name}

-- `re.sub(pattern, rep, s)` for a pattern that matches at the end only.
pub replace_end : Regex → (Found → Text) → Text → Text
replace_end r rep s = elim (search_in r s) [
  | none ↦ s
  | some m ↦ take m.start s ++ (rep m ++ m.rest)
]

-- The names of files that flymake makes, and C++ in a name.
pub without_flymake : Text → Text
unfolding replace_end
without_flymake filename =
    let plain = replace_end (lit "_flymake.h" ▹ line_end) (λ _. codes ".h") filename in
    let moved =
      replace_end (lit "/.flymake/" ▹ group 1 (star (none_of "/")) ▹ line_end)
        (λ m. b'/' ∷ group_or 1 m) plain in
    replace_all (replace_all moved (codes "C++") (codes "cpp")) (codes "c++") (codes "cpp")

stripped_by : List Text → Text → Text → Text
stripped_by root path otherwise = elim (strip_list_prefix (path_split_to_list path) root) [
  | some (name ∷ names) ↦ join_all (name ∷ names)
  | _ ↦ otherwise
]

-- FixupPathFromRoot, with the value of --root, empty if it is not given.
pub fixup_path_from_root : FileSystem → Text → Text → Text
unfolding stripped_by
fixup_path_from_root fs root filename =
    let file_path_from_root = repository_name fs filename in
    if length root == 0
    then file_path_from_root
    else stripped_by (path_split_to_list root) file_path_from_root (
        stripped_by (path_split_to_list (fs.abspath root)) (full_name fs filename)
          file_path_from_root)

is_letter_or_digit : ℕ → Bool
is_letter_or_digit c =
    (leb b'a' c && leb c b'z') || (leb b'A' c && leb c b'Z') || (leb b'0' c && leb c b'9')

-- A character of the variable: letters in upper case, _ for all but letters and digits.
pub guard_char : ℕ → ℕ
unfolding is_letter_or_digit to_upper
guard_char c = if is_letter_or_digit c then to_upper c else b'_'

-- GetHeaderGuardCPPVariable
pub get_header_guard_cpp_variable : FileSystem → Text → Text → Text
unfolding without_flymake fixup_path_from_root
get_header_guard_cpp_variable fs root filename =
    map guard_char (fixup_path_from_root fs root (without_flymake filename)) ++ b'_' ∷ []

-- The guard of a file: the variables of its first #ifndef and #define, the line of its last #endif.
pub record Guard : Type 0 where
  pub ifndef : Text
  pub ifndef_linenum : ℕ
  pub define : Text
  pub endif : Text
  pub endif_linenum : ℕ

abbrev pub no_guard : Guard
no_guard = record { ifndef = []; ifndef_linenum = 0; define = []; endif = []; endif_linenum = 0 }

is_empty : Text → Bool
is_empty s = length s == 0

-- The directive of a line with the word behind it.
pub directive : Text → Option (Text × Text)
directive line = elim (words line) [ first ∷ second ∷ _ ↦ some (first, second) | _ ↦ none ]

see_directive : ℕ → Text × Text → Guard → Guard
unfolding is_empty
see_directive linenum (first, second) g =
    let g' =
      if is_empty g.ifndef && text_eq first (codes "#ifndef")
      then record g { ifndef = second; ifndef_linenum = linenum }
      else g in
    if is_empty g.define && text_eq first (codes "#define")
    then record g' { define = second }
    else g'

-- A round of the loop over the lines.
see_line : ℕ → Text → Guard → Guard
unfolding directive see_directive
see_line linenum line g =
    let g' : Guard = elim (directive line) [ none ↦ g | some d ↦ see_directive linenum d g ] in
    if starts_with line (codes "#endif")
    then record g' { endif = line; endif_linenum = linenum }
    else g'

pub find_guard : ℕ → List Text → Guard → Guard
unfolding see_line
find_guard linenum [] g = g
find_guard linenum (line ∷ lines) g = find_guard (linenum + 1) lines (see_line linenum line g)

-- //\s*NOLINT\(build/header_guard\)
unfoldable pub is_guard_suppressed : List Text → Bool
is_guard_suppressed [] = false
is_guard_suppressed (line ∷ lines) =
    searches (lit "//" ▹ spaces ▹ lit "NOLINT(build/header_guard)") line
    || is_guard_suppressed lines

-- ^(?:(?:\'(?:\.|[^\'])*\')|(?:"(?:\.|[^"])*")|[^\'"])*//
abbrev comment_start_pattern : Regex
comment_start_pattern =
    line_start
    ▹ star (
        lit "'" ▹ star (lit "." ∣∣ none_of "'") ▹ lit "'"
        ∣∣ lit "\"" ▹ star (lit "." ∣∣ none_of "\"") ▹ lit "\""
        ∣∣ none_of "'\"")
    ▹ lit "//"

unfoldable pub has_line_comment : List Text → Bool
has_line_comment [] = false
has_line_comment (line ∷ lines) = matches comment_start_pattern line || has_line_comment lines

-- #endif\s*//\s*VARIABLE(_)?\b and #endif\s*/\*\s*VARIABLE(_)?\s*\*/
abbrev pub endif_pattern : Text → Regex
endif_pattern cppvar =
    lit "#endif"
    ▹ spaces
    ▹ lit "//"
    ▹ spaces
    ▹ lit_codes cppvar
    ▹ opt (group 1 (lit "_"))
    ▹ boundary

abbrev pub endif_comment_pattern : Text → Regex
endif_comment_pattern cppvar =
    lit "#endif"
    ▹ spaces
    ▹ lit "/*"
    ▹ spaces
    ▹ lit_codes cppvar
    ▹ opt (group 1 (lit "_"))
    ▹ spaces
    ▹ lit "*/"

guard_report : Text → ℕ → ℕ → Text → Effect
guard_report filename linenum confidence message =
    say (report filename linenum "build/header_guard" confidence message)

-- A second underscore is reported in a low voice.
underscore_effects : Text → ℕ → Text → Found → List Effect
unfolding guard_report is_empty
underscore_effects filename linenum message m =
    if is_empty (group_or 1 m) then [] else guard_report filename linenum 0 message ∷ []

unfoldable pub endif_effects : Text → List Text → Text → Guard → List Effect
unfolding guard_report underscore_effects
endif_effects filename raw_lines cppvar g =
    let message = codes "#endif line should be \"#endif  // " ++ (cppvar ++ codes "\"") in
    let last_resort = guard_report filename g.endif_linenum 5 message ∷ [] in
    elim (match (endif_pattern cppvar) g.endif) [
      | some m ↦ underscore_effects filename g.endif_linenum message m
      | none ↦
          if has_line_comment (drop 1 (take (length raw_lines - 1) raw_lines))
          then last_resort
          else elim (match (endif_comment_pattern cppvar) g.endif) [
            | none ↦ last_resort
            | some m ↦
                underscore_effects filename g.endif_linenum
                  (codes "#endif line should be \"#endif  /* " ++ (cppvar ++ codes " */\"")) m
          ]
    ]

-- A guard of another name than the variable
unfoldable pub style_effects : Text → List Text → Text → Guard → List Effect
unfolding guard_report
style_effects filename raw_lines cppvar g =
    if text_eq g.ifndef cppvar
    then []
    else nolint (line_at raw_lines g.ifndef_linenum) g.ifndef_linenum
      ∷ guard_report filename g.ifndef_linenum
          (if text_eq g.ifndef (cppvar ++ b'_' ∷ []) then 0 else 5)
          (codes "#ifndef header guard has wrong style, please use: " ++ cppvar)
      ∷ []

unfoldable pub lacks_guard : Guard → Bool
unfolding is_empty
lacks_guard g = is_empty g.ifndef || is_empty g.define || not (text_eq g.ifndef g.define)

-- CheckForHeaderGuard
unfoldable pub check_for_header_guard : FileSystem → Text → Text → CleansedLines → List Effect
unfolding guard_report find_guard style_effects endif_effects
check_for_header_guard fs root filename clean_lines =
    let raw_lines = clean_lines.lines_without_raw_strings in
    let cppvar = get_header_guard_cpp_variable fs root filename in
    let g = find_guard 0 raw_lines no_guard in
    if is_guard_suppressed raw_lines
    then []
    else if lacks_guard g
    then guard_report filename 0 5
        (codes "No #ifndef header guard found, suggested CPP variable is: " ++ cppvar)
      ∷ []
    else style_effects filename raw_lines cppvar g
      ++ nolint (line_at raw_lines g.endif_linenum) g.endif_linenum
        ∷ endif_effects filename raw_lines cppvar g
