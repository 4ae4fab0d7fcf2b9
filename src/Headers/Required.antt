-- ===== src/Headers/Required.antt =====
-- UpdateIncludeState and CheckForIncludeWhatYouUse of tools/scripts/cpplint.py. A dictionary is the list of
-- its items in the order in which the keys came in; in the source that order is not fixed.
use jp4agent.Prelude.{
  ℕ, ◌+◌, Bool, true, false, ◌&&◌, ◌||◌, not, none, some, List, [], ◌∷◌, ◌++◌, ◌==◌, if◌then◌else◌,
  Text, codes, contains, text_eq, ends_with, starts_with, mem_text, length, take, reverse,
}
use jp4agent.Regex.{Regex, star_lazy, group, boundary, line_end, cls, dot}
use jp4agent.Regex.Notation.{lit, lit_codes, none_of, opt, spaces, ◌▹◌, ◌∣∣◌}
use jp4agent.Regex.Find.{search_in, searches, group_or}
use jp4agent.Lint.Report.{Report, report}
use jp4agent.Cleanse.Lines.{CleansedLines}
use jp4agent.Cleanse.Comments.{cleanse_comments}
use jp4agent.Include.{IncludeState}
use jp4agent.Headers.Info.{FileSystem, full_name}
use jp4agent.Headers.Guards.{replace_end}
use jp4agent.Headers.Lines.{include_pattern}
use jp4agent.Headers.Modules.{files_belong_to_same_module, flatten}
use jp4agent.Headers.Templates.{headers_containing_templates, headers_maybe_templates}

-- What a header is required for: its name between < and >, a line, and the name that stands there.
abbrev pub Required : Type 0
Required = List (Text × ℕ × Text)

-- `required[header] = (linenum, template)`
pub require : Text → ℕ → Text → Required → Required
require header linenum template [] = (header, linenum, template) ∷ []
require header linenum template ((h, n, t) ∷ rest) =
    if text_eq h header
    then (h, linenum, template) ∷ rest
    else (h, n, t) ∷ require header linenum template rest

-- The name is not of another namespace than std.
is_std : Text → ℕ → Bool
is_std line start =
    let prefix = take start line in
    ends_with prefix (codes "std::") || not (ends_with prefix (codes "::"))

require_found : Regex → Text → Text → Text → ℕ → Required → Required
unfolding is_std require
require_found r header template line linenum required = elim (search_in r line) [
  | none ↦ required
  | some m ↦ if is_std line m.start then require header linenum template required else required
]

-- [^>.]\bname(<.*?>)?\([^\)]
abbrev pub call_pattern : Text → Regex
call_pattern name =
    none_of ">."
    ▹ boundary
    ▹ lit_codes name
    ▹ opt (group 1 (lit "<" ▹ star_lazy (cls dot) ▹ lit ">"))
    ▹ lit "("
    ▹ none_of ")"

-- (\<|\b)name\s*\<
abbrev template_pattern : Text → Regex
template_pattern name = group 1 (lit "<" ∣∣ boundary) ▹ lit_codes name ▹ spaces ▹ lit "<"

require_calls : List Text → Text → Text → ℕ → Required → Required
unfolding require
require_calls [] header line linenum required = required
require_calls (name ∷ names) header line linenum required =
    require_calls names header line linenum
      (if searches (call_pattern name) line then require header linenum name required else required)

require_all_calls : List (Text × List Text) → Text → ℕ → Required → Required
unfolding require_calls
require_all_calls [] line linenum required = required
require_all_calls ((header, names) ∷ rest) line linenum required =
    require_all_calls rest line linenum (require_calls names header line linenum required)

require_templates : List Text → Text → Text → ℕ → Required → Required
unfolding require_found
require_templates [] header line linenum required = required
require_templates (name ∷ names) header line linenum required =
    require_templates names header line linenum
      (require_found (template_pattern name) header (name ++ codes "<>") line linenum required)

require_all_templates : List (Text × List Text) → Text → ℕ → Required → Required
unfolding require_templates
require_all_templates [] line linenum required = required
require_all_templates ((header, names) ∷ rest) line linenum required =
    require_all_templates rest line linenum (require_templates names header line linenum required)

-- A line of code. A line that is empty or a directive requires nothing.
require_line : ℕ → Text → Required → Required
unfolding require_found require_all_calls require_all_templates
require_line linenum line required =
    let with_string =
      require_found (boundary ▹ lit "string" ▹ boundary) (codes "<string>") (codes "string") line
        linenum required in
    let with_calls = require_all_calls headers_maybe_templates line linenum with_string in
    if length line == 0 || starts_with line (codes "#")
    then required
    else if contains line (codes "<")
    then require_all_templates headers_containing_templates line linenum with_calls
    else with_calls

require_lines : ℕ → List Text → Required → Required
unfolding require_line
require_lines linenum [] required = required
require_lines linenum (line ∷ lines) required =
    require_lines (linenum + 1) lines (require_line linenum line required)

-- The keys of include_dict. The headers that a file of lines includes are added to them.
update_include_keys : List Text → List Text → List Text
update_include_keys [] keys = keys
update_include_keys (line ∷ lines) keys =
    update_include_keys lines (elim (search_in include_pattern (cleanse_comments line)) [
      | none ↦ keys
      | some m ↦ if mem_text (group_or 2 m) keys then keys else keys ++ group_or 2 m ∷ []
    ])

-- UpdateIncludeState, with its answer
update_include_state : FileSystem → Text → List Text → Bool × List Text
unfolding update_include_keys
update_include_state fs filename keys = elim (fs.read_lines filename) [
  | none ↦ (false, keys)
  | some lines ↦ (true, update_include_keys lines keys)
]

-- The loop over the headers that are included, with `header_found`.
read_headers : FileSystem → Text → List Text → Bool → List Text → Bool × List Text
unfolding update_include_state
read_headers fs abs_filename [] header_found keys = (header_found, keys)
read_headers fs abs_filename (header ∷ headers) header_found keys =
    let (same_module, common_path) = files_belong_to_same_module fs abs_filename header in
    let (was_read, more) = update_include_state fs (common_path ++ header) keys in
    read_headers fs abs_filename headers (header_found || (same_module && was_read))
      (if same_module then more else keys)

header_names : List (Text × ℕ) → List Text
header_names [] = []
header_names ((header, _) ∷ rest) = header ∷ header_names rest

-- required_header_unstripped.strip('<>"')
is_quote : ℕ → Bool
is_quote c = c == b'<' || c == b'>' || c == b'"'

drop_quotes : Text → Text
unfolding is_quote
drop_quotes [] = []
drop_quotes (c ∷ s) = if is_quote c then drop_quotes s else c ∷ s

strip_quotes : Text → Text
unfolding drop_quotes
strip_quotes s = reverse (drop_quotes (reverse (drop_quotes s)))

required_reports : Text → List Text → Required → List Report
unfolding strip_quotes
required_reports filename keys [] = []
required_reports filename keys ((header, linenum, template) ∷ rest) =
    (if mem_text (strip_quotes header) keys
      then []
      else report filename linenum "build/include_what_you_use" 4
          (codes "Add #include " ++ (header ++ (codes " for " ++ template)))
        ∷ [])
    ++ required_reports filename keys rest

-- CheckForIncludeWhatYouUse
unfoldable pub check_for_include_what_you_use :
    FileSystem → Text → CleansedLines → IncludeState → List Report
unfolding require_lines read_headers header_names required_reports
check_for_include_what_you_use fs filename clean_lines s =
    let included = header_names (flatten s.include_list) in
    let abs_filename =
      replace_end (lit "_flymake.cc" ▹ line_end) (λ _. codes ".cc") (full_name fs filename) in
    let (header_found, keys) = read_headers fs abs_filename included false included in
    if ends_with filename (codes ".cc") && not header_found
    then []
    else required_reports filename keys (require_lines 0 clean_lines.elided [])
