-- ===== src/Lint/Suppress.antt =====
-- The NOLINT comments: ParseNolintSuppressions, ProcessGlobalSuppresions, ResetNolintSuppressions and
-- IsErrorSuppressedByNolint of tools/scripts/cpplint.py, over the two dictionaries as one value.
pub mod Laws
use jp4agent.Prelude.{
  ℕ, suc, ◌+◌, ◌-◌, Bool, true, false, ◌&&◌, ◌||◌, not, Option, none, some, List, [], ◌∷◌, ◌++◌,
  ◌==◌, if◌then◌else◌, is_some, Text, codes, text_eq, mem_text, starts_with, ends_with, take, drop,
  length,
}
use jp4agent.Regex.{Regex, seq, group, boundary, line_end, star, cls, space}
use jp4agent.Regex.Notation.{lit, opt, plus, none_of, any, spaces, ◌▹◌, ◌∣∣◌}
use jp4agent.Regex.Find.{Found, search_in, searches, group_of}
use jp4agent.Lint.Categories.{
  error_categories, legacy_error_categories, default_c_suppressed_categories,
  default_kernel_suppressed_categories,
}
use jp4agent.Lint.Report.{Report}

-- `lines` holds a pair for each line number in the set of a category, `none` for the key None.
-- `everywhere` holds the keys of `_global_error_suppressions`, whose values are all True.
pub record Suppressions : Type 0 where
  pub lines : List (Option Text × ℕ)
  pub everywhere : List Text

-- ResetNolintSuppressions
abbrev pub no_suppressions : Suppressions
no_suppressions = record { lines = []; everywhere = [] }

-- \bNOLINT(NEXTLINE)?\b(\([^)]+\))?
abbrev pub nolint_pattern : Regex
nolint_pattern =
    boundary
    ▹ lit "NOLINT"
    ▹ opt (group 1 (lit "NEXTLINE"))
    ▹ boundary
    ▹ opt (group 2 (lit "(" ▹ plus (none_of ")") ▹ lit ")"))

-- _error_suppressions.setdefault(key, set()).add(line)
suppress : Option Text → ℕ → Suppressions → Suppressions
suppress key line s = record s { lines = (key, line) ∷ s.lines }

unknown_category : Text → ℕ → Text → Report
unknown_category filename linenum category = record {
  filename = filename;
  linenum = linenum;
  category = codes "readability/nolint";
  confidence = 5;
  message = codes "Unknown NOLINT error category: " ++ category;
}

-- category[1:-1]
pub inside : Text → Text
inside category = drop 1 (take (length category - 1) category)

-- What is done for one NOLINT comment with this text in brackets.
pub apply_nolint : Text → ℕ → ℕ → Option Text → Suppressions → Suppressions × List Report
unfolding suppress unknown_category inside
apply_nolint filename linenum suppressed_line none s = (suppress none suppressed_line s, [])
apply_nolint filename linenum suppressed_line (some category) s =
    if text_eq category (codes "(*)")
    then (suppress none suppressed_line s, [])
    else if starts_with category (codes "(") && ends_with category (codes ")")
    then (if mem_text (inside category) error_categories
        then (suppress (some (inside category)) suppressed_line s, [])
        else if not (mem_text (inside category) legacy_error_categories)
        then (s, unknown_category filename linenum (inside category) ∷ [])
        else (s, []))
    else (s, [])

-- ParseNolintSuppressions
unfoldable pub parse_nolint_suppressions :
    Text → Text → ℕ → Suppressions → Suppressions × List Report
unfolding apply_nolint
parse_nolint_suppressions filename raw_line linenum s = elim (search_in nolint_pattern raw_line) [
  | none ↦ (s, [])
  | some matched ↦
      apply_nolint filename linenum (if is_some (group_of 1 matched) then linenum + 1 else linenum)
        (group_of 2 matched) s
]

-- \b(?:LINT_C_FILE|vim?:\s*.*(\s*|:)filetype=c(\s*|:|$))
abbrev pub c_file_pattern : Regex
c_file_pattern =
    boundary
    ▹ (lit "LINT_C_FILE"
        ∣∣ lit "vi"
          ▹ opt (lit "m")
          ▹ lit ":"
          ▹ spaces
          ▹ any
          ▹ group 1 (spaces ∣∣ lit ":")
          ▹ lit "filetype=c"
          ▹ group 2 (spaces ∣∣ lit ":" ∣∣ line_end))

-- \b(?:LINT_KERNEL_FILE)
abbrev pub kernel_file_pattern : Regex
kernel_file_pattern = boundary ▹ lit "LINT_KERNEL_FILE"

-- ProcessGlobalSuppresions
pub process_global_suppressions : List Text → Suppressions → Suppressions
process_global_suppressions [] s = s
process_global_suppressions (line ∷ lines) s =
    let for_c = if searches c_file_pattern line then default_c_suppressed_categories else [] in
    let for_kernel =
      if searches kernel_file_pattern line then default_kernel_suppressed_categories else [] in
    process_global_suppressions lines
      (record s { everywhere = for_kernel ++ (for_c ++ s.everywhere) })

-- `linenum in _error_suppressions.get(key, set())`
same_key : Option Text → Option Text → Bool
same_key none none = true
same_key (some a) (some b) = text_eq a b
same_key _ _ = false

is_listed : Option Text → ℕ → List (Option Text × ℕ) → Bool
unfolding same_key
is_listed key line [] = false
is_listed key line ((k, n) ∷ rest) = (same_key key k && line == n) || is_listed key line rest

-- IsErrorSuppressedByNolint
pub is_error_suppressed_by_nolint : Suppressions → Text → ℕ → Bool
unfolding is_listed
is_error_suppressed_by_nolint s category linenum =
    mem_text category s.everywhere
    || is_listed (some category) linenum s.lines
    || is_listed none linenum s.lines
