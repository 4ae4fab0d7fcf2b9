-- ===== src/Samples/Process.antt =====
-- ProcessFileData at small files.
use jp4agent.Prelude.{
  ℕ, zero, suc, ◌<◌, some, arith, length, ◌≡◌, ◌↔◌, refl, true, List, [], ◌∷◌, Text, All, codes,
  starts_with, strip, find, count, replace_all,
}
use jp4agent.Regex.Find.{search_in, match, matches, searches, erase_all}
use jp4agent.Lint.Handler.{World}
use jp4agent.Lint.State.{initial_state}
use jp4agent.Lint.Suppress.{no_suppressions}
use jp4agent.Lint.Effects.{done, raised, run_effects}
use jp4agent.Lint.Effects.Grew.{Grew, Always}
use jp4agent.Cleanse.Lines.{CleansedLines, cleanse, line_at}
use jp4agent.Cleanse.Comments.{cleanse_comments}
use jp4agent.Cleanse.Strings.{collapse_strings}
use jp4agent.Cleanse.RawStrings.{cleanse_raw_strings, scan_line}
use jp4agent.Cleanse.Multiline.{
  find_next_comment_start, first_line, opens_comment, remove_multi_line_comments,
}
use jp4agent.Function.Arguments.{initial_function_arguments}
use jp4agent.Language.Casts.{address_pattern, address_effects}
use jp4agent.Language.Casts.Raised.{IsBadCast, address_raised_iff}
use jp4agent.Process.Style.{default_environment}
use jp4agent.Process.Line.{FileState}
use jp4agent.Process.File.{with_markers, process_file_data}
use jp4agent.Process.Counted.{process_file_data-Grew}
use jp4agent.Process.Ends.{IsHarmless, IsInPlace}
use jp4agent.Process.Ends.Whole.{process_file_data_ends}

abbrev fresh : World
fresh = record { state = initial_state; suppressions = no_suppressions; stderr = [] }

abbrev small_file : List Text
small_file =
    codes "// Copyright 2018 Juniper"
    ∷ codes "#include <vector>"
    ∷ codes "int f(int x) {"
    ∷ codes "  if(x==1){"
    ∷ codes "    return 2 ;"
    ∷ codes "  }"
    ∷ codes "}"
    ∷ []
    ∷ []

process_file_data-Grew_example :
    Always
      (λ p. Grew fresh p.1)
      (Grew fresh)
      (process_file_data default_environment
        (codes "a.cpp")
        (codes "cpp")
        small_file
        initial_function_arguments
        fresh)
process_file_data-Grew_example =
    process_file_data-Grew default_environment (codes "a.cpp") (codes "cpp") small_file
      initial_function_arguments fresh

abbrev tiny_file : List Text
tiny_file = codes "int f(int x) {" ∷ codes "}" ∷ [] ∷ []

abbrev tiny_elided : List Text
tiny_elided =
    (cleanse (remove_multi_line_comments (codes "a.cpp") (with_markers tiny_file)).0).elided

abbrev tiny_clean : List Text
tiny_clean = [] ∷ codes "int f(int x) {" ∷ codes "}" ∷ [] ∷ [] ∷ []

tiny_lines : tiny_elided ≡ tiny_clean
unfolding cleanse remove_multi_line_comments with_markers cleanse_raw_strings
    find_next_comment_start first_line opens_comment starts_with strip cleanse_comments erase_all
    find collapse_strings matches scan_line count replace_all
tiny_lines = refl

at_margin : All IsHarmless tiny_clean
unfolding searches match
at_margin = (
  (refl, λ name m e. absurd (cc e)),
  (
    (refl, λ name m e. absurd (cc e)),
    (
      (refl, λ name m e. absurd (cc e)),
      ((refl, λ name m e. absurd (cc e)), ((refl, λ name m e. absurd (cc e)), tt)),
    ),
  ),
)

tiny-IsHarmless : All IsHarmless tiny_elided
tiny-IsHarmless = rw tiny_lines at_margin

tiny_uncommented :
    (cleanse (remove_multi_line_comments (codes "a.cpp") (with_markers tiny_file)).0).lines
    ≡ tiny_clean
unfolding remove_multi_line_comments with_markers cleanse find_next_comment_start first_line
    opens_comment starts_with strip cleanse_raw_strings scan_line search_in match matches
    cleanse_comments erase_all find count replace_all
tiny_uncommented = refl

abbrev TinyBracket : List Text → List Text → ℕ → Type 0
TinyBracket lines elided n =
    (k : ℕ) → find (line_at lines n) (codes "(") ≡ some k → k < length (line_at elided n)

tiny_inside : (n : ℕ) → TinyBracket tiny_clean tiny_clean n
unfolding find starts_with
tiny_inside zero k h = absurd (cc h)
tiny_inside (suc zero) k h = omega (arith, some_five k h)
  where
    some_five : (k : ℕ) → some 5 ≡ some k → k ≡ 5
    some_five k e = cc
tiny_inside (suc (suc zero)) k h = absurd (cc h)
tiny_inside (suc (suc (suc zero))) k h = absurd (cc h)
tiny_inside (suc (suc (suc (suc zero)))) k h = absurd (cc h)
tiny_inside (suc (suc (suc (suc (suc n))))) k h = absurd (cc h)

tiny-IsInPlace :
    (n : ℕ)
    → IsInPlace (cleanse (remove_multi_line_comments (codes "a.cpp") (with_markers tiny_file)).0) n
tiny-IsInPlace n k declares h = rw tiny_lines (tiny_inside n k (rw tiny_uncommented at h))

process_file_data_ends_example :
    (p : FileState × World) × (process_file_data default_environment
        (codes "a.cpp")
        (codes "cpp")
        tiny_file
        initial_function_arguments
        fresh
      ≡ done p)
process_file_data_ends_example =
    process_file_data_ends default_environment (codes "a.cpp") (codes "cpp") tiny_file
      tiny-IsHarmless tiny-IsInPlace initial_function_arguments fresh

-- The template arguments of a cast whose address is taken close at the end of the line.
abbrev cast_lines : CleansedLines
cast_lines = cleanse (codes "  T *q = &static_cast<T*>" ∷ codes "      (p)[0];" ∷ [])

address_raised_iff_example :
    (run_effects
        (codes "a.cpp")
        (address_effects (codes "a.cpp") cast_lines 0 (codes "  T *q = &static_cast<T*>"))
        fresh
      ≡ raised fresh)
    ↔ ((searches address_pattern (codes "  T *q = &static_cast<T*>") ≡ true)
        × IsBadCast cast_lines 0 (codes "  T *q = &static_cast<T*>"))
address_raised_iff_example =
    address_raised_iff (codes "a.cpp") cast_lines 0 (codes "  T *q = &static_cast<T*>") fresh
