-- ===== src/Language/Arrays.antt =====
-- What CheckLanguage of tools/scripts/cpplint.py says of arrays of variable length.
use jp4agent.Prelude.{
  ℕ, Bool, true, false, ◌&&◌, ◌||◌, not, none, some, List, [], ◌∷◌, ◌==◌, if◌then◌else◌, Text,
  codes, text_eq, contains, starts_with, lstrip_char, rstrip_char, length,
}
use jp4agent.Regex.{Regex, star, group, cls, space, digit, range, word, one, either, dot}
use jp4agent.Regex.Notation.{lit, any_of, opt, plus, spaces, words1, ◌▹◌, ◌∣∣◌}
use jp4agent.Regex.Find.{Found, match, matches, searches, split_matches, group_or}
use jp4agent.Lint.Report.{Report, report, report_if}

-- \s*(.+::)?(\w+) [a-z]\w*\[(.+)];
abbrev array_pattern : Regex
array_pattern =
    spaces
    ▹ opt (group 1 (plus (cls dot) ▹ lit "::"))
    ▹ group 2 words1
    ▹ lit " "
    ▹ cls (range b'a' b'z')
    ▹ star (cls word)
    ▹ lit "["
    ▹ group 3 (plus (cls dot))
    ▹ lit "];"

-- \s|\+|\-|\*|\/|<<|>>]
abbrev separator_pattern : Regex
separator_pattern = cls space ∣∣ any_of "+-*/" ∣∣ lit "<<" ∣∣ lit ">>]"

-- [A-Z0-9]
abbrev upper_or_digit : Regex
upper_or_digit = cls (either (range b'A' b'Z') digit)

-- Numbers, k and a name, names in upper case; both with a namespace.
names_constant : Text → Bool
names_constant tok =
    let namespace : Regex = opt (plus (cls dot) ▹ lit "::") in
    matches (plus (cls digit)) tok
    || matches
        (lit "0"
          ▹ any_of "xX"
          ▹ plus (cls (either digit (either (range b'a' b'f') (range b'A' b'F')))))
        tok
    || matches (namespace ▹ lit "k" ▹ upper_or_digit ▹ star (cls word)) tok
    || matches
        (namespace
          ▹ cls (range b'A' b'Z')
          ▹ star (cls (either (either (range b'A' b'Z') digit) (one b'_'))))
        tok

-- A token that is passed over.
is_constant : Text → Bool
unfolding names_constant
is_constant token =
    let tok = rstrip_char b')' (lstrip_char b'(' token) in
    searches (lit "sizeof(" ▹ plus (cls dot) ▹ lit ")") token
    || searches (lit "arraysize(" ▹ words1 ▹ lit ")") token
    || length tok == 0
    || names_constant tok

-- The loop over the tokens; the token behind `sizeof` is skipped.
all_constant : Bool → List Text → Bool
unfolding is_constant
all_constant skip_next [] = true
all_constant skip_next (token ∷ tokens) =
    let is_sizeof = starts_with (lstrip_char b'(' token) (codes "sizeof") in
    let later = all_constant (not skip_next && not (is_constant token) && is_sizeof) tokens in
    if skip_next || is_constant token || is_sizeof then later else false

is_variable_length : Found → Bool
unfolding all_constant
is_variable_length m =
    not (text_eq (group_or 2 m) (codes "return"))
    && not (text_eq (group_or 2 m) (codes "delete"))
    && not (contains (group_or 3 m) (codes "]"))
    && not (all_constant false (split_matches separator_pattern (group_or 3 m)))

unfoldable pub array_reports : Text → ℕ → Text → List Report
unfolding is_variable_length
array_reports filename linenum line = elim (match array_pattern line) [
  | none ↦ []
  | some m ↦ report_if (is_variable_length m) (
      report filename linenum "runtime/arrays" 1 (
        codes
          "Do not use variable-length arrays.  Use an appropriately named ('k' followed by CamelCase) compile-time constant for the size."))
]
