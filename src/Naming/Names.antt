-- ===== src/Naming/Names.antt =====
-- What the checks JuniperCheck* of tools/scripts/cpplint.py share.
use jp4agent.Prelude.{ℕ, List, [], ◌∷◌, ◌++◌, if◌then◌else◌, Text, codes, words, last?, none, some}
use jp4agent.Regex.{Regex, cls, star, group, line_start, word, space, range, either, other, one}
use jp4agent.Regex.Notation.{lit, plus, ◌▹◌, ◌∣∣◌}
use jp4agent.Regex.Find.{searches}
use jp4agent.Lint.Report.{Report}

-- KEYWORDS, EXCLUDE_AFI_MEMBER_FUNC
abbrev pub keywords : List Text
keywords = codes "static_assert" ∷ codes "hash" ∷ codes "iterator" ∷ codes "make_tuple" ∷ []

abbrev pub excluded_functions : List Text
excluded_functions =
    codes "SetUp" ∷ codes "TearDown" ∷ codes "SetUpTestCase" ∷ codes "TearDownTestCase" ∷ []

-- [a-zA-Z0-9]_+[a-zA-Z0-9]
abbrev pub underscore_pattern : Regex
underscore_pattern =
    let letter = cls (either (range b'a' b'z') (either (range b'A' b'Z') (range b'0' b'9'))) in
    letter ▹ plus (lit "_") ▹ letter

-- ^[^A-Z]
abbrev pub not_upper_pattern : Regex
not_upper_pattern = line_start ▹ cls (other (range b'A' b'Z'))

-- [A-Z_]+$
abbrev pub macro_class : Regex
macro_class = cls (either (range b'A' b'Z') (one b'_'))

-- A message that names what it is about. `_APPEND_AFI` is the empty text.
unfoldable pub identifier_report : Text → ℕ → ℕ → Text → Text → Text → Report
identifier_report filename linenum confidence before name after = record {
  filename = filename;
  linenum = linenum;
  category = codes "Juniper/Identifier";
  confidence = confidence;
  message = before ++ (name ++ after);
}

-- The report on a name with underscores between letters.
unfoldable pub underscore_reports : Text → ℕ → ℕ → Text → List Report
unfolding identifier_report
underscore_reports filename linenum confidence name =
    if searches underscore_pattern name
    then identifier_report filename linenum confidence
        (codes "Use upper/lower case variations instead of underscores in '") name (codes "'.")
      ∷ []
    else []

-- (\w(\w|::|\*|\&|\s)*)
abbrev pub declarator_pattern : Regex
declarator_pattern =
    group 1 (cls word ▹ star (group 2 (cls word ∣∣ lit "::" ∣∣ lit "*" ∣∣ lit "&" ∣∣ cls space)))

-- text.split()[-1]; the text of a declarator has a word
unfoldable pub last_word : Text → Text
last_word t = elim (last? (words t)) [ none ↦ [] | some w ↦ w ]
