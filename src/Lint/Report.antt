-- ===== src/Lint/Report.antt =====
-- The arguments of a call of the error handler of tools/scripts/cpplint.py. A check is a function that
-- returns the reports it makes, in the order of its calls.
use jp4agent.Prelude.{ℕ, Bool, List, [], ◌∷◌, if◌then◌else◌, String, Text, codes}

pub record Report : Type 0 where
  pub filename : Text
  pub linenum : ℕ
  pub category : Text
  pub confidence : ℕ
  pub message : Text

-- `error(filename, linenum, category, confidence, message)`
unfoldable pub report : Text → ℕ → String → ℕ → Text → Report
report filename linenum category confidence message = record {
  filename = filename;
  linenum = linenum;
  category = codes category;
  confidence = confidence;
  message = message;
}

-- `if test: error(...)`
unfoldable pub report_if : Bool → Report → List Report
report_if test r = if test then r ∷ [] else []
