-- ===== src/Lint/Effects.antt =====
-- What a check of tools/scripts/cpplint.py does to the globals of the module: it reports errors, and the
-- check of trailing semicolons reads NOLINT comments as well.
pub mod Grew
pub mod Quiet
use jp4agent.Prelude.{ℕ, List, [], ◌∷◌, Text, map}
use jp4agent.Lint.Report.{Report}
use jp4agent.Lint.Suppress.{parse_nolint_suppressions}
use jp4agent.Lint.Handler.{World, error, report_all}

-- ParseNolintSuppressions(filename, raw_line, linenum, error), error(...), and an IndexError.
pub data Effect : Type 0 where
  nolint : Text → ℕ → Effect
  say : Report → Effect
  raise : Effect

pub read_nolint : Text → Text → ℕ → World → World
read_nolint filename raw_line linenum w =
    let (s, reports) = parse_nolint_suppressions filename raw_line linenum w.suppressions in
    report_all reports (record w { suppressions = s })

-- A run that has come to its end, or an exception with the globals that it leaves.
pub data Outcome (A : Type 0) : Type 0 where
  done : A → Outcome A
  raised : World → Outcome A

infixl 5 ◌>>=◌
abbrev pub ◌>>=◌ : {A B : Type 0} → Outcome A → (A → Outcome B) → Outcome B
done a >>= f = f a
raised w >>= f = raised w

unfoldable pub run_effect : Text → Effect → World → Outcome World
unfolding read_nolint
run_effect filename (nolint raw_line linenum) w = done (read_nolint filename raw_line linenum w)
run_effect filename (say r) w = done (error r w)
run_effect filename raise w = raised w

-- The effects of a check, in their order, up to an exception.
unfoldable pub run_effects : Text → List Effect → World → Outcome World
unfolding run_effect
run_effects filename [] w = done w
run_effects filename (e ∷ es) w = run_effect filename e w >>= run_effects filename es

abbrev pub say_all : List Report → List Effect
say_all rs = map say rs
