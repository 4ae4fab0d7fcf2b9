-- ===== src/Process/Ends/Guards.antt =====
-- CheckForHeaderGuard of tools/scripts/cpplint.py raises no exception.
use jp4agent.Prelude.{ℕ, List, Text, Option-cases, inl, inr}
use jp4agent.Regex.Find.{match}
use jp4agent.Lint.Effects.Quiet.{AllQuiet, quiet}
use jp4agent.Cleanse.Lines.{CleansedLines, line_at}
use jp4agent.Headers.Guards.{
  Guard, check_for_header_guard, style_effects, endif_effects, endif_pattern, endif_comment_pattern,
}
use jp4agent.Process.Style.{Environment}
use jp4agent.Process.File.{guard_effects}

endif-AllQuiet :
    (P : Text → Type 0) (f : Text) (raw : List Text) (v : Text) (g : Guard)
    → AllQuiet P (endif_effects f raw v g)
unfolding endif_effects
endif-AllQuiet P f raw v g = elim (Option-cases (match (endif_pattern v) g.endif)) [
  | inl e ↦ elim (Option-cases (match (endif_comment_pattern v) g.endif)) [
    | inl h ↦ rw (e, h, endif_effects) (search quiet)
    | inr (m, h) ↦ rw (e, h, endif_effects) (search quiet)
  ]
  | inr (m, e) ↦ rw (e, endif_effects) (search quiet)
]

module _ (P : Text → Type 0) (cl : CleansedLines)
    (read : (k : ℕ) → P (line_at cl.lines_without_raw_strings k)) where
  style-AllQuiet :
      (f v : Text) (g : Guard) → AllQuiet P (style_effects f cl.lines_without_raw_strings v g)
  unfolding style_effects
  style-AllQuiet f v g = search (quiet, read)

  header_guard-AllQuiet :
      (env : Environment) (f : Text)
      → AllQuiet P (check_for_header_guard env.file_system env.root f cl)
  unfolding check_for_header_guard
  header_guard-AllQuiet env f = search (quiet, read, style-AllQuiet, endif-AllQuiet) depth 9

  pub guard-AllQuiet : (env : Environment) (f ext : Text) → AllQuiet P (guard_effects env f ext cl)
  unfolding guard_effects
  guard-AllQuiet env f ext = search (quiet, header_guard-AllQuiet)
