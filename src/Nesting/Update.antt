-- ===== src/Nesting/Update.antt =====
-- NestingState.Update of tools/scripts/cpplint.py, in the order of its parts.
pub mod Parens
pub mod Heads
pub mod Access
pub mod Braces
pub mod Frame
pub mod Fuel
pub mod Regions
use jp4agent.Prelude.{ℕ, Option, none, some, List, [], ◌∷◌, ◌++◌, Text}
use jp4agent.Lint.Report.{Report}
use jp4agent.Cleanse.Lines.{CleansedLines, line_at}
use jp4agent.Nesting.Blocks.{Block, NestingState}
use jp4agent.Nesting.Preprocessor.{update_preprocessor}
use Parens.{count_parentheses}
use Heads.{consume_namespaces, consume_class, begin_checks}
use Access.{update_access}
use Braces.{consume_braces}

pub top : List Block → Option Block
top [] = none
top (b ∷ _) = some b

-- Update
pub update : Text → CleansedLines → ℕ → NestingState → NestingState × List Report
unfolding top
update filename clean_lines linenum s =
    let line = line_at clean_lines.elided linenum in
    let s₁ = update_preprocessor line (record s { previous_stack_top = top s.stack }) in
    let s₂ = record s₁ { stack = count_parentheses line s₁.stack } in
    let (line₃, s₃) = consume_namespaces linenum line s₂ in
    let (line₄, s₄) = consume_class clean_lines linenum line₃ s₃ in
    let s₅ = record s₄ { stack = begin_checks line s₄.stack } in
    let (stack₆, access_reports) = update_access filename linenum line₄ s₅.stack in
    let (s₇, brace_reports) =
      consume_braces filename clean_lines linenum line₄ (record s₅ { stack = stack₆ }) in
    (s₇, access_reports ++ brace_reports)
