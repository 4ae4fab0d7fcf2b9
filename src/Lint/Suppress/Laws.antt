-- ===== src/Lint/Suppress/Laws.antt =====
-- Which errors a NOLINT comment suppresses.
use jp4agent.Prelude.{
  ℕ, ◌+◌, Bool, true, ◌||◌, ◌&&◌, Option, none, some, if◌then◌else◌, is_some, Text, codes, text_eq,
  mem_text, starts_with, ends_with,
}
use jp4agent.Regex.Find.{Found, group_of}
use jp4agent.Lint.Categories.{error_categories}
use jp4agent.Lint.Suppress.{inside}

-- Does NOLINT, with this text in brackets behind it, name the category?
pub covers : Option Text → Text → Bool
covers none c = true
covers (some t) c =
    text_eq t (codes "(*)")
    || (starts_with t (codes "(")
        && ends_with t (codes ")")
        && mem_text (inside t) error_categories
        && text_eq c (inside t))

-- The line that a NOLINT comment speaks of: its own, or the next after NOLINTNEXTLINE.
pub nolint_line : Found → ℕ → ℕ
nolint_line m linenum = if is_some (group_of 1 m) then linenum + 1 else linenum
