-- ===== src/Style/Texts.antt =====
-- Slices and searches of texts and lines, as the checks of tools/scripts/cpplint.py write them.
use jp4agent.Prelude.{
  ℕ, zero, suc, ◌+◌, ◌-◌, Bool, false, ◌&&◌, ◌||◌, Option, none, some, List, [], ◌∷◌, ◌++◌, ◌==◌,
  if◌then◌else◌, Text, length, drop, last?, find,
}
use jp4agent.Regex.{Regex, in_class, digit}
use jp4agent.Regex.Find.{searches}
use jp4agent.Cleanse.Lines.{line_at}
use jp4agent.Expression.Forward.{Place}

-- `lines[linenum - 1]`, where the index -1 is that of the last line.
unfoldable pub line_before : List Text → ℕ → Text
line_before lines zero = elim (last? lines) [ none ↦ [] | some line ↦ line ]
line_before lines (suc n) = line_at lines n

-- `s[s.rfind(c):]`, with `none` where c is not in s.
unfoldable pub from_last : ℕ → Text → Option Text
from_last c [] = none
from_last c (x ∷ s) = elim (from_last c s) [
  | some t ↦ some t
  | none ↦ if x == c then some (x ∷ s) else none
]

-- `line[pos:]` of a place, where the position -1 is that of the last character.
unfoldable pub from_place : Place → Text
from_place p = elim p.pos [ none ↦ drop (length p.line - 1) p.line | some pos ↦ drop pos p.line ]

-- `line.find(s, pos)`
unfoldable pub find_from_pos : ℕ → Text → Text → Option ℕ
find_from_pos pos line s = elim (find (drop pos line) s) [ none ↦ none | some k ↦ some (pos + k) ]

unfoldable pub all_digits : Text → Bool
all_digits [] = false
all_digits (c ∷ []) = in_class digit c
all_digits (c ∷ d ∷ s) = in_class digit c && all_digits (d ∷ s)

unfoldable pub concat : List Text → Text
concat [] = []
concat (line ∷ lines) = line ++ concat lines

unfoldable pub any_searches : Regex → List Text → Bool
any_searches r [] = false
any_searches r (line ∷ lines) = searches r line || any_searches r lines

-- `'_' * n`
unfoldable pub underscores : ℕ → Text
underscores zero = []
underscores (suc n) = b'_' ∷ underscores n
