-- ===== src/Nesting/Template.antt =====
-- NestingState.InTemplateArgumentList of tools/scripts/cpplint.py.
use jp4agent.Prelude.{
  ℕ, zero, suc, ◌+◌, ◌-◌, Bool, true, false, ◌||◌, not, none, some, List, [], ◌∷◌, ltb, leb, ◌==◌,
  if◌then◌else◌, Text, length, drop,
}
use jp4agent.Regex.{Regex, cls, dot, star, group, line_start}
use jp4agent.Regex.Notation.{none_of, ◌▹◌}
use jp4agent.Regex.Find.{match, group_or}
use jp4agent.Cleanse.Lines.{CleansedLines, line_at}
use jp4agent.Expression.Forward.{close_expression}

-- ^[^{};=\[\]\.<>]*(.)
abbrev pub token_pattern : Regex
token_pattern = line_start ▹ star (none_of "{};=[].<>") ▹ group 1 (cls dot)

-- What the loop does next: return, or look at a place.
pub data Look : Type 0 where
  answer : Bool → Look
  at : ℕ → ℕ → Look

is_one_of : ℕ → Text → Bool
is_one_of c [] = false
is_one_of c (d ∷ s) = c == d || is_one_of c s

-- The token found, with `pos` just behind it.
look_at_token : CleansedLines → Text → ℕ → ℕ → ℕ → Look
unfolding is_one_of
look_at_token clean_lines line linenum token pos =
    if is_one_of token (b'{' ∷ b'}' ∷ b';' ∷ [])
    then answer false
    else if is_one_of token (b'>' ∷ b'=' ∷ b'[' ∷ b']' ∷ b'.' ∷ [])
    then answer true
    else if not (token == b'<')
    then (if leb (length line) (pos + 1) then at (linenum + 1) 0 else at linenum (pos + 1))
    else (let closed = close_expression clean_lines linenum (pos - 1) in
        elim closed.pos [ none ↦ answer false | some end_pos ↦ at closed.linenum end_pos ])

first_char : Text → ℕ
first_char [] = 0
first_char (c ∷ _) = c

pub look : CleansedLines → ℕ → ℕ → Look
unfolding look_at_token first_char
look clean_lines linenum pos =
    let line = line_at clean_lines.elided linenum in
    elim (match token_pattern (drop pos line)) [
      | none ↦ at (linenum + 1) 0
      | some m ↦
          look_at_token clean_lines line linenum (first_char (group_or 1 m)) (pos + length m.text)
    ]

-- The loop. Every round moves on in the file, so that the number of lines and characters is enough fuel.
in_template_from : ℕ → CleansedLines → ℕ → ℕ → Bool
in_template_from zero clean_lines linenum pos = false
in_template_from (suc f) clean_lines linenum pos =
    let found = look clean_lines linenum pos in
    elim (ltb linenum clean_lines.num_lines) [
      | false ↦ false
      | true ↦ elim found [
        | answer b ↦ b
        | at linenum' pos' ↦ in_template_from f clean_lines linenum' pos'
      ]
    ]

-- The characters of all lines, and one for the end of each.
size : List Text → ℕ
size [] = 0
size (line ∷ lines) = suc (length line) + size lines

-- InTemplateArgumentList
unfoldable pub in_template_argument_list : CleansedLines → ℕ → ℕ → Bool
unfolding in_template_from look size
in_template_argument_list clean_lines linenum pos =
    in_template_from (suc (size clean_lines.elided)) clean_lines linenum pos
