-- ===== src/Nesting/Update/Parens.antt =====
-- The parentheses that a line opens and closes, and the inline assembly block that begins or ends with
-- them.
use jp4agent.Prelude.{Bool, ◌&&◌, not, List, [], ◌∷◌, if◌then◌else◌, Text, codes, count}
use jp4agent.Prelude.Int.{ℤ, sub_ℕ, ◌+ℤ◌, equals_ℕ}
use jp4agent.Regex.{Regex, group, line_start}
use jp4agent.Regex.Notation.{lit, any_of, spaces, spaces1, opt, ◌▹◌, ◌∣∣◌}
use jp4agent.Regex.Find.{matches}
use jp4agent.Nesting.Blocks.{Asm, no_asm, inside_asm, end_asm, block_asm, Block}

-- ^\s*(?:asm|_asm|__asm|__asm__)(?:\s+(volatile|__volatile__))?\s*[{(]
abbrev pub asm_pattern : Regex
asm_pattern =
    line_start
    ▹ spaces
    ▹ (lit "asm" ∣∣ lit "_asm" ∣∣ lit "__asm" ∣∣ lit "__asm__")
    ▹ opt (spaces1 ▹ group 1 (lit "volatile" ∣∣ lit "__volatile__"))
    ▹ spaces
    ▹ any_of "{("

outside_asm : Bool → ℤ → Text → Asm
outside_asm changed parentheses line =
    if changed && (equals_ℕ parentheses 1 && matches asm_pattern line) then inside_asm else no_asm

-- The next state of inline assembly, from the number of open parentheses behind the line.
next_asm : Asm → Bool → ℤ → Text → Asm
unfolding outside_asm
next_asm no_asm changed parentheses line = outside_asm changed parentheses line
next_asm end_asm changed parentheses line = outside_asm changed parentheses line
next_asm inside_asm changed parentheses line =
    if equals_ℕ parentheses 0 then end_asm else inside_asm
next_asm block_asm changed parentheses line = block_asm

unfoldable pub count_parentheses : Text → List Block → List Block
unfolding next_asm
count_parentheses line [] = []
count_parentheses line (b ∷ below) =
    let depth_change = sub_ℕ (count line (codes "(")) (count line (codes ")")) in
    let parentheses = b.open_parentheses +ℤ depth_change in
    record b {
      open_parentheses = parentheses;
      inline_asm = next_asm b.inline_asm (not (equals_ℕ depth_change 0)) parentheses line;
    }
    ∷ below
