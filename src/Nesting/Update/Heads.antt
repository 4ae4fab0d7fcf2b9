-- ===== src/Nesting/Update/Heads.antt =====
-- The heads of namespaces and classes on a line.
use jp4agent.Prelude.{
  ℕ, zero, suc, ◌+◌, Bool, true, false, ◌&&◌, not, none, some, List, [], ◌∷◌, if◌then◌else◌, Text,
  codes, find, drop, length,
}
use jp4agent.Prelude.Int.{equals_ℕ}
use jp4agent.Regex.{
  Regex, cls, star, group, line_start, line_end, boundary, word, space, range, either, one,
}
use jp4agent.Regex.Notation.{lit, any, spaces, spaces1, opt, plus, class_of, ◌▹◌, ◌∣∣◌}
use jp4agent.Regex.Find.{match, group_or}
use jp4agent.Cleanse.Lines.{CleansedLines}
use jp4agent.Nesting.Blocks.{Block, NestingState, new_class, new_namespace}
use jp4agent.Nesting.Ends.{check_begin}
use jp4agent.Nesting.Template.{in_template_argument_list}

-- ^\s*namespace\b\s*([:\w]+)?(.*)$
abbrev pub namespace_pattern : Regex
namespace_pattern =
    line_start
    ▹ spaces
    ▹ lit "namespace"
    ▹ boundary
    ▹ spaces
    ▹ opt (group 1 (plus (cls (either (one b':') word))))
    ▹ group 2 any
    ▹ line_end

-- The text behind the first {, if there is one, and whether there is.
unfoldable pub behind_brace : Text → Text × Bool
behind_brace line = elim (find line (codes "{")) [
  | none ↦ (line, false)
  | some i ↦ (drop (i + 1) line, true)
]

-- The loop. Every round drops the word namespace at least from the line, so that its length is enough
-- fuel.
unfoldable pub namespaces_from : ℕ → ℕ → Text → NestingState → Text × NestingState
unfolding behind_brace
namespaces_from zero linenum line s = (line, s)
namespaces_from (suc f) linenum line s = elim (match namespace_pattern line) [
  | none ↦ (line, s)
  | some m ↦
      let (rest, seen) = behind_brace (group_or 2 m) in
      let b = record (new_namespace s.fresh (group_or 1 m) linenum) { seen_open_brace = seen } in
      namespaces_from f linenum rest (record s { stack = b ∷ s.stack; fresh = s.fresh + 1 })
]

unfoldable pub consume_namespaces : ℕ → Text → NestingState → Text × NestingState
unfolding namespaces_from
consume_namespaces linenum line s = namespaces_from (length line + 1) linenum line s

-- ^(\s*(?:template\s*<[\w\s<>,:]*>\s*)?(class|struct)\s+(?:[A-Z_]+\s+)*(\w+(?:::\w+)*))(.*)$
abbrev class_pattern : Regex
class_pattern =
    line_start
    ▹ group 1 (
        spaces
        ▹ opt (
            lit "template"
            ▹ spaces
            ▹ lit "<"
            ▹ star (cls (either word (either space (class_of (codes "<>,:")))))
            ▹ lit ">"
            ▹ spaces)
        ▹ group 2 (lit "class" ∣∣ lit "struct")
        ▹ spaces1
        ▹ star (plus (cls (either (range b'A' b'Z') (one b'_'))) ▹ spaces1)
        ▹ group 3 (plus (cls word) ▹ star (lit "::" ▹ plus (cls word))))
    ▹ group 4 any
    ▹ line_end

-- `not self.stack or self.stack[-1].open_parentheses == 0`
no_open_parentheses : List Block → Bool
no_open_parentheses [] = true
no_open_parentheses (b ∷ _) = equals_ℕ b.open_parentheses 0

unfoldable pub consume_class : CleansedLines → ℕ → Text → NestingState → Text × NestingState
unfolding no_open_parentheses
consume_class clean_lines linenum line s = elim (match class_pattern line) [
  | none ↦ (line, s)
  | some m ↦
      if no_open_parentheses s.stack
        && not (in_template_argument_list clean_lines linenum (length (group_or 1 m)))
      then (
        group_or 4 m,
        record s {
          stack = new_class s.fresh (group_or 3 m) (group_or 2 m) clean_lines linenum ∷ s.stack;
          fresh = s.fresh + 1;
        },
      )
      else (line, s)
]

-- CheckBegin of the innermost block, if its opening brace was not seen.
unfoldable pub begin_checks : Text → List Block → List Block
begin_checks line [] = []
begin_checks line (b ∷ below) = (if not b.seen_open_brace then check_begin b line else b) ∷ below
