-- ===== src/Style/Semicolons.antt =====
-- CheckTrailingSemicolon of tools/scripts/cpplint.py, which reads NOLINT comments of lines further on before
-- it reports.
use jp4agent.Prelude.{
  ℕ, ◌-◌, Bool, false, ◌&&◌, ◌||◌, not, Option, none, some, List, [], ◌∷◌, ltb, if◌then◌else◌, Text,
  codes, mem_text, length, take, drop,
}
use jp4agent.Regex.{Regex, star, group, boundary, line_start, line_end, cls, range, one, either}
use jp4agent.Regex.Notation.{lit, any_of, any, spaces, spaces1, one_of, ◌▹◌, ◌∣∣◌}
use jp4agent.Regex.Find.{Found, match, search_in, matches, searches, group_or}
use jp4agent.Lint.Report.{report}
use jp4agent.Lint.Effects.{Effect, nolint, say}
use jp4agent.Cleanse.Lines.{CleansedLines, line_at}
use jp4agent.Expression.Forward.{Place, close_expression}
use jp4agent.Expression.Backward.{reverse_close_expression}
use jp4agent.Style.Texts.{line_before, from_last}
use jp4agent.Style.Braces.{previous_code}

-- \b([A-Z_][A-Z0-9_]*)\s*$
abbrev macro_pattern : Regex
macro_pattern =
    boundary
    ▹ group 1 (
        cls (either (range b'A' b'Z') (one b'_'))
        ▹ star (cls (either (either (range b'A' b'Z') (range b'0' b'9')) (one b'_'))))
    ▹ spaces
    ▹ line_end

-- The macros behind which a block may end with a semicolon that is none of theirs.
abbrev known_macros : List Text
known_macros =
    codes "TEST"
    ∷ codes "TEST_F"
    ∷ codes "MATCHER"
    ∷ codes "MATCHER_P"
    ∷ codes "TYPED_TEST"
    ∷ codes "EXCLUSIVE_LOCKS_REQUIRED"
    ∷ codes "SHARED_LOCKS_REQUIRED"
    ∷ codes "LOCKS_EXCLUDED"
    ∷ codes "INTERFACE_DEF"
    ∷ []

is_unknown_macro : Text → Bool
is_unknown_macro line_prefix = elim (search_in macro_pattern line_prefix) [
  | none ↦ false
  | some m ↦ not (mem_text (group_or 1 m) known_macros)
]

-- ^(.*\])\s*$, not \boperator\s*\[\s*\]
is_lambda : Text → Bool
is_lambda line_prefix =
    elim (match (line_start ▹ group 1 (any ▹ lit "]") ▹ spaces ▹ line_end) line_prefix) [
      | none ↦ false
      | some m ↦ not (
          searches (boundary ▹ lit "operator" ▹ spaces ▹ lit "[" ▹ spaces ▹ lit "]") (group_or 1 m))
    ]

-- What stands before the bracket shows that the block is no body of a function.
unfoldable pub is_initializer : Text → Bool
unfolding is_unknown_macro is_lambda
is_initializer line_prefix =
    is_unknown_macro line_prefix
    || is_lambda line_prefix
    || searches
        (boundary ▹ one_of ("struct" ∷ "union" ∷ []) ▹ spaces1 ▹ lit "alignas" ▹ spaces ▹ line_end)
        line_prefix
    || searches (boundary ▹ lit "decltype" ▹ line_end) line_prefix
    || searches (spaces1 ▹ lit "=" ▹ spaces ▹ line_end) line_prefix

is_initialized : Option Text → Bool
is_initialized none = false
is_initialized (some prefix) = is_initializer prefix

before_place : Place → Option Text
before_place p = elim p.pos [ none ↦ none | some start ↦ some (take start p.line) ]

-- The line above the bracket ends with ].
is_below_bracket : CleansedLines → Place → Bool
is_below_bracket clean_lines opening =
    ltb 1 opening.linenum
    && searches (lit "]" ▹ spaces ▹ line_end) (line_before clean_lines.elided opening.linenum)

-- The place of the opening bracket whose partner is the last one of the text, which has one by the pattern
-- that it matches.
opening_parenthesis : CleansedLines → ℕ → Text → Place
opening_parenthesis clean_lines linenum before = elim (from_last b')' before) [
  | none ↦ record { line = []; linenum = 0; pos = none }
  | some t ↦ reverse_close_expression clean_lines linenum (length before - length t)
]

-- A brace behind a closing bracket: how much stands before it, if it begins a body.
after_parenthesis : CleansedLines → ℕ → Text → Option ℕ
unfolding before_place is_initialized is_below_bracket opening_parenthesis
after_parenthesis clean_lines linenum before =
    let opening = opening_parenthesis clean_lines linenum before in
    if is_initialized (before_place opening) || is_below_bracket clean_lines opening
    then none
    else some (length before)

length_of_group : Option Found → Option ℕ
length_of_group none = none
length_of_group (some m) = some (length (group_or 1 m))

-- A brace behind `else` or `) const`, or at the start of a line below a statement.
other_body : CleansedLines → ℕ → Text → Option ℕ
unfolding length_of_group
other_body clean_lines linenum line =
    elim (match
      (line_start
        ▹ group 1 (any ▹ (lit "else" ∣∣ lit ")" ▹ spaces ▹ lit "const") ▹ spaces)
        ▹ lit "{")
      line) [
        | some m ↦ some (length (group_or 1 m))
        | none ↦
            if searches (any_of ";{}" ▹ spaces ▹ line_end) (previous_code clean_lines linenum)
            then length_of_group (match (line_start ▹ group 1 spaces ▹ lit "{") line)
            else none
      ]

-- The position of a brace that begins a body.
unfoldable pub body_brace : CleansedLines → ℕ → Option ℕ
unfolding after_parenthesis other_body
body_brace clean_lines linenum =
    let line = line_at clean_lines.elided linenum in
    elim (match (line_start ▹ group 1 (any ▹ lit ")" ▹ spaces) ▹ lit "{") line) [
      | some m ↦ after_parenthesis clean_lines linenum (group_or 1 m)
      | none ↦ other_body clean_lines linenum line
    ]

unfoldable pub semicolon_effects : Text → CleansedLines → ℕ → List Effect
semicolon_effects filename clean_lines end =
    nolint (line_before clean_lines.raw_lines end) (end - 1)
    ∷ nolint (line_at clean_lines.raw_lines end) end
    ∷ say (report filename end "readability/braces" 4 (codes "You don't need a ; after a }"))
    ∷ []

-- CheckTrailingSemicolon
unfoldable pub check_trailing_semicolon : Text → CleansedLines → ℕ → List Effect
unfolding semicolon_effects
check_trailing_semicolon filename clean_lines linenum = elim (body_brace clean_lines linenum) [
  | none ↦ []
  | some pos ↦
      let closed = close_expression clean_lines linenum pos in
      elim closed.pos [
        | none ↦ []
        | some endpos ↦
            if matches (line_start ▹ spaces ▹ lit ";") (drop endpos closed.line)
            then semicolon_effects filename clean_lines closed.linenum
            else []
      ]
]
