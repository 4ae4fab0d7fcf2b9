-- ===== src/Expression/Inside.antt =====
-- `_GetTextInside` of tools/scripts/cpplint.py.
pub mod Enclosed
use jp4agent.Prelude.{
  ℕ, ◌-◌, Bool, ◌||◌, Option, none, some, [], ◌∷◌, ◌==◌, if◌then◌else◌, Text, drop, reverse,
  get_elem?,
}
use jp4agent.Regex.{Regex}
use jp4agent.Regex.Find.{search_in}

-- matching_punctuation, which maps an opening to a closing punctuation
unfoldable pub matching_punctuation : ℕ → Option ℕ
matching_punctuation c =
    if c == b'('
    then some b')'
    else if c == b'{'
    then some b'}'
    else if c == b'['
    then some b']'
    else none

-- closing_punctuation
unfoldable pub is_closing_punctuation : ℕ → Bool
is_closing_punctuation c = c == b')' || c == b'}' || c == b']'

-- The loop. What was passed is kept, last character first; the result is all of it but the last closing
-- punctuation. `none` is the None of the source.
pub inside_from : Text → Text → Text → Option Text
unfolding matching_punctuation is_closing_punctuation
inside_from passed text [] = some (reverse (drop 1 passed))
inside_from passed [] (p ∷ stack) = none
inside_from passed (c ∷ text) (p ∷ stack) =
    let closed = inside_from (c ∷ passed) text stack in
    let kept = inside_from (c ∷ passed) text (p ∷ stack) in
    let opened = λ (q : ℕ). inside_from (c ∷ passed) text (q ∷ p ∷ stack) in
    if c == p
    then closed
    else if is_closing_punctuation c
    then none
    else elim (matching_punctuation c) [ some q ↦ opened q | none ↦ kept ]

-- The text behind a match of the pattern, up to the punctuation that closes the last character of the
-- match. The source asserts that the match is not empty and that this character is an opening punctuation;
-- `none` is returned here where it is not. The one pattern that the program gives ends with an opening
-- bracket, so that both hold, and has no ^ or $, so that re.M, with which the source searches, does nothing.
pub get_text_inside : Text → Regex → Option Text
unfolding inside_from matching_punctuation
get_text_inside text start_pattern = elim (search_in start_pattern text) [
  | none ↦ none
  | some m ↦ elim (get_elem? text (m.end - 1)) [
    | none ↦ none
    | some c ↦ elim (matching_punctuation c) [
      | none ↦ none
      | some q ↦ inside_from [] m.rest (q ∷ [])
    ]
  ]
]
