-- ===== src/Regex.antt =====
-- Python's regular expressions, as far as tools/scripts/cpplint.py uses them: `Match`, `Search` and
-- `ReplaceAll`, and the methods of compiled patterns and of match objects. A pattern is given by its
-- syntax tree; `lit`, `opt`, `plus` and the like name the notation that the source writes.
--
-- The matcher is the backtracking one of the `re` module: alternatives from left to right, a star as
-- long as it can, `*?` as short as it can. `k` is what is to match after the pattern.
-- A round of a star that takes no character is not made. No starred pattern of the source matches the
-- empty text, so that this is never seen. No look-ahead of the source has a group, so that one leaves no
-- captures here.
pub mod Notation
pub mod Find
pub mod Meaning
use jp4agent.Prelude.{
  ℕ, zero, suc, ◌-◌, Bool, true, false, ◌&&◌, ◌||◌, not, Option, none, some, List, [], ◌∷◌, ltb,
  leb, ◌==◌, if◌then◌else◌, Text, length, take, is_space_char,
}

-- `one c` is c, `range a b` is [a-b], `dot` is `.`, `space` is \s, `word` is \w, `digit` is \d; the rest
-- make [...] and [^...].
pub data CharClass : Type 0 where
  one : ℕ → CharClass
  range : ℕ → ℕ → CharClass
  dot space word digit : CharClass
  either : CharClass → CharClass → CharClass
  other : CharClass → CharClass

is_word_char : ℕ → Bool
is_word_char c =
    (leb 97 c && leb c 122) || (leb 65 c && leb c 90) || (leb 48 c && leb c 57) || c == 95

unfoldable pub in_class : CharClass → ℕ → Bool
unfolding is_word_char is_space_char
in_class (one d) c = c == d
in_class (range a b) c = leb a c && leb c b
in_class dot c = not (c == 10)
in_class space c = is_space_char c
in_class word c = is_word_char c
in_class digit c = leb 48 c && leb c 57
in_class (either a b) c = in_class a c || in_class b c
in_class (other a) c = not (in_class a c)

pub data Regex : Type 0 where
  eps : Regex
  cls : CharClass → Regex
  seq alt : Regex → Regex → Regex
  star star_lazy : Regex → Regex
  group : ℕ → Regex → Regex
  -- ^, $, \b, (?=...), (?!...)
  line_start line_end boundary : Regex
  ahead not_ahead : Regex → Regex

-- What a group has matched, and where that begins.
pub record Capture : Type 0 where
  pub index : ℕ
  pub start : ℕ
  pub text : Text

-- A place in the text: what was read, last character first, and what was not. The newest capture is
-- the first.
pub record Place : Type 0 where
  pub before : Text
  pub after : Text
  pub captures : List Capture

abbrev pub Rest : Type 0
Rest = Place → Option Place

head_word : Text → Bool
unfolding is_word_char
head_word [] = false
head_word (c ∷ _) = is_word_char c

-- `$` matches at the end, and before a newline at the end.
pub at_end : Text → Bool
at_end [] = true
at_end (c ∷ []) = c == 10
at_end _ = false

unfoldable pub is_empty : Text → Bool
is_empty [] = true
is_empty _ = false

pub at_boundary : Place → Bool
unfolding head_word
at_boundary p = if head_word p.before then not (head_word p.after) else head_word p.after

step_to : CharClass → Text → Place → Rest → Option Place
step_to c [] p k = none
step_to c (x ∷ s) p k =
    let next = k (record p { before = x ∷ p.before; after = s }) in
    if in_class c x then next else none

-- The characters between two places.
unfoldable pub between : Place → Place → Text
between p q = take (length q.before - length p.before) p.after

unfoldable pub capture : ℕ → Place → Place → Place
unfolding between
capture n p q = record q {
  captures = (record { index = n; start = length p.before; text = between p q }) ∷ q.captures;
}

-- Did `q` get past `p`?
unfoldable pub progress : Place → Place → Bool
progress p q = ltb (length q.after) (length p.after)

-- After a round that has got on, the next.
resume : Rest → Place → Rest
resume next p q = elim (progress p q) [ true ↦ next q | false ↦ none ]

-- A star, over the matcher of its body. The fuel is the number of characters left.
rounds : ℕ → (Rest → Rest) → Rest → Rest
unfolding resume
rounds zero body k p = k p
rounds (suc f) body k p = elim (body (resume (rounds f body k) p) p) [
  | some q ↦ some q
  | none ↦ k p
]

rounds_lazy : ℕ → (Rest → Rest) → Rest → Rest
unfolding resume
rounds_lazy zero body k p = k p
rounds_lazy (suc f) body k p = elim (k p) [
  | some q ↦ some q
  | none ↦ body (resume (rounds_lazy f body k) p) p
]

guarded : Bool → Rest → Rest
guarded b k p = elim b [ true ↦ k p | false ↦ none ]

unfoldable pub run : Regex → Rest → Rest
unfolding step_to rounds rounds_lazy guarded capture progress at_boundary at_end is_empty in_class
run eps k p = k p
run (cls c) k p = step_to c p.after p k
run (seq a b) k p = run a (run b k) p
run (alt a b) k p = elim (run a k p) [ some q ↦ some q | none ↦ run b k p ]
run (star a) k p = rounds (length p.after) (run a) k p
run (star_lazy a) k p = rounds_lazy (length p.after) (run a) k p
run (group n a) k p = run a (λ q. k (capture n p q)) p
run line_start k p = guarded (is_empty p.before) k p
run line_end k p = guarded (at_end p.after) k p
run boundary k p = guarded (at_boundary p) k p
run (ahead a) k p = elim (run a some p) [ none ↦ none | some _ ↦ k p ]
run (not_ahead a) k p = elim (run a some p) [ none ↦ k p | some _ ↦ none ]
