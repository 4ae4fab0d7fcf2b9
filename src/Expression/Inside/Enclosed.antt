-- ===== src/Expression/Inside/Enclosed.antt =====
-- `_GetTextInside` of tools/scripts/cpplint.py on balanced punctuation.
use jp4agent.Prelude.{
  ℕ, ◌-◌, ◌≡◌, refl, ap, sym, ◌∙◌, Bool, true, false, ◌&&◌, not, some, [], ◌∷◌, ◌++◌, ◌==◌, Text,
  reverse, arith, Bool-cases, inl, inr, ==_iff, ◌≢◌, get_elem?, is_some,
}
use mathlib.Core.List.{append_assoc, append-nil, reverse_aux}
use jp4agent.Regex.{Regex}
use jp4agent.Regex.Find.{Found, search_in}
use jp4agent.Expression.Inside.{
  matching_punctuation, is_closing_punctuation, inside_from, get_text_inside,
}

-- Neither an opening nor a closing punctuation.
unfoldable pub is_ordinary : ℕ → Bool
is_ordinary c = not (is_some (matching_punctuation c)) && not (is_closing_punctuation c)

-- A text in which every punctuation has its partner.
pub data Enclosed : Text → Type 0 where
  empty : Enclosed []
  ordinary : {s : Text} (c : ℕ) → is_ordinary c ≡ true → Enclosed s → Enclosed (c ∷ s)
  pair :
      {s u : Text} (o q : ℕ)
      → matching_punctuation o ≡ some q
      → Enclosed s
      → Enclosed u
      → Enclosed (o ∷ (s ++ q ∷ u))

abbrev onto : Text → Text → Text
onto [] passed = passed
onto (c ∷ s) passed = onto s (c ∷ passed)

onto-append : (s t passed : Text) → onto (s ++ t) passed ≡ onto t (onto s passed)
onto-append [] t passed = refl
onto-append (c ∷ s) t passed = onto-append s t (c ∷ passed)

reverse-onto : (s passed t : Text) → reverse_aux (onto s passed) t ≡ reverse_aux passed (s ++ t)
reverse-onto [] passed t = refl
reverse-onto (c ∷ s) passed t = reverse-onto s (c ∷ passed) t

from-ordinary :
    (c p : ℕ) (passed text stack : Text)
    → is_closing_punctuation p ≡ true
    → is_ordinary c ≡ true
    → inside_from passed (c ∷ text) (p ∷ stack) ≡ inside_from (c ∷ passed) text (p ∷ stack)
unfolding inside_from is_ordinary is_closing_punctuation matching_punctuation
from-ordinary c p passed text stack closing h = ground arith

opening_stays : (o q : ℕ) → matching_punctuation o ≡ some q → is_closing_punctuation o ≡ false
unfolding is_closing_punctuation matching_punctuation
opening_stays o q h = ground arith

opening-differs :
    (o p q : ℕ)
    → is_closing_punctuation p ≡ true
    → matching_punctuation o ≡ some q
    → (o == p) ≡ false
opening-differs o p q closing h = elim (Bool-cases (o == p)) [
  | inr e ↦ e
  | inl e ↦
      absurd
        (apart (sym (opening_stays o q h) ∙ ap is_closing_punctuation ((==_iff o p).0 e) ∙ closing))
]
  where
    apart : false ≢ true
    apart e = cc

from-open :
    (o q p : ℕ) (passed text stack : Text)
    → is_closing_punctuation p ≡ true
    → matching_punctuation o ≡ some q
    → inside_from passed (o ∷ text) (p ∷ stack) ≡ inside_from (o ∷ passed) text (q ∷ p ∷ stack)
unfolding inside_from
from-open o q p passed text stack closing h =
    rw (opening-differs o p q closing h, opening_stays o q h, h, inside_from) refl

from-close :
    (p : ℕ) (passed text stack : Text)
    → inside_from passed (p ∷ text) (p ∷ stack) ≡ inside_from (p ∷ passed) text stack
unfolding inside_from
from-close p passed text stack = ground arith

matching-closes : (o q : ℕ) → matching_punctuation o ≡ some q → is_closing_punctuation q ≡ true
unfolding matching_punctuation is_closing_punctuation
matching-closes o q h = ground arith

from-Enclosed :
    {s : Text} (p : ℕ) (passed t stack : Text)
    → is_closing_punctuation p ≡ true
    → Enclosed s
    → inside_from passed (s ++ t) (p ∷ stack) ≡ inside_from (onto s passed) t (p ∷ stack)
from-Enclosed p passed t stack closing empty = refl
from-Enclosed p passed t stack closing (ordinary {s} c h n) =
    from-ordinary c p passed (s ++ t) stack closing h
    ∙ from-Enclosed p (c ∷ passed) t stack closing n
from-Enclosed p passed t stack closing (pair {s} {u} o q h n m) =
    from-open o q p passed (s ++ q ∷ u ++ t) stack closing h
    ∙ ap (λ text. inside_from (o ∷ passed) text (q ∷ p ∷ stack)) (append_assoc s (q ∷ u) t)
    ∙ from-Enclosed q (o ∷ passed) (q ∷ (u ++ t)) (p ∷ stack) (matching-closes o q h) n
    ∙ from-close q (onto s (o ∷ passed)) (u ++ t) (p ∷ stack)
    ∙ from-Enclosed p (q ∷ onto s (o ∷ passed)) t stack closing m
    ∙ ap (λ r. inside_from r t (p ∷ stack)) (sym (onto-append s (q ∷ u) (o ∷ passed)))

from_end : (passed text : Text) (q : ℕ) → inside_from (q ∷ passed) text [] ≡ some (reverse passed)
unfolding inside_from
from_end passed text q = refl

-- Behind a match that ends with an opening punctuation, _GetTextInside gives the whole text up to its
-- partner, where that text is balanced.
pub get_text_inside-Enclosed :
    {s : Text} (text : Text) (start_pattern : Regex) (m : Found) (c q : ℕ) (t : Text)
    → search_in start_pattern text ≡ some m
    → get_elem? text (m.end - 1) ≡ some c
    → matching_punctuation c ≡ some q
    → m.rest ≡ s ++ q ∷ t
    → Enclosed s
    → get_text_inside text start_pattern ≡ some s
unfolding get_text_inside
get_text_inside-Enclosed {s} text start_pattern m c q t found last partner rest n =
    rw (found, last, partner, rest, get_text_inside)
      (from-Enclosed q [] (q ∷ t) [] (matching-closes c q partner) n
        ∙ from-close q (onto s []) t []
        ∙ from_end (onto s []) t q
        ∙ ap some (reverse-onto s [] [] ∙ append-nil s))
