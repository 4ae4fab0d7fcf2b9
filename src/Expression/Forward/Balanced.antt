-- ===== src/Expression/Forward/Balanced.antt =====
-- FindEndOfExpressionInLine and CloseExpression of tools/scripts/cpplint.py on balanced brackets.
use jp4agent.Prelude.{
  ℕ, ◌+◌, ◌≡◌, refl, ap, sym, ◌∙◌, Bool, true, false, ◌||◌, not, some, [], ◌∷◌, ◌++◌, ◌==◌, Text,
  length, take, drop, length-reverse, length-take, length-drop, reverse, arith,
}
use mathlib.Core.List.{append_assoc}
use jp4agent.Regex.{run, in_class}
use jp4agent.Regex.Find.{matches, match, match_at, place_at}
use jp4agent.Cleanse.Lines.{CleansedLines, line_at}
use jp4agent.Expression.Forward.{
  close_expression, starts_expression, shift_or_le_pattern, Scan, found, stop, next, is_opening,
  is_closing, is_pair, pop_all, end_statement, pop_or, close_bracket, end_step, scan_end,
  find_end_of_expression_in_line,
}

-- No bracket, and no < or >.
unfoldable pub is_plain : ℕ → Bool
is_plain c = not (is_opening c || is_closing c || c == b'<' || c == b'>')

-- A text in which every bracket has its partner.
pub data Nested : Text → Type 0 where
  empty : Nested []
  plain : {s : Text} (c : ℕ) → is_plain c ≡ true → Nested s → Nested (c ∷ s)
  bracket :
      {s u : Text} (o c : ℕ) → is_pair o c ≡ true → Nested s → Nested u → Nested (o ∷ (s ++ c ∷ u))

step-plain :
    (before : Text) (c x : ℕ) (stack : Text)
    → is_plain c ≡ true
    → (x == b'<') ≡ false
    → end_step before c (x ∷ stack) ≡ next (x ∷ stack)
unfolding end_step is_plain is_opening is_closing pop_all end_statement
step-plain before c x stack h k = ground arith

step-open :
    (before : Text) (o c : ℕ) (stack : Text)
    → is_pair o c ≡ true
    → end_step before o stack ≡ next (o ∷ stack)
unfolding end_step is_pair is_opening
step-open before o c stack h = ground arith

opener-plain : (o c : ℕ) → is_pair o c ≡ true → (o == b'<') ≡ false
unfolding is_pair
opener-plain o c h = ground arith

step-close :
    (before : Text) (o c x : ℕ) (stack : Text)
    → is_pair o c ≡ true
    → end_step before c (o ∷ x ∷ stack) ≡ next (x ∷ stack)
unfolding end_step is_pair is_closing is_opening pop_all pop_or close_bracket
step-close before o c x stack h = ground arith

step_found :
    (before : Text) (o c : ℕ)
    → is_pair o c ≡ true
    → end_step before c (o ∷ []) ≡ stop (found (length before + 1))
unfolding end_step is_pair is_closing is_opening pop_all pop_or close_bracket
step_found before o c h = ground arith

-- What was passed, last character first, with `s` passed as well.
abbrev passed : Text → Text → Text
passed [] before = before
passed (c ∷ s) before = passed s (c ∷ before)

passed-append : (s t before : Text) → passed (s ++ t) before ≡ passed t (passed s before)
passed-append [] t before = refl
passed-append (c ∷ s) t before = passed-append s t (c ∷ before)

length-passed : (s before : Text) → length (passed s before) ≡ length before + length s
length-passed [] before = omega arith
length-passed (c ∷ s) before = omega (arith, length-passed s (c ∷ before))

scan-next :
    (before line stack stack' : Text) (c : ℕ)
    → end_step before c stack ≡ next stack'
    → scan_end before (c ∷ line) stack ≡ scan_end (c ∷ before) line stack'
unfolding scan_end
scan-next before line stack stack' c e = rw (e, scan_end) refl

scan-stop :
    (before line stack : Text) (c : ℕ) (r : Scan)
    → end_step before c stack ≡ stop r
    → scan_end before (c ∷ line) stack ≡ r
unfolding scan_end
scan-stop before line stack c r e = rw (e, scan_end) refl

-- A balanced text is passed over inside an opening bracket.
scan-Nested :
    {s : Text} (x : ℕ) (before t stack : Text)
    → (x == b'<') ≡ false
    → Nested s
    → scan_end before (s ++ t) (x ∷ stack) ≡ scan_end (passed s before) t (x ∷ stack)
scan-Nested x before t stack k empty = refl
scan-Nested x before t stack k (plain {s} c h n) =
    scan-next before (s ++ t) (x ∷ stack) (x ∷ stack) c (step-plain before c x stack h k)
    ∙ scan-Nested x (c ∷ before) t stack k n
scan-Nested x before t stack k (bracket {s} {u} o c h n m) =
    scan-next before (s ++ c ∷ u ++ t) (x ∷ stack) (o ∷ x ∷ stack) o
      (step-open before o c (x ∷ stack) h)
    ∙ ap (λ line. scan_end (o ∷ before) line (o ∷ x ∷ stack)) (append_assoc s (c ∷ u) t)
    ∙ scan-Nested o (o ∷ before) (c ∷ (u ++ t)) (x ∷ stack) (opener-plain o c h) n
    ∙ scan-next (passed s (o ∷ before)) (u ++ t) (o ∷ x ∷ stack) (x ∷ stack) c
        (step-close (passed s (o ∷ before)) o c x stack h)
    ∙ scan-Nested x (c ∷ passed s (o ∷ before)) t stack k m
    ∙ ap (λ b. scan_end b t (x ∷ stack)) (sym (passed-append s (c ∷ u) (o ∷ before)))

scan-balanced :
    {s : Text} (o c : ℕ) (before t : Text)
    → is_pair o c ≡ true
    → Nested s
    → scan_end before (o ∷ (s ++ c ∷ t)) [] ≡ found (length before + length s + 2)
scan-balanced {s} o c before t h n =
    scan-next before (s ++ c ∷ t) [] (o ∷ []) o (step-open before o c [] h)
    ∙ scan-Nested o (o ∷ before) (c ∷ t) [] (opener-plain o c h) n
    ∙ scan-stop (passed s (o ∷ before)) t (o ∷ []) c _ (step_found (passed s (o ∷ before)) o c h)
    ∙ ap found (omega (arith, length-passed s (o ∷ before)))

-- From an opening bracket, the scan of a line finds the place just behind its partner.
find_end-balanced :
    {s : Text} (line : Text) (pos o c : ℕ) (t : Text)
    → drop pos line ≡ o ∷ (s ++ c ∷ t)
    → is_pair o c ≡ true
    → Nested s
    → find_end_of_expression_in_line line pos [] ≡ found (pos + length s + 2)
unfolding find_end_of_expression_in_line
find_end-balanced {s} line pos o c t e h n =
    ap (λ rest. scan_end (reverse (take pos line)) rest []) e
    ∙ scan-balanced o c (reverse (take pos line)) t h n
    ∙ ap (λ k. found (k + length s + 2))
        (length-reverse (take pos line)
          ∙ length-take pos line
          ∙ omega (arith, length-drop pos line, ap length e))

starts-bracket :
    (o c : ℕ) (rest line : Text)
    → line ≡ o ∷ rest
    → is_pair o c ≡ true
    → starts_expression line ≡ true
unfolding starts_expression is_pair
starts-bracket o c rest line e h = rw e (ground arith)

no_shift :
    (o c : ℕ) (rest line : Text)
    → line ≡ o ∷ rest
    → is_pair o c ≡ true
    → matches shift_or_le_pattern line ≡ false
unfolding matches match match_at run in_class place_at is_pair
no_shift o c rest line e h = rw e (ground arith)

-- CloseExpression, from an opening bracket, gives the place just behind its partner, where what is between
-- them on the line is balanced and has no < or >.
pub close_expression-balanced :
    {s : Text} (clean_lines : CleansedLines) (linenum pos o c : ℕ) (t : Text)
    → drop pos (line_at clean_lines.elided linenum) ≡ o ∷ (s ++ c ∷ t)
    → is_pair o c ≡ true
    → Nested s
    → close_expression clean_lines linenum pos ≡ record {
      line = line_at clean_lines.elided linenum;
      linenum = linenum;
      pos = some (pos + length s + 2);
    }
unfolding close_expression
close_expression-balanced {s} clean_lines linenum pos o c t e h n =
    let line = line_at clean_lines.elided linenum in
    rw
      (
        starts-bracket o c (s ++ c ∷ t) (drop pos line) e h,
        no_shift o c (s ++ c ∷ t) (drop pos line) e h,
        find_end-balanced line pos o c t e h n,
      )
      refl
