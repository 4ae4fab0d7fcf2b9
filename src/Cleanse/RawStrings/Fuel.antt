-- ===== src/Cleanse/RawStrings/Fuel.antt =====
-- The loop over the raw strings of a line in CleanseRawStrings of tools/scripts/cpplint.py ends within its
-- fuel.
use jp4agent.Prelude.{
  ℕ, zero, suc, ◌+◌, ◌≤◌, ◌<◌, ◌≡◌, ◌≢◌, refl, ap, ◌∙◌, inl, inr, ◌⊎◌, some, none, [], ◌∷◌, ◌++◌,
  Text, length, length-drop, drop, find, codes, arith, Option-cases, Bool-cases, length-append,
}
use jp4agent.Regex.{Regex, star, star_lazy, Place, capture, between, cls, dot, other, either, space}
use jp4agent.Regex.Notation.{lit, class_of, ◌∣∣◌}
use jp4agent.Regex.Find.{Found, found, place_at, match, matches, group_or}
use jp4agent.Regex.Meaning.Advance.{
  advances, match_sound, one_shorter, length-between, between_size, step_captures, rounds_captures,
  three_groups,
}
use jp4agent.Regex.Meaning.Relation.{Matches}
use jp4agent.Cleanse.RawStrings.{
  raw_string_pattern, comment_before_pattern, resume_after, Cut, Scan, no_raw_string, ended,
  goes_on, raw_string_at, scan_line, cut_raw_strings,
}

-- R|u8R|uR|UR|LR
abbrev prefix_pattern : Regex
prefix_pattern = lit "R" ∣∣ lit "u8R" ∣∣ lit "uR" ∣∣ lit "UR" ∣∣ lit "LR"

abbrev Reads : Place → Place → Type 0
Reads p q = (length q.after < length p.after) × (q.captures ≡ p.captures)

prefix-Reads : (p q : Place) → Matches prefix_pattern p q → Reads p q
prefix-Reads p q (inl a) = (omega (arith, one_shorter a), step_captures a)
prefix-Reads p q (inr (inl (t, a, (u, b, c)))) = (
  omega (arith, one_shorter a, one_shorter b, one_shorter c),
  step_captures c ∙ step_captures b ∙ step_captures a,
)
prefix-Reads p q (inr (inr (inl (t, a, b)))) =
    (omega (arith, one_shorter a, one_shorter b), step_captures b ∙ step_captures a)
prefix-Reads p q (inr (inr (inr (inl (t, a, b))))) =
    (omega (arith, one_shorter a, one_shorter b), step_captures b ∙ step_captures a)
prefix-Reads p q (inr (inr (inr (inr (t, a, b))))) =
    (omega (arith, one_shorter a, one_shorter b), step_captures b ∙ step_captures a)

raw_parts :
    (line : Text) (q : Place)
    → Matches raw_string_pattern (place_at [] line) q
    → length (group_or 1 (found (place_at [] line) q))
        + (3 + length (group_or 3 (found (place_at [] line) q)))
      ≤ length line
unfolding place_at capture found
raw_parts line q
      (
        p,
        (start, at_start),
        (
          u,
          (w, lazy, first),
          (
            b,
            (bounded, at_b),
            (
              c,
              prefix,
              (
                d,
                quote,
                (v, (w', delimiter, second), (e, paren, (x, (y, tail, third), (ends, same)))),
              ),
            ),
          ),
        ),
      ) =
    let (prefix_shorter, prefix_same) = prefix-Reads b c prefix in
    let captured =
      ap (λ z. z.captures) (same ∙ third)
      ∙ ap (◌∷◌ (record { index = 3; start = length e.before; text = between e y })) (
          rounds_captures tail
          ∙ step_captures paren
          ∙ ap (λ z. z.captures) second
          ∙ ap (◌∷◌ (record { index = 2; start = length d.before; text = between d w' })) (
              rounds_captures delimiter
              ∙ step_captures quote
              ∙ prefix_same
              ∙ ap (λ z. z.captures) (at_b ∙ first))) in
    let (third_text, first_text) =
      three_groups (found (place_at [] line) q) (length e.before) (length d.before)
        (length p.before) (between e y) (between d w') (between p w) w.captures captured in
    rw (third_text, first_text)
      (omega (
        arith,
        length-between e y,
        one_shorter paren,
        ap (λ z. length z.after) second,
        advances (star (cls (other (either space (class_of (codes "\\()")))))) d w' delimiter,
        one_shorter quote,
        prefix_shorter,
        ap (λ z. length z.after) at_b,
        ap (λ z. length z.after) first,
        between_size (star_lazy (cls dot)) p w lazy,
        ap (λ z. length z.after) at_start,
      ))

raw-match :
    (line : Text) (m : Found)
    → match raw_string_pattern line ≡ some m
    → length (group_or 1 m) + (3 + length (group_or 3 m)) ≤ length line
raw-match line m h =
    let (q, matched, e) = match_sound raw_string_pattern line m h in rw e (raw_parts line q matched)

ended-injective : {a b : Text} → ended a ≡ ended b → a ≡ b
ended-injective e = cc

goes_on-ended : {a d b : Text} → goes_on a d ≢ ended b
goes_on-ended e = cc

nothing-ended : {b : Text} → no_raw_string ≢ ended b
nothing-ended e = cc

resume-shorter :
    (before line name : Text) (end n : ℕ)
    → length before + (3 + length line) ≤ n
    → length (resume_after before line (codes ")" ++ (name ++ codes "\"")) end) < n
unfolding resume_after
resume-shorter before line name end n h =
    let k = end + length (codes ")" ++ (name ++ codes "\"")) in
    omega (
      arith,
      length-append before (codes "\"\"" ++ drop k line),
      length-drop k line,
      length-append name (codes "\""),
    )

raw-shorter :
    (line rest : Text) (m : Found)
    → match raw_string_pattern line ≡ some m
    → raw_string_at m ≡ ended rest
    → length rest < length line
unfolding raw_string_at
raw-shorter line rest m e h =
    let delimiter = codes ")" ++ (group_or 2 m ++ codes "\"") in
    elim (Option-cases (find (group_or 3 m) delimiter)) [
      | inl n ↦ absurd (goes_on-ended (rw (n, raw_string_at) at h))
      | inr (end, n) ↦
          let same = ended-injective (rw (n, raw_string_at) at h) in
          omega (
            arith,
            ap length same,
            resume-shorter (group_or 1 m) (group_or 3 m) (group_or 2 m) end (length line)
                (raw-match line m e),
          )
    ]

-- A line whose raw string ends on it leaves less than it was.
scan-shorter : (line rest : Text) → scan_line line ≡ ended rest → length rest < length line
unfolding scan_line
scan-shorter line rest h = elim (Option-cases (match raw_string_pattern line)) [
  | inl e ↦ absurd (nothing-ended (rw (e, scan_line) at h))
  | inr (m, e) ↦ elim (Bool-cases (matches comment_before_pattern (group_or 1 m))) [
    | inl f ↦ absurd (nothing-ended (rw (e, f, scan_line) at h))
    | inr f ↦ raw-shorter line rest m e (rw (e, f, scan_line) at h)
  ]
]

Scan-cases :
    (x : Scan)
    → (x ≡ no_raw_string)
      ⊎ ((rest : Text) × (x ≡ ended rest))
      ⊎ ((rest : Text) × (delimiter : Text) × (x ≡ goes_on rest delimiter))
Scan-cases no_raw_string = inl refl
Scan-cases (ended rest) = inr (inl (rest, refl))
Scan-cases (goes_on rest delimiter) = inr (inr (rest, delimiter, refl))

-- The loop of the source over the raw strings of a line: it is left where none begins or where one goes on in
-- the next line, and goes round with what is left of the line where one ends on it.
pub data Runs : Text → Cut → Type 0 where
  leaves :
      (line : Text)
      → scan_line line ≡ no_raw_string
      → Runs line (record { line = line; delimiter = none })
  enters :
      (line rest delimiter : Text)
      → scan_line line ≡ goes_on rest delimiter
      → Runs line (record { line = rest; delimiter = some delimiter })
  goes_round :
      {cut : Cut} (line rest : Text) → scan_line line ≡ ended rest → Runs rest cut → Runs line cut

-- With any fuel above the length of the line, the loop over its raw strings is run to its end, and what it
-- leaves is the result.
pub cut_raw_strings-Runs :
    (f : ℕ) (line : Text) → length line < f → Runs line (cut_raw_strings f line)
unfolding cut_raw_strings
cut_raw_strings-Runs zero line lt = absurd (omega arith)
cut_raw_strings-Runs (suc f) line lt = elim (Scan-cases (scan_line line)) [
  | inl e ↦ rw (e, cut_raw_strings) (leaves line e)
  | inr (inl (rest, e)) ↦
      let shorter = scan-shorter line rest e in
      rw (e, cut_raw_strings) (goes_round line rest e (cut_raw_strings-Runs f rest (omega arith)))
  | inr (inr (rest, delimiter, e)) ↦ rw (e, cut_raw_strings) (enters line rest delimiter e)
]
