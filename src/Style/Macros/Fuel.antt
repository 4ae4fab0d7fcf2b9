-- ===== src/Style/Macros/Fuel.antt =====
-- The loop of CheckCheck in tools/scripts/cpplint.py over a comparison ends within its fuel.
use jp4agent.Prelude.{
  ℕ, zero, suc, ◌≤◌, ◌<◌, ◌≡◌, ◌≢◌, refl, ap, ◌∙◌, inl, inr, ◌⊎◌, Bool, true, false, if◌then◌else◌,
  none, some, Option, List, [], ◌∷◌, ◌++◌, ◌||◌, String, Text, All, length, length-drop, take, drop,
  codes, arith, Option-cases, text_eq, mem_text,
}
use jp4agent.Regex.{Place, capture, between, star}
use jp4agent.Regex.Notation.{none_of, lit_codes, one_of, spaces}
use jp4agent.Regex.Find.{Found, found, place_at, match, group_of, group_or}
use jp4agent.Regex.Meaning.Advance.{advances, match_sound, one_shorter, length-between}
use jp4agent.Regex.Meaning.Relation.{Matches}
use jp4agent.Expression.Forward.{
  Scan, found as at, broken, open_at_end, find_end_of_expression_in_line,
}
use jp4agent.Style.Macros.{
  token_pattern, operand_pattern, one_character_pattern, non_relational, Round, give_up, stop, more,
  after_bracket, after_token, read_operand, read_round, split_comparison,
}

-- A literal text that is not empty, and one of some of them, read a character at least.
literal_shorter :
    (s : Text) (p q : Place) → s ≢ [] → Matches (lit_codes s) p q → length q.after < length p.after
literal_shorter [] p q h m = absurd (h refl)
literal_shorter (c ∷ []) p q h m = omega (arith, one_shorter m)
literal_shorter (c ∷ d ∷ s) p q h (t, step, m) =
    omega (arith, one_shorter step, advances (lit_codes (d ∷ s)) t q m)

one_of_shorter :
    (ss : List String) (p q : Place)
    → All (λ s. codes s ≢ []) ss
    → Matches (one_of ss) p q
    → length q.after < length p.after
one_of_shorter [] p q h m = omega (arith, one_shorter m)
one_of_shorter (s ∷ []) p q (h, _) m = literal_shorter (codes s) p q h m
one_of_shorter (s ∷ t ∷ ss) p q (h, all) (inl m) = literal_shorter (codes s) p q h m
one_of_shorter (s ∷ t ∷ ss) p q (h, all) (inr m) = one_of_shorter (t ∷ ss) p q all m

abbrev tokens : List String
tokens =
    "<<" ∷ "<<=" ∷ ">>" ∷ ">>=" ∷ "->*" ∷ "->" ∷ "&&" ∷ "||" ∷ "==" ∷ "!=" ∷ ">=" ∷ ">" ∷ "<=" ∷ "<"
    ∷ "(" ∷ []

cons_nonempty : (c : ℕ) (s : Text) → c ∷ s ≢ []
cons_nonempty c s e = cc

tokens_nonempty : All (λ s. codes s ≢ []) tokens
tokens_nonempty = search cons_nonempty depth 20

token_shorter :
    (line : Text) (q : Place)
    → Matches token_pattern (place_at [] line) q
    → length (group_or 2 (found (place_at [] line) q)) < length line
unfolding place_at capture between found group_or group_of
token_shorter line q
      (
        p,
        (start, at_start),
        (u, blanks, (v, (w, token, first), (x, (y, tail, rest), (ended, same)))),
      ) =
    rw (same ∙ rest) (
      omega (
        arith,
        length-between v y,
        ap (λ z. length z.after) first,
        one_of_shorter tokens u w tokens_nonempty token,
        advances spaces p u blanks,
        ap (λ z. length z.after) at_start,
      ))

operand_shorter :
    (line : Text) (q : Place)
    → Matches operand_pattern (place_at [] line) q
    → length (group_or 2 (found (place_at [] line) q)) < length line
unfolding place_at capture between found group_or group_of
operand_shorter line q
      (
        p,
        (start, at_start),
        (v, (w, (t, step, steps), first), (x, (y, tail, rest), (ended, same))),
      ) =
    rw (same ∙ rest) (
      omega (
        arith,
        length-between v y,
        ap (λ z. length z.after) first,
        advances (star (none_of "-=!<>()&|")) t w steps,
        one_shorter step,
        ap (λ z. length z.after) at_start,
      ))

character_shorter :
    (line : Text) (q : Place)
    → Matches one_character_pattern (place_at [] line) q
    → length (group_or 2 (found (place_at [] line) q)) < length line
unfolding place_at capture between found group_or group_of
character_shorter line q
      (
        p,
        (start, at_start),
        (v, (w, (t, blanks, step), first), (x, (y, tail, rest), (ended, same))),
      ) =
    rw (same ∙ rest) (
      omega (
        arith,
        length-between v y,
        ap (λ z. length z.after) first,
        one_shorter step,
        advances spaces p t blanks,
        ap (λ z. length z.after) at_start,
      ))

shorter-match :
    (line : Text) (m : Found)
    → match token_pattern line ≡ some m
    → length (group_or 2 m) < length line
shorter-match line m h =
    let (q, matched, e) = match_sound token_pattern line m h in rw e (token_shorter line q matched)

operand-match :
    (line : Text) (m : Found)
    → match operand_pattern line ≡ some m
    → length (group_or 2 m) < length line
operand-match line m h =
    let (q, matched, e) = match_sound operand_pattern line m h in
    rw e (operand_shorter line q matched)

character-match :
    (line : Text) (m : Found)
    → match one_character_pattern line ≡ some m
    → length (group_or 2 m) < length line
character-match line m h =
    let (q, matched, e) = match_sound one_character_pattern line m h in
    rw e (character_shorter line q matched)

-- What is left of the expression behind a round.
abbrev Leaves : ℕ → Round → Type 0
Leaves n r = (lhs rest : Text) → r ≡ more lhs rest → length rest ≤ n

more-Leaves : (n : ℕ) (lhs rest : Text) → length rest ≤ n → Leaves n (more lhs rest)
more-Leaves n lhs rest le lhs' rest' e = omega (arith, ap length (same e))
  where
    same : more lhs rest ≡ more lhs' rest' → rest ≡ rest'
    same e = cc

give_up-Leaves : (n : ℕ) → Leaves n give_up
give_up-Leaves n lhs rest e = absurd (cc e)

stop-Leaves : (n : ℕ) (lhs : Text) (o : Option (Text × Text)) → Leaves n (stop lhs o)
stop-Leaves n lhs o lhs' rest e = absurd (cc e)

if-Leaves :
    (n : ℕ) (b : Bool) (r s : Round) → Leaves n r → Leaves n s → Leaves n (if b then r else s)
if-Leaves n true r s h k = h
if-Leaves n false r s h k = k

Scan-cases : (r : Scan) → ((k : ℕ) × (r ≡ at k)) ⊎ (r ≡ broken) ⊎ ((s : Text) × (r ≡ open_at_end s))
Scan-cases (at k) = inl (k, refl)
Scan-cases broken = inr (inl refl)
Scan-cases (open_at_end s) = inr (inr (s, refl))

bracket-Leaves : (lhs rest : Text) → Leaves (length rest) (after_bracket lhs rest)
unfolding after_bracket
bracket-Leaves lhs rest = elim (Scan-cases (find_end_of_expression_in_line rest 0 (b'(' ∷ []))) [
  | inl (k, e) ↦
      rw (e, after_bracket)
        (more-Leaves (length rest) (lhs ++ b'(' ∷ take k rest) (drop k rest)
          (omega (arith, length-drop k rest)))
  | inr (inl e) ↦ rw (e, after_bracket) (give_up-Leaves (length rest))
  | inr (inr (s, e)) ↦ rw (e, after_bracket) (give_up-Leaves (length rest))
]

token-Leaves : (lhs token rest : Text) → Leaves (length rest) (after_token lhs token rest)
unfolding after_token
token-Leaves lhs token rest =
    let n = length rest in
    let last =
      if-Leaves n (mem_text token non_relational) (more (lhs ++ token) rest)
        (stop lhs (some (token, rest))) (more-Leaves n (lhs ++ token) rest (omega arith))
        (stop-Leaves n lhs (some (token, rest))) in
    if-Leaves n (text_eq token (codes "(")) (after_bracket lhs rest) _ (bracket-Leaves lhs rest) (
      if-Leaves n (text_eq token (codes "&&") || text_eq token (codes "||")) give_up _
        (give_up-Leaves n) last)

operand-Leaves : (lhs e : Text) (n : ℕ) → length e ≤ suc n → Leaves n (read_operand lhs e)
unfolding read_operand
operand-Leaves lhs e n le = elim (Option-cases (match operand_pattern e)) [
  | inr (m, h) ↦
      rw (h, read_operand)
        (more-Leaves n (lhs ++ group_or 1 m) (group_or 2 m) (omega (arith, operand-match e m h)))
  | inl h ↦ elim (Option-cases (match one_character_pattern e)) [
    | inr (m, k) ↦
        rw (h, k, read_operand)
          (more-Leaves n (lhs ++ group_or 1 m) (group_or 2 m)
            (omega (arith, character-match e m k)))
    | inl k ↦ rw (h, k, read_operand) (stop-Leaves n lhs none)
  ]
]

-- A round that reads on leaves less than it was given.
round-Leaves : (lhs e : Text) (n : ℕ) → length e ≤ suc n → Leaves n (read_round lhs e)
unfolding read_round
round-Leaves lhs e n le = elim (Option-cases (match token_pattern e)) [
  | inl h ↦ rw (h, read_round) (operand-Leaves lhs e n le)
  | inr (m, h) ↦
      rw (h, read_round)
        (λ lhs' rest same. omega (
          arith,
          shorter-match e m h,
          token-Leaves lhs (group_or 1 m) (group_or 2 m) lhs' rest same,
        ))
]

Round-cases :
    (r : Round)
    → (r ≡ give_up)
      ⊎ ((lhs : Text) × (o : Option (Text × Text)) × (r ≡ stop lhs o))
      ⊎ ((lhs : Text) × (rest : Text) × (r ≡ more lhs rest))
Round-cases give_up = inl refl
Round-cases (stop lhs o) = inr (inl (lhs, o, refl))
Round-cases (more lhs rest) = inr (inr (lhs, rest, refl))

-- The loop of the source over an expression, with what was read before it: it ends with the expression, is
-- left with or without a comparison, and goes round with what is left of the expression.
pub data Runs : Text → Text → Option (Text × Text × Text) → Type 0 where
  at_end : (lhs : Text) → Runs lhs [] none
  gives_up : (lhs e : Text) (c : ℕ) → read_round lhs (c ∷ e) ≡ give_up → Runs lhs (c ∷ e) none
  finds_none :
      (lhs e lhs' : Text) (c : ℕ) → read_round lhs (c ∷ e) ≡ stop lhs' none → Runs lhs (c ∷ e) none
  compares :
      (lhs e lhs' operator rhs : Text) (c : ℕ)
      → read_round lhs (c ∷ e) ≡ stop lhs' (some (operator, rhs))
      → Runs lhs (c ∷ e) (some (lhs', operator, rhs))
  goes_round :
      {result : Option (Text × Text × Text)} (lhs e lhs' rest : Text) (c : ℕ)
      → read_round lhs (c ∷ e) ≡ more lhs' rest
      → Runs lhs' rest result
      → Runs lhs (c ∷ e) result

-- With any fuel of at least the length of the expression, the loop of CheckCheck over it is run to its end,
-- and what it finds is the result.
pub split_comparison-Runs :
    (f : ℕ) (lhs expression : Text)
    → length expression ≤ f
    → Runs lhs expression (split_comparison f lhs expression)
unfolding split_comparison
split_comparison-Runs f lhs [] le = at_end lhs
split_comparison-Runs zero lhs (c ∷ e) le = absurd (omega arith)
split_comparison-Runs (suc f) lhs (c ∷ e) le = elim (Round-cases (read_round lhs (c ∷ e))) [
  | inl h ↦ rw (h, split_comparison) (gives_up lhs e c h)
  | inr (inl (lhs', none, h)) ↦ rw (h, split_comparison) (finds_none lhs e lhs' c h)
  | inr (inl (lhs', some (operator, rhs), h)) ↦
      rw (h, split_comparison) (compares lhs e lhs' operator rhs c h)
  | inr (inr (lhs', rest, h)) ↦
      rw (h, split_comparison)
        (goes_round lhs e lhs' rest c h (
          split_comparison-Runs f lhs' rest
            (omega (arith, round-Leaves lhs (c ∷ e) f le lhs' rest h))))
]
