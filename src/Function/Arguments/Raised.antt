-- ===== src/Function/Arguments/Raised.antt =====
-- When Update of `_FunctionArguments` in tools/scripts/cpplint.py fails.
use jp4agent.Prelude.{
  ℕ, ◌≤◌, ◌≡◌, ◌≢◌, ◌↔◌, refl, sym, ◌∙◌, ◌||◌, not, Bool, Bool-cases, Option-cases, inl, inr, true,
  false, none, some, Option, Text, arith, find, codes, length,
}
use jp4agent.Regex.Find.{Found, match, group_or}
use jp4agent.Regex.Notation.{lit, spaces, ◌▹◌}
use jp4agent.Cleanse.Lines.{CleansedLines, line_at}
use jp4agent.Naming.Names.{declarator_pattern, last_word}
use jp4agent.Expression.Forward.{close_expression_at}
use jp4agent.Function.Arguments.{
  FunctionArguments, in_a_function_arg, is_function_name, span, update_arguments,
}

-- The first bracket of the line without comments stands behind the end of the line without strings.
abbrev pub IsBehind : CleansedLines → ℕ → Type 0
IsBehind cl n =
    (k : ℕ) × (find (line_at cl.lines n) (codes "(") ≡ some k) × (length (line_at cl.elided n) ≤ k)

-- An argument list begins on the line, outside the one that is kept.
abbrev pub BeginsList : CleansedLines → ℕ → FunctionArguments → Type 0
BeginsList cl n s =
    (m : Found) × (match (spaces ▹ declarator_pattern ▹ lit "(") (line_at cl.lines n) ≡ some m)
    × (in_a_function_arg s n ≡ false)
    × (is_function_name (last_word (group_or 1 m)) ≡ true)

some_inj : {A : Type 0} (a b : A) → some a ≡ some b → a ≡ b
some_inj a b e = cc

some-none : {A : Type 0} {a : A} → some a ≢ none
some-none e = cc

close_at_iff :
    (cl : CleansedLines) (n k : ℕ)
    → (close_expression_at cl n k ≡ none) ↔ (length (line_at cl.elided n) ≤ k)
unfolding close_expression_at
close_at_iff cl n k = (λ h. ground arith, λ h. ground arith)

-- What is done with the place of the list.
keep_span : CleansedLines → ℕ → FunctionArguments → Text → Option ℕ → Option FunctionArguments
keep_span cl n s name none = some s
keep_span cl n s name (some k) = elim (close_expression_at cl n k) [
  | none ↦ none
  | some p ↦ some (span name n k p s)
]

keep_span-IsBehind :
    (cl : CleansedLines) (n : ℕ) (s : FunctionArguments) (name : Text)
    → (keep_span cl n s name (find (line_at cl.lines n) (codes "(")) ≡ none) ↔ IsBehind cl n
unfolding keep_span
keep_span-IsBehind cl n s name = elim (Option-cases (find (line_at cl.lines n) (codes "("))) [
  | inl e ↦ rw (e, keep_span) (λ h. absurd (some-none h), λ (k, h, le). absurd (some-none (sym h)))
  | inr (k, e) ↦
      let (to, from) = close_at_iff cl n k in
      elim (Option-cases (close_expression_at cl n k)) [
        | inl h ↦ rw (e, h, keep_span) (λ x. (k, refl, to h), λ x. refl)
        | inr (p, h) ↦
            rw (e, h, keep_span)
              (
                λ x. absurd (some-none x),
                λ (j, same, le).
                    absurd (some-none (sym h ∙ from (omega (arith, some_inj k j same, le)))),
              )
      ]
]

update-keep_span :
    (cl : CleansedLines) (n : ℕ) (s : FunctionArguments) (m : Found)
    → match (spaces ▹ declarator_pattern ▹ lit "(") (line_at cl.lines n) ≡ some m
    → in_a_function_arg s n ≡ false
    → is_function_name (last_word (group_or 1 m)) ≡ true
    → update_arguments cl n s
      ≡ keep_span cl n s (last_word (group_or 1 m)) (find (line_at cl.lines n) (codes "("))
unfolding update_arguments keep_span
update-keep_span cl n s m e outside named =
    elim (Option-cases (find (line_at cl.lines n) (codes "("))) [
      | inl h ↦ rw (e, outside, named, h, update_arguments, keep_span) refl
      | inr (k, h) ↦ rw (e, outside, named, h, update_arguments, keep_span) refl
    ]

update_stays :
    (cl : CleansedLines) (n : ℕ) (s : FunctionArguments) (m : Found)
    → match (spaces ▹ declarator_pattern ▹ lit "(") (line_at cl.lines n) ≡ some m
    → (in_a_function_arg s n || not (is_function_name (last_word (group_or 1 m)))) ≡ true
    → update_arguments cl n s ≡ some s
unfolding update_arguments
update_stays cl n s m e stays = rw (e, stays, update_arguments) refl

update_nothing :
    (cl : CleansedLines) (n : ℕ) (s : FunctionArguments)
    → match (spaces ▹ declarator_pattern ▹ lit "(") (line_at cl.lines n) ≡ none
    → update_arguments cl n s ≡ some s
unfolding update_arguments
update_nothing cl n s e = rw (e, update_arguments) refl

stays : (a b : Bool) → (a || not b) ≡ true → a ≡ false → b ≡ true → ⊥
stays a b h ha hb = absurd (ground arith)

goes : (a b : Bool) → (a || not b) ≡ false → (a ≡ false) × (b ≡ true)
goes a b h = (ground arith, ground arith)

-- Update of the argument lines fails with an IndexError exactly if an argument list begins on the line, outside
-- the one that is kept, and its line without strings ends before the first bracket of its line without
-- comments.
pub update_arguments_raised_iff :
    (cl : CleansedLines) (n : ℕ) (s : FunctionArguments)
    → (update_arguments cl n s ≡ none) ↔ (BeginsList cl n s × IsBehind cl n)
update_arguments_raised_iff cl n s =
    elim (Option-cases (match (spaces ▹ declarator_pattern ▹ lit "(") (line_at cl.lines n))) [
      | inl e ↦ (
        λ h. absurd (some-none (sym (update_nothing cl n s e) ∙ h)),
        λ ((m, same, _, _), _). absurd (some-none (sym same ∙ e)),
      )
      | inr (m, e) ↦
          let name = last_word (group_or 1 m) in
          elim (Bool-cases (in_a_function_arg s n || not (is_function_name name))) [
            | inl b ↦ (
              λ h. absurd (some-none (sym (update_stays cl n s m e b) ∙ h)),
              λ ((m', same, outside, named), _).
                  absurd (stays _ _ b outside (rw (some_inj m' m (sym same ∙ e)) at named)),
            )
            | inr b ↦
                let (outside, named) = goes _ _ b in
                let (to, from) = keep_span-IsBehind cl n s name in
                let law = update-keep_span cl n s m e outside named in
                (λ h. ((m, e, outside, named), to (sym law ∙ h)), λ (_, behind). law ∙ from behind)
          ]
    ]
