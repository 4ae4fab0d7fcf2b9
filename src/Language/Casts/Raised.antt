-- ===== src/Language/Casts/Raised.antt =====
-- When CheckCasts of tools/scripts/cpplint.py fails at the address of a cast.
use jp4agent.Prelude.{
  ℕ, zero, suc, ◌≤◌, ◌≡◌, ◌≢◌, ◌↔◌, ◌⊎◌, refl, sym, ◌∙◌, Bool, List, [], ◌∷◌, none, some, true,
  Text, arith, Bool-cases, Option-cases, inl, inr, get_elem?, length,
}
use jp4agent.Regex.Find.{Found, match, searches, group_or}
use jp4agent.Lint.Handler.{World}
use jp4agent.Lint.Effects.{raised, run_effect, run_effects}
use jp4agent.Cleanse.Lines.{CleansedLines, line_at}
use jp4agent.Expression.Forward.{Place, close_expression}
use jp4agent.Language.Casts.{
  address_pattern, address_of_cast_pattern, Dereference, index_error, answer, after_template,
  parenthesis_error, address_effects,
}

get_elem?-none {ℓ} : {A : Type ℓ} (xs : List A) (k : ℕ) → (get_elem? xs k ≡ none) ↔ (length xs ≤ k)
get_elem?-none [] k = (λ e. omega arith, λ le. refl)
get_elem?-none (x ∷ xs) zero = (λ e. cc, λ le. absurd (omega arith))
get_elem?-none (x ∷ xs) (suc k) =
    let (to, from) = get_elem?-none xs k in (λ e. omega (arith, to e), λ le. from (omega arith))

some-none : {A : Type 0} {a : A} → some a ≢ none
some-none e = cc

some_inj : (j k : ℕ) → some j ≡ some k → j ≡ k
some_inj j k e = cc

found_inj : (m m' : Found) → some m ≡ some m' → m ≡ m'
found_inj m m' e = cc

Dereference-cases : (d : Dereference) → (d ≡ index_error) ⊎ ((b : Bool) × (d ≡ answer b))
Dereference-cases index_error = inl refl
Dereference-cases (answer b) = inr (b, refl)

-- The arguments of a template close at the end of a line.
abbrev EndsLine : CleansedLines → Place → Type 0
EndsLine cl p = (k : ℕ) × (p.pos ≡ some k) × (length (line_at cl.elided p.linenum) ≤ k)

after_template-EndsLine :
    (cl : CleansedLines) (p : Place) → (after_template cl p ≡ index_error) ↔ EndsLine cl p
unfolding after_template
after_template-EndsLine cl p = elim (Option-cases p.pos) [
  | inl e ↦ (λ h. absurd (ground arith), λ h. absurd (ground arith))
  | inr (k, e) ↦
      let (to, from) = get_elem?-none (line_at cl.elided p.linenum) k in
      elim (Option-cases (get_elem? (line_at cl.elided p.linenum) k)) [
        | inl h ↦ (λ x. (k, e, to h), λ x. rw (e, h, after_template) refl)
        | inr (c, h) ↦ (
          λ x. absurd (ground arith),
          λ (j, same, le).
              absurd (some-none (rw h at (from (omega (arith, some_inj j k (sym same ∙ e), le))))),
        )
      ]
]

-- The cast on the line whose address is taken has a template that ends its line.
abbrev pub IsBadCast : CleansedLines → ℕ → Text → Type 0
IsBadCast cl n line =
    (m : Found) × (match address_of_cast_pattern line ≡ some m)
    × EndsLine cl (close_expression cl n (length (group_or 1 m)))

parenthesis-IsBadCast :
    (cl : CleansedLines) (n : ℕ) (line : Text)
    → (parenthesis_error cl n line ≡ index_error) ↔ IsBadCast cl n line
unfolding parenthesis_error
parenthesis-IsBadCast cl n line = elim (Option-cases (match address_of_cast_pattern line)) [
  | inl e ↦ (λ h. absurd (ground arith), λ h. absurd (ground arith))
  | inr (m, e) ↦
      let (to, from) = after_template-EndsLine cl (close_expression cl n (length (group_or 1 m))) in
      (
        λ h. (m, e, to (rw (e, parenthesis_error) at h)),
        λ (m', same, ends).
            rw (e, parenthesis_error) (from (rw (found_inj m' m (sym same ∙ e)) at ends)),
      )
]

-- The part of CheckCasts on addresses of casts fails with an IndexError exactly on a line that its first
-- pattern finds, with an & before a cast whose template arguments are closed at the end of a line.
pub address_raised_iff :
    (f : Text) (cl : CleansedLines) (n : ℕ) (line : Text) (w : World)
    → (run_effects f (address_effects f cl n line) w ≡ raised w)
      ↔ ((searches address_pattern line ≡ true) × IsBadCast cl n line)
unfolding address_effects run_effects run_effect
address_raised_iff f cl n line w = elim (Bool-cases (searches address_pattern line)) [
  | inl e ↦
      let (to, from) = parenthesis-IsBadCast cl n line in
      elim (Dereference-cases (parenthesis_error cl n line)) [
        | inl h ↦ (λ x. (e, to h), λ x. rw (e, h, address_effects) refl)
        | inr (b, h) ↦ (λ x. absurd (ground arith), λ x. absurd (ground (arith, from x.1)))
      ]
  | inr e ↦ (λ h. absurd (ground arith), λ h. absurd (ground arith))
]
