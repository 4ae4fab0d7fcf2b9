-- ===== src/Lint/Handler/Verdict.antt =====
-- When an error is printed, and what printing a list of errors does.
use jp4agent.Prelude.{
  ℕ, ◌≤◌, ◌≡◌, ◌↔◌, ◌⊎◌, inl, inr, Bool, true, false, ◌&&◌, not, List, [], ◌∷◌, arith,
  if◌then◌else◌, Text, codes, starts_with, drop, All, Bool-cases,
}
use jp4agent.Lint.Suppress.{is_error_suppressed_by_nolint}
use jp4agent.Lint.Handler.{World, filter_from, should_print_error}

-- A filter -FOO of a category that begins with FOO, and a filter +FOO of one.
pub drops : Text → Text → Bool
drops c f = starts_with f (codes "-") && starts_with c (drop 1 f)

pub keeps : Text → Text → Bool
keeps c f =
    not (starts_with f (codes "-")) && (starts_with f (codes "+") && starts_with c (drop 1 f))

-- Some filter drops the category, and none behind it keeps it.
abbrev pub DroppedLast : Text → List Text → Type 0
DroppedLast c [] = ⊥
DroppedLast c (f ∷ fs) = ((drops c f ≡ true) × All (λ g. keeps c g ≡ false) fs) ⊎ DroppedLast c fs

abbrev Filtered : Bool → Text → List Text → Type 0
Filtered b c fs = ((b ≡ true) × All (λ g. keeps c g ≡ false) fs) ⊎ DroppedLast c fs

step : Bool → Text → Text → Bool
step b f c =
    if starts_with f (codes "-")
    then (if starts_with c (drop 1 f) then true else b)
    else if starts_with f (codes "+")
    then (if starts_with c (drop 1 f) then false else b)
    else b

step_iff :
    (b : Bool) (f c : Text)
    → (step b f c ≡ true) ↔ ((drops c f ≡ true) ⊎ ((b ≡ true) × (keeps c f ≡ false)))
unfolding step drops keeps
step_iff b f c = ground arith

filter_from→Filtered :
    (b : Bool) (fs : List Text) (c : Text) → filter_from b fs c ≡ true → Filtered b c fs
unfolding filter_from step
filter_from→Filtered b [] c h = inl (h, tt)
filter_from→Filtered b (f ∷ fs) c h = elim (filter_from→Filtered (step b f c) fs c h) [
  | inr later ↦ inr (inr later)
  | inl (on, free) ↦ elim ((step_iff b f c).0 on) [
    | inl here ↦ inr (inl (here, free))
    | inr (before, kept) ↦ inl (before, (kept, free))
  ]
]

Filtered→filter_from :
    (b : Bool) (fs : List Text) (c : Text) → Filtered b c fs → filter_from b fs c ≡ true
unfolding filter_from step
Filtered→filter_from b [] c (inl h) = h.0
Filtered→filter_from b [] c (inr h) = absurd h
Filtered→filter_from b (f ∷ fs) c (inl (before, (kept, free))) =
    Filtered→filter_from (step b f c) fs c (inl ((step_iff b f c).1 (inr (before, kept)), free))
Filtered→filter_from b (f ∷ fs) c (inr (inl (here, free))) =
    Filtered→filter_from (step b f c) fs c (inl ((step_iff b f c).1 (inl here), free))
Filtered→filter_from b (f ∷ fs) c (inr (inr later)) =
    Filtered→filter_from (step b f c) fs c (inr later)

filtered_iff : (fs : List Text) (c : Text) → (filter_from false fs c ≡ true) ↔ DroppedLast c fs
filtered_iff fs c = (
  λ h. elim (filter_from→Filtered false fs c h) [ inl (f, _) ↦ cc | inr d ↦ d ],
  λ d. Filtered→filter_from false fs c (inr d),
)

-- An error is printed exactly if no NOLINT comment suppresses it, its confidence is at least the
-- verbosity, and no filter drops its category with no filter behind that keeps it.
pub should_print_iff :
    (w : World) (c : Text) (confidence linenum : ℕ)
    → (should_print_error w c confidence linenum ≡ true) ↔ (
        (is_error_suppressed_by_nolint w.suppressions c linenum ≡ false)
        × (w.state.verbose_level ≤ confidence)
        × ¬ DroppedLast c w.state.filters)
unfolding should_print_error
should_print_iff w c conf n = (
  λ h. (ground arith, ground arith, λ d. no_drop h ((filtered_iff w.state.filters c).1 d)),
  λ h. passes h,
)
  where
    no_drop : should_print_error w c conf n ≡ true → filter_from false w.state.filters c ≡ true → ⊥
    no_drop h e = ground arith

    passes :
        (is_error_suppressed_by_nolint w.suppressions c n ≡ false)
          × (w.state.verbose_level ≤ conf)
          × ¬ DroppedLast c w.state.filters
        → should_print_error w c conf n ≡ true
    passes (free, level, kept) = elim (Bool-cases (filter_from false w.state.filters c)) [
      | inl e ↦ absurd (kept ((filtered_iff w.state.filters c).0 e))
      | inr e ↦ ground arith
    ]
