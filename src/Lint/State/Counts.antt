-- ===== src/Lint/State/Counts.antt =====
-- The two counts of errors agree.
use jp4agent.Prelude.{
  ℕ, ◌+◌, ◌≡◌, refl, Bool, true, List, [], ◌∷◌, arith, if◌then◌else◌, Text, codes, text_eq,
  text_eq_iff, mem_text,
}
use jp4agent.Lint.State.{LintState, bump, top_level, increment_error_count, reset_error_counts}

-- The sum of the counts of all categories.
unfoldable pub total : List (Text × ℕ) → ℕ
total [] = 0
total ((c, n) ∷ rest) = n + total rest

-- The count of one category, 0 where the dictionary has none.
count_of : Text → List (Text × ℕ) → ℕ
count_of category [] = 0
count_of category ((c, n) ∷ rest) = if text_eq c category then n else count_of category rest

total-bump :
    (category : Text) (counts : List (Text × ℕ)) → total (bump category counts) ≡ total counts + 1
unfolding total bump
total-bump category [] = refl
total-bump category ((c, n) ∷ rest) = ground (arith, total-bump category rest)

-- Is the error count kept by category?
pub counts_categories : LintState → Bool
counts_categories s = mem_text s.counting (codes "toplevel" ∷ codes "detailed" ∷ [])

pub record IsCounted (s : LintState) : Type 0 where
  pub sums : counts_categories s ≡ true → total s.errors_by_category ≡ s.error_count

reset-IsCounted : (s : LintState) → IsCounted (reset_error_counts s)
unfolding reset_error_counts total
reset-IsCounted s = record { sums = λ h. refl }

pub increment-IsCounted :
    (category : Text) (s : LintState) → IsCounted s → IsCounted (increment_error_count category s)
unfolding increment_error_count counts_categories
increment-IsCounted category s h = record {
  sums = λ b. ground (
    arith,
    total-bump (top_level category) s.errors_by_category,
    total-bump category s.errors_by_category,
  );
}

-- One more error is one more of its category, or of the top level of it, and of no other.
count_of-bump :
    (category other : Text) (counts : List (Text × ℕ))
    → count_of other (bump category counts)
      ≡ (if text_eq category other then count_of other counts + 1 else count_of other counts)
unfolding count_of bump
count_of-bump category other [] = ground (arith)
count_of-bump category other ((c, n) ∷ rest) = ground (
  arith,
  count_of-bump category other rest,
  text_eq_iff c category,
  text_eq_iff c other,
  text_eq_iff category other,
)
