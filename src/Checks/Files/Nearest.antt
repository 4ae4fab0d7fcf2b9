-- ===== src/Checks/Files/Nearest.antt =====
-- Which line GetPreviousNonBlankLine of tools/scripts/cpplint.py gives.
use jp4agent.Prelude.{
  ℕ, zero, suc, ◌≤◌, ◌<◌, ◌≡◌, refl, inl, inr, true, false, Option, none, some, List, Text, arith,
  Bool-cases, ◌==◌, ==_iff,
}
use jp4agent.Cleanse.Lines.{line_at}
use jp4agent.Checks.Files.{is_blank_line, previous_non_blank_line}

-- All lines from k on and before n are blank.
abbrev BlankBetween : List Text → ℕ → ℕ → Type 0
BlankBetween lines k n = (i : ℕ) → k ≤ i → i < n → is_blank_line (line_at lines i) ≡ true

-- The answer is the nearest line before n that is not blank; with no answer, all of them are blank.
abbrev pub IsNearest : List Text → ℕ → Option (Text × ℕ) → Type 0
IsNearest lines n none = BlankBetween lines 0 n
IsNearest lines n (some (line, k)) =
    (k < n) × (line ≡ line_at lines k) × (is_blank_line line ≡ false) × BlankBetween lines (suc k) n

blank_more :
    (lines : List Text) (k n : ℕ)
    → is_blank_line (line_at lines n) ≡ true
    → BlankBetween lines k n
    → BlankBetween lines k (suc n)
blank_more lines k n e h i ge lt = elim (Bool-cases (i == n)) [
  | inl same ↦ rw ((==_iff i n).0 same) e
  | inr differ ↦ h i ge (ground arith)
]

IsNearest-more :
    (lines : List Text) (n : ℕ) (o : Option (Text × ℕ))
    → is_blank_line (line_at lines n) ≡ true
    → IsNearest lines n o
    → IsNearest lines (suc n) o
IsNearest-more lines n none e h = blank_more lines 0 n e h
IsNearest-more lines n (some (line, k)) e (lt, same, code, between) =
    (omega arith, same, code, blank_more lines (suc k) n e between)

-- GetPreviousNonBlankLine gives the nearest line before the given one that is not blank, and no line only
-- if all lines before it are blank.
pub previous_non_blank_line-IsNearest :
    (lines : List Text) (n : ℕ) → IsNearest lines n (previous_non_blank_line lines n)
unfolding previous_non_blank_line
previous_non_blank_line-IsNearest lines zero = λ i ge lt. absurd (omega arith)
previous_non_blank_line-IsNearest lines (suc n) =
    elim (Bool-cases (is_blank_line (line_at lines n))) [
      | inl e ↦
          rw (e, previous_non_blank_line)
            (IsNearest-more lines n _ e (previous_non_blank_line-IsNearest lines n))
      | inr e ↦
          rw (e, previous_non_blank_line) (omega arith, refl, e, λ i ge lt. absurd (omega arith))
    ]
