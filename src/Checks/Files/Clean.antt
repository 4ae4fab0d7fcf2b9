-- ===== src/Checks/Files/Clean.antt =====
-- The files for which CheckForBadCharacters of tools/scripts/cpplint.py reports nothing.
use jp4agent.Prelude.{
  ℕ, ◌+◌, ◌≡◌, ◌≢◌, ◌↔◌, refl, inl, inr, false, List, [], ◌∷◌, Text, All, arith, Bool-cases, ◌==◌,
  ==_iff,
}
use jp4agent.Checks.Files.{has_char, bad_characters_from, check_for_bad_characters}

has_char-false : (c : ℕ) (line : Text) → All (λ d. d ≢ c) line → has_char c line ≡ false
unfolding has_char
has_char-false c [] _ = refl
has_char-false c (d ∷ line) (differ, all) = elim (Bool-cases (d == c)) [
  | inl e ↦ absurd (differ ((==_iff d c).0 e))
  | inr e ↦ rw e (has_char-false c line all)
]

has_char-All : (c : ℕ) (line : Text) → has_char c line ≡ false → All (λ d. d ≢ c) line
unfolding has_char
has_char-All c [] _ = tt
has_char-All c (d ∷ line) h = elim (Bool-cases (d == c)) [
  | inl e ↦ absurd (ground arith)
  | inr e ↦ (λ same. absurd (ground arith), has_char-All c line (rw e at h))
]

-- Neither U+FFFD nor NUL is on the line.
abbrev pub IsClean : Text → Type 0
IsClean line = All (λ c. c ≢ 65533) line × All (λ c. c ≢ 0) line

bad_none :
    (f : Text) (n : ℕ) (lines : List Text) → All IsClean lines → bad_characters_from f n lines ≡ []
unfolding bad_characters_from
bad_none f n [] _ = refl
bad_none f n (line ∷ lines) ((u, z), all) =
    rw (has_char-false 65533 line u, has_char-false 0 line z) (bad_none f (n + 1) lines all)

IsClean-All :
    (f : Text) (n : ℕ) (lines : List Text) → bad_characters_from f n lines ≡ [] → All IsClean lines
unfolding bad_characters_from
IsClean-All f n [] _ = tt
IsClean-All f n (line ∷ lines) h = elim (Bool-cases (has_char 65533 line)) [
  | inl e ↦ absurd (ground arith)
  | inr e ↦ elim (Bool-cases (has_char 0 line)) [
    | inl z ↦ absurd (ground arith)
    | inr z ↦ (
      (has_char-All 65533 line e, has_char-All 0 line z),
      IsClean-All f (n + 1) lines (rw (e, z) at h),
    )
  ]
]

-- CheckForBadCharacters reports nothing exactly if no line of the file has U+FFFD or NUL, wherever in the
-- line it stands.
pub check_for_bad_characters_iff :
    (f : Text) (lines : List Text) → (check_for_bad_characters f lines ≡ []) ↔ All IsClean lines
unfolding check_for_bad_characters
check_for_bad_characters_iff f lines = (IsClean-All f 0 lines, bad_none f 0 lines)
