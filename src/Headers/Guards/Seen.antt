-- ===== src/Headers/Guards/Seen.antt =====
-- The header guard that CheckForHeaderGuard of tools/scripts/cpplint.py finds in a file.
use jp4agent.Prelude.{
  ℕ, ◌+◌, ◌≡◌, ◌≢◌, refl, ap, ◌∙◌, inl, inr, false, ◌&&◌, Option, none, some, List, [], ◌∷◌,
  if◌then◌else◌, Text, text_eq, codes, words, starts_with, All, arith, Option-cases,
}
use jp4agent.Prelude.Str.Words.{IsNonempty, words-IsNonempty}
use jp4agent.Headers.Guards.{
  Guard, no_guard, is_empty, directive, see_directive, see_line, find_guard,
}

-- The name behind the first directive of this kind.
pub first_named : Text → List Text → Text
first_named key [] = []
first_named key (line ∷ lines) =
    let later = first_named key lines in
    elim (directive line) [ none ↦ later | some d ↦ if text_eq d.0 key then d.1 else later ]

-- The last line that begins so.
pub last_starting : Text → List Text → Option Text
last_starting key [] = none
last_starting key (line ∷ lines) = elim (last_starting key lines) [
  | some l ↦ some l
  | none ↦ if starts_with line key then some line else none
]

abbrev pub or_else : Text → Option Text → Text
or_else s none = s
or_else s (some t) = t

second-IsNonempty :
    (ws : List Text) (d : Text × Text)
    → All IsNonempty ws
    → elim ws [ first ∷ second ∷ _ ↦ some (first, second) | _ ↦ none ] ≡ some d
    → IsNonempty d.1
second-IsNonempty [] d all e = absurd (cc e)
second-IsNonempty (first ∷ []) d all e = absurd (cc e)
second-IsNonempty (first ∷ second ∷ ws) d all e =
    λ h. all.1.0 (ap (λ (x : Text × Text). x.1) (same (first, second) d e) ∙ h)
  where
    same : (c d : Text × Text) → some c ≡ some d → c ≡ d
    same c d e = cc e

directive-IsNonempty : (line : Text) (d : Text × Text) → directive line ≡ some d → IsNonempty d.1
unfolding directive
directive-IsNonempty line d e = second-IsNonempty (words line) d (words-IsNonempty line) e

empty_iff : (s : Text) → s ≢ [] → is_empty s ≡ false
unfolding is_empty
empty_iff [] h = absurd (h refl)
empty_iff (c ∷ s) h = ground arith

-- What the guard gets from its first directive of a kind, where it has none yet.
abbrev filled : Text → Text → Text
filled old new = if is_empty old then new else old

-- What the guard has behind a line.
behind_line : Text → Text → Text → Text
behind_line key line old = elim (directive line) [
  | none ↦ old
  | some d ↦ if is_empty old && text_eq d.0 key then d.1 else old
]

see_line-ifndef :
    (n : ℕ) (line : Text) (g : Guard)
    → (see_line n line g).ifndef ≡ behind_line (codes "#ifndef") line g.ifndef
unfolding see_line see_directive behind_line
see_line-ifndef n line g = elim (Option-cases (directive line)) [
  | inl e ↦ rw (e, see_line, behind_line) (ground arith)
  | inr (d, e) ↦ rw (e, see_line, behind_line) (ground arith)
]

see_line-define :
    (n : ℕ) (line : Text) (g : Guard)
    → (see_line n line g).define ≡ behind_line (codes "#define") line g.define
unfolding see_line see_directive behind_line
see_line-define n line g = elim (Option-cases (directive line)) [
  | inl e ↦ rw (e, see_line, behind_line) (ground arith)
  | inr (d, e) ↦ rw (e, see_line, behind_line) (ground arith)
]

see_line-endif :
    (n : ℕ) (line : Text) (g : Guard)
    → (see_line n line g).endif ≡ (if starts_with line (codes "#endif") then line else g.endif)
unfolding see_line see_directive
see_line-endif n line g = elim (Option-cases (directive line)) [
  | inl e ↦ rw (e, see_line) (ground arith)
  | inr (d, e) ↦ rw (e, see_line) (ground arith)
]

filled-nil : (s : Text) → s ≡ filled s []
unfolding is_empty
filled-nil [] = refl
filled-nil (c ∷ s) = ground arith

filled-first_named :
    (key line old : Text) (lines : List Text)
    → filled (behind_line key line old) (first_named key lines)
      ≡ filled old (first_named key (line ∷ lines))
unfolding behind_line first_named
filled-first_named key line old lines = elim (Option-cases (directive line)) [
  | inl e ↦ rw (e, behind_line, first_named) refl
  | inr (d, e) ↦
      let nonempty = empty_iff d.1 (directive-IsNonempty line d e) in
      rw (e, behind_line, first_named) (ground arith)
]

find_guard-ifndef :
    (n : ℕ) (lines : List Text) (g : Guard)
    → (find_guard n lines g).ifndef ≡ filled g.ifndef (first_named (codes "#ifndef") lines)
unfolding find_guard first_named
find_guard-ifndef n [] g = filled-nil g.ifndef
find_guard-ifndef n (line ∷ lines) g =
    find_guard-ifndef (n + 1) lines (see_line n line g)
    ∙ ap (λ s. filled s (first_named (codes "#ifndef") lines)) (see_line-ifndef n line g)
    ∙ filled-first_named (codes "#ifndef") line g.ifndef lines

find_guard-define :
    (n : ℕ) (lines : List Text) (g : Guard)
    → (find_guard n lines g).define ≡ filled g.define (first_named (codes "#define") lines)
unfolding find_guard first_named
find_guard-define n [] g = filled-nil g.define
find_guard-define n (line ∷ lines) g =
    find_guard-define (n + 1) lines (see_line n line g)
    ∙ ap (λ s. filled s (first_named (codes "#define") lines)) (see_line-define n line g)
    ∙ filled-first_named (codes "#define") line g.define lines

find_guard-endif :
    (n : ℕ) (lines : List Text) (g : Guard)
    → (find_guard n lines g).endif ≡ or_else g.endif (last_starting (codes "#endif") lines)
unfolding find_guard last_starting
find_guard-endif n [] g = refl
find_guard-endif n (line ∷ lines) g =
    find_guard-endif (n + 1) lines (see_line n line g)
    ∙ elim (Option-cases (last_starting (codes "#endif") lines)) [
      | inl e ↦ rw (e, last_starting) (see_line-endif n line g ∙ ground arith)
      | inr (l, e) ↦ rw (e, last_starting) refl
    ]

-- The loop of CheckForHeaderGuard finds the name behind the first #ifndef that has one, the name behind the
-- first #define that has one, and the last line that begins with #endif, and nothing where there is none.
pub find_guard_lem :
    (lines : List Text)
    → ((find_guard 0 lines no_guard).ifndef ≡ first_named (codes "#ifndef") lines)
      × ((find_guard 0 lines no_guard).define ≡ first_named (codes "#define") lines)
      × ((find_guard 0 lines no_guard).endif ≡ or_else [] (last_starting (codes "#endif") lines))
unfolding first_named is_empty
find_guard_lem lines = (
  find_guard-ifndef 0 lines no_guard,
  find_guard-define 0 lines no_guard,
  find_guard-endif 0 lines no_guard,
)
